-- ===== src/HttpAdapter/View.antt =====
-- The snapshot that the adapter publishes for a response, or for none (`createSnapshot` of
-- frontend/src/adapters/HttpAdapter.ts).
pub mod Controls
pub mod Channels
pub mod Restored
use Prim.Native.String.{String}
use ingestion_lab_loadgen.SimulationAdapter.Machine.{read_batch_size, requested_tps}
use ingestion_lab_loadgen.Prelude.{Option, if◌then◌else◌, is_some, none, some, ℕ, ◌&&◌}
use ingestion_lab_loadgen.HttpAdapter.View.Channels.{reader_channel_view, sender_channel_view}
use ingestion_lab_loadgen.HttpAdapter.View.Controls.{
  is_connected, mode_when, read_batch_size_control, sender_control, throttler_requested_tps_control,
  unavailable_control,
}
use ingestion_lab_loadgen.HttpAdapter.Wire.{WireSnapshot}
use ingestion_lab_loadgen.Loadgen.{
  AdapterKind, ConnectionState, HttpSnapshot, InstalledControlSnapshot, LoadgenTelemetrySnapshot,
  ReaderSnapshot, RunState, SelectableId, SenderSnapshot, TargetSnapshot, ThrottlerSnapshot,
  disconnected, idle, reader, sender, target, throttler,
}

abbrev unavailable_reason : String
unavailable_reason = "Недоступно в HTTP snapshot mode"

-- `wire?.field ?? fallback`
abbrev pub field_or {ℓ} : {A : Type ℓ} → Option WireSnapshot → (WireSnapshot → A) → A → A
field_or none field fallback = fallback
field_or (some wire) field fallback = field wire

abbrev pub reader_view : Option WireSnapshot → ConnectionState → RunState → ReaderSnapshot
reader_view wire link run_state = record {
  id = reader;
  workers =
      sender_control (field_or wire (λ w. some w.reader.workers) none)
        (field_or wire (λ w. w.config.reader_workers) none) link;
  live_workers = field_or wire (λ w. w.reader.live_workers) 0;
  idle_workers = field_or wire (λ w. w.reader.idle_workers) 0;
  reading_workers = field_or wire (λ w. w.reader.reading_workers) 0;
  blocked_workers = field_or wire (λ w. w.reader.blocked_workers) 0;
  draining_workers = field_or wire (λ w. w.reader.draining_workers) 0;
  draining_idle_workers = field_or wire (λ w. w.reader.draining_idle_workers) 0;
  draining_reading_workers = field_or wire (λ w. w.reader.draining_reading_workers) 0;
  draining_blocked_workers = field_or wire (λ w. w.reader.draining_blocked_workers) 0;
  read_batch_size =
      read_batch_size_control (field_or wire (λ w. some w.reader.read_batch_size) none)
        (field_or wire (λ w. some w.config.reader_read_batch_size) none) link run_state;
  read_tps = field_or wire (λ w. some w.reader.read_tps) none;
  configured_capacity_tps = none;
  limitation_reason = none;
  rows_read = field_or wire (λ w. some w.reader.rows_read) none;
  source_directory = field_or wire (λ w. some w.reader.source_directory) none;
  source_error = field_or wire (λ w. w.reader.source_error) none;
  state = run_state;
}

abbrev pub installed_view : Option WireSnapshot → ConnectionState → InstalledControlSnapshot
installed_view wire link =
    let writable = is_connected link && is_some wire in
    record {
      applied = field_or wire (λ w. some w.throttler.installed) none;
      pending = none;
      apply_mode = mode_when writable;
      writable = writable;
      unavailable_reason = if writable then none else some unavailable_reason;
    }

abbrev pub throttler_view : Option WireSnapshot → ConnectionState → RunState → ThrottlerSnapshot
throttler_view wire link run_state = record {
  id = throttler;
  requested_tps =
      throttler_requested_tps_control (field_or wire (λ w. some w.throttler.requested_tps) none)
        (field_or wire (λ w. some w.config.throttler_requested_tps) none) link;
  installed = installed_view wire link;
  admitted_tps = field_or wire (λ w. some w.throttler.admitted_tps) none;
  limited_ms = none;
  state = run_state;
}

abbrev pub sender_view : Option WireSnapshot → ConnectionState → RunState → SenderSnapshot
sender_view wire link run_state = record {
  id = sender;
  workers =
      sender_control (field_or wire (λ w. some w.sender.workers) none)
        (field_or wire (λ w. some w.config.sender_workers) none) link;
  live_workers = field_or wire (λ w. w.sender.live_workers) 0;
  idle_workers = field_or wire (λ w. w.sender.idle_workers) 0;
  in_flight_workers = field_or wire (λ w. w.sender.in_flight_workers) 0;
  backoff_workers = field_or wire (λ w. w.sender.backoff_workers) 0;
  draining_workers = field_or wire (λ w. w.sender.draining_workers) 0;
  draining_idle_workers = field_or wire (λ w. w.sender.draining_idle_workers) 0;
  draining_in_flight_workers = field_or wire (λ w. w.sender.draining_in_flight_workers) 0;
  draining_backoff_workers = field_or wire (λ w. w.sender.draining_backoff_workers) 0;
  timeout_ms = unavailable_control "ms";
  retry_policy = none;
  attempted_tps = none;
  retry_attempted_tps = none;
  terminal_failed_tps = none;
  in_flight_requests = none;
  attempts_started_total = 0;
  retry_attempts_started_total = 0;
  successful_responses = none;
  failed_responses = none;
  retries = none;
  timeouts_total = 0;
  terminal_failed_batches_total = 0;
  terminal_failed_transactions_total = 0;
  ambiguous_timeout_transactions_total = 0;
  duplicate_risk_transactions_total = 0;
  ambiguous_terminal_transactions_total = 0;
  state = run_state;
}

abbrev pub http_view : HttpSnapshot
http_view = record {
  id = SelectableId.http;
  connection_state = disconnected;
  status_code = none;
  last_outcome = none;
  throughput_tps = none;
  in_flight_requests = none;
  requests_started_total = 0;
  requests_completed_total = 0;
  requests_succeeded_total = 0;
  requests_failed_total = 0;
  requests_timed_out_total = 0;
  network_errors_total = 0;
  latency_p95_ms = none;
}

abbrev pub target_view : TargetSnapshot
target_view = record {
  id = target;
  endpoint = none;
  accepted_tps = none;
  rejected_tps = none;
  latency_p95_ms = none;
  http200_responses = none;
  http503_responses = none;
  connection_state = disconnected;
}

abbrev pub create_snapshot : ℕ → ConnectionState → Option WireSnapshot → LoadgenTelemetrySnapshot
create_snapshot revision link wire =
    let run_state = field_or wire (λ w. w.run.state) idle in
    record {
      revision = revision;
      adapter_kind = AdapterKind.http;
      connection_state = link;
      run_state = run_state;
      elapsed_ms = field_or wire (λ w. w.run.elapsed_ms) 0;
      total_transactions = field_or wire (λ w. w.run.total_transactions) 0;
      config = field_or wire (λ w. some w.config) none;
      reader = reader_view wire link run_state;
      throttler = throttler_view wire link run_state;
      reader_channel = reader_channel_view wire link run_state;
      sender_channel = sender_channel_view wire link run_state;
      sender = sender_view wire link run_state;
      http = http_view;
      target = target_view;
    }
