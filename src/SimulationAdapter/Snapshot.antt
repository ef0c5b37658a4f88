-- ===== src/SimulationAdapter/Snapshot.antt =====
-- The snapshot that the simulation adapter publishes: `freezeSnapshot` and `freezeChannelSnapshot` of
-- frontend/src/adapters/SimulationAdapter.ts. All the numbers that the source rounds are whole here.
use ingestion_lab_loadgen.Prelude.{
  ℕ, ◌+◌, Bool, true, false, ◌&&◌, not, Option, none, some, ltb, ◌==◌, if◌then◌else◌,
}
use ingestion_lab_loadgen.Simulation.Types.{SimulationConfig}
use ingestion_lab_loadgen.Simulation.Retry.{
  retry_max_attempts, retry_backoff_base_ms, retry_backoff_multiplier, retryable_status_codes,
}
use ingestion_lab_loadgen.Simulation.State.{Simulation}
use ingestion_lab_loadgen.Simulation.Telemetry.{ChannelTelemetry, SimulationTelemetry, telemetry}
use ingestion_lab_loadgen.Loadgen.{
  RunState, idle, running, paused, faulted, ActorId, ChannelId, SelectableId, reader_to_throttler,
  throttler_to_sender, reader, throttler, sender, target, connected, immediate,
  downstream_backpressure, RetryPolicySnapshot, ReaderSnapshot, ThrottlerSnapshot,
  ChannelTelemetrySnapshot, SenderSnapshot, HttpSnapshot, TargetSnapshot, LoadgenTelemetrySnapshot,
}
use ingestion_lab_loadgen.SimulationAdapter.Ranges.{
  NumericRange, control_ranges, numeric_control, capacity_control,
}
use ingestion_lab_loadgen.Loadgen.{AdapterKind}
use ingestion_lab_loadgen.Loadgen.{whole}

abbrev pub retry_policy : RetryPolicySnapshot
retry_policy = record {
  max_attempts = retry_max_attempts;
  backoff_base_ms = retry_backoff_base_ms;
  backoff_multiplier = retry_backoff_multiplier;
  jitter_percent = 20;
  retryable_status_codes = retryable_status_codes;
  retry_timeouts = true;
}

abbrev pub is_running : RunState → Bool
is_running running = true
is_running idle = false
is_running paused = false
is_running faulted = false

abbrev pub is_idle : RunState → Bool
is_idle idle = true
is_idle running = false
is_idle paused = false
is_idle faulted = false

abbrev pub is_paused : RunState → Bool
is_paused paused = true
is_paused idle = false
is_paused running = false
is_paused faulted = false

abbrev counted_if : Bool → ℕ → ℕ
counted_if test n = if test then n else 0

freeze_channel_snapshot :
    ChannelTelemetry → ChannelId → ActorId → ActorId → NumericRange → ChannelTelemetrySnapshot
freeze_channel_snapshot channel id from to range = record {
  id = id;
  from = from;
  to = to;
  capacity = capacity_control channel.capacity range;
  sent_batches_total = channel.sent_batches_total;
  sent_transactions_total = channel.sent_transactions_total;
  received_batches_total = channel.received_batches_total;
  received_transactions_total = channel.received_transactions_total;
  depth_batches = some channel.depth_batches;
  buffered_transactions = some channel.buffered_transactions;
  handoff_batches = channel.handoff_batches;
  handoff_batches_total = channel.handoff_batches_total;
  blocked_senders = channel.blocked_senders;
  oldest_blocked_sender_ms = channel.oldest_blocked_sender_ms;
  input_batches_per_second = whole channel.input_batches_per_second;
  output_batches_per_second = whole channel.output_batches_per_second;
  input_transactions_per_second = whole channel.input_transactions_per_second;
  output_transactions_per_second = whole channel.output_transactions_per_second;
  input_tps = some (whole channel.input_transactions_per_second);
  output_tps = some (whole channel.output_transactions_per_second);
  throughput_tps = some (whole channel.output_transactions_per_second);
  blocked_ms = some channel.blocked_ms_total;
  trend = channel.trend;
}

freeze_reader : RunState → SimulationConfig → SimulationTelemetry → ReaderSnapshot
freeze_reader run_state config t =
    let live = not (is_idle run_state) in
    let read_tps = t.reader_transactions_per_second in
    record {
      id = reader;
      workers =
          numeric_control config.reader_workers control_ranges.reader_workers "workers" none none;
      live_workers = counted_if live config.reader_workers;
      idle_workers = counted_if (live && read_tps == 0) config.reader_workers;
      reading_workers = counted_if (live && ltb 0 read_tps) config.reader_workers;
      blocked_workers = 0;
      draining_workers = 0;
      draining_idle_workers = 0;
      draining_reading_workers = 0;
      draining_blocked_workers = 0;
      read_batch_size =
          numeric_control config.read_batch_size control_ranges.read_batch_size "tx" none none;
      read_tps = some (whole read_tps);
      configured_capacity_tps = some t.reader_capacity_tps;
      limitation_reason =
          if is_running run_state
            && ltb 0 t.reader_channel.blocked_senders
            && ltb read_tps t.reader_capacity_tps
          then some downstream_backpressure
          else none;
      rows_read = some t.reader_channel.sent_transactions_total;
      source_directory = none;
      source_error = none;
      state = run_state;
    }

freeze_throttler : RunState → SimulationConfig → SimulationTelemetry → ThrottlerSnapshot
freeze_throttler run_state config t = record {
  id = throttler;
  requested_tps =
      numeric_control config.requested_tps control_ranges.requested_tps "tx/s" none none;
  installed = record {
    applied = some config.throttler_installed;
    pending = none;
    apply_mode = immediate;
    writable = true;
    unavailable_reason = none;
  };
  admitted_tps = some (whole t.admitted_transactions_per_second);
  limited_ms = some t.limited_ms;
  state = run_state;
}

freeze_sender : RunState → SimulationConfig → SimulationTelemetry → SenderSnapshot
freeze_sender run_state config t =
    let alive = is_running run_state in
    let active = t.sender.worker_states in
    let draining = t.sender.draining_worker_states in
    record {
      id = sender;
      workers =
          numeric_control config.sender_workers control_ranges.sender_workers "workers" none none;
      live_workers = counted_if alive t.sender.workers.applied;
      idle_workers = counted_if alive (active.idle + draining.idle);
      in_flight_workers = counted_if alive (active.in_flight + draining.in_flight);
      backoff_workers = counted_if alive (active.backoff + draining.backoff);
      draining_workers = counted_if alive (draining.idle + draining.in_flight + draining.backoff);
      draining_idle_workers = counted_if alive draining.idle;
      draining_in_flight_workers = counted_if alive draining.in_flight;
      draining_backoff_workers = counted_if alive draining.backoff;
      timeout_ms =
          numeric_control config.http_timeout_ms control_ranges.http_timeout_ms "ms" none none;
      retry_policy = some retry_policy;
      attempted_tps = some t.attempted_transactions_per_second;
      retry_attempted_tps = some t.sender.retry_attempted_transactions_per_second;
      terminal_failed_tps = some t.sender.terminal_failed_transactions_per_second;
      in_flight_requests = some t.http.in_flight_requests;
      attempts_started_total = t.http.requests_started_total;
      retry_attempts_started_total = t.sender.retry_attempts_started_total;
      successful_responses = some t.http.requests_succeeded_total;
      failed_responses = some t.http.responses_rejected_total;
      retries = some t.sender.retry_attempts_started_total;
      timeouts_total = t.http.requests_timed_out_total;
      terminal_failed_batches_total = t.sender.terminal_failed_batches_total;
      terminal_failed_transactions_total = t.sender.terminal_failed_transactions_total;
      ambiguous_timeout_transactions_total = t.sender.ambiguous_timeout_transactions_total;
      duplicate_risk_transactions_total = t.sender.duplicate_risk_transactions_total;
      ambiguous_terminal_transactions_total = t.sender.ambiguous_terminal_transactions_total;
      state = run_state;
    }

-- `latency ?? (running ? null : 0)`
abbrev shown_latency : RunState → Option ℕ → Option ℕ
shown_latency run_state (some latency) = some latency
shown_latency run_state none = if is_running run_state then none else some 0

freeze_http : RunState → SimulationTelemetry → HttpSnapshot
freeze_http run_state t = record {
  id = SelectableId.http;
  connection_state = connected;
  status_code = t.http.latest.latest_status_code;
  last_outcome = t.http.latest.last_outcome;
  throughput_tps = some t.http.started_transactions_per_second;
  in_flight_requests = some t.http.in_flight_requests;
  requests_started_total = t.http.requests_started_total;
  requests_completed_total = t.http.requests_completed_total;
  requests_succeeded_total = t.http.requests_succeeded_total;
  requests_failed_total = t.http.requests_failed_total;
  requests_timed_out_total = t.http.requests_timed_out_total;
  network_errors_total = t.http.network_errors_total;
  latency_p95_ms = shown_latency run_state t.http.latest.latest_latency_ms;
}

freeze_target : RunState → Simulation → SimulationTelemetry → TargetSnapshot
freeze_target run_state s t = record {
  id = target;
  endpoint = some "http://target:8080/ingest";
  accepted_tps = some t.accepted_transactions_per_second;
  rejected_tps = some t.rejected_transactions_per_second;
  latency_p95_ms = shown_latency run_state t.http.latest.latest_response_latency_ms;
  http200_responses = some t.http.requests_succeeded_total;
  http503_responses = some s.http503_response_total;
  connection_state = connected;
}

unfoldable pub freeze_snapshot : ℕ → RunState → Simulation → LoadgenTelemetrySnapshot
unfolding freeze_channel_snapshot freeze_reader freeze_throttler freeze_sender freeze_http
    freeze_target
freeze_snapshot revision run_state s =
    let t = telemetry (is_running run_state) s in
    record {
      revision = revision;
      adapter_kind = AdapterKind.simulation;
      connection_state = connected;
      run_state = run_state;
      elapsed_ms = t.elapsed_ms;
      total_transactions = t.total_transactions;
      config = none;
      reader = freeze_reader run_state s.config t;
      throttler = freeze_throttler run_state s.config t;
      reader_channel =
          freeze_channel_snapshot t.reader_channel reader_to_throttler reader throttler
            control_ranges.reader_channel_capacity;
      sender_channel =
          freeze_channel_snapshot t.sender_channel throttler_to_sender throttler sender
            control_ranges.sender_channel_capacity;
      sender = freeze_sender run_state s.config t;
      http = freeze_http run_state t;
      target = freeze_target run_state s t;
    }
