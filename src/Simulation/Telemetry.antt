-- ===== src/Simulation/Telemetry.antt =====
-- What the simulation reports (frontend/src/model/simulation.ts): `StatefulChannel.telemetry`,
-- `aggregateActivity` and `FixedStepSimulation.telemetry`. Rates are counts over a window of one
-- second, so the divisions by `rate_seconds` are exact.
pub mod Counts
use ingestion_lab_loadgen.Prelude.{
  ℕ, ◌+◌, ◌*◌, ◌/◌, Bool, true, false, Option, none, some, List, [], ◌∷◌, ltb, ◌==◌, if◌then◌else◌,
  length, foldl,
}
use ingestion_lab_loadgen.Simulation.Types.{
  ChannelActivity, StepActivity, HttpLastOutcome, create_step_activity, fixed_step_ms,
  rate_window_steps, reader_transactions_per_worker_second,
}
use ingestion_lab_loadgen.Simulation.Channel.{
  StatefulChannel, CapacityTelemetry, capacity, depth_batches, buffered_transactions,
}
use ingestion_lab_loadgen.Simulation.State.{Simulation, Latest, transactions_of}
use ingestion_lab_loadgen.Simulation.Workers.{WorkerStateCounts, state_counts}

pub data ChannelTrend : Type 0 where
  rising steady falling unknown : ChannelTrend

pub record ChannelTelemetry : Type 0 where
  pub capacity : CapacityTelemetry
  pub sent_batches_total : ℕ
  pub sent_transactions_total : ℕ
  pub received_batches_total : ℕ
  pub received_transactions_total : ℕ
  pub depth_batches : ℕ
  pub buffered_transactions : ℕ
  pub handoff_batches : ℕ
  pub handoff_batches_total : ℕ
  pub blocked_senders : ℕ
  pub oldest_blocked_sender_ms : ℕ
  pub blocked_ms_total : ℕ
  pub input_batches_per_second : ℕ
  pub output_batches_per_second : ℕ
  pub input_transactions_per_second : ℕ
  pub output_transactions_per_second : ℕ
  pub trend : ChannelTrend

pub record HttpTelemetry : Type 0 where
  pub requests_started_total : ℕ
  pub requests_completed_total : ℕ
  pub requests_succeeded_total : ℕ
  pub requests_failed_total : ℕ
  pub responses_rejected_total : ℕ
  pub requests_timed_out_total : ℕ
  pub network_errors_total : ℕ
  pub successful_transactions_total : ℕ
  pub failed_attempt_transactions_total : ℕ
  pub in_flight_requests : ℕ
  pub started_transactions_per_second : ℕ
  pub completed_transactions_per_second : ℕ
  pub succeeded_transactions_per_second : ℕ
  pub rejected_transactions_per_second : ℕ
  pub latest : Latest

pub record SenderTelemetry : Type 0 where
  pub workers : CapacityTelemetry
  pub worker_states : WorkerStateCounts
  pub draining_worker_states : WorkerStateCounts
  pub retry_attempts_started_total : ℕ
  pub retry_attempted_transactions_per_second : ℕ
  pub terminal_failed_transactions_per_second : ℕ
  pub terminal_failed_batches_total : ℕ
  pub terminal_failed_transactions_total : ℕ
  pub ambiguous_timeout_transactions_total : ℕ
  pub duplicate_risk_transactions_total : ℕ
  pub ambiguous_terminal_transactions_total : ℕ

pub record SimulationTelemetry : Type 0 where
  pub elapsed_ms : ℕ
  pub total_transactions : ℕ
  pub limited_ms : ℕ
  pub reader_capacity_tps : ℕ
  pub reader_transactions_per_second : ℕ
  pub admitted_transactions_per_second : ℕ
  pub attempted_transactions_per_second : ℕ
  pub accepted_transactions_per_second : ℕ
  pub rejected_transactions_per_second : ℕ
  pub reader_channel : ChannelTelemetry
  pub sender_channel : ChannelTelemetry
  pub sender : SenderTelemetry
  pub http : HttpTelemetry

abbrev while_running : Bool → ℕ → ℕ
while_running running n = if running then n else 0

abbrev per_second : ℕ → ℕ → ℕ
per_second n rate_seconds = if rate_seconds == 0 then 0 else n / rate_seconds

abbrev trend_of : Bool → ℕ → ℕ → ChannelTrend
trend_of running input output =
    if running
    then (if ltb output input then rising else if ltb input output then falling else steady)
    else steady

pub channel_telemetry {ℓ} :
    {A : Type ℓ} → (A → ℕ) → StatefulChannel A → ChannelActivity → ℕ → Bool → ChannelTelemetry
channel_telemetry transactions_of c activity rate_seconds running = record {
  capacity = capacity c;
  sent_batches_total = c.sent_batches_total;
  sent_transactions_total = c.sent_transactions_total;
  received_batches_total = c.received_batches_total;
  received_transactions_total = c.received_transactions_total;
  depth_batches = depth_batches c;
  buffered_transactions = buffered_transactions transactions_of c;
  handoff_batches = while_running running activity.handoff_batches;
  handoff_batches_total = c.handoff_batches_total;
  blocked_senders = while_running running c.blocked_senders;
  oldest_blocked_sender_ms = while_running running c.blocked_for_ms;
  blocked_ms_total = c.blocked_ms_total;
  input_batches_per_second = while_running running (per_second activity.input_batches rate_seconds);
  output_batches_per_second =
      while_running running (per_second activity.output_batches rate_seconds);
  input_transactions_per_second =
      while_running running (per_second activity.input_transactions rate_seconds);
  output_transactions_per_second =
      while_running running (per_second activity.output_transactions rate_seconds);
  trend =
      trend_of running (per_second activity.input_transactions rate_seconds)
        (per_second activity.output_transactions rate_seconds);
}

add_channel_activity : ChannelActivity → ChannelActivity → ChannelActivity
add_channel_activity aggregate activity = record {
  input_batches = aggregate.input_batches + activity.input_batches;
  input_transactions = aggregate.input_transactions + activity.input_transactions;
  output_batches = aggregate.output_batches + activity.output_batches;
  output_transactions = aggregate.output_transactions + activity.output_transactions;
  handoff_batches = aggregate.handoff_batches + activity.handoff_batches;
}

add_activity : StepActivity → StepActivity → StepActivity
unfolding add_channel_activity
add_activity aggregate activity = record {
  reader_channel = add_channel_activity aggregate.reader_channel activity.reader_channel;
  sender_channel = add_channel_activity aggregate.sender_channel activity.sender_channel;
  http_started_transactions =
      aggregate.http_started_transactions + activity.http_started_transactions;
  http_retry_started_transactions =
      aggregate.http_retry_started_transactions + activity.http_retry_started_transactions;
  http_completed_transactions =
      aggregate.http_completed_transactions + activity.http_completed_transactions;
  http_succeeded_transactions =
      aggregate.http_succeeded_transactions + activity.http_succeeded_transactions;
  http_rejected_transactions =
      aggregate.http_rejected_transactions + activity.http_rejected_transactions;
  terminal_failed_transactions =
      aggregate.terminal_failed_transactions + activity.terminal_failed_transactions;
}

aggregate_from : StepActivity → List StepActivity → StepActivity
unfolding add_activity
aggregate_from aggregate [] = aggregate
aggregate_from aggregate (activity ∷ activities) =
    aggregate_from (add_activity aggregate activity) activities

pub aggregate_activity : Simulation → StepActivity
unfolding aggregate_from
aggregate_activity s = aggregate_from create_step_activity s.activities

abbrev rate_seconds : ℕ
rate_seconds = rate_window_steps * fixed_step_ms / 1_000

sender_telemetry : Simulation → StepActivity → Bool → SenderTelemetry
sender_telemetry s aggregate running = record {
  workers = record {
    applied = length s.workers;
    preview = none;
    pending =
        if length s.workers == s.config.sender_workers then none else some s.config.sender_workers;
  };
  worker_states = state_counts false s.workers;
  draining_worker_states = state_counts true s.workers;
  retry_attempts_started_total = s.retry_attempt_started_total;
  retry_attempted_transactions_per_second =
      while_running running (aggregate.http_retry_started_transactions / rate_seconds);
  terminal_failed_transactions_per_second =
      while_running running (aggregate.terminal_failed_transactions / rate_seconds);
  terminal_failed_batches_total = s.terminal_failed_batches_total;
  terminal_failed_transactions_total = s.terminal_failed_transactions_total;
  ambiguous_timeout_transactions_total = s.ambiguous_timeout_transactions_total;
  duplicate_risk_transactions_total = s.duplicate_risk_transactions_total;
  ambiguous_terminal_transactions_total = s.ambiguous_terminal_transactions_total;
}

http_telemetry : Simulation → StepActivity → Bool → HttpTelemetry
http_telemetry s aggregate running = record {
  requests_started_total = s.request_started_total;
  requests_completed_total = s.request_completed_total;
  requests_succeeded_total = s.request_succeeded_total;
  requests_failed_total = s.request_failed_total;
  responses_rejected_total = s.response_rejected_total;
  requests_timed_out_total = s.request_timed_out_total;
  network_errors_total = s.network_error_total;
  successful_transactions_total = s.successful_transactions_total;
  failed_attempt_transactions_total = s.failed_attempt_transactions_total;
  in_flight_requests =
      (state_counts false s.workers).in_flight + (state_counts true s.workers).in_flight;
  started_transactions_per_second =
      while_running running (aggregate.http_started_transactions / rate_seconds);
  completed_transactions_per_second =
      while_running running (aggregate.http_completed_transactions / rate_seconds);
  succeeded_transactions_per_second =
      while_running running (aggregate.http_succeeded_transactions / rate_seconds);
  rejected_transactions_per_second =
      while_running running (aggregate.http_rejected_transactions / rate_seconds);
  latest = s.latest;
}

pub telemetry : Bool → Simulation → SimulationTelemetry
unfolding sender_telemetry http_telemetry
telemetry running s =
    let aggregate = aggregate_activity s in
    let reader =
      channel_telemetry transactions_of s.reader_channel aggregate.reader_channel rate_seconds
        running in
    let sender =
      channel_telemetry transactions_of s.sender_channel aggregate.sender_channel rate_seconds
        running in
    record {
      elapsed_ms = s.elapsed_ms;
      total_transactions = s.reader_channel.received_transactions_total;
      limited_ms = s.limited_ms;
      reader_capacity_tps = s.config.reader_workers * reader_transactions_per_worker_second;
      reader_transactions_per_second = reader.input_transactions_per_second;
      admitted_transactions_per_second = reader.output_transactions_per_second;
      attempted_transactions_per_second =
          while_running running (aggregate.http_started_transactions / rate_seconds);
      accepted_transactions_per_second =
          while_running running (aggregate.http_succeeded_transactions / rate_seconds);
      rejected_transactions_per_second =
          while_running running (aggregate.http_rejected_transactions / rate_seconds);
      reader_channel = reader;
      sender_channel = sender;
      sender = sender_telemetry s aggregate running;
      http = http_telemetry s aggregate running;
    }
