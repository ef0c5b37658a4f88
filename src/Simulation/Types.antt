-- ===== src/Simulation/Types.antt =====
-- The data of frontend/src/model/simulation.ts: configuration, batches, attempts, what one step has
-- done, and the sender's workers. Counts, milliseconds and percentages are whole numbers.
use ingestion_lab_loadgen.Prelude.{ℕ, Bool, false, Option, none}
use ingestion_lab_loadgen.Prelude.Int.{ℤ}

abbrev pub fixed_step_ms : ℕ
fixed_step_ms = 10

abbrev pub rate_window_steps : ℕ
rate_window_steps = 100

abbrev pub reader_transactions_per_worker_second : ℕ
reader_transactions_per_worker_second = 50_000

pub record SimulationConfig : Type 0 where
  pub reader_workers : ℕ
  pub sender_workers : ℕ
  pub requested_tps : ℕ
  pub throttler_installed : Bool
  pub read_batch_size : ℕ
  pub http_timeout_ms : ℕ
  pub target_delay_ms : ℕ
  pub target_error_rate_percent : ℕ

pub record SimulationBatch : Type 0 where
  pub sequence : ℕ
  pub transactions : ℕ

pub record SimulationAttemptContext : Type 0 where
  pub batch : SimulationBatch
  pub attempt : ℕ
  pub started_at_ms : ℕ
  pub target_delay_ms : ℕ
  pub target_error_rate_percent : ℕ
  pub http_timeout_ms : ℕ

-- A latency that an outcome source reports: a whole number, or a number that is not finite.
pub data Duration : Type 0 where
  finite : ℤ → Duration
  not_finite : Duration

pub data SimulationAttemptOutcome : Type 0 where
  http_response : ℕ → Duration → SimulationAttemptOutcome
  timeout : Duration → SimulationAttemptOutcome
  network_error : Duration → SimulationAttemptOutcome

abbrev pub latency_ms : SimulationAttemptOutcome → Duration
latency_ms (http_response status_code latency) = latency
latency_ms (timeout latency) = latency
latency_ms (network_error latency) = latency

-- `{ ...selected, latencyMs }`
abbrev pub with_latency_ms : SimulationAttemptOutcome → Duration → SimulationAttemptOutcome
with_latency_ms (http_response status_code latency) d = http_response status_code d
with_latency_ms (timeout latency) d = timeout d
with_latency_ms (network_error latency) d = network_error d

pub data HttpLastOutcome : Type 0 where
  http_response timeout network_error : HttpLastOutcome

pub record ChannelActivity : Type 0 where
  pub input_batches : ℕ
  pub input_transactions : ℕ
  pub output_batches : ℕ
  pub output_transactions : ℕ
  pub handoff_batches : ℕ

pub record StepActivity : Type 0 where
  pub reader_channel : ChannelActivity
  pub sender_channel : ChannelActivity
  pub http_started_transactions : ℕ
  pub http_retry_started_transactions : ℕ
  pub http_completed_transactions : ℕ
  pub http_succeeded_transactions : ℕ
  pub http_rejected_transactions : ℕ
  pub terminal_failed_transactions : ℕ

abbrev pub create_channel_activity : ChannelActivity
create_channel_activity = record {
  input_batches = 0;
  input_transactions = 0;
  output_batches = 0;
  output_transactions = 0;
  handoff_batches = 0;
}

abbrev pub create_step_activity : StepActivity
create_step_activity = record {
  reader_channel = create_channel_activity;
  sender_channel = create_channel_activity;
  http_started_transactions = 0;
  http_retry_started_transactions = 0;
  http_completed_transactions = 0;
  http_succeeded_transactions = 0;
  http_rejected_transactions = 0;
  terminal_failed_transactions = 0;
}

pub data SenderWorkerState : Type 0 where
  idle in_flight backoff : SenderWorkerState

pub record SenderWorker : Type 0 where
  pub worker_id : ℕ
  pub retiring : Bool
  pub terminal_error : Bool
  pub state : SenderWorkerState
  pub batch : Option SimulationBatch
  pub attempt : ℕ
  pub complete_at_ms : ℕ
  pub retry_at_ms : ℕ
  pub outcome : Option SimulationAttemptOutcome
  pub attempt_latency_ms : ℕ
  pub had_ambiguous_outcome : Bool

abbrev pub create_worker : ℕ → SenderWorker
create_worker worker_id = record {
  worker_id = worker_id;
  retiring = false;
  terminal_error = false;
  state = idle;
  batch = none;
  attempt = 0;
  complete_at_ms = 0;
  retry_at_ms = 0;
  outcome = none;
  attempt_latency_ms = 0;
  had_ambiguous_outcome = false;
}

-- The tests `state === 'idle'`, `state === 'in-flight'` and `state === 'backoff'`.
abbrev pub is_idle : SenderWorkerState → Bool
is_idle idle = Bool.true
is_idle in_flight = false
is_idle backoff = false

abbrev pub is_in_flight : SenderWorkerState → Bool
is_in_flight idle = false
is_in_flight in_flight = Bool.true
is_in_flight backoff = false

abbrev pub is_backoff : SenderWorkerState → Bool
is_backoff idle = false
is_backoff in_flight = false
is_backoff backoff = Bool.true
