-- ===== src/Simulation/State.antt =====
-- The fields of `class FixedStepSimulation` (frontend/src/model/simulation.ts) and its constructor.
-- Two groups of private fields are records of their own, opened in the state.
use ingestion_lab_loadgen.Prelude.{ℕ, ◌*◌, Option, none, some, List, [], generate}
use ingestion_lab_loadgen.Simulation.Types.{
  SimulationConfig, SimulationBatch, SimulationAttemptContext, SimulationAttemptOutcome,
  HttpLastOutcome, StepActivity, SenderWorker, create_worker,
}
use ingestion_lab_loadgen.Simulation.Channel.{StatefulChannel, create}

pub record Latest : Type 0 where
  pub latest_status_code : Option ℕ
  pub last_outcome : Option HttpLastOutcome
  pub latest_latency_ms : Option ℕ
  pub latest_response_latency_ms : Option ℕ

pub record Totals : Type 0 where
  pub request_started_total : ℕ
  pub retry_attempt_started_total : ℕ
  pub request_completed_total : ℕ
  pub request_succeeded_total : ℕ
  pub request_failed_total : ℕ
  pub response_rejected_total : ℕ
  pub request_timed_out_total : ℕ
  pub network_error_total : ℕ
  pub http503_response_total : ℕ
  pub successful_transactions_total : ℕ
  pub failed_attempt_transactions_total : ℕ
  pub terminal_failed_batches_total : ℕ
  pub terminal_failed_transactions_total : ℕ
  pub ambiguous_timeout_transactions_total : ℕ
  pub duplicate_risk_transactions_total : ℕ
  pub ambiguous_terminal_transactions_total : ℕ

-- `next_worker_index` is none where the source computes NaN. Tokens are counted in hundredths of a
-- transaction: a step of 10 ms refills requestedTps / 100 transactions, which is requestedTps units.
pub record Simulation : Type 0 where
  pub config : SimulationConfig
  pub reader_channel : StatefulChannel SimulationBatch
  pub sender_channel : StatefulChannel SimulationBatch
  pub activities : List StepActivity
  pub attempt_outcome_source : Option (SimulationAttemptContext → SimulationAttemptOutcome)
  pub workers : List SenderWorker
  pub next_worker_index : Option ℕ
  pub reader_transaction_credit : ℕ
  pub throttler_tokens : ℕ
  pub pending_throttled_batch : Option SimulationBatch
  pub next_batch_sequence : ℕ
  pub failure_credit : ℕ
  pub latest : Latest
  pub open latest use *
  pub totals : Totals
  pub open totals use *
  pub elapsed_ms : ℕ
  pub limited_ms : ℕ

-- A number of transactions, in the unit of `throttler_tokens`.
abbrev pub tokens_for : ℕ → ℕ
tokens_for transactions = transactions * 100

abbrev pub transactions_of : SimulationBatch → ℕ
transactions_of b = b.transactions

abbrev pub no_latest : Latest
no_latest = record {
  latest_status_code = none;
  last_outcome = none;
  latest_latency_ms = none;
  latest_response_latency_ms = none;
}

abbrev pub zero_totals : Totals
zero_totals = record {
  request_started_total = 0;
  retry_attempt_started_total = 0;
  request_completed_total = 0;
  request_succeeded_total = 0;
  request_failed_total = 0;
  response_rejected_total = 0;
  request_timed_out_total = 0;
  network_error_total = 0;
  http503_response_total = 0;
  successful_transactions_total = 0;
  failed_attempt_transactions_total = 0;
  terminal_failed_batches_total = 0;
  terminal_failed_transactions_total = 0;
  ambiguous_timeout_transactions_total = 0;
  duplicate_risk_transactions_total = 0;
  ambiguous_terminal_transactions_total = 0;
}

-- The constructor.
unfoldable pub create_simulation :
    SimulationConfig
    → ℕ
    → ℕ
    → Option (SimulationAttemptContext → SimulationAttemptOutcome)
    → Simulation
create_simulation config reader_channel_capacity sender_channel_capacity source = record {
  config = config;
  reader_channel = create reader_channel_capacity;
  sender_channel = create sender_channel_capacity;
  activities = [];
  attempt_outcome_source = source;
  workers = generate create_worker 0 config.sender_workers;
  next_worker_index = some 0;
  reader_transaction_credit = 0;
  throttler_tokens = 0;
  pending_throttled_batch = none;
  next_batch_sequence = 0;
  failure_credit = 0;
  latest = no_latest;
  totals = zero_totals;
  elapsed_ms = 0;
  limited_ms = 0;
}
