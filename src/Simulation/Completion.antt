-- ===== src/Simulation/Completion.antt =====
-- How `FixedStepSimulation` completes one worker's attempt (frontend/src/model/simulation.ts): a
-- success, a retry or a terminal failure. A method that mutates a worker, the simulation and the
-- step's activity returns all three.
pub mod Accounts
pub mod Verdicts
pub mod Times
use ingestion_lab_loadgen.Prelude.{
  ℕ, ◌+◌, true, false, ◌&&◌, none, some, ltb, leb, ◌==◌, if◌then◌else◌, includes,
}
use ingestion_lab_loadgen.Prelude.Results.{
  Result, ok, throw, in_flight_without_batch, retry_without_batch, terminal_without_batch,
}
use ingestion_lab_loadgen.Simulation.Types.{
  SimulationBatch, SimulationAttemptOutcome, HttpLastOutcome, StepActivity, SenderWorker, idle,
  backoff,
}
use ingestion_lab_loadgen.Simulation.Retry.{
  deterministic_retry_delay_ms, retry_max_attempts, retryable_status_codes,
}
use ingestion_lab_loadgen.Simulation.State.{Simulation}

-- What a method of this file returns: the worker, the simulation and the activity as it leaves them.
abbrev pub Attempt : Type 0
Attempt = SenderWorker × Simulation × StepActivity

pub release_worker : SenderWorker → SenderWorker
release_worker worker = record worker {
  state = idle;
  batch = none;
  attempt = 0;
  complete_at_ms = 0;
  retry_at_ms = 0;
  outcome = none;
  attempt_latency_ms = 0;
  had_ambiguous_outcome = false;
}

pub fail_terminally : SenderWorker → Simulation → StepActivity → Result Attempt
unfolding release_worker
fail_terminally worker s activity = elim worker.batch [
  | none ↦ throw terminal_without_batch
  | some batch ↦ ok (
    release_worker (record worker { terminal_error = true }),
    record s {
      totals = record s.totals {
        terminal_failed_batches_total = s.terminal_failed_batches_total + 1;
        terminal_failed_transactions_total =
            s.terminal_failed_transactions_total + batch.transactions;
        ambiguous_terminal_transactions_total =
            if worker.had_ambiguous_outcome
            then s.ambiguous_terminal_transactions_total + batch.transactions
            else s.ambiguous_terminal_transactions_total;
      };
    },
    record activity {
      terminal_failed_transactions = activity.terminal_failed_transactions + batch.transactions;
    },
  )
]

pub schedule_retry : SenderWorker → Simulation → StepActivity → Result Attempt
schedule_retry worker s activity = elim worker.batch [
  | none ↦ throw retry_without_batch
  | some batch ↦
      if leb retry_max_attempts worker.attempt
      then throw retry_without_batch
      else ok (
        record worker {
          state = backoff;
          retry_at_ms = s.elapsed_ms + deterministic_retry_delay_ms batch.sequence worker.attempt;
          complete_at_ms = 0;
          outcome = none;
          attempt_latency_ms = 0;
        },
        s,
        activity,
      )
]

-- `latestLatencyMs` and the counters that every completion moves.
record_completion : SimulationBatch → SenderWorker → Simulation → Simulation
record_completion batch worker s = record s {
  totals = record s.totals { request_completed_total = s.request_completed_total + 1 };
  latest = record s.latest { latest_latency_ms = some worker.attempt_latency_ms };
}

complete_response : ℕ → SimulationBatch → SenderWorker → Simulation → StepActivity → Result Attempt
unfolding release_worker
complete_response status_code batch worker s activity =
    let seen = record s {
      latest = record s.latest {
        last_outcome = some HttpLastOutcome.http_response;
        latest_status_code = some status_code;
        latest_response_latency_ms = some worker.attempt_latency_ms;
      };
    } in
    let rejected = record seen {
      totals = record s.totals {
        request_failed_total = s.request_failed_total + 1;
        response_rejected_total = s.response_rejected_total + 1;
        failed_attempt_transactions_total =
            s.failed_attempt_transactions_total + batch.transactions;
        http503_response_total =
            if status_code == 503 then s.http503_response_total + 1 else s.http503_response_total;
      };
    } in
    let rejected_activity = record activity {
      http_rejected_transactions = activity.http_rejected_transactions + batch.transactions;
    } in
    if leb 200 status_code && ltb status_code 300
    then ok (
      release_worker (record worker { terminal_error = false }),
      record seen {
        totals = record s.totals {
          request_succeeded_total = s.request_succeeded_total + 1;
          successful_transactions_total = s.successful_transactions_total + batch.transactions;
        };
      },
      record activity {
        http_succeeded_transactions = activity.http_succeeded_transactions + batch.transactions;
      },
    )
    else if includes retryable_status_codes status_code && ltb worker.attempt retry_max_attempts
    then schedule_retry worker rejected rejected_activity
    else fail_terminally worker rejected rejected_activity

-- The counters of an attempt that ended with no response.
record_no_response : SimulationAttemptOutcome → SimulationBatch → Simulation → Simulation
record_no_response (SimulationAttemptOutcome.timeout latency) batch s = record s {
  latest = record s.latest {
    latest_status_code = none;
    last_outcome = some HttpLastOutcome.timeout;
  };
  totals = record s.totals {
    request_failed_total = s.request_failed_total + 1;
    failed_attempt_transactions_total = s.failed_attempt_transactions_total + batch.transactions;
    request_timed_out_total = s.request_timed_out_total + 1;
    ambiguous_timeout_transactions_total =
        s.ambiguous_timeout_transactions_total + batch.transactions;
  };
}
record_no_response other batch s = record s {
  latest = record s.latest {
    latest_status_code = none;
    last_outcome = some HttpLastOutcome.network_error;
  };
  totals = record s.totals {
    request_failed_total = s.request_failed_total + 1;
    failed_attempt_transactions_total = s.failed_attempt_transactions_total + batch.transactions;
    network_error_total = s.network_error_total + 1;
  };
}

complete_no_response :
    SimulationAttemptOutcome
    → SimulationBatch
    → SenderWorker
    → Simulation
    → StepActivity
    → Result Attempt
unfolding record_no_response
complete_no_response outcome batch worker s activity =
    let ambiguous = record worker { had_ambiguous_outcome = true } in
    let s' = record_no_response outcome batch s in
    if ltb worker.attempt retry_max_attempts
    then schedule_retry ambiguous s' activity
    else fail_terminally ambiguous s' activity

complete_outcome :
    SimulationAttemptOutcome
    → SimulationBatch
    → SenderWorker
    → Simulation
    → StepActivity
    → Result Attempt
complete_outcome (SimulationAttemptOutcome.http_response status_code latency) batch worker s
      activity =
    complete_response status_code batch worker s activity
complete_outcome (SimulationAttemptOutcome.timeout latency) batch worker s activity =
    complete_no_response (SimulationAttemptOutcome.timeout latency) batch worker s activity
complete_outcome (SimulationAttemptOutcome.network_error latency) batch worker s activity =
    complete_no_response (SimulationAttemptOutcome.network_error latency) batch worker s activity

pub complete_attempt : SenderWorker → Simulation → StepActivity → Result Attempt
unfolding record_completion
complete_attempt worker s activity = elim worker.batch [
  | none ↦ throw in_flight_without_batch
  | some batch ↦ elim worker.outcome [
    | none ↦ throw in_flight_without_batch
    | some outcome ↦
        complete_outcome outcome batch worker (record_completion batch worker s) (record activity {
          http_completed_transactions = activity.http_completed_transactions + batch.transactions;
        })
  ]
]
