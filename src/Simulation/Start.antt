-- ===== src/Simulation/Start.antt =====
-- How `FixedStepSimulation` starts one worker's attempt (frontend/src/model/simulation.ts): the
-- context, the outcome that the source or the default chooses, and the counters.
pub mod Failures
pub mod Accounts
use ingestion_lab_loadgen.Prelude.{
  ℕ, ◌+◌, ◌-◌, Bool, true, false, ◌&&◌, none, some, ltb, if◌then◌else◌,
}
use ingestion_lab_loadgen.Prelude.Int.{pos}
use ingestion_lab_loadgen.Prelude.Results.{Result, ok, throw, attempt_without_batch}
use ingestion_lab_loadgen.Simulation.Types.{
  SimulationBatch, SimulationAttemptContext, SimulationAttemptOutcome, latency_ms, with_latency_ms,
  StepActivity, SenderWorker, in_flight, finite,
}
use ingestion_lab_loadgen.Simulation.Retry.{rounded_step_duration}
use ingestion_lab_loadgen.Simulation.State.{Simulation}
use ingestion_lab_loadgen.Simulation.Completion.{Attempt}

-- Whether the next request fails: every request adds the error rate to a credit, and a credit of a
-- hundred buys a failure.
pub next_request_fails : Simulation → Simulation × Bool
next_request_fails s =
    let credit = s.failure_credit + s.config.target_error_rate_percent in
    if ltb credit 100
    then (record s { failure_credit = credit }, false)
    else (record s { failure_credit = credit - 100 }, true)

pub default_attempt_outcome :
    SimulationAttemptContext → Simulation → Simulation × SimulationAttemptOutcome
unfolding next_request_fails
default_attempt_outcome context s =
    let target_latency_ms = context.target_delay_ms + 5 in
    if ltb context.http_timeout_ms target_latency_ms
    then (s, SimulationAttemptOutcome.timeout (finite (pos context.http_timeout_ms)))
    else let (s', fails) = next_request_fails s in
      (
        s',
        SimulationAttemptOutcome.http_response (if fails then 503 else 200)
            (finite (pos target_latency_ms)),
      )

-- `this.attemptOutcomeSource?.(context) ?? this.defaultAttemptOutcome(context)`
pub select_outcome : SimulationAttemptContext → Simulation → Simulation × SimulationAttemptOutcome
unfolding default_attempt_outcome
select_outcome context s = elim s.attempt_outcome_source [
  | none ↦ default_attempt_outcome context s
  | some source ↦ (s, source context)
]

-- What `startAttempt` writes once the outcome is chosen.
begin_attempt :
    SimulationBatch
    → SimulationAttemptOutcome
    → SenderWorker
    → ℕ
    → Simulation
    → StepActivity
    → Attempt
begin_attempt batch selected worker attempt s activity =
    let latency = rounded_step_duration (latency_ms selected) in
    let retried = ltb 1 attempt in
    (
      record worker {
        state = in_flight;
        attempt = attempt;
        complete_at_ms = s.elapsed_ms + latency;
        retry_at_ms = 0;
        outcome = some (with_latency_ms selected (finite (pos latency)));
        attempt_latency_ms = latency;
      },
      record s {
        totals = record s.totals {
          request_started_total = s.request_started_total + 1;
          retry_attempt_started_total =
              if retried then s.retry_attempt_started_total + 1 else s.retry_attempt_started_total;
          duplicate_risk_transactions_total =
              if retried && worker.had_ambiguous_outcome
              then s.duplicate_risk_transactions_total + batch.transactions
              else s.duplicate_risk_transactions_total;
        };
      },
      record activity {
        http_started_transactions = activity.http_started_transactions + batch.transactions;
        http_retry_started_transactions =
            if retried
            then activity.http_retry_started_transactions + batch.transactions
            else activity.http_retry_started_transactions;
      },
    )

abbrev pub attempt_context : SimulationBatch → ℕ → Simulation → SimulationAttemptContext
attempt_context batch attempt s = record {
  batch = batch;
  attempt = attempt;
  started_at_ms = s.elapsed_ms;
  target_delay_ms = s.config.target_delay_ms;
  target_error_rate_percent = s.config.target_error_rate_percent;
  http_timeout_ms = s.config.http_timeout_ms;
}

pub start_attempt : SenderWorker → ℕ → Simulation → StepActivity → Result Attempt
unfolding begin_attempt
start_attempt worker attempt s activity = elim worker.batch [
  | none ↦ throw attempt_without_batch
  | some batch ↦
      let (s', selected) = select_outcome (attempt_context batch attempt s) s in
      ok (begin_attempt batch selected worker attempt s' activity)
]
