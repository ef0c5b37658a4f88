-- ===== src/Simulation/Completion/Verdicts.antt =====
-- What becomes of a batch whose attempt completes: success, a retry or a terminal failure.
use ingestion_lab_loadgen.Prelude.{
  ℕ, ◌+◌, ◌≡◌, none, some, true, false, Bool, ◌&&◌, leb, ltb, if◌then◌else◌, includes, arith,
}
use ingestion_lab_loadgen.Prelude.Results.{Returns}
use ingestion_lab_loadgen.Simulation.Types.{
  SimulationBatch, SimulationAttemptOutcome, StepActivity, SenderWorker, idle, backoff,
  http_response, timeout, network_error,
}
use ingestion_lab_loadgen.Simulation.Retry.{
  deterministic_retry_delay_ms, retry_max_attempts, retryable_status_codes,
}
use ingestion_lab_loadgen.Simulation.State.{Simulation}
use ingestion_lab_loadgen.Simulation.Completion.{
  Attempt, schedule_retry, fail_terminally, complete_response, complete_no_response,
  complete_outcome, complete_attempt, record_completion, release_worker,
}

pub data Verdict : Type 0 where
  succeeded retried failed : Verdict

-- The policy: 2xx succeeds; what may pass later is tried again while attempts are left.
abbrev pub again : Bool → ℕ → Verdict
again retryable attempt = if retryable && ltb attempt retry_max_attempts then retried else failed

abbrev pub verdict : SimulationAttemptOutcome → ℕ → Verdict
verdict (http_response code latency) attempt =
    if leb 200 code && leb code 299
    then succeeded
    else again (includes retryable_status_codes code) attempt
verdict (timeout latency) attempt = again true attempt
verdict (network_error latency) attempt = again true attempt

-- What each verdict leaves of a worker that held `b`, and of the totals.
abbrev pub Judged : Simulation → SenderWorker → SimulationBatch → Verdict → Attempt → Type 0
Judged s w b succeeded (w', s', a') =
    (w'.state ≡ idle)
    × (w'.batch ≡ none)
    × (w'.terminal_error ≡ false)
    × (s'.request_succeeded_total ≡ s.request_succeeded_total + 1)
    × (s'.request_failed_total ≡ s.request_failed_total)
    × (s'.terminal_failed_batches_total ≡ s.terminal_failed_batches_total)
Judged s w b retried (w', s', a') =
    (w'.state ≡ backoff)
    × (w'.batch ≡ some b)
    × (w'.attempt ≡ w.attempt)
    × (w'.retry_at_ms ≡ s.elapsed_ms + deterministic_retry_delay_ms b.sequence w.attempt)
    × (s'.request_failed_total ≡ s.request_failed_total + 1)
    × (s'.terminal_failed_batches_total ≡ s.terminal_failed_batches_total)
Judged s w b failed (w', s', a') =
    (w'.state ≡ idle)
    × (w'.batch ≡ none)
    × (w'.terminal_error ≡ true)
    × (s'.request_failed_total ≡ s.request_failed_total + 1)
    × (s'.terminal_failed_batches_total ≡ s.terminal_failed_batches_total + 1)
    × (s'.terminal_failed_transactions_total
        ≡ s.terminal_failed_transactions_total + b.transactions)

complete_outcome-Judged :
    (s : Simulation) (w : SenderWorker) (a a' : StepActivity) (b : SimulationBatch)
    (o : SimulationAttemptOutcome)
    → w.batch ≡ some b
    → Returns
        (Judged s w b (verdict o w.attempt))
        (complete_outcome o b w (record_completion b w s) a')
unfolding complete_outcome complete_response complete_no_response schedule_retry fail_terminally
    record_completion release_worker
complete_outcome-Judged s w a a' b (http_response code latency) e = ground arith
complete_outcome-Judged s w a a' b (timeout latency) e = ground arith
complete_outcome-Judged s w a a' b (network_error latency) e = ground arith

-- A worker with a batch and an outcome completes its attempt as the retry policy says: a 2xx response
-- frees it with a success; a response of a retryable status, a timeout or a network error before the
-- third attempt sends it to backoff, with its batch, until the deterministic delay has passed; anything
-- else frees it with a terminal failure of the batch and its transactions.
pub complete_attempt-Judged :
    (s : Simulation) (w : SenderWorker) (a : StepActivity) (b : SimulationBatch)
    (o : SimulationAttemptOutcome)
    → w.batch ≡ some b
    → w.outcome ≡ some o
    → Returns (Judged s w b (verdict o w.attempt)) (complete_attempt w s a)
unfolding complete_attempt
complete_attempt-Judged s w a b o e d =
    rw (e, d, complete_attempt) (complete_outcome-Judged s w a _ b o e)
