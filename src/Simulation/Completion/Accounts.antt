-- ===== src/Simulation/Completion/Accounts.antt =====
-- Completing an attempt never throws, and moves the worker's batch to the totals or keeps it.
use ingestion_lab_loadgen.Prelude.{ℕ, suc, ◌+◌, ◌≤◌, ◌≡◌, some, is_some-some, arith}
use ingestion_lab_loadgen.Prelude.Results.{Returns}
use ingestion_lab_loadgen.Simulation.Types.{
  SimulationBatch, SimulationAttemptOutcome, StepActivity, SenderWorker, in_flight, http_response,
  timeout, network_error,
}
use ingestion_lab_loadgen.Simulation.State.{Simulation}
use ingestion_lab_loadgen.Simulation.Ledger.{
  IsWorker, held, held_transactions, flying, Ledger, Untouched,
}
use ingestion_lab_loadgen.Simulation.Completion.{
  Attempt, schedule_retry, fail_terminally, complete_response, complete_no_response,
  complete_outcome, complete_attempt, record_completion,
}

-- What holds where `h`, `l` and `f` are the other workers' shares.
abbrev pub Accounts : Simulation → SenderWorker → ℕ → ℕ → ℕ → Attempt → Type 0
Accounts s w h l f (w', s', activity') =
    IsWorker w'
    × (w'.retiring ≡ w.retiring)
    × Ledger s' (held w' + h) (held_transactions w' + l) (flying w' + f) 0
    × Untouched s s'

-- After `record_completion` the attempt is no longer in flight, and not yet succeeded or failed.
abbrev Completing : Simulation → ℕ → ℕ → ℕ → Type 0
Completing s h l f =
    (s.sender_channel.received_batches_total
      ≡ h + s.request_succeeded_total + s.terminal_failed_batches_total)
    × (s.sender_channel.received_transactions_total
        ≡ l + s.successful_transactions_total + s.terminal_failed_transactions_total)
    × (s.request_started_total ≡ s.request_completed_total + f)
    × (s.request_completed_total ≡ suc (s.request_succeeded_total + s.request_failed_total))
    × (s.request_failed_total
        ≡ s.response_rejected_total + s.request_timed_out_total + s.network_error_total)
    × (s.request_started_total
        ≡ s.retry_attempt_started_total + s.sender_channel.received_batches_total)

complete_response-Accounts :
    (s₀ s : Simulation) (status_code : ℕ) (b : SimulationBatch) (w : SenderWorker)
    (a : StepActivity) (h l f : ℕ)
    → w.batch ≡ some b
    → 1 ≤ w.attempt
    → Completing s (1 + h) (b.transactions + l) f
    → Untouched s₀ s
    → Returns (Accounts s₀ w h l f) (complete_response status_code b w s a)
unfolding complete_response schedule_retry fail_terminally
complete_response-Accounts s₀ s status_code b w a h l f e p v u = ground arith

complete_no_response-Accounts :
    (s₀ s : Simulation) (o : SimulationAttemptOutcome) (b : SimulationBatch) (w : SenderWorker)
    (a : StepActivity) (h l f : ℕ)
    → w.batch ≡ some b
    → 1 ≤ w.attempt
    → Completing s (1 + h) (b.transactions + l) f
    → Untouched s₀ s
    → Returns (Accounts s₀ w h l f) (complete_no_response o b w s a)
unfolding complete_no_response schedule_retry fail_terminally
complete_no_response-Accounts s₀ s o b w a h l f e p v u = ground arith

complete_outcome-Accounts :
    (s₀ s : Simulation) (o : SimulationAttemptOutcome) (b : SimulationBatch) (w : SenderWorker)
    (a : StepActivity) (h l f : ℕ)
    → w.batch ≡ some b
    → 1 ≤ w.attempt
    → Completing s (1 + h) (b.transactions + l) f
    → Untouched s₀ s
    → Returns (Accounts s₀ w h l f) (complete_outcome o b w s a)
unfolding complete_outcome
complete_outcome-Accounts s₀ s (http_response code d) b w a h l f e p v u =
    complete_response-Accounts s₀ s code b w a h l f e p v u
complete_outcome-Accounts s₀ s (timeout d) b w a h l f e p v u =
    complete_no_response-Accounts s₀ s (timeout d) b w a h l f e p v u
complete_outcome-Accounts s₀ s (network_error d) b w a h l f e p v u =
    complete_no_response-Accounts s₀ s (network_error d) b w a h l f e p v u

complete_owned-Accounts :
    (s : Simulation) (b : SimulationBatch) (o : SimulationAttemptOutcome) (w : SenderWorker)
    (a : StepActivity) (h l f : ℕ)
    → w.batch ≡ some b
    → w.outcome ≡ some o
    → 1 ≤ w.attempt
    → Ledger s (1 + h) (b.transactions + l) (1 + f) 0
    → Returns (Accounts s w h l f) (complete_attempt w s a)
unfolding complete_attempt
complete_owned-Accounts s b o w a h l f e d p v =
    rw (e, d, complete_attempt)
      (complete_outcome-Accounts s (record_completion b w s) o b w _ h l f e p (ground arith)
        (ground arith))

-- A worker that is in flight completes its attempt without a throw; the totals still account for
-- every batch, and nothing else of the simulation changes.
pub complete_attempt-Accounts :
    (s : Simulation) (w : SenderWorker) (a : StepActivity) (h l f : ℕ)
    → IsWorker w
    → w.state ≡ in_flight
    → Ledger s (held w + h) (held_transactions w + l) (flying w + f) 0
    → Returns (Accounts s w h l f) (complete_attempt w s a)
complete_attempt-Accounts s w a h l f owns e v =
    let (b, eb) = is_some-some w.batch (ground arith) in
    let (o, eo) = is_some-some w.outcome (ground arith) in
    complete_owned-Accounts s b o w a h l f eb eo (ground arith) (ground arith)
