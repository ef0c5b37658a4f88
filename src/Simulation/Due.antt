-- ===== src/Simulation/Due.antt =====
-- The methods of `FixedStepSimulation` (frontend/src/model/simulation.ts) that run first in a step: due
-- attempts, due retries and the throttler's tokens. Each returns the simulation and the step's
-- activity as it leaves them.
pub mod Settled
pub mod Accounts
pub mod Tokens
use ingestion_lab_loadgen.Prelude.{
  ℕ, ◌+◌, min, max, not, ◌||◌, none, some, List, [], ◌∷◌, ltb, if◌then◌else◌,
}
use ingestion_lab_loadgen.Prelude.Results.{Result, ok, ◌>>=◌}
use ingestion_lab_loadgen.Simulation.Types.{StepActivity, SenderWorker, is_in_flight, is_backoff}
use ingestion_lab_loadgen.Simulation.Channel.{peek}
use ingestion_lab_loadgen.Simulation.State.{Simulation, tokens_for}
use ingestion_lab_loadgen.Simulation.Completion.{complete_attempt}
use ingestion_lab_loadgen.Simulation.Start.{start_attempt}

abbrev pub State : Type 0
State = Simulation × StepActivity

-- The body of the loop of `completeDueAttempts`.
pub complete_due : SenderWorker → State → Result (SenderWorker × State)
complete_due w (s, activity) =
    if not (is_in_flight w.state) || ltb s.elapsed_ms w.complete_at_ms
    then ok (w, (s, activity))
    else do (w', s', activity') ← complete_attempt w s activity; ok (w', (s', activity'))

-- The body of the loop of `startDueRetries`.
pub start_due : SenderWorker → State → Result (SenderWorker × State)
start_due w (s, activity) =
    if not (is_backoff w.state) || ltb s.elapsed_ms w.retry_at_ms then ok (w, (s, activity)) else do
      (w', s', activity') ← start_attempt w (w.attempt + 1) s activity
      ok (w', (s', activity'))

-- `for (const worker of this.workers)`, whose bodies write the worker and read no other.
pub for_each_worker :
    (SenderWorker → State → Result (SenderWorker × State))
    → List SenderWorker
    → State
    → Result (List SenderWorker × State)
for_each_worker body [] st = ok ([], st)
for_each_worker body (w ∷ ws) st = do
  (w', st') ← body w st
  (ws', st'') ← for_each_worker body ws st'
  ok (w' ∷ ws', st'')

over_workers : (SenderWorker → State → Result (SenderWorker × State)) → State → Result State
over_workers body (s, activity) = do
  (ws, (s', activity')) ← for_each_worker body s.workers (s, activity)
  ok (record s' { workers = ws }, activity')

pub complete_due_attempts : State → Result State
unfolding over_workers complete_due
complete_due_attempts = over_workers complete_due

pub start_due_retries : State → Result State
unfolding over_workers start_due
start_due_retries = over_workers start_due

pub refill_throttler_tokens : Simulation → Simulation
refill_throttler_tokens s =
    if not s.config.throttler_installed
    then record s { throttler_tokens = 0 }
    else let refill = s.config.requested_tps in
      let head_transactions : ℕ = elim (peek s.reader_channel) [
        | none ↦ s.config.read_batch_size
        | some batch ↦ batch.transactions
      ] in
      let token_capacity = tokens_for (max head_transactions s.config.read_batch_size) + refill in
      record s { throttler_tokens = min token_capacity (s.throttler_tokens + refill) }
