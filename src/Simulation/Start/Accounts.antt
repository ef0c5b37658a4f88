-- ===== src/Simulation/Start/Accounts.antt =====
-- Starting an attempt of a worker that owns a batch never throws, and puts the worker in flight.
use ingestion_lab_loadgen.Prelude.{ℕ, ◌+◌, ◌≤◌, ◌<◌, ◌≡◌, some, is_some-some, arith}
use ingestion_lab_loadgen.Prelude.Results.{Returns}
use ingestion_lab_loadgen.Simulation.Types.{
  SimulationBatch, SimulationAttemptContext, StepActivity, SenderWorker, in_flight, backoff,
}
use ingestion_lab_loadgen.Simulation.Retry.{retry_max_attempts}
use ingestion_lab_loadgen.Simulation.State.{Simulation}
use ingestion_lab_loadgen.Simulation.Ledger.{IsWorker, Ledger, Untouched}
use ingestion_lab_loadgen.Simulation.Completion.{Attempt}
use ingestion_lab_loadgen.Simulation.Start.{start_attempt, attempt_context, select_outcome}

-- Choosing an outcome moves nothing but the failure credit.
select_outcome-Untouched :
    (context : SimulationAttemptContext) (s : Simulation)
    → Untouched s (select_outcome context s).0 × ((select_outcome context s).0.totals ≡ s.totals)
unfolding select_outcome
select_outcome-Untouched context s = ground arith

-- What a started attempt leaves: the worker in flight with its batch, where `first` batches were
-- waiting for their first attempt.
abbrev pub Started : Simulation → SenderWorker → ℕ → ℕ → ℕ → Attempt → Type 0
Started s w h l f (w', s', activity') =
    IsWorker w'
    × (w'.retiring ≡ w.retiring)
    × (w'.state ≡ in_flight)
    × (w'.batch ≡ w.batch)
    × Ledger s' h l (1 + f) 0
    × Untouched s s'

-- The first attempt of a batch that was just given to the worker.
pub start_attempt-first :
    (s : Simulation) (b : SimulationBatch) (w : SenderWorker) (a : StepActivity) (h l f : ℕ)
    → w.batch ≡ some b
    → Ledger s h l f 1
    → Returns (Started s w h l f) (start_attempt w 1 s a)
unfolding start_attempt
start_attempt-first s b w a h l f e v =
    ground (arith, select_outcome-Untouched (attempt_context b 1 s) s)

start_attempt-next :
    (s : Simulation) (b : SimulationBatch) (w : SenderWorker) (a : StepActivity) (h l f : ℕ)
    → w.batch ≡ some b
    → 1 ≤ w.attempt
    → w.attempt < retry_max_attempts
    → Ledger s h l f 0
    → Returns (Started s w h l f) (start_attempt w (w.attempt + 1) s a)
unfolding start_attempt
start_attempt-next s b w a h l f e p q v =
    ground (arith, select_outcome-Untouched (attempt_context b (w.attempt + 1) s) s)

-- A further attempt of a worker whose backoff is over.
pub start_attempt-retry :
    (s : Simulation) (w : SenderWorker) (a : StepActivity) (h l f : ℕ)
    → IsWorker w
    → w.state ≡ backoff
    → Ledger s h l f 0
    → Returns (Started s w h l f) (start_attempt w (w.attempt + 1) s a)
start_attempt-retry s w a h l f owns e v =
    let (b, eb) = is_some-some w.batch (ground arith) in
    start_attempt-next s b w a h l f eb (ground arith) (ground arith) v
