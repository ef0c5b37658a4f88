-- ===== src/Simulation/Workers/Counts.antt =====
-- Counting the workers by whether they retire and by their states.
use ingestion_lab_loadgen.Prelude.{
  ℕ, ◌+◌, ◌≡◌, refl, true, false, List, [], ◌∷◌, arith, length, sum_by,
}
use ingestion_lab_loadgen.Simulation.Types.{SenderWorker}
use ingestion_lab_loadgen.Simulation.Ledger.{flying}
use ingestion_lab_loadgen.Simulation.Workers.{WorkerStateCounts, state_counts}

abbrev all_counted : WorkerStateCounts → ℕ
all_counted c = c.idle + c.in_flight + c.backoff

-- Every worker is counted in one group and one state.
pub state_counts-total :
    (ws : List SenderWorker)
    → all_counted (state_counts false ws) + all_counted (state_counts true ws) ≡ length ws
unfolding state_counts
state_counts-total [] = refl
state_counts-total (w ∷ ws) = ground (arith, state_counts-total ws)

pub state_counts-in_flight :
    (ws : List SenderWorker)
    → (state_counts false ws).in_flight + (state_counts true ws).in_flight ≡ sum_by flying ws
unfolding state_counts
state_counts-in_flight [] = refl
state_counts-in_flight (w ∷ ws) = ground (arith, state_counts-in_flight ws)
