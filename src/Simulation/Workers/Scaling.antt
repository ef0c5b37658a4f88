-- ===== src/Simulation/Workers/Scaling.antt =====
-- Scaling the sender's pool up and down keeps it sound.
use native.Mathlib.Nat.{mod-lt}
use ingestion_lab_loadgen.Prelude.{
  ◌==◌, ◌||◌, inl, inr, Option, none, some, ◌<◌, ◌∙◌, sym, All-filter,
}
use ingestion_lab_loadgen.Simulation.Invariant.{IsPosition}
use ingestion_lab_loadgen.Simulation.Workers.{wrap_index}
use ingestion_lab_loadgen.Prelude.{
  ℕ, ◌≡◌, refl, List, [], ◌∷◌, arith, All, sum_by, length, filter, any, not, false,
}
use ingestion_lab_loadgen.Simulation.Types.{SenderWorker, is_idle}
use ingestion_lab_loadgen.Simulation.State.{Simulation}
use ingestion_lab_loadgen.Simulation.Ledger.{
  IsWorker, held, held_transactions, flying, staying, Ledger-cong,
}
use ingestion_lab_loadgen.Simulation.Invariant.{Inv, Pool, Plumbing-cong, Kept}
use ingestion_lab_loadgen.Simulation.Workers.{finalize_sender_scale_down}
use ingestion_lab_loadgen.Prelude.{Bool}
use ingestion_lab_loadgen.Prelude.{Bool-cases}

abbrev is_staying : SenderWorker → Bool
is_staying w = not w.retiring

abbrev is_retiring : SenderWorker → Bool
is_retiring w = w.retiring

abbrev is_busy : SenderWorker → Bool
is_busy w = not (is_idle w.state)

-- A filter that drops only idle workers loses no batch and no attempt.
held-filter :
    (ws : List SenderWorker)
    → All IsWorker ws
    → any is_busy (filter is_retiring ws) ≡ false
    → (sum_by held (filter is_staying ws) ≡ sum_by held ws)
      × (sum_by held_transactions (filter is_staying ws) ≡ sum_by held_transactions ws)
      × (sum_by flying (filter is_staying ws) ≡ sum_by flying ws)
held-filter [] a e = (refl, refl, refl)
held-filter (w ∷ ws) a e = ground (arith, held-filter ws a.1)

length-filter-staying : (ws : List SenderWorker) → length (filter is_staying ws) ≡ sum_by staying ws
length-filter-staying [] = refl
length-filter-staying (w ∷ ws) = ground (arith, length-filter-staying ws)

staying-filter :
    (ws : List SenderWorker) → sum_by staying (filter is_staying ws) ≡ sum_by staying ws
staying-filter [] = refl
staying-filter (w ∷ ws) = ground (arith, staying-filter ws)

-- The pool without the workers that retire.
abbrev left_pool : Simulation → Simulation
left_pool s = record s {
  workers = filter is_staying s.workers;
  next_worker_index = wrap_index s.next_worker_index (length (filter is_staying s.workers));
}

wrap_index-IsPosition :
    (index : Option ℕ) (n m : ℕ) → 0 < m → IsPosition index n → IsPosition (wrap_index index m) m
wrap_index-IsPosition none n m pos h = absurd h
wrap_index-IsPosition (some i) n m pos h = ground (arith, mod-lt i {m = m} pos)

left_pool-Pool :
    (s : Simulation)
    → Pool s
    → any is_busy (filter is_retiring s.workers) ≡ false
    → Pool (left_pool s)
left_pool-Pool s v e =
    let same = held-filter s.workers v.workers e in
    let size : length (filter is_staying s.workers) ≡ s.config.sender_workers =
      length-filter-staying s.workers ∙ v.pool_size in
    record {
      workers = All-filter IsWorker is_staying s.workers v.workers;
      ledger = Ledger-cong s _ refl refl (sym same.0) (sym same.1) (sym same.2) v.ledger;
      index =
          wrap_index-IsPosition s.next_worker_index (length s.workers) _
            (let pos = v.has_sender in omega (arith, size)) v.index;
      pool_size = staying-filter s.workers ∙ v.pool_size;
      has_sender = v.has_sender;
    }

pub finalize_sender_scale_down-Pool :
    (s : Simulation) → Pool s → Pool (finalize_sender_scale_down s)
unfolding finalize_sender_scale_down
finalize_sender_scale_down-Pool s v =
    elim (Bool-cases
      (length (filter is_retiring s.workers) == 0 || any is_busy (filter is_retiring s.workers))) [
        | inl stays ↦ rw (stays, finalize_sender_scale_down) v
        | inr leaves ↦ rw (leaves, finalize_sender_scale_down) (left_pool-Pool s v (ground arith))
      ]

-- Letting idle workers go keeps the pool sound, and changes neither the channels nor the totals.
pub finalize_sender_scale_down-Kept :
    (s : Simulation) → Inv s → Kept s (finalize_sender_scale_down s)
unfolding finalize_sender_scale_down
finalize_sender_scale_down-Kept s v = (
  record {
    plumbing = Plumbing-cong (ground arith) (ground arith) (ground arith) (ground arith) v.plumbing;
    pool = finalize_sender_scale_down-Pool s v.pool;
    batch_size = ground arith;
  },
  ground arith,
  ground arith,
)
