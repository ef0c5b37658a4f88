-- ===== src/Simulation/Due/Accounts.antt =====
-- The two loops over the workers never throw, and keep every worker's state and the totals right.
use ingestion_lab_loadgen.Prelude.{
  ℕ, ◌+◌, ◌≡◌, refl, ap, List, [], ◌∷◌, if◌then◌else◌, arith, All, sum_by, length,
}
use ingestion_lab_loadgen.Prelude.Results.{Result, Returns, Returns-bind}
use ingestion_lab_loadgen.Simulation.Types.{StepActivity, SenderWorker}
use ingestion_lab_loadgen.Simulation.State.{Simulation}
use ingestion_lab_loadgen.Simulation.Ledger.{
  IsWorker, held, held_transactions, flying, staying, Ledger, Ledger-cast, Untouched,
  Untouched-refl, Untouched-trans, Ledger-cong,
}
use ingestion_lab_loadgen.Simulation.Invariant
use ingestion_lab_loadgen.Simulation.Invariant.{Inv, Plumbing-cong}
use ingestion_lab_loadgen.Simulation.Completion.Accounts.{complete_attempt-Accounts}
use ingestion_lab_loadgen.Simulation.Start.Accounts.{start_attempt-retry}
use ingestion_lab_loadgen.Simulation.Due.{
  State, complete_due, start_due, for_each_worker, over_workers,
}
use ingestion_lab_loadgen.Simulation.Due.{start_due_retries}
use ingestion_lab_loadgen.Simulation.Due.{complete_due_attempts}

-- What a loop's body leaves of its worker, where `h`, `l` and `f` are the other workers' shares.
abbrev pub Kept : Simulation → SenderWorker → ℕ → ℕ → ℕ → SenderWorker × State → Type 0
Kept s w h l f (w', (s', activity')) =
    IsWorker w'
    × (w'.retiring ≡ w.retiring)
    × Ledger s' (held w' + h) (held_transactions w' + l) (flying w' + f) 0
    × Untouched s s'

abbrev Keeps : (SenderWorker → State → Result (SenderWorker × State)) → Type 0
Keeps body =
    (w : SenderWorker) (s : Simulation) (activity : StepActivity) (h l f : ℕ)
    → IsWorker w
    → Ledger s (held w + h) (held_transactions w + l) (flying w + f) 0
    → Returns (Kept s w h l f) (body w (s, activity))

complete_due-Keeps : Keeps complete_due
unfolding complete_due
complete_due-Keeps w s activity h l f owns v =
    ground (arith, complete_attempt-Accounts s w activity h l f, Untouched-refl s)

start_due-Keeps : Keeps start_due
unfolding start_due
start_due-Keeps w s activity h l f owns v = ground (
  arith,
  start_attempt-retry s w activity (held w + h) (held_transactions w + l) f,
  Untouched-refl s,
)

-- What the loop leaves of all workers.
abbrev pub AllKept : Simulation → List SenderWorker → ℕ → ℕ → ℕ → List SenderWorker × State → Type 0
AllKept s ws h l f (ws', (s', activity')) =
    All IsWorker ws'
    × (sum_by staying ws' ≡ sum_by staying ws)
    × (length ws' ≡ length ws)
    × Ledger s' (sum_by held ws' + h) (sum_by held_transactions ws' + l) (sum_by flying ws' + f) 0
    × Untouched s s'

for_each_worker-AllKept :
    (body : SenderWorker → State → Result (SenderWorker × State))
    → Keeps body
    → (ws : List SenderWorker) (s : Simulation) (activity : StepActivity) (h l f : ℕ)
    → All IsWorker ws
    → Ledger s (sum_by held ws + h) (sum_by held_transactions ws + l) (sum_by flying ws + f) 0
    → Returns (AllKept s ws h l f) (for_each_worker body ws (s, activity))
unfolding for_each_worker
for_each_worker-AllKept body keep [] s activity h l f a v = (tt, refl, refl, v, Untouched-refl s)
for_each_worker-AllKept body keep (w ∷ ws) s activity h l f a v =
    Returns-bind
      (Kept s w (sum_by held ws + h) (sum_by held_transactions ws + l) (sum_by flying ws + f))
      (AllKept s (w ∷ ws) h l f) (body w (s, activity)) _
      (keep w s activity _ _ _ a.0 (Ledger-cast s (omega arith) (omega arith) (omega arith) v))
      λ r k.
        Returns-bind (AllKept r.1.0 ws (held r.0 + h) (held_transactions r.0 + l) (flying r.0 + f))
          (AllKept s (w ∷ ws) h l f) (for_each_worker body ws r.1) _
          (for_each_worker-AllKept body keep ws r.1.0 r.1.1 _ _ _ a.1
            (Ledger-cast r.1.0 (omega arith) (omega arith) (omega arith) k.2))
          λ rs ks. (
            (k.0, ks.0),
            omega (arith, ap {B = ℕ} (λ b. if b then 0 else 1) k.1, ks.1),
            omega (arith, ks.2),
            Ledger-cast rs.1.0 (omega arith) (omega arith) (omega arith) ks.3,
            Untouched-trans k.3 ks.4,
          )

over_workers-Kept :
    (body : SenderWorker → State → Result (SenderWorker × State))
    → Keeps body
    → (s : Simulation) (activity : StepActivity) → Inv s
    → Returns (λ st. Invariant.Kept s st.0) (over_workers body (s, activity))
unfolding over_workers
over_workers-Kept body keep s activity v =
    Returns-bind (AllKept s s.workers 0 0 0) (λ st. Invariant.Kept s st.0)
      (for_each_worker body s.workers (s, activity)) _
      (for_each_worker-AllKept body keep s.workers s activity 0 0 0 v.pool.workers
        (Ledger-cast s (omega arith) (omega arith) (omega arith) v.pool.ledger))
      λ r k.
        let u = k.4 in
        (
          record {
            plumbing =
                Plumbing-cong u.reader_channel u.sender_channel u.pending u.sequence v.plumbing;
            pool = record {
              workers = k.0;
              ledger = Ledger-cong r.1.0 _ refl refl (omega arith) (omega arith) (omega arith) k.3;
              index = ground (arith, v.pool);
              pool_size = ground (arith, v.pool);
              has_sender = ground (arith, v.pool);
            };
            batch_size = ground arith;
          },
          u.config,
          u.elapsed,
        )

-- Completing the attempts that are due returns, and keeps the invariant.
pub complete_due_attempts-Kept :
    (s : Simulation) (activity : StepActivity)
    → Inv s
    → Returns (λ st. Invariant.Kept s st.0) (complete_due_attempts (s, activity))
unfolding complete_due_attempts
complete_due_attempts-Kept = over_workers-Kept complete_due complete_due-Keeps

-- Starting the retries that are due returns, and keeps the invariant.
pub start_due_retries-Kept :
    (s : Simulation) (activity : StepActivity)
    → Inv s
    → Returns (λ st. Invariant.Kept s st.0) (start_due_retries (s, activity))
unfolding start_due_retries
start_due_retries-Kept = over_workers-Kept start_due start_due-Keeps
