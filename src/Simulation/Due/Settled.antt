-- ===== src/Simulation/Due/Settled.antt =====
-- Once the due attempts are completed, no attempt that is under way is due.
use ingestion_lab_loadgen.Prelude.{
  ℕ, ◌<◌, ◌≡◌, refl, subst, ◌⊎◌, inl, Bool, true, false, not, ◌||◌, some, List, [], ◌∷◌, All,
  is_some-some, ltb, if◌then◌else◌, arith,
}
use ingestion_lab_loadgen.Prelude.Results.{◌>>=◌, Returns, Returns-bind, ok}
use ingestion_lab_loadgen.Simulation.Types.{
  SimulationBatch, SimulationAttemptOutcome, StepActivity, SenderWorker, is_in_flight, in_flight,
}
use ingestion_lab_loadgen.Simulation.State.{Simulation}
use ingestion_lab_loadgen.Simulation.Ledger.{IsWorker}
use ingestion_lab_loadgen.Simulation.Invariant.{Inv}
use ingestion_lab_loadgen.Simulation.Completion.{complete_attempt}
use ingestion_lab_loadgen.Simulation.Completion.Times.{Landed, complete_attempt-Landed}
use ingestion_lab_loadgen.Simulation.Due.{
  State, complete_due, for_each_worker, over_workers, complete_due_attempts,
}

-- A worker with no attempt under way, or with one that ends after `now`.
abbrev pub Settled : ℕ → SenderWorker → Type 0
Settled now w = (is_in_flight w.state ≡ false) ⊎ (now < w.complete_at_ms)

-- A worker that is settled, in a simulation whose clock still shows `now`.
abbrev SettledAt : ℕ → SenderWorker × State → Type 0
SettledAt now (w, (s, a)) = Settled now w × (s.elapsed_ms ≡ now)

abbrev AllSettledAt : ℕ → List SenderWorker × State → Type 0
AllSettledAt now (ws, (s, a)) = All (Settled now) ws × (s.elapsed_ms ≡ now)

not_due :
    (now : ℕ) (w : SenderWorker)
    → not (is_in_flight w.state) || ltb now w.complete_at_ms ≡ true
    → Settled now w
not_due now w e = ground arith

is_flying :
    (now : ℕ) (w : SenderWorker)
    → not (is_in_flight w.state) || ltb now w.complete_at_ms ≡ false
    → w.state ≡ in_flight
is_flying now w e = ground arith

flying_fields :
    (w : SenderWorker)
    → IsWorker w
    → w.state ≡ in_flight
    → ((b : SimulationBatch) × (w.batch ≡ some b))
      × ((o : SimulationAttemptOutcome) × (w.outcome ≡ some o))
flying_fields w owns e =
    (is_some-some w.batch (ground arith), is_some-some w.outcome (ground arith))

complete_due-Settled :
    (w : SenderWorker) (s : Simulation) (a : StepActivity)
    → IsWorker w
    → Returns (SettledAt s.elapsed_ms) (complete_due w (s, a))
unfolding complete_due
complete_due-Settled w s a owns = go _ refl
  where
    go :
        (test : Bool)
        → not (is_in_flight w.state) || ltb s.elapsed_ms w.complete_at_ms ≡ test
        → Returns (SettledAt s.elapsed_ms) (
            if test then ok (w, (s, a)) else (complete_attempt w s a >>= λ r. ok (r.0, (r.1, r.2))))
    go true e = (not_due s.elapsed_ms w e, refl)
    go false e =
        let (fb, fo) = flying_fields w owns (is_flying s.elapsed_ms w e) in
        Returns-bind (Landed s) (SettledAt s.elapsed_ms) (complete_attempt w s a) _
          (complete_attempt-Landed s w a fb.0 fo.0 fb.1 fo.1) λ r h. (inl h.0, h.1)

for_each_worker-Settled :
    (now : ℕ) (ws : List SenderWorker) (s : Simulation) (a : StepActivity)
    → s.elapsed_ms ≡ now
    → All IsWorker ws
    → Returns (AllSettledAt now) (for_each_worker complete_due ws (s, a))
unfolding for_each_worker
for_each_worker-Settled now [] s a e h = (tt, e)
for_each_worker-Settled now (w ∷ ws) s a e h =
    Returns-bind (SettledAt now) (AllSettledAt now) (complete_due w (s, a)) _
      (subst (λ t. Returns (SettledAt t) (complete_due w (s, a))) e
        (complete_due-Settled w s a h.0))
      λ r k.
        Returns-bind (AllSettledAt now) (AllSettledAt now) (for_each_worker complete_due ws r.1) _
          (for_each_worker-Settled now ws r.1.0 r.1.1 k.1 h.1) λ q m. ((k.0, m.0), m.1)

-- Completing the due attempts of a sound simulation returns, and leaves no worker whose attempt is
-- under way and ends no later than the clock shows, which stands still meanwhile.
pub complete_due_attempts-Settled :
    (s : Simulation) (a : StepActivity)
    → Inv s
    → Returns
        (λ st. All (Settled s.elapsed_ms) st.0.workers × (st.0.elapsed_ms ≡ s.elapsed_ms))
        (complete_due_attempts (s, a))
unfolding complete_due_attempts over_workers
complete_due_attempts-Settled s a v =
    Returns-bind (AllSettledAt s.elapsed_ms) _ (for_each_worker complete_due s.workers (s, a)) _
      (for_each_worker-Settled s.elapsed_ms s.workers s a refl v.pool.workers) λ r k. (k.0, k.1)
