-- ===== src/Hooks/PauseFrozen/Scan.antt =====
-- What is on display, read off the snapshots that came so far, the latest first.
use ingestion_lab_loadgen.Prelude.{
  List, Option, [], false, if◌then◌else◌, is_some, none, refl, some, true, ℕ, ◌∷◌, ◌≡◌, Bool,
  and_elim, ap, arith, subst, sym, ◌&&◌, ◌∙◌,
}
use ingestion_lab_loadgen.HttpAdapter.View.Controls.{is_connected}
use ingestion_lab_loadgen.Loadgen.{
  LoadgenTelemetrySnapshot, RunState, faulted, idle, paused, running,
}
use ingestion_lab_loadgen.Hooks.PauseFrozen.{
  PauseFrozenObservedDeriver, Presented, create_deriver, derive, freeze_observed_telemetry,
  frozen_or_running, observe, presented, is_source, present,
}

module _ (object : ℕ → LoadgenTelemetrySnapshot) where
  -- What counts as observed after a snapshot in this run state, and `before` it.
  abbrev pub observed_at : RunState → ℕ → Option ℕ → Option ℕ
  observed_at running r before = if is_connected (object r).connection_state then some r else none
  observed_at idle r before = none
  observed_at paused r before = before
  observed_at faulted r before = before

  -- The last running snapshot, if it was connected and the generator has not been idle since.
  abbrev pub observed : List ℕ → Option ℕ
  observed [] = none
  observed (r ∷ rs) = observed_at (object r).run_state r (observed rs)

  -- The measurements of what was observed, while the generator neither runs nor is idle.
  abbrev pub shown_at : RunState → ℕ → Option ℕ → Presented
  shown_at running r before = record { snapshot = object r; frozen_observed = false }
  shown_at idle r before = record { snapshot = object r; frozen_observed = false }
  shown_at paused r none = record { snapshot = object r; frozen_observed = false }
  shown_at paused r (some o) = record {
    snapshot = freeze_observed_telemetry (object o) (object r);
    frozen_observed = true;
  }
  shown_at faulted r none = record { snapshot = object r; frozen_observed = false }
  shown_at faulted r (some o) = record {
    snapshot = freeze_observed_telemetry (object o) (object r);
    frozen_observed = true;
  }

  abbrev pub shown : ℕ → List ℕ → Presented
  shown r rs = shown_at (object r).run_state r (observed rs)

  -- The deriver after the snapshots.
  abbrev pub derive_all : List ℕ → PauseFrozenObservedDeriver
  derive_all [] = create_deriver
  derive_all (r ∷ rs) = derive object r (derive_all rs)

  -- What the deriver remembers of the snapshots, and what it shows for the latest.
  pub record Remembers (r : ℕ) (rs : List ℕ) (d : PauseFrozenObservedDeriver) : Type 0 where
    pub kept : frozen_or_running d.frozen d.last_running ≡ observed (r ∷ rs)
    pub source : d.source_snapshot ≡ some r
    pub there : is_some d.presentation ≡ true
    pub display : presented object r d ≡ shown r rs

  frozen_or_running_again :
      (f l : Option ℕ) → frozen_or_running (frozen_or_running f l) l ≡ frozen_or_running f l
  frozen_or_running_again none none = refl
  frozen_or_running_again none (some l) = refl
  frozen_or_running_again (some f) l = refl

  present-shown_at :
      (r : ℕ) (o : Option ℕ)
      → record { snapshot = present object o (object r); frozen_observed = is_some o }
        ≡ shown_at paused r o
  present-shown_at r none = refl
  present-shown_at r (some o) = refl

  present-shown_at_fault :
      (r : ℕ) (o : Option ℕ)
      → record { snapshot = present object o (object r); frozen_observed = is_some o }
        ≡ shown_at faulted r o
  present-shown_at_fault r none = refl
  present-shown_at_fault r (some o) = refl

  -- The fields after a snapshot that was not derived before.
  abbrev fresh : RunState → ℕ → PauseFrozenObservedDeriver → PauseFrozenObservedDeriver
  fresh state r d = record (observe object state r d) { source_snapshot = some r }

  fresh-kept :
      (state : RunState) (r : ℕ) (rs : List ℕ) (d : PauseFrozenObservedDeriver)
      → frozen_or_running d.frozen d.last_running ≡ observed rs
      → frozen_or_running (fresh state r d).frozen (fresh state r d).last_running
        ≡ observed_at state r (observed rs)
  fresh-kept running r rs d k = refl
  fresh-kept idle r rs d k = refl
  fresh-kept paused r rs d k = frozen_or_running_again d.frozen d.last_running ∙ k
  fresh-kept faulted r rs d k = frozen_or_running_again d.frozen d.last_running ∙ k

  fresh-display :
      (state : RunState) (r : ℕ) (rs : List ℕ) (d : PauseFrozenObservedDeriver)
      → frozen_or_running d.frozen d.last_running ≡ observed rs
      → presented object r (fresh state r d) ≡ shown_at state r (observed rs)
  fresh-display running r rs d k = refl
  fresh-display idle r rs d k = refl
  fresh-display paused r rs d k =
      let now : Option ℕ = frozen_or_running d.frozen d.last_running in
      present-shown_at r now ∙ ap (shown_at paused r) k
  fresh-display faulted r rs d k =
      let now : Option ℕ = frozen_or_running d.frozen d.last_running in
      present-shown_at_fault r now ∙ ap (shown_at faulted r) k

  fresh-there :
      (state : RunState) (r : ℕ) (d : PauseFrozenObservedDeriver)
      → is_some (fresh state r d).presentation ≡ true
  fresh-there running r d = refl
  fresh-there idle r d = refl
  fresh-there paused r d = refl
  fresh-there faulted r d = refl

  fresh-Remembers :
      (r : ℕ) (rs : List ℕ) (d : PauseFrozenObservedDeriver)
      → frozen_or_running d.frozen d.last_running ≡ observed rs
      → Remembers r rs (fresh (object r).run_state r d)
  fresh-Remembers r rs d k = record {
    kept = fresh-kept (object r).run_state r rs d k;
    source = refl;
    there = fresh-there (object r).run_state r d;
    display = fresh-display (object r).run_state r rs d k;
  }

  observed_at_again :
      (state : RunState) (r : ℕ) (before : Option ℕ)
      → observed_at state r (observed_at state r before) ≡ observed_at state r before
  observed_at_again running r before = refl
  observed_at_again idle r before = refl
  observed_at_again paused r before = refl
  observed_at_again faulted r before = refl

  pub shown_at_again :
      (state : RunState) (r : ℕ) (before : Option ℕ)
      → shown_at state r (observed_at state r before) ≡ shown_at state r before
  shown_at_again running r before = refl
  shown_at_again idle r before = refl
  shown_at_again paused r before = refl
  shown_at_again faulted r before = refl

  -- The same snapshot again changes nothing.
  pub again-Remembers :
      (r : ℕ) (rs : List ℕ) (d : PauseFrozenObservedDeriver)
      → Remembers r rs d
      → Remembers r (r ∷ rs) d
  again-Remembers r rs d h = record {
    kept = h.kept ∙ sym (observed_at_again (object r).run_state r (observed rs));
    source = h.source;
    there = h.there;
    display = h.display ∙ sym (shown_at_again (object r).run_state r (observed rs));
  }

  pub is_source-same : (r r' : ℕ) (o : Option ℕ) → o ≡ some r' → is_source r o ≡ true → r' ≡ r
  is_source-same r r' none e h = cc
  is_source-same r r' (some origin) e h = ground (arith, e)

  derive_step-Remembers :
      (r r' : ℕ) (rs : List ℕ) (d : PauseFrozenObservedDeriver) (test : Bool)
      → (is_source r d.source_snapshot && is_some d.presentation) ≡ test
      → Remembers r' rs d
      → Remembers r (r' ∷ rs) (if test then d else fresh (object r).run_state r d)
  derive_step-Remembers r r' rs d true e h =
      let same = is_source-same r r' d.source_snapshot h.source (and_elim _ _ e).0 in
      subst (λ n. Remembers n (r' ∷ rs) d) same (again-Remembers r' rs d h)
  derive_step-Remembers r r' rs d false e h = fresh-Remembers r (r' ∷ rs) d h.kept

  -- The same, before any snapshot too.
  abbrev pub RemembersAll : List ℕ → PauseFrozenObservedDeriver → Type 0
  RemembersAll [] d = d ≡ create_deriver
  RemembersAll (r ∷ rs) d = Remembers r rs d

  pub derive-Remembers :
      (r : ℕ) (rs : List ℕ) (d : PauseFrozenObservedDeriver)
      → RemembersAll rs d
      → Remembers r rs (derive object r d)
  unfolding derive
  derive-Remembers r [] d h =
      subst (λ e. Remembers r [] (derive object r e)) (sym h)
        (fresh-Remembers r [] create_deriver refl)
  derive-Remembers r (r' ∷ rs) d h = derive_step-Remembers r r' rs d _ refl h

  derive_all-RemembersAll : (rs : List ℕ) → RemembersAll rs (derive_all rs)
  derive_all-RemembersAll [] = refl
  derive_all-RemembersAll (r ∷ rs) =
      derive-Remembers r rs (derive_all rs) (derive_all-RemembersAll rs)

  -- Whatever snapshots come, some of them more than once, what is shown for the latest is the snapshot
  -- itself while the generator runs or is idle; while it is paused or has faulted, it is the
  -- measurements of the last running snapshot with the controls of the latest, if that snapshot was connected
  -- and the generator has not been idle since, and the snapshot itself if there is none.
  pub derive_all-shown :
      (r : ℕ) (rs : List ℕ) → presented object r (derive_all (r ∷ rs)) ≡ shown r rs
  derive_all-shown r rs = (derive_all-RemembersAll (r ∷ rs)).display
