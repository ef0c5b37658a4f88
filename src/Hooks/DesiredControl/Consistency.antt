-- ===== src/Hooks/DesiredControl/Consistency.antt =====
-- What a control shows, whatever happens to it.
use Prim.Native.String.{String}
use ingestion_lab_loadgen.Hooks.DesiredControl.{
  DesiredControlPhase, DesiredControl, idle, preview, pending, is_idle_phase, is_pending, rest_at,
  create_control, is_later, follow, withdraw, render, preview_value, cancel_in, cancel, commit,
  answer, settle,
}
use ingestion_lab_loadgen.Prelude.{
  Bool, Bool-cases, List, Option, [], both_branches, false, inl, inr, none, not, or_else, refl,
  some, subst, sym, true, ℕ, ◌&&◌, ◌==◌, ◌||◌, ◌∷◌, ◌≡◌, and_elim, if◌then◌else◌, is_some, ◌+◌,
}

pub data Event (T : Type 0) : Type 0 where
  rendered : T → ℕ → Bool → Event T
  previewed : T → Event T
  cancelled : Event T
  committed : Option T → Event T
  answered : ℕ → Option Bool → Event T

-- Idle, the control shows the applied value; otherwise it is available, and while a value is pending
-- the revision that it was submitted at is known.
abbrev pub Shows : {T : Type 0} → DesiredControlPhase → DesiredControl T → Type 0
Shows idle c = c.state.desired ≡ c.applied
Shows preview c = (c.available ≡ true) × (c.state.submitted_revision ≡ none)
Shows pending c = (c.available ≡ true) × ((r : ℕ) × (c.state.submitted_revision ≡ some r))

abbrev pub Consistent : {T : Type 0} → DesiredControl T → Type 0
Consistent c = (phase : DesiredControlPhase) × (c.state.phase ≡ phase) × Shows phase c

idle_phase : (phase : DesiredControlPhase) → is_idle_phase phase ≡ true → phase ≡ idle
idle_phase idle h = refl
idle_phase preview h = cc
idle_phase pending h = cc

not_available : (a b : Bool) → (not a || b) ≡ false → a ≡ true
not_available true b h = refl
not_available false b h = cc

module _ {T : Type 0} (is_same : T → T → Bool) (rejection_message unavailable_message : String)
    (sound : (x y : T) → is_same x y ≡ true → x ≡ y) where
  abbrev pub happen : Event T → DesiredControl T → DesiredControl T
  happen (rendered applied revision available) c =
      render is_same rejection_message unavailable_message applied revision available c
  happen (previewed value) c = preview_value is_same rejection_message unavailable_message value c
  happen cancelled c = cancel is_same rejection_message unavailable_message c
  happen (committed value) c = commit is_same rejection_message unavailable_message value c
  happen (answered token accepted) c =
      settle is_same rejection_message unavailable_message token accepted c

  abbrev pub happen_all : List (Event T) → DesiredControl T → DesiredControl T
  happen_all [] c = c
  happen_all (event ∷ events) c = happen_all events (happen event c)

  -- A control with other properties, before the effect.
  abbrev with_properties : T → ℕ → Bool → DesiredControl T → DesiredControl T
  with_properties applied revision available c = record c {
    applied = applied;
    revision = revision;
    available = available;
  }

  follow-Consistent :
      (phase : DesiredControlPhase) (applied : T) (revision : ℕ) (c : DesiredControl T)
      → c.state.phase ≡ phase
      → Shows phase c
      → Consistent (
          follow is_same rejection_message unavailable_message phase applied revision
            (with_properties applied revision true c))
  follow-Consistent idle applied revision c e s =
      elim (Bool-cases (is_same c.state.desired applied)) [
        | inl same ↦ rw same (idle, e, sound c.state.desired applied same)
        | inr other ↦ rw other (idle, e, refl)
      ]
  follow-Consistent preview applied revision c e s = (preview, e, (refl, s.1))
  follow-Consistent pending applied revision c e s =
      both_branches Consistent
        (is_later revision c.state.submitted_revision && is_same applied c.state.desired) _ _
        (idle, refl, refl) (pending, e, (refl, s.1))

  withdrawn-Consistent :
      (applied : T) (revision : ℕ) (c : DesiredControl T) (resting : Bool)
      → (is_same c.state.desired applied
          && is_idle_phase c.state.phase
          && not (is_some c.state.error))
        ≡ resting
      → Consistent (record (with_properties applied revision false c) {
        token = if is_idle_phase c.state.phase then c.token else c.token + 1;
        state = if resting then c.state else rest_at applied none;
      })
  withdrawn-Consistent applied revision c true e =
      let first = (and_elim _ _ (and_elim _ _ e).0) in
      (idle, idle_phase c.state.phase first.1, sound c.state.desired applied first.0)
  withdrawn-Consistent applied revision c false e = (idle, refl, refl)

  withdraw-Consistent :
      (applied : T) (revision : ℕ) (c : DesiredControl T)
      → Consistent (
          withdraw is_same rejection_message unavailable_message applied
            (with_properties applied revision false c))
  withdraw-Consistent applied revision c =
      let resting : Bool =
        is_same c.state.desired applied
        && is_idle_phase c.state.phase
        && not (is_some c.state.error) in
      withdrawn-Consistent applied revision c resting refl

  render-Consistent :
      (applied : T) (revision : ℕ) (available : Bool) (c : DesiredControl T)
      → Consistent c
      → Consistent
          (render is_same rejection_message unavailable_message applied revision available c)
  unfolding render
  render-Consistent applied revision true c h =
      subst
        (λ phase. Consistent (
          follow is_same rejection_message unavailable_message phase applied revision
            (with_properties applied revision true c)))
        (sym h.1) (follow-Consistent h.0 applied revision c h.1 h.2)
  render-Consistent applied revision false c h = withdraw-Consistent applied revision c

  preview_value-Consistent :
      (value : T) (c : DesiredControl T)
      → Consistent c
      → Consistent (preview_value is_same rejection_message unavailable_message value c)
  unfolding preview_value
  preview_value-Consistent value c h =
      elim (Bool-cases (not c.available || is_pending c.state.phase)) [
        | inl refused ↦ rw refused h
        | inr free ↦ rw free (preview, refl, (not_available c.available _ free, refl))
      ]

  cancel_in-Consistent :
      (phase : DesiredControlPhase) (c : DesiredControl T)
      → Consistent c
      → Consistent (cancel_in is_same rejection_message unavailable_message phase c)
  cancel_in-Consistent idle c h = h
  cancel_in-Consistent preview c h = (idle, refl, refl)
  cancel_in-Consistent pending c h = h

  commit-Consistent :
      (value : Option T) (c : DesiredControl T)
      → Consistent c
      → Consistent (commit is_same rejection_message unavailable_message value c)
  unfolding commit
  commit-Consistent value c h = elim (Bool-cases (not c.available || is_pending c.state.phase)) [
    | inl refused ↦ rw refused h
    | inr free ↦ rw free (
        both_branches Consistent (is_same (or_else value c.state.desired) c.applied) _ _
          (idle, refl, refl)
          (pending, refl, (not_available c.available _ free, (c.revision, refl))))
  ]

  answer-Consistent :
      (accepted : Option Bool) (c : DesiredControl T)
      → Consistent c
      → Consistent (answer is_same rejection_message unavailable_message accepted c)
  answer-Consistent (some true) c h = h
  answer-Consistent (some false) c h = (idle, refl, refl)
  answer-Consistent none c h = (idle, refl, refl)

  happen-Consistent :
      (event : Event T) (c : DesiredControl T) → Consistent c → Consistent (happen event c)
  unfolding cancel settle
  happen-Consistent (rendered applied revision available) c h =
      render-Consistent applied revision available c h
  happen-Consistent (previewed value) c h = preview_value-Consistent value c h
  happen-Consistent cancelled c h = cancel_in-Consistent c.state.phase c h
  happen-Consistent (committed value) c h = commit-Consistent value c h
  happen-Consistent (answered token accepted) c h =
      both_branches Consistent (c.token == token) _ _ (answer-Consistent accepted c h) h

  happen_all-Consistent' :
      (events : List (Event T)) (c : DesiredControl T)
      → Consistent c
      → Consistent (happen_all events c)
  happen_all-Consistent' [] c h = h
  happen_all-Consistent' (event ∷ events) c h =
      happen_all-Consistent' events (happen event c) (happen-Consistent event c h)

  -- If the test for sameness holds of equal values alone, whatever happens to a new control, it is idle and
  -- shows the applied value, or it is available and previews a value, or it is available and
  -- waits for a value, with the revision at which that was submitted.
  pub happen_all-Consistent :
      (applied : T) (revision : ℕ) (available : Bool) (events : List (Event T))
      → Consistent (happen_all events (create_control applied revision available))
  happen_all-Consistent applied revision available events =
      happen_all-Consistent' events (create_control applied revision available) (idle, refl, refl)
