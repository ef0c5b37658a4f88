-- ===== src/Hooks/DesiredControl.antt =====
-- `useDesiredControl` of frontend/src/hooks/useDesiredControl.ts: a control whose value is previewed, sent
-- and confirmed by a later snapshot. The component is rendered after each event, so that the
-- references hold what was rendered last. The promise of `dispatch` is answered in an event of its own.
pub mod Consistency
use Prim.Native.String.{String}
use ingestion_lab_loadgen.Prelude.{
  Bool, List, Option, [], false, if◌then◌else◌, is_some, ltb, none, not, or_else, some, true, ℕ,
  ◌&&◌, ◌++◌, ◌+◌, ◌==◌, ◌||◌, ◌∷◌,
}

pub data DesiredControlPhase : Type 0 where
  idle preview pending : DesiredControlPhase

pub record DesiredState (T : Type 0) : Type 0 where
  pub desired : T
  pub phase : DesiredControlPhase
  pub submitted_revision : Option ℕ
  pub error : Option String

-- The state, the properties of the last rendering, the token, and what was dispatched, each with its
-- token.
pub record DesiredControl (T : Type 0) : Type 0 where
  pub state : DesiredState T
  pub applied : T
  pub revision : ℕ
  pub available : Bool
  pub token : ℕ
  pub dispatched : List (ℕ × T)

abbrev pub is_idle_phase : DesiredControlPhase → Bool
is_idle_phase idle = true
is_idle_phase preview = false
is_idle_phase pending = false

abbrev pub is_pending : DesiredControlPhase → Bool
is_pending pending = true
is_pending idle = false
is_pending preview = false

-- The control rests at a value, with an error or none.
abbrev pub rest_at : {T : Type 0} → T → Option String → DesiredState T
rest_at applied message = record {
  desired = applied;
  phase = idle;
  submitted_revision = none;
  error = message;
}

-- The first rendering.
abbrev pub create_control : {T : Type 0} → T → ℕ → Bool → DesiredControl T
create_control applied revision available = record {
  state = rest_at applied none;
  applied = applied;
  revision = revision;
  available = available;
  token = 0;
  dispatched = [];
}

-- `revision > current.submittedRevision`, and that is not null
abbrev pub is_later : ℕ → Option ℕ → Bool
is_later revision none = false
is_later revision (some submitted) = ltb submitted revision

-- `Object.is` is a parameter, and so are the messages.
module _ {T : Type 0} (is_same : T → T → Bool)
    (rejection_message unavailable_message : String) where
  abbrev pub confirm : T → ℕ → DesiredControl T → DesiredControl T
  confirm applied revision c =
      if is_later revision c.state.submitted_revision && is_same applied c.state.desired
      then record c { token = c.token + 1; state = rest_at applied none }
      else c

  -- The effect, while the control is available.
  abbrev pub follow : DesiredControlPhase → T → ℕ → DesiredControl T → DesiredControl T
  follow idle applied revision c =
      if is_same c.state.desired applied
      then c
      else record c { state = record c.state { desired = applied } }
  follow preview applied revision c = c
  follow pending applied revision c = confirm applied revision c

  -- The effect, while it is not.
  abbrev pub withdraw : T → DesiredControl T → DesiredControl T
  withdraw applied c =
      let idle_now = is_idle_phase c.state.phase in
      let resting = is_same c.state.desired applied && idle_now && not (is_some c.state.error) in
      record c {
        token = if idle_now then c.token else c.token + 1;
        state = if resting then c.state else rest_at applied none;
      }

  -- A rendering with other properties, and the effect after it.
  pub render : T → ℕ → Bool → DesiredControl T → DesiredControl T
  render applied revision available c =
      let rendered = record c { applied = applied; revision = revision; available = available } in
      if available
      then follow c.state.phase applied revision rendered
      else withdraw applied rendered

  pub preview_value : T → DesiredControl T → DesiredControl T
  preview_value value c = if not c.available || is_pending c.state.phase then c else record c {
    state = record { desired = value; phase = preview; submitted_revision = none; error = none };
  }

  abbrev pub cancel_in : DesiredControlPhase → DesiredControl T → DesiredControl T
  cancel_in idle c = c
  cancel_in preview c = record c { token = c.token + 1; state = rest_at c.applied none }
  cancel_in pending c = c

  pub cancel : DesiredControl T → DesiredControl T
  cancel c = cancel_in c.state.phase c

  abbrev pub submit : T → DesiredControl T → DesiredControl T
  submit desired c =
      let token = c.token + 1 in
      record c {
        token = token;
        state = record {
          desired = desired;
          phase = pending;
          submitted_revision = some c.revision;
          error = none;
        };
        dispatched = c.dispatched ++ (token, desired) ∷ [];
      }

  -- The start of `commit`, with a value or with the one that is desired.
  pub commit : Option T → DesiredControl T → DesiredControl T
  commit value c =
      let desired = or_else value c.state.desired in
      if not c.available || is_pending c.state.phase
      then c
      else if is_same desired c.applied
      then record c { state = rest_at c.applied none }
      else submit desired c

  -- What an answer does: an acceptance nothing, a rejection and a failure (none) bring the value back.
  abbrev pub answer : Option Bool → DesiredControl T → DesiredControl T
  answer (some true) c = c
  answer (some false) c = record c { state = rest_at c.applied (some rejection_message) }
  answer none c = record c { state = rest_at c.applied (some unavailable_message) }

  -- The rest of `commit`, when the answer is there: one to an older token changes nothing.
  pub settle : ℕ → Option Bool → DesiredControl T → DesiredControl T
  settle token accepted c = if c.token == token then answer accepted c else c
