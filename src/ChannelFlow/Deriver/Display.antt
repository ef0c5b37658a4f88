-- ===== src/ChannelFlow/Deriver/Display.antt =====
-- The displayed pressure: always one between 0 and 1, and after half a second the channel's own.
use ingestion_lab_loadgen.Loadgen.{
  ChannelFlowState, ChannelTelemetrySnapshot, LoadgenSnapshot, LoadgenTelemetrySnapshot, ChannelId,
  ConnectionState, RunState, reader_to_throttler, throttler_to_sender,
}
use ingestion_lab_loadgen.Prelude.{
  List, Option, [], arith, both_branches, is_some, none, or_else, some, true, ℕ, ◌&&◌, ◌+◌, ◌-◌,
  ◌∷◌, ◌≡◌, ◌≤◌, Bool-cases, inl, inr, leb, le→leb, sym, and_elim,
}
use ingestion_lab_loadgen.ChannelFlow.Deriver.{
  is_source, ChannelDerivationState, ChannelFlowStateDeriver, channel_mode, create_deriver, derive,
  elapsed_since, next_state, derive_channel, get_state, set_state,
}
use ingestion_lab_loadgen.ChannelFlow.Pressure.Bounds.{
  IsPressure, effective_channel_pressure-IsPressure, move_displayed_pressure-IsPressure,
  effective_channel_pressure-waiter, move_displayed_pressure-reaches,
}
use ingestion_lab_loadgen.ChannelFlow.Pressure.{effective_channel_pressure, has_rendezvous_waiter}

-- What is derived for a snapshot.
abbrev pub Displays : LoadgenSnapshot → Type 0
Displays s =
    IsPressure s.reader_channel.displayed_pressure × IsPressure s.sender_channel.displayed_pressure

abbrev pub DisplaysIfAny : Option LoadgenSnapshot → Type 0
DisplaysIfAny none = Unit
DisplaysIfAny (some s) = Displays s

pub record IsBounded (d : ChannelFlowStateDeriver) : Type 0 where
  pub reader : IsPressure d.reader_state.displayed_pressure
  pub sender : IsPressure d.sender_state.displayed_pressure
  pub derived : DisplaysIfAny d.derived_snapshot

next_state-IsPressure :
    (mode : Option ChannelFlowState) (c : ChannelTelemetrySnapshot) (now : Option ℕ)
    (state : ChannelDerivationState)
    → IsPressure state.displayed_pressure
    → IsPressure (next_state mode c now state).displayed_pressure
next_state-IsPressure (some mode) c now state h = h
next_state-IsPressure none c now state h =
    both_branches IsPressure (has_rendezvous_waiter c) _ _ (omega arith) (
      move_displayed_pressure-IsPressure state.displayed_pressure (effective_channel_pressure c)
        (or_else (elapsed_since state now) 0) h (effective_channel_pressure-IsPressure c))

get_state-IsPressure :
    (id : ChannelId) (d : ChannelFlowStateDeriver)
    → IsBounded d
    → IsPressure (get_state id d).displayed_pressure
get_state-IsPressure reader_to_throttler d h = h.reader
get_state-IsPressure throttler_to_sender d h = h.sender

set_state-IsBounded :
    (id : ChannelId) (state : ChannelDerivationState) (d : ChannelFlowStateDeriver)
    → IsPressure state.displayed_pressure
    → IsBounded d
    → IsBounded (set_state id state d)
set_state-IsBounded reader_to_throttler state d p h = record {
  reader = p;
  sender = h.sender;
  derived = h.derived;
}
set_state-IsBounded throttler_to_sender state d p h = record {
  reader = h.reader;
  sender = p;
  derived = h.derived;
}

derive_channel-IsBounded :
    (c : ChannelTelemetrySnapshot) (run : RunState) (link : ConnectionState) (now : Option ℕ)
    (d : ChannelFlowStateDeriver)
    → IsBounded d
    → IsPressure (derive_channel c run link now d).0.displayed_pressure
      × IsBounded (derive_channel c run link now d).1
derive_channel-IsBounded c run link now d h =
    let mode = channel_mode c run link in
    let p : IsPressure (next_state mode c now (get_state c.id d)).displayed_pressure =
      next_state-IsPressure mode c now (get_state c.id d) (get_state-IsPressure c.id d h) in
    (p, set_state-IsBounded c.id (next_state mode c now (get_state c.id d)) d p h)

pub derive-IsBounded :
    (reference : ℕ) (snapshot : LoadgenTelemetrySnapshot) (now : Option ℕ)
    (d : ChannelFlowStateDeriver)
    → IsBounded d
    → IsBounded (derive reference snapshot now d)
unfolding derive
derive-IsBounded reference s now d h =
    let first = derive_channel-IsBounded s.reader_channel s.run_state s.connection_state now d h in
    let d' = (derive_channel s.reader_channel s.run_state s.connection_state now d).1 in
    let second =
      derive_channel-IsBounded s.sender_channel s.run_state s.connection_state now d' first.1 in
    both_branches IsBounded (is_source reference d.source_snapshot && is_some d.derived_snapshot) _
      _ h
      (record { reader = second.1.reader; sender = second.1.sender; derived = (first.0, second.0) })

-- Something is derived.
abbrev pub DisplaysOne : Option LoadgenSnapshot → Type 0
DisplaysOne none = ⊥
DisplaysOne (some s) = Displays s

derived-DisplaysOne :
    (o : Option LoadgenSnapshot) → is_some o ≡ true → DisplaysIfAny o → DisplaysOne o
derived-DisplaysOne none e h = cc
derived-DisplaysOne (some s) e h = h

pub derive-Displays :
    (reference : ℕ) (snapshot : LoadgenTelemetrySnapshot) (now : Option ℕ)
    (d : ChannelFlowStateDeriver)
    → IsBounded d
    → DisplaysOne (derive reference snapshot now d).derived_snapshot
unfolding derive
derive-Displays reference s now d h =
    let first = derive_channel-IsBounded s.reader_channel s.run_state s.connection_state now d h in
    let d' = (derive_channel s.reader_channel s.run_state s.connection_state now d).1 in
    let second =
      derive_channel-IsBounded s.sender_channel s.run_state s.connection_state now d' first.1 in
    elim (Bool-cases (is_source reference d.source_snapshot && is_some d.derived_snapshot)) [
      | inl e ↦ rw e (derived-DisplaysOne d.derived_snapshot (and_elim _ _ e).1 h.derived)
      | inr e ↦ rw e (first.0, second.0)
    ]

pub create_deriver-IsBounded : IsBounded create_deriver
create_deriver-IsBounded = record { reader = omega arith; sender = omega arith; derived = tt }

-- The deriver after snapshots that are observed one after another, each with its reference and time.
abbrev pub derive_all :
    List (ℕ × LoadgenTelemetrySnapshot × Option ℕ)
    → ChannelFlowStateDeriver
    → ChannelFlowStateDeriver
derive_all [] d = d
derive_all ((reference, snapshot, now) ∷ observations) d =
    derive_all observations (derive reference snapshot now d)

derive_all-IsBounded' :
    (observations : List (ℕ × LoadgenTelemetrySnapshot × Option ℕ)) (d : ChannelFlowStateDeriver)
    → IsBounded d
    → IsBounded (derive_all observations d)
derive_all-IsBounded' [] d h = h
derive_all-IsBounded' ((reference, snapshot, now) ∷ observations) d h =
    derive_all-IsBounded' observations (derive reference snapshot now d)
      (derive-IsBounded reference snapshot now d h)

-- Whatever snapshots are observed at whatever times, the pressures of both channels, remembered and
-- derived, stay between 0 and 1.
pub derive_all-IsBounded :
    (observations : List (ℕ × LoadgenTelemetrySnapshot × Option ℕ))
    → IsBounded (derive_all observations create_deriver)
derive_all-IsBounded observations =
    derive_all-IsBounded' observations create_deriver create_deriver-IsBounded

-- An active channel that is observed again after half a second or more, while the generator runs and
-- is connected, displays the pressure that the channel has, whatever was displayed before.
pub next_state-reaches :
    (c : ChannelTelemetrySnapshot) (before later : ℕ) (state : ChannelDerivationState)
    → state.pressure_active ≡ true
    → state.observed_at ≡ some before
    → before + 500_000 ≤ later
    → IsPressure state.displayed_pressure
    → (next_state none c (some later) state).displayed_pressure ≡ effective_channel_pressure c
next_state-reaches c before later state active observed l h =
    let in_order : leb before later ≡ true = le→leb before later (omega arith) in
    let fresh : elapsed_since state (some later) ≡ some (later - before) =
      rw (active, observed, in_order) in
    elim (Bool-cases (has_rendezvous_waiter c)) [
      | inl waiter ↦ rw waiter (sym (effective_channel_pressure-waiter c waiter))
      | inr other ↦
          rw (other, fresh)
            (move_displayed_pressure-reaches state.displayed_pressure (effective_channel_pressure c)
              (later - before) h (effective_channel_pressure-IsPressure c) (omega arith))
    ]
