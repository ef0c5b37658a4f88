-- ===== src/ChannelFlow/Deriver.antt =====
-- `ChannelFlowStateDeriver` of frontend/src/model/channelFlowState.ts. A snapshot comes with its
-- reference, as the code compares snapshots by identity; a time that is not finite is none.
pub mod Display
pub mod Content
use ingestion_lab_loadgen.SimulationAdapter.Snapshot.{is_running}
use ingestion_lab_loadgen.Loadgen.{
  ChannelFlowState, ChannelSnapshot, ChannelTelemetrySnapshot, ConnectionState, LoadgenSnapshot,
  LoadgenTelemetrySnapshot, Rate, RunState, connection_error, stopped, ChannelId,
  reader_to_throttler, throttler_to_sender,
}
use ingestion_lab_loadgen.Prelude.{
  Bool, Option, false, if◌then◌else◌, is_some, leb, none, not, or_else, some, ℕ, ◌&&◌, ◌-◌, ◌==◌,
  ◌||◌,
}
use ingestion_lab_loadgen.HttpAdapter.View.Controls.{is_connected}
use ingestion_lab_loadgen.ChannelFlow.Pressure.{
  effective_channel_pressure, full_pressure, has_rendezvous_waiter, move_displayed_pressure,
  no_pressure, pressure_flow_state,
}

-- `channelMode`
abbrev pub channel_mode :
    ChannelTelemetrySnapshot → RunState → ConnectionState → Option ChannelFlowState
channel_mode channel run_state link =
    if not (is_connected link)
      || not (is_some channel.depth_batches)
      || not (is_some channel.capacity.applied)
    then some connection_error
    else if not (is_running run_state)
    then some stopped
    else none

pub record ChannelDerivationState : Type 0 where
  pub displayed_pressure : Rate
  pub observed_at : Option ℕ
  pub pressure_active : Bool

abbrev pub initial_state : ChannelDerivationState
initial_state = record {
  displayed_pressure = no_pressure;
  observed_at = none;
  pressure_active = false;
}

-- `elapsedMs`, none where the clock went back or is not finite: both count as no time.
abbrev pub elapsed_between : Option ℕ → Option ℕ → Option ℕ
elapsed_between before none = none
elapsed_between none (some now) = some 0
elapsed_between (some before) (some now) = if leb before now then some (now - before) else none

abbrev pub elapsed_since : ChannelDerivationState → Option ℕ → Option ℕ
elapsed_since state now =
    elapsed_between (if state.pressure_active then state.observed_at else none) now

-- The state after a channel that is observed at this time.
abbrev pub next_state :
    Option ChannelFlowState
    → ChannelTelemetrySnapshot
    → Option ℕ
    → ChannelDerivationState
    → ChannelDerivationState
next_state (some mode) channel now state = record state {
  pressure_active = false;
  observed_at = now;
}
next_state none channel now state =
    let elapsed = elapsed_since state now in
    record {
      displayed_pressure =
          if has_rendezvous_waiter channel
          then full_pressure
          else move_displayed_pressure state.displayed_pressure (effective_channel_pressure channel)
              (or_else elapsed 0);
      observed_at = now;
      pressure_active = is_some elapsed;
    }

-- What `deriveChannel` returns, for the state after it.
abbrev pub channel_snapshot :
    Option ChannelFlowState → ChannelTelemetrySnapshot → ChannelDerivationState → ChannelSnapshot
channel_snapshot mode channel state = record {
  telemetry = channel;
  displayed_pressure = state.displayed_pressure;
  flow_state = or_else mode (pressure_flow_state state.displayed_pressure);
}

-- `reader_state` and `sender_state` are the entries of `channelStates`, one for each channel's id.
pub record ChannelFlowStateDeriver : Type 0 where
  pub reader_state : ChannelDerivationState
  pub sender_state : ChannelDerivationState
  pub source_snapshot : Option ℕ
  pub derived_snapshot : Option LoadgenSnapshot

abbrev pub create_deriver : ChannelFlowStateDeriver
create_deriver = record {
  reader_state = initial_state;
  sender_state = initial_state;
  source_snapshot = none;
  derived_snapshot = none;
}

-- `channelStates.get(id)`
abbrev pub get_state : ChannelId → ChannelFlowStateDeriver → ChannelDerivationState
get_state reader_to_throttler d = d.reader_state
get_state throttler_to_sender d = d.sender_state

-- `channelStates.set(id, state)`
abbrev pub set_state :
    ChannelId → ChannelDerivationState → ChannelFlowStateDeriver → ChannelFlowStateDeriver
set_state reader_to_throttler state d = record d { reader_state = state }
set_state throttler_to_sender state d = record d { sender_state = state }

-- `deriveChannel`: the snapshot of the channel, and the deriver that remembers its state.
abbrev pub derive_channel :
    ChannelTelemetrySnapshot
    → RunState
    → ConnectionState
    → Option ℕ
    → ChannelFlowStateDeriver
    → ChannelSnapshot × ChannelFlowStateDeriver
derive_channel channel run_state link now d =
    let mode = channel_mode channel run_state link in
    let state = next_state mode channel now (get_state channel.id d) in
    (channel_snapshot mode channel state, set_state channel.id state d)

abbrev pub is_source : ℕ → Option ℕ → Bool
is_source reference none = false
is_source reference (some origin) = origin == reference

abbrev pub derive_afresh :
    ℕ → LoadgenTelemetrySnapshot → Option ℕ → ChannelFlowStateDeriver → ChannelFlowStateDeriver
derive_afresh reference snapshot now d =
    let first =
      derive_channel snapshot.reader_channel snapshot.run_state snapshot.connection_state now d in
    let second =
      derive_channel snapshot.sender_channel snapshot.run_state snapshot.connection_state now
        first.1 in
    record second.1 {
      source_snapshot = some reference;
      derived_snapshot =
          some
            (record { telemetry = snapshot; reader_channel = first.0; sender_channel = second.0 });
    }

-- `derive`, the state after it; what it returns is the derived snapshot there.
pub derive :
    ℕ → LoadgenTelemetrySnapshot → Option ℕ → ChannelFlowStateDeriver → ChannelFlowStateDeriver
derive reference snapshot now d =
    if is_source reference d.source_snapshot && is_some d.derived_snapshot
    then d
    else derive_afresh reference snapshot now d
