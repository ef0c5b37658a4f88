-- ===== src/Hooks/SnapshotHook.antt =====
-- `getSnapshot` of `useLoadgenSnapshot` (frontend/src/hooks/useLoadgenSnapshot.ts), which composes the two
-- derivers. The adapter's snapshot is known by a reference, `object` gives the snapshot of one, and
-- what `pauseDeriver` gives for it is known by the same reference.
pub mod Reads
use ingestion_lab_loadgen.Loadgen.{LoadgenSnapshot, LoadgenTelemetrySnapshot}
use ingestion_lab_loadgen.Prelude.{Bool, Option, if◌then◌else◌, is_some, none, some, ℕ, ◌&&◌}
use ingestion_lab_loadgen.ChannelFlow.Deriver.{ChannelFlowStateDeriver}
use ingestion_lab_loadgen.ChannelFlow.Deriver
use ingestion_lab_loadgen.Hooks.PauseFrozen.{PauseFrozenObservedDeriver, is_source, presented}
use ingestion_lab_loadgen.Hooks.PauseFrozen

pub record LoadgenSnapshotPresentation : Type 0 where
  pub snapshot : LoadgenSnapshot
  pub live_snapshot : ℕ
  pub frozen_observed : Bool

-- `derivation`
pub record Derivation : Type 0 where
  pub channel_deriver : ChannelFlowStateDeriver
  pub pause_deriver : PauseFrozenObservedDeriver
  pub source_snapshot : Option ℕ
  pub presentation : Option LoadgenSnapshotPresentation

abbrev pub create_derivation : Derivation
create_derivation = record {
  channel_deriver = Deriver.create_deriver;
  pause_deriver = PauseFrozen.create_deriver;
  source_snapshot = none;
  presentation = none;
}

-- The presentation of a derived snapshot.
abbrev pub presentation_of : ℕ → Bool → Option LoadgenSnapshot → Option LoadgenSnapshotPresentation
presentation_of reference frozen none = none
presentation_of reference frozen (some snapshot) =
    some (record { snapshot = snapshot; live_snapshot = reference; frozen_observed = frozen })

module _ (object : ℕ → LoadgenTelemetrySnapshot) where
  abbrev pub derive_presentation : ℕ → Option ℕ → Derivation → Derivation
  derive_presentation reference now d =
      let pause_deriver = PauseFrozen.derive object reference d.pause_deriver in
      let shown = presented object reference pause_deriver in
      let channel_deriver = Deriver.derive reference shown.snapshot now d.channel_deriver in
      record {
        channel_deriver = channel_deriver;
        pause_deriver = pause_deriver;
        source_snapshot = some reference;
        presentation =
            presentation_of reference shown.frozen_observed channel_deriver.derived_snapshot;
      }

  -- `getSnapshot`, the state after it; what it returns is the presentation there.
  pub get_snapshot : ℕ → Option ℕ → Derivation → Derivation
  get_snapshot reference now d =
      if is_source reference d.source_snapshot && is_some d.presentation
      then d
      else derive_presentation reference now d
