-- ===== src/ChannelFlow/Deriver/Content.antt =====
-- What is derived for a snapshot that was not derived just before: its telemetry, and its channels'.
use ingestion_lab_loadgen.Loadgen.{LoadgenSnapshot, LoadgenTelemetrySnapshot}
use ingestion_lab_loadgen.Prelude.{Option, false, none, refl, some, ℕ, ◌≡◌}
use ingestion_lab_loadgen.ChannelFlow.Deriver.{ChannelFlowStateDeriver, derive, is_source}

abbrev pub Derives : LoadgenTelemetrySnapshot → LoadgenSnapshot → Type 0
Derives telemetry s =
    (s.telemetry ≡ telemetry)
    × (s.reader_channel.telemetry ≡ telemetry.reader_channel)
    × (s.sender_channel.telemetry ≡ telemetry.sender_channel)

abbrev pub DerivesOne : LoadgenTelemetrySnapshot → Option LoadgenSnapshot → Type 0
DerivesOne telemetry none = ⊥
DerivesOne telemetry (some s) = Derives telemetry s

pub derive-DerivesOne :
    (reference : ℕ) (telemetry : LoadgenTelemetrySnapshot) (now : Option ℕ)
    (d : ChannelFlowStateDeriver)
    → is_source reference d.source_snapshot ≡ false
    → DerivesOne telemetry (derive reference telemetry now d).derived_snapshot
      × ((derive reference telemetry now d).source_snapshot ≡ some reference)
unfolding derive
derive-DerivesOne reference telemetry now d e = rw e ((refl, refl, refl), refl)
