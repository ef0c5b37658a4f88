-- ===== src/ChannelFlow/Tests.antt =====
-- Concrete runs of the properties of the channel flow, and the data that they use.
use ingestion_lab_loadgen.Prelude.{[], arith, none, refl, some, true, ℕ, ◌∷◌, ◌≡◌}
use ingestion_lab_loadgen.HttpAdapter.View.Channels.{neutral_channel}
use ingestion_lab_loadgen.HttpAdapter.View.Controls.{unavailable_control}
use ingestion_lab_loadgen.HttpAdapter.View.{create_snapshot}
use ingestion_lab_loadgen.Loadgen.{
  ChannelTelemetrySnapshot, LoadgenTelemetrySnapshot, connected, reader, reader_to_throttler,
  running, throttler,
}
use ingestion_lab_loadgen.ChannelFlow.Deriver.Display.{
  IsBounded, derive_all, derive_all-IsBounded, next_state-reaches,
}
use ingestion_lab_loadgen.ChannelFlow.Pressure.{effective_channel_pressure, full_pressure}
use ingestion_lab_loadgen.ChannelFlow.Deriver.{ChannelDerivationState, create_deriver, next_state}

abbrev half_full : ChannelTelemetrySnapshot
half_full = record (neutral_channel reader_to_throttler reader throttler) {
  capacity = record (unavailable_control "batches") { applied = some 4 };
  depth_batches = some 2;
  buffered_transactions = some 200;
}

abbrev running_snapshot : ℕ → LoadgenTelemetrySnapshot
running_snapshot revision = record (create_snapshot revision connected none) {
  run_state = running;
  reader_channel = half_full;
}

derive_all-IsBounded_example : IsBounded (
    derive_all
      ((1, running_snapshot 1, some 0)
        ∷ (2, running_snapshot 2, some 100_000)
        ∷ (3, running_snapshot 3, none)
        ∷ [])
      create_deriver)
derive_all-IsBounded_example = derive_all-IsBounded (
    (1, running_snapshot 1, some 0)
    ∷ (2, running_snapshot 2, some 100_000)
    ∷ (3, running_snapshot 3, none)
    ∷ [])

abbrev watched : ChannelDerivationState
watched = record {
  displayed_pressure = full_pressure;
  observed_at = some 70;
  pressure_active = true;
}

next_state-reaches_example :
    (next_state none half_full (some 600_000) watched).displayed_pressure
    ≡ effective_channel_pressure half_full
next_state-reaches_example =
    next_state-reaches half_full 70 600_000 watched refl refl (omega arith) (omega arith)
