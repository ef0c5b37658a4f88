-- ===== src/Simulation/Run.antt =====
-- Any sequence of calls of a simulation's public methods (frontend/src/model/simulation.ts).
pub mod Conservation
use ingestion_lab_loadgen.Prelude.{ℕ, List, [], ◌∷◌}
use ingestion_lab_loadgen.Prelude.Results.{Result, ok, ◌>>=◌}
use ingestion_lab_loadgen.Simulation.State.{Simulation}
use ingestion_lab_loadgen.Simulation.Step.{
  PartialConfig, ChannelNumber, advance_step, update_config, request_channel_capacity,
  clear_instantaneous_telemetry, reset,
}

pub data Call : Type 0 where
  advance clear restart : Call
  configure : PartialConfig → Call
  resize : ChannelNumber → ℕ → Call

pub make_call : Call → Simulation → Result Simulation
make_call advance s = advance_step s
make_call clear s = ok (clear_instantaneous_telemetry s)
make_call restart s = ok (reset s)
make_call (configure values) s = ok (update_config values s)
make_call (resize channel capacity) s = ok (request_channel_capacity channel capacity s).0

pub make_calls : List Call → Simulation → Result Simulation
unfolding make_call
make_calls [] s = ok s
make_calls (call ∷ calls) s = do s' ← make_call call s; make_calls calls s'
