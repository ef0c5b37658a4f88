-- ===== src/SimulationAdapter/Tests.antt =====
-- The adapter's theorems at concrete inputs.
use ingestion_lab_loadgen.Prelude.{◌≡◌, List, [], ◌∷◌, ◌||◌, arith}
use ingestion_lab_loadgen.Prelude.Int.{pos, negsuc}
use ingestion_lab_loadgen.Prelude.Results.{Returns}
use ingestion_lab_loadgen.Loadgen.{
  fraction, not_finite, LoadgenCommand, set_sender_workers, running,
}
use ingestion_lab_loadgen.SimulationAdapter.Ranges.{control_ranges, normalize_numeric_value}
use ingestion_lab_loadgen.SimulationAdapter.Ranges.Grid.{
  IsPosition, normalize_numeric_value-IsPosition, normalize_numeric_value-fixed,
}
use ingestion_lab_loadgen.SimulationAdapter.Machine.Values.{Replaced, set_config-Replaced}
use ingestion_lab_loadgen.SimulationAdapter.Machine.{
  ConfigKey, set_config, SimulationAdapter, create_adapter, advance_to_now, dispatch,
}
use ingestion_lab_loadgen.SimulationAdapter.Machine.Clock.{Advanced, advance_to_now-Advanced}
use ingestion_lab_loadgen.SimulationAdapter.Machine.Soundness.{IsSound, create_adapter-IsSound}
use ingestion_lab_loadgen.SimulationAdapter.Machine.Written.{Dispatched, dispatch-Dispatched}
use ingestion_lab_loadgen.SimulationAdapter.Machine.Events.{
  Event, command_sent, timer_fired, listener_added, closed, happen_all, happen_all-IsSound,
}
use ingestion_lab_loadgen.SimulationAdapter.Machine.Effects.{refuses}
use ingestion_lab_loadgen.SimulationAdapter.Machine.Receipts.{Answered, dispatch-Answered}
use ingestion_lab_loadgen.Loadgen.{set_reader_channel_capacity}

-- A run with a listener, two changes, half a second of time and the end.
abbrev sample_events : List Event
sample_events =
    listener_added 1
    ∷ command_sent LoadgenCommand.run 1_000 1_001
    ∷ timer_fired 1_100
    ∷ command_sent (set_sender_workers (fraction (pos 9) 1)) 1_204 1_204
    ∷ command_sent LoadgenCommand.reset 1_300 1_300
    ∷ timer_fired 1_500
    ∷ closed
    ∷ []

happen_all-IsSound_example : Returns IsSound (happen_all sample_events (create_adapter 900))
happen_all-IsSound_example = happen_all-IsSound 900 sample_events

dispatch-Dispatched_example :
    Returns
      (Dispatched (set_reader_channel_capacity (fraction (negsuc 4) 0)) (create_adapter 900))
      (dispatch (set_reader_channel_capacity (fraction (negsuc 4) 0)) 950 951 (create_adapter 900))
dispatch-Dispatched_example =
    dispatch-Dispatched (set_reader_channel_capacity (fraction (negsuc 4) 0)) 950 951
      (create_adapter 900) (create_adapter-IsSound 900)

dispatch-Answered_example :
    Returns
      (Answered
        ((create_adapter 900).disposed
          || refuses (set_sender_workers not_finite) (create_adapter 900).run_state)
        951
        (create_adapter 900))
      (dispatch (set_sender_workers not_finite) 950 951 (create_adapter 900))
dispatch-Answered_example =
    dispatch-Answered (set_sender_workers not_finite) 950 951 (create_adapter 900)
      (create_adapter-IsSound 900)

-- An adapter that runs, with four milliseconds waiting.
abbrev running_adapter : SimulationAdapter
running_adapter = record (create_adapter 900) { run_state = running; pending_step_ms = 4 }

advance_to_now-Advanced_example :
    Returns (λ r. Advanced 1_037 running_adapter r.0) (advance_to_now 1_037 running_adapter)
advance_to_now-Advanced_example =
    advance_to_now-Advanced 1_037 running_adapter (create_adapter-IsSound 900).inv (omega arith)

normalize_numeric_value-IsPosition_example :
    IsPosition control_ranges.requested_tps
      (normalize_numeric_value (pos 12_345) 0 control_ranges.requested_tps)
normalize_numeric_value-IsPosition_example =
    normalize_numeric_value-IsPosition (pos 12_345) 0 control_ranges.requested_tps
      (omega arith, (50, omega arith))

normalize_numeric_value-fixed_example :
    normalize_numeric_value (pos 15_000) 0 control_ranges.requested_tps ≡ 15_000
normalize_numeric_value-fixed_example =
    normalize_numeric_value-fixed 15_000 control_ranges.requested_tps
      (omega arith, (50, omega arith)) (omega arith, omega arith, (3, omega arith))

set_config-Replaced_example :
    Returns
      (Replaced ConfigKey.read_batch_size 2_000 (create_adapter 900).simulation.config)
      (set_config ConfigKey.read_batch_size 2_000 950 (create_adapter 900))
set_config-Replaced_example =
    set_config-Replaced ConfigKey.read_batch_size 2_000 950 (create_adapter 900)
      (create_adapter-IsSound 900)
