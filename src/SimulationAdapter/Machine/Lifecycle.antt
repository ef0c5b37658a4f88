-- ===== src/SimulationAdapter/Machine/Lifecycle.antt =====
-- Every command keeps the adapter sound, as do the timer and the disposal; none of them throws.
use Prim.Native.String.{String}
use ingestion_lab_loadgen.Prelude.{
  both_branches, ◌||◌, ℕ, ◌+◌, refl, sym, subst, true, false, not, Bool, [], none, some, Bool-cases,
  inl, inr, arith, if◌then◌else◌, ◌==◌,
}
use ingestion_lab_loadgen.Prelude.Results.{Result, Returns, Returns-bind}
use ingestion_lab_loadgen.Simulation.Step.{
  PartialConfig, ChannelNumber, assign_config, update_config,
}
use ingestion_lab_loadgen.Simulation.Step.Controls.{
  update_config-Inv, update_config-config, request_channel_capacity-Inv,
  request_channel_capacity-config, clear_instantaneous_telemetry-Inv,
  clear_instantaneous_telemetry-config, reset-Inv, reset-config,
}
use ingestion_lab_loadgen.Loadgen.{
  paused, NumberValue, fraction, not_finite, LoadgenCommand, set_requested_tps,
  set_throttler_installed, set_worker_count, set_sender_workers, set_reader_channel_capacity,
  set_sender_channel_capacity, set_read_batch_size, set_http_timeout, other_command,
}
use ingestion_lab_loadgen.SimulationAdapter.Ranges.{NumericRange}
use ingestion_lab_loadgen.SimulationAdapter.Ranges.Grid.{
  IsPosition, normalize_numeric_value-IsPosition,
}
use ingestion_lab_loadgen.SimulationAdapter.Snapshot.{is_running, is_paused}
use ingestion_lab_loadgen.SimulationAdapter.Machine.{
  same_Bool, SimulationAdapter, dispose, tick, ConfigKey, requested_tps, reader_workers,
  sender_workers, read_batch_size, http_timeout_ms, config_value, partial, range_of, no_values,
  set_config, update_installed, set_capacity, reset_run_state, Effect, done, refused, done_with,
  set_number, resize_channel, run, pause, perform, conclude, dispatch,
}
use ingestion_lab_loadgen.SimulationAdapter.Machine.Soundness.{
  InRanges, IsSound, InRanges-Positive, range_of-IsRange, assign_config-InRanges, with_simulation,
  publish_if-IsSound, advance_to_now-IsSound, after_reading,
}
use ingestion_lab_loadgen.SimulationAdapter.Machine.{same_Bool}
use ingestion_lab_loadgen.SimulationAdapter.Machine.{refusal}
use ingestion_lab_loadgen.Loadgen.{ErrorCode}

-- A sound adapter after `updateConfig` of its simulation.
configured :
    (a : SimulationAdapter) (values : PartialConfig)
    → IsSound a
    → InRanges (assign_config a.simulation.config values)
    → IsSound (record a { simulation = update_config values a.simulation })
configured a values v r =
    with_simulation a (update_config values a.simulation) v
      (update_config-Inv values a.simulation
        (InRanges-Positive (assign_config a.simulation.config values) r) v.inv)
      (subst InRanges (sym (update_config-config values a.simulation)) r)

set_config-IsSound :
    (key : ConfigKey) (value now : ℕ) (a : SimulationAdapter)
    → IsPosition (range_of key) value
    → IsSound a
    → Returns (λ r. IsSound r.0) (set_config key value now a)
unfolding set_config
set_config-IsSound key value now a p v =
    after_reading (λ r. IsSound r.0) now a _ v
      λ r k.
        both_branches (λ (q : SimulationAdapter × Bool). IsSound q.0)
          (config_value key r.0.simulation.config == value) _ _ k
          (configured r.0 (partial key value) k
            (assign_config-InRanges key value r.0.simulation.config p k.ranges))

update_installed-IsSound :
    (value : Bool) (now : ℕ) (a : SimulationAdapter)
    → IsSound a
    → Returns (λ r. IsSound r.0) (update_installed value now a)
unfolding update_installed
update_installed-IsSound value now a v =
    after_reading (λ r. IsSound r.0) now a _ v
      λ r k.
        both_branches (λ (q : SimulationAdapter × Bool). IsSound q.0)
          (same_Bool r.0.simulation.config.throttler_installed value) _ _ k
          (configured r.0 (record no_values { throttler_installed = some value }) k k.ranges)

set_capacity-IsSound :
    (channel : ChannelNumber) (capacity now : ℕ) (a : SimulationAdapter)
    → IsSound a
    → Returns (λ r. IsSound r.0) (set_capacity channel capacity now a)
unfolding set_capacity
set_capacity-IsSound channel capacity now a v =
    after_reading (λ r. IsSound r.0) now a _ v
      λ r k.
        with_simulation r.0 _ k (request_channel_capacity-Inv channel capacity r.0.simulation k.inv)
          (subst InRanges (sym (request_channel_capacity-config channel capacity r.0.simulation))
            k.ranges)

-- What a command's effect leaves sound.
abbrev pub Sound : Effect → Type 0
Sound (done a changed) = IsSound a
Sound (refused error) = Unit

done_with-Sound :
    (r : Result (SimulationAdapter × Bool))
    → Returns (λ q. IsSound q.0) r
    → Returns Sound (done_with r)
done_with-Sound r h = Returns-bind (λ q. IsSound q.0) Sound r _ h λ q k. k

set_number-Sound :
    (key : ConfigKey) (message : String) (value : NumberValue) (now : ℕ) (a : SimulationAdapter)
    → IsSound a
    → Returns Sound (set_number key message value now a)
set_number-Sound key message not_finite now a v = tt
set_number-Sound key message (fraction z n) now a v = done_with-Sound _ (
    set_config-IsSound key _ now a
      (normalize_numeric_value-IsPosition z n (range_of key) (range_of-IsRange key)) v)

resize_channel-Sound :
    (channel : ChannelNumber) (range : NumericRange) (value : NumberValue) (now : ℕ)
    (a : SimulationAdapter)
    → IsSound a
    → Returns Sound (resize_channel channel range value now a)
resize_channel-Sound channel range not_finite now a v = tt
resize_channel-Sound channel range (fraction z n) now a v =
    done_with-Sound _ (set_capacity-IsSound channel _ now a v)

run-Sound : (now : ℕ) (a : SimulationAdapter) → IsSound a → Returns Sound (run now a)
unfolding run
run-Sound now a v = elim (Bool-cases (is_running a.run_state)) [
  | inl e ↦ rw (e) (done_with-Sound _ (advance_to_now-IsSound now a v))
  | inr e ↦ rw (e) record {
    inv = clear_instantaneous_telemetry-Inv a.simulation v.inv;
    ranges = subst InRanges (sym (clear_instantaneous_telemetry-config a.simulation)) v.ranges;
    waiting = v.waiting;
    published = v.published;
    timer = v.timer;
  }
]

pause-Sound : (now : ℕ) (a : SimulationAdapter) → IsSound a → Returns Sound (pause now a)
unfolding pause
pause-Sound now a v =
    after_reading Sound now a _ v λ r k. paused_or_not (is_paused r.0.run_state) r k
  where
    paused_or_not :
        (already : Bool) (r : SimulationAdapter × Bool)
        → IsSound r.0
        → Sound (if already then done r.0 r.1 else done (record r.0 { run_state = paused }) true)
    paused_or_not true r k = k
    paused_or_not false r k = record {
      inv = k.inv;
      ranges = k.ranges;
      waiting = k.waiting;
      published = k.published;
      timer = k.timer;
    }

reset-Sound :
    (now : ℕ) (a : SimulationAdapter)
    → IsSound a
    → Returns Sound (perform LoadgenCommand.reset now a)
unfolding perform reset_run_state
reset-Sound now a v = elim (Bool-cases (is_running a.run_state)) [
  | inl e ↦ rw (e) tt
  | inr e ↦ rw (e) record {
    inv = reset-Inv a.simulation v.inv;
    ranges = subst InRanges (sym (reset-config a.simulation)) v.ranges;
    waiting = omega arith;
    published = v.published;
    timer = v.timer;
  }
]

pub perform-Sound :
    (command : LoadgenCommand) (now : ℕ) (a : SimulationAdapter)
    → IsSound a
    → Returns Sound (perform command now a)
unfolding perform
perform-Sound LoadgenCommand.run now a v = run-Sound now a v
perform-Sound LoadgenCommand.pause now a v = pause-Sound now a v
perform-Sound LoadgenCommand.reset now a v = reset-Sound now a v
perform-Sound (set_requested_tps value) now a v = set_number-Sound requested_tps _ value now a v
perform-Sound (set_throttler_installed none) now a v = tt
perform-Sound (set_throttler_installed (some value)) now a v =
    done_with-Sound _ (update_installed-IsSound value now a v)
perform-Sound (set_worker_count value) now a v = set_number-Sound reader_workers _ value now a v
perform-Sound (set_sender_workers value) now a v = set_number-Sound sender_workers _ value now a v
perform-Sound (set_reader_channel_capacity value) now a v =
    resize_channel-Sound ChannelNumber.reader _ value now a v
perform-Sound (set_sender_channel_capacity value) now a v =
    resize_channel-Sound ChannelNumber.sender _ value now a v
perform-Sound (set_read_batch_size value) now a v = set_number-Sound read_batch_size _ value now a v
perform-Sound (set_http_timeout value) now a v = set_number-Sound http_timeout_ms _ value now a v
perform-Sound other_command now a v = tt

conclude-IsSound :
    (command : LoadgenCommand) (at : ℕ) (a : SimulationAdapter) (e : Effect)
    → IsSound a
    → Sound e
    → IsSound (conclude command at a e).0
unfolding conclude
conclude-IsSound command at a (refused error) v h = v
conclude-IsSound command at a (done a' changed) v h = publish_if-IsSound changed a' h

pub numbered-IsSound :
    (n : ℕ) (a : SimulationAdapter) → IsSound a → IsSound (record a { command_sequence = n })
numbered-IsSound n a v = record {
  inv = v.inv;
  ranges = v.ranges;
  waiting = v.waiting;
  published = v.published;
  timer = v.timer;
}

-- A sound adapter takes any command, whatever number it carries and whatever the clock says: the
-- dispatch returns a receipt and leaves the adapter sound, so the simulation's invariant holds, every
-- value of the configuration that commands write is a position of its range, less than a step of time waits, and the
-- published snapshot is that of the current revision.
pub dispatch-IsSound :
    (command : LoadgenCommand) (now at : ℕ) (a : SimulationAdapter)
    → IsSound a
    → Returns (λ r. IsSound r.0) (dispatch command now at a)
unfolding dispatch
dispatch-IsSound command now at a v =
    let n : SimulationAdapter = record a { command_sequence = a.command_sequence + 1 } in
    let w = numbered-IsSound (a.command_sequence + 1) a v in
    both_branches (Returns (λ r. IsSound r.0)) a.disposed _ _
      (conclude-IsSound command at n
        (refused (refusal ErrorCode.disposed "simulation adapter is disposed")) w tt)
      (Returns-bind Sound (λ r. IsSound r.0) (perform command now n) _
        (perform-Sound command now n w) λ q h. conclude-IsSound command at n q w h)

pub tick-IsSound : (now : ℕ) (a : SimulationAdapter) → IsSound a → Returns IsSound (tick now a)
unfolding tick
tick-IsSound now a v =
    both_branches (Returns IsSound) (a.disposed || not (is_running a.run_state)) _ _
      (record {
        inv = v.inv;
        ranges = v.ranges;
        waiting = v.waiting;
        published = v.published;
        timer = v.timer;
      })
      (after_reading IsSound now a _ v λ r k. publish_if-IsSound r.1 r.0 k)

pub dispose-IsSound : (a : SimulationAdapter) → IsSound a → IsSound (dispose a)
unfolding dispose
dispose-IsSound a v =
    both_branches IsSound a.disposed a
      (record a { disposed = true; timer_set = false; listeners = [] }) v
      record {
        inv = v.inv;
        ranges = v.ranges;
        waiting = v.waiting;
        published = v.published;
        timer = refl;
      }
