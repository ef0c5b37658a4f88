-- ===== src/SimulationAdapter/Machine/Written.antt =====
-- What the commands that carry a number leave written: the configuration's values and the capacities.
use Prim.Native.String.{String}
use ingestion_lab_loadgen.Prelude.{
  subst, Bool, true, false, arith, both_branches, refl, ℕ, ◌+◌, ◌≡◌,
}
use ingestion_lab_loadgen.Prelude.Int.{ℤ}
use ingestion_lab_loadgen.Prelude.Results.{Returns, Returns-bind, Returns-both, Returns-mono}
use ingestion_lab_loadgen.Simulation.Channel.{StatefulChannel}
use ingestion_lab_loadgen.Simulation.Types.{SimulationConfig}
use ingestion_lab_loadgen.Simulation.State.{Simulation}
use ingestion_lab_loadgen.Simulation.Step.{ChannelNumber}
use ingestion_lab_loadgen.Simulation.Step.Restarted.{
  reader_capacity-requested, requested_capacity, sender_capacity-requested,
}
use ingestion_lab_loadgen.SimulationAdapter.Machine.Lifecycle.{
  Sound, numbered-IsSound, perform-Sound,
}
use ingestion_lab_loadgen.SimulationAdapter.Machine.Values.{Replaced, set_config-Replaced, written}
use ingestion_lab_loadgen.SimulationAdapter.Machine.Soundness.{
  publish_if-IsSound, IsSound, after_reading,
}
use ingestion_lab_loadgen.SimulationAdapter.Machine.{
  publish, reject, ConfigKey, Effect, SimulationAdapter, conclude, dispatch, done, http_timeout_ms,
  perform, publish_if, range_of, read_batch_size, reader_workers, refusal, refused, requested_tps,
  resize_channel, sender_workers, set_capacity, set_number,
}
use ingestion_lab_loadgen.SimulationAdapter.Ranges.{
  NumericRange, control_ranges, normalize_numeric_value,
}
use ingestion_lab_loadgen.SimulationAdapter.Ranges.Grid.{
  IsPosition, IsRange, normalize_numeric_value-IsPosition,
}
use ingestion_lab_loadgen.Loadgen.{
  CommandReceipt, ErrorCode, LoadgenCommand, fraction, not_finite, other_command, set_http_timeout,
  set_read_batch_size, set_reader_channel_capacity, set_requested_tps, set_sender_channel_capacity,
  set_sender_workers, set_throttler_installed, set_worker_count,
}

-- The key's value is the one that was sent, normalized; the rest of the
-- configuration is as before.
abbrev pub WroteValue : ConfigKey → ℤ → ℕ → SimulationConfig → Simulation → Type 0
WroteValue key z n before s =
    let value = normalize_numeric_value z n (range_of key) in s.config ≡ written key value before

-- The capacity that the channel has, or will have once its depth allows, is the one that was sent,
-- normalized, and a position of the range.
abbrev pub WroteCapacity : {A : Type 0} → NumericRange → ℤ → ℕ → StatefulChannel A → Type 0
WroteCapacity range z n c =
    let value = normalize_numeric_value z n range in
    (requested_capacity c ≡ value) × IsPosition range value

abbrev pub Wrote : LoadgenCommand → SimulationConfig → Simulation → Type 0
Wrote (set_requested_tps (fraction z n)) before s = WroteValue requested_tps z n before s
Wrote (set_worker_count (fraction z n)) before s = WroteValue reader_workers z n before s
Wrote (set_sender_workers (fraction z n)) before s = WroteValue sender_workers z n before s
Wrote (set_read_batch_size (fraction z n)) before s = WroteValue read_batch_size z n before s
Wrote (set_http_timeout (fraction z n)) before s = WroteValue http_timeout_ms z n before s
Wrote (set_reader_channel_capacity (fraction z n)) before s =
    WroteCapacity control_ranges.reader_channel_capacity z n s.reader_channel
Wrote (set_sender_channel_capacity (fraction z n)) before s =
    WroteCapacity control_ranges.sender_channel_capacity z n s.sender_channel
Wrote command before s = Unit

-- What an accepted command wrote.
abbrev pub WroteIf : Bool → LoadgenCommand → SimulationConfig → Simulation → Type 0
WroteIf true command before s = Wrote command before s
WroteIf false command before s = Unit

abbrev DoneWith : (Simulation → Type 0) → Effect → Type 0
DoneWith P (done a changed) = P a.simulation
DoneWith P (refused error) = Unit

set_number-Wrote :
    (key : ConfigKey) (message : String) (z : ℤ) (n now : ℕ) (a : SimulationAdapter)
    → IsSound a
    → Returns
        (DoneWith (WroteValue key z n a.simulation.config))
        (set_number key message (fraction z n) now a)
set_number-Wrote key message z n now a v =
    let value = normalize_numeric_value z n (range_of key) in
    Returns-bind (Replaced key value a.simulation.config)
      (DoneWith (WroteValue key z n a.simulation.config)) _ _
      (set_config-Replaced key value now a v) λ q k. k

reader_capacity-IsRange : IsRange control_ranges.reader_channel_capacity
reader_capacity-IsRange = (omega arith, (12, omega arith))

sender_capacity-IsRange : IsRange control_ranges.sender_channel_capacity
sender_capacity-IsRange = (omega arith, (16, omega arith))

reader-Wrote :
    (z : ℤ) (n now : ℕ) (a : SimulationAdapter)
    → IsSound a
    → Returns
        (DoneWith (λ s. WroteCapacity control_ranges.reader_channel_capacity z n s.reader_channel))
        (resize_channel ChannelNumber.reader control_ranges.reader_channel_capacity
          (fraction z n)
          now
          a)
unfolding set_capacity
reader-Wrote z n now a v =
    let range = control_ranges.reader_channel_capacity in
    let P : SimulationAdapter × Bool → Type 0 =
      λ q. WroteCapacity range z n q.0.simulation.reader_channel in
    Returns-bind P (DoneWith (λ s. WroteCapacity range z n s.reader_channel)) _ _
      (after_reading P now a _ v λ r k. (
        reader_capacity-requested _ r.0.simulation,
        normalize_numeric_value-IsPosition z n range reader_capacity-IsRange,
      ))
      λ q k. k

sender-Wrote :
    (z : ℤ) (n now : ℕ) (a : SimulationAdapter)
    → IsSound a
    → Returns
        (DoneWith (λ s. WroteCapacity control_ranges.sender_channel_capacity z n s.sender_channel))
        (resize_channel ChannelNumber.sender control_ranges.sender_channel_capacity
          (fraction z n)
          now
          a)
unfolding set_capacity
sender-Wrote z n now a v =
    let range = control_ranges.sender_channel_capacity in
    let P : SimulationAdapter × Bool → Type 0 =
      λ q. WroteCapacity range z n q.0.simulation.sender_channel in
    Returns-bind P (DoneWith (λ s. WroteCapacity range z n s.sender_channel)) _ _
      (after_reading P now a _ v λ r k. (
        sender_capacity-requested _ r.0.simulation,
        normalize_numeric_value-IsPosition z n range sender_capacity-IsRange,
      ))
      λ q k. k

-- A command without a number writes nothing of these.
wrote_nothing :
    (command : LoadgenCommand) (now : ℕ) (a : SimulationAdapter)
    → IsSound a
    → Returns (DoneWith (λ s. Unit)) (perform command now a)
wrote_nothing command now a v =
    Returns-mono Sound (DoneWith (λ s. Unit)) (perform command now a)
      (perform-Sound command now a v) λ e k. nothing e
  where
    nothing : (e : Effect) → DoneWith (λ s. Unit) e
    nothing (done a' changed) = tt
    nothing (refused error) = tt

-- Every command's effect.
perform-Wrote :
    (command : LoadgenCommand) (now : ℕ) (a : SimulationAdapter)
    → IsSound a
    → Returns (DoneWith (Wrote command a.simulation.config)) (perform command now a)
unfolding perform
perform-Wrote (set_requested_tps (fraction z n)) now a v =
    set_number-Wrote requested_tps "requested tps must be a finite number" z n now a v
perform-Wrote (set_worker_count (fraction z n)) now a v =
    set_number-Wrote reader_workers "worker count must be a finite number" z n now a v
perform-Wrote (set_sender_workers (fraction z n)) now a v =
    set_number-Wrote sender_workers "sender workers must be a finite number" z n now a v
perform-Wrote (set_read_batch_size (fraction z n)) now a v =
    set_number-Wrote read_batch_size "read batch size must be a finite number" z n now a v
perform-Wrote (set_http_timeout (fraction z n)) now a v =
    set_number-Wrote http_timeout_ms "http timeout must be a finite number" z n now a v
perform-Wrote (set_reader_channel_capacity (fraction z n)) now a v = reader-Wrote z n now a v
perform-Wrote (set_sender_channel_capacity (fraction z n)) now a v = sender-Wrote z n now a v
perform-Wrote (set_requested_tps not_finite) now a v = tt
perform-Wrote (set_worker_count not_finite) now a v = tt
perform-Wrote (set_sender_workers not_finite) now a v = tt
perform-Wrote (set_read_batch_size not_finite) now a v = tt
perform-Wrote (set_http_timeout not_finite) now a v = tt
perform-Wrote (set_reader_channel_capacity not_finite) now a v = tt
perform-Wrote (set_sender_channel_capacity not_finite) now a v = tt
perform-Wrote LoadgenCommand.run now a v = wrote_nothing LoadgenCommand.run now a v
perform-Wrote LoadgenCommand.pause now a v = wrote_nothing LoadgenCommand.pause now a v
perform-Wrote LoadgenCommand.reset now a v = wrote_nothing LoadgenCommand.reset now a v
perform-Wrote (set_throttler_installed value) now a v =
    wrote_nothing (set_throttler_installed value) now a v
perform-Wrote other_command now a v = tt

-- What a dispatch leaves: a sound adapter, and what an accepted command wrote.
abbrev pub Dispatched :
    LoadgenCommand → SimulationAdapter → SimulationAdapter × CommandReceipt → Type 0
Dispatched command a r =
    IsSound r.0 × WroteIf r.1.accepted command a.simulation.config r.0.simulation

publish_if-simulation :
    (changed : Bool) (a : SimulationAdapter) → a.simulation ≡ (publish_if changed a).simulation
unfolding publish
publish_if-simulation true a = refl
publish_if-simulation false a = refl

conclude-Dispatched :
    (command : LoadgenCommand) (at : ℕ) (a b : SimulationAdapter) (e : Effect)
    → IsSound a
    → Sound e
    → DoneWith (Wrote command b.simulation.config) e
    → Dispatched command b (conclude command at a e)
unfolding conclude reject
conclude-Dispatched command at a b (done a' changed) v s w = (
  publish_if-IsSound changed a' s,
  subst (Wrote command b.simulation.config) (publish_if-simulation changed a') w,
)
conclude-Dispatched command at a b (refused error) v s w = (v, tt)

-- A sound adapter takes any command, whatever number it carries and whatever the clock says: the
-- dispatch returns a receipt and leaves the adapter sound, so the simulation's invariant holds, every
-- value of the configuration that commands write is a position of its range, less than a step of time
-- waits, and the published snapshot is that of the current revision. If the receipt accepts a command
-- that sets a number, the configuration is the one from before with exactly this key's value replaced by the
-- one that was sent, clamped and rounded to its range; if it accepts one with a capacity, the
-- channel's capacity, the waiting one if there is one, is the one that was sent, clamped and rounded,
-- and a position of its range.
pub dispatch-Dispatched :
    (command : LoadgenCommand) (now at : ℕ) (a : SimulationAdapter)
    → IsSound a
    → Returns (Dispatched command a) (dispatch command now at a)
unfolding dispatch
dispatch-Dispatched command now at a v =
    let n : SimulationAdapter = record a { command_sequence = a.command_sequence + 1 } in
    let w = numbered-IsSound (a.command_sequence + 1) a v in
    both_branches (Returns (Dispatched command a)) a.disposed _ _
      (conclude-Dispatched command at n a
        (refused (refusal ErrorCode.disposed "simulation adapter is disposed")) w tt tt)
      (Returns-bind (λ e. Sound e × DoneWith (Wrote command a.simulation.config) e)
        (Dispatched command a) (perform command now n) _
        (Returns-both Sound (DoneWith (Wrote command a.simulation.config)) (perform command now n)
          (perform-Sound command now n w) (perform-Wrote command now n w))
        λ e k. conclude-Dispatched command at n a e w k.0 k.1)
