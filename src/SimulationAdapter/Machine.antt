-- ===== src/SimulationAdapter/Machine.antt =====
-- `class SimulationAdapter` (frontend/src/adapters/SimulationAdapter.ts): its state and its methods.
-- The clock's readings are arguments: `now` is what `Date.now()` gives while the command is carried
-- out, `at` what it gives for the receipt. Listeners are numbers; the snapshots they are called
-- with are written down in the state, and they call nothing of the adapter in turn.
pub mod Clock
pub mod Soundness
pub mod Lifecycle
pub mod Events
pub mod Effects
pub mod Receipts
pub mod Values
pub mod Written
use Prim.Native.String.{String}
use ingestion_lab_loadgen.Prelude.{
  ℕ, zero, suc, ◌+◌, ◌-◌, ◌*◌, ◌/◌, Bool, true, false, not, ◌&&◌, ◌||◌, Option, none, some, List,
  [], ◌∷◌, ◌++◌, ltb, ◌==◌, if◌then◌else◌, is_some, includes, filter, map,
}
use ingestion_lab_loadgen.Prelude.Int.{ℤ}
use ingestion_lab_loadgen.Prelude.Results.{Result, ok, ◌>>=◌}
use ingestion_lab_loadgen.Simulation.Types.{SimulationConfig, fixed_step_ms}
use ingestion_lab_loadgen.Simulation.State.{Simulation, create_simulation}
use ingestion_lab_loadgen.Simulation.Step.{
  PartialConfig, ChannelNumber, advance_steps, update_config, request_channel_capacity,
  clear_instantaneous_telemetry, reset,
}
use ingestion_lab_loadgen.Simulation.Telemetry.{SimulationTelemetry, telemetry}
use ingestion_lab_loadgen.Loadgen.{
  RunState, idle, running, paused, NumberValue, fraction, not_finite, LoadgenCommand, command_type,
  set_requested_tps, set_throttler_installed, set_worker_count, set_sender_workers,
  set_reader_channel_capacity, set_sender_channel_capacity, set_read_batch_size, set_http_timeout,
  other_command, AdapterError, ErrorCode, invalid_command, invalid_state, CommandReceipt, immediate,
  LoadgenTelemetrySnapshot,
}
use ingestion_lab_loadgen.SimulationAdapter.Ranges.{
  NumericRange, control_ranges, normalize_numeric_value,
}
use ingestion_lab_loadgen.SimulationAdapter.Snapshot.{
  is_running, is_idle, is_paused, freeze_snapshot,
}
use ingestion_lab_loadgen.Loadgen.{ApplyMode}

pub record SimulationAdapter : Type 0 where
  pub listeners : List ℕ
  pub revision : ℕ
  pub run_state : RunState
  pub simulation : Simulation
  pub snapshot : LoadgenTelemetrySnapshot
  pub timer_set : Bool
  pub last_tick_ms : ℕ
  pub pending_step_ms : ℕ
  pub command_sequence : ℕ
  pub disposed : Bool
  pub notified : List (ℕ × LoadgenTelemetrySnapshot)

abbrev pub initial_config : SimulationConfig
initial_config = record {
  reader_workers = 4;
  sender_workers = 3;
  requested_tps = 120_000;
  throttler_installed = true;
  read_batch_size = 25_000;
  http_timeout_ms = 500;
  target_delay_ms = 40;
  target_error_rate_percent = 2;
}

-- The constructor.
pub create_adapter : ℕ → SimulationAdapter
create_adapter now =
    let simulation = create_simulation initial_config 4 100 none in
    record {
      listeners = [];
      revision = 0;
      run_state = idle;
      simulation = simulation;
      snapshot = freeze_snapshot 0 idle simulation;
      timer_set = true;
      last_tick_ms = now;
      pending_step_ms = 0;
      command_sequence = 0;
      disposed = false;
      notified = [];
    }

-- `subscribe`, and the call of what it returns.
pub subscribe : ℕ → SimulationAdapter → SimulationAdapter
subscribe listener a = record a {
  listeners = if includes a.listeners listener then a.listeners else a.listeners ++ listener ∷ [];
  notified = a.notified ++ (listener, a.snapshot) ∷ [];
}

pub unsubscribe : ℕ → SimulationAdapter → SimulationAdapter
unsubscribe listener a = record a { listeners = filter (λ l. not (l == listener)) a.listeners }

pub dispose : SimulationAdapter → SimulationAdapter
dispose a =
    if a.disposed then a else record a { disposed = true; timer_set = false; listeners = [] }

pub publish : SimulationAdapter → SimulationAdapter
publish a =
    let snapshot = freeze_snapshot (a.revision + 1) a.run_state a.simulation in
    record a {
      revision = a.revision + 1;
      snapshot = snapshot;
      notified = a.notified ++ map (λ l. (l, snapshot)) a.listeners;
    }

abbrev publish_if : Bool → SimulationAdapter → SimulationAdapter
publish_if changed a = if changed then publish a else a

-- Whole steps of the time that has passed are carried out; the rest of it waits. A clock that went
-- back counts as one that stood still.
pub advance_to_now : ℕ → SimulationAdapter → Result (SimulationAdapter × Bool)
advance_to_now now a =
    let delta_ms = now - a.last_tick_ms in
    let ticked = record a { last_tick_ms = now } in
    if not (is_running a.run_state) || delta_ms == 0
    then ok (ticked, false)
    else let pending_step_ms = a.pending_step_ms + delta_ms in
      let steps = pending_step_ms / fixed_step_ms in
      do
        simulation ← advance_steps steps a.simulation
        ok (
          record ticked {
            simulation = simulation;
            pending_step_ms = pending_step_ms - steps * fixed_step_ms;
          },
          ltb 0 steps,
        )

pub tick : ℕ → SimulationAdapter → Result SimulationAdapter
unfolding publish
tick now a =
    if a.disposed || not (is_running a.run_state)
    then ok (record a { last_tick_ms = now })
    else do (a', changed) ← advance_to_now now a; ok (publish_if changed a')

-- The numeric keys that commands write.
pub data ConfigKey : Type 0 where
  requested_tps reader_workers sender_workers read_batch_size http_timeout_ms : ConfigKey

-- `config[key]`
abbrev pub config_value : ConfigKey → SimulationConfig → ℕ
config_value requested_tps config = config.requested_tps
config_value reader_workers config = config.reader_workers
config_value sender_workers config = config.sender_workers
config_value read_batch_size config = config.read_batch_size
config_value http_timeout_ms config = config.http_timeout_ms

abbrev no_values : PartialConfig
no_values = record {
  reader_workers = none;
  sender_workers = none;
  requested_tps = none;
  throttler_installed = none;
  read_batch_size = none;
  http_timeout_ms = none;
  target_delay_ms = none;
  target_error_rate_percent = none;
}

-- `{ [key]: value }`
abbrev pub partial : ConfigKey → ℕ → PartialConfig
partial requested_tps value = record no_values { requested_tps = some value }
partial reader_workers value = record no_values { reader_workers = some value }
partial sender_workers value = record no_values { sender_workers = some value }
partial read_batch_size value = record no_values { read_batch_size = some value }
partial http_timeout_ms value = record no_values { http_timeout_ms = some value }

abbrev pub range_of : ConfigKey → NumericRange
range_of requested_tps = control_ranges.requested_tps
range_of reader_workers = control_ranges.reader_workers
range_of sender_workers = control_ranges.sender_workers
range_of read_batch_size = control_ranges.read_batch_size
range_of http_timeout_ms = control_ranges.http_timeout_ms

pub set_config : ConfigKey → ℕ → ℕ → SimulationAdapter → Result (SimulationAdapter × Bool)
set_config key value now a = do
  (a', advanced) ← advance_to_now now a
  ok (
      if config_value key a'.simulation.config == value
      then (a', advanced)
      else (record a' { simulation = update_config (partial key value) a'.simulation }, true))

abbrev same_Bool : Bool → Bool → Bool
same_Bool true b = b
same_Bool false b = not b

pub update_installed : Bool → ℕ → SimulationAdapter → Result (SimulationAdapter × Bool)
update_installed value now a = do
  (a', advanced) ← advance_to_now now a
  ok (
      if same_Bool a'.simulation.config.throttler_installed value then (a', advanced) else (
        record a' {
          simulation =
              update_config (record no_values { throttler_installed = some value }) a'.simulation;
        },
        true,
      ))

pub set_capacity : ChannelNumber → ℕ → ℕ → SimulationAdapter → Result (SimulationAdapter × Bool)
set_capacity channel capacity now a = do
  (a', advanced) ← advance_to_now now a
  let (simulation, changed) = request_channel_capacity channel capacity a'.simulation
  ok (record a' { simulation = simulation }, changed || advanced)

pub reset_run_state : ℕ → SimulationAdapter → SimulationAdapter × Bool
reset_run_state now a =
    let t = telemetry false a.simulation in
    (
      record a {
        run_state = idle;
        simulation = reset a.simulation;
        pending_step_ms = 0;
        last_tick_ms = now;
      },
      not (is_idle a.run_state)
          || not (t.elapsed_ms == 0)
          || not (t.reader_channel.sent_batches_total == 0)
          || not (t.sender_channel.sent_batches_total == 0)
          || not (t.http.requests_started_total == 0)
          || is_some t.reader_channel.capacity.pending
          || is_some t.sender_channel.capacity.pending,
    )

abbrev refusal : ErrorCode → String → AdapterError
refusal code message = record { code = code; message = message; retryable = false }

-- What a command does before its result is published: a change, or a refusal.
pub data Effect : Type 0 where
  done : SimulationAdapter → Bool → Effect
  refused : AdapterError → Effect

abbrev done_with : Result (SimulationAdapter × Bool) → Result Effect
done_with r = do (a, changed) ← r; ok (done a changed)

abbrev not_a_number : String → Result Effect
not_a_number message = ok (refused (refusal invalid_command message))

abbrev set_number : ConfigKey → String → NumberValue → ℕ → SimulationAdapter → Result Effect
set_number key message not_finite now a = not_a_number message
set_number key message (fraction z n) now a =
    done_with (set_config key (normalize_numeric_value z n (range_of key)) now a)

abbrev resize_channel :
    ChannelNumber → NumericRange → NumberValue → ℕ → SimulationAdapter → Result Effect
resize_channel channel range not_finite now a =
    not_a_number "channel capacity must be a finite number"
resize_channel channel range (fraction z n) now a =
    done_with (set_capacity channel (normalize_numeric_value z n range) now a)

run : ℕ → SimulationAdapter → Result Effect
run now a =
    if is_running a.run_state
    then done_with (advance_to_now now a)
    else ok (
        done
          (record a {
            run_state = running;
            simulation = clear_instantaneous_telemetry a.simulation;
            last_tick_ms = now;
          })
          true)

pause : ℕ → SimulationAdapter → Result Effect
pause now a = do
  (a', advanced) ← advance_to_now now a
  ok (
      if is_paused a'.run_state
      then done a' advanced
      else done (record a' { run_state = paused }) true)

-- The cases of `dispatch`.
pub perform : LoadgenCommand → ℕ → SimulationAdapter → Result Effect
unfolding run pause reset_run_state
perform LoadgenCommand.run now a = run now a
perform LoadgenCommand.pause now a = pause now a
perform LoadgenCommand.reset now a =
    if is_running a.run_state
    then ok (refused (refusal invalid_state "reset is only available while idle or paused"))
    else let (a', changed) = reset_run_state now a in ok (done a' changed)
perform (set_requested_tps value) now a =
    set_number requested_tps "requested tps must be a finite number" value now a
perform (set_throttler_installed none) now a =
    ok (refused (refusal invalid_command "throttler installed must be boolean"))
perform (set_throttler_installed (some value)) now a = done_with (update_installed value now a)
perform (set_worker_count value) now a =
    set_number reader_workers "worker count must be a finite number" value now a
perform (set_sender_workers value) now a =
    set_number sender_workers "sender workers must be a finite number" value now a
perform (set_reader_channel_capacity value) now a =
    resize_channel ChannelNumber.reader control_ranges.reader_channel_capacity value now a
perform (set_sender_channel_capacity value) now a =
    resize_channel ChannelNumber.sender control_ranges.sender_channel_capacity value now a
perform (set_read_batch_size value) now a =
    set_number read_batch_size "read batch size must be a finite number" value now a
perform (set_http_timeout value) now a =
    set_number http_timeout_ms "http timeout must be a finite number" value now a
perform other_command now a =
    ok
      (refused (refusal ErrorCode.unavailable "command is not available in the simulation adapter"))

pub reject : LoadgenCommand → AdapterError → SimulationAdapter → CommandReceipt
reject command error a = record {
  command_id = a.command_sequence;
  command_type = command_type command;
  accepted = false;
  apply_mode = ApplyMode.unavailable;
  applied_at_ms = none;
  snapshot_revision = a.snapshot.revision;
  error = some error;
}

abbrev accept : LoadgenCommand → ℕ → SimulationAdapter → CommandReceipt
accept command at a = record {
  command_id = a.command_sequence;
  command_type = command_type command;
  accepted = true;
  apply_mode = immediate;
  applied_at_ms = some at;
  snapshot_revision = a.snapshot.revision;
  error = none;
}

-- The end of `dispatch`: a refusal leaves the adapter `a` as it was.
pub conclude : LoadgenCommand → ℕ → SimulationAdapter → Effect → SimulationAdapter × CommandReceipt
unfolding publish reject
conclude command at a (refused error) = (a, reject command error a)
conclude command at a (done a' changed) =
    let published = publish_if changed a' in (published, accept command at published)

pub dispatch :
    LoadgenCommand → ℕ → ℕ → SimulationAdapter → Result (SimulationAdapter × CommandReceipt)
unfolding perform conclude
dispatch command now at a =
    let numbered = record a { command_sequence = a.command_sequence + 1 } in
    if a.disposed
    then ok (
        conclude command at numbered
          (refused (refusal ErrorCode.disposed "simulation adapter is disposed")))
    else do effect ← perform command now numbered; ok (conclude command at numbered effect)
