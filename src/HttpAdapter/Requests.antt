-- ===== src/HttpAdapter/Requests.antt =====
-- What the adapter sends and what it makes of the answers (frontend/src/adapters/HttpAdapter.ts): the
-- commands that it carries out, when it may, the body of a request, and the reading of a response.
use Prim.Native.String.{String}
use ingestion_lab_loadgen.Prelude.Int.{negsuc, pos}
use ingestion_lab_loadgen.Prelude.{
  Bool, List, Option, [], false, includes, is_some, none, not, some, suc, true, ℕ, ◌%◌, ◌&&◌, ◌/◌,
  ◌==◌, ◌||◌, ◌∷◌,
}
use ingestion_lab_loadgen.HttpAdapter.Encode.{object_of}
use ingestion_lab_loadgen.HttpAdapter.Config.{includes_boolean}
use ingestion_lab_loadgen.HttpAdapter.Json.{
  Value, boolean, in_range, number, safe_integer, string, undefined,
}
use ingestion_lab_loadgen.HttpAdapter.View.Controls.{is_connected, is_idle}
use ingestion_lab_loadgen.Loadgen.{
  CommandType, ConnectionState, LoadgenCommand, LoadgenConfigSnapshot, LoadgenTelemetrySnapshot,
  NumberValue, RangeControlConfigSnapshot, connected, connecting, disconnected, fraction,
  not_finite, other_command, pause_type, read_batch_size_type, reader_channel_capacity_type,
  requested_tps_type, reset_type, run_type, sender_channel_capacity_type, sender_workers_type,
  throttler_installed_type, worker_count_type,
}

-- The commands that the adapter carries out.
pub data SupportedCommand : Type 0 where
  run pause reset : SupportedCommand
  set_requested_tps : NumberValue → SupportedCommand
  set_throttler_installed : Option Bool → SupportedCommand
  set_worker_count : NumberValue → SupportedCommand
  set_sender_workers : NumberValue → SupportedCommand
  set_reader_channel_capacity : NumberValue → SupportedCommand
  set_sender_channel_capacity : NumberValue → SupportedCommand
  set_read_batch_size : NumberValue → SupportedCommand

-- `isSupportedCommand`, which narrows the command's type.
abbrev pub is_supported_command : LoadgenCommand → Option SupportedCommand
is_supported_command LoadgenCommand.run = some run
is_supported_command LoadgenCommand.pause = some pause
is_supported_command LoadgenCommand.reset = some reset
is_supported_command (LoadgenCommand.set_requested_tps v) = some (set_requested_tps v)
is_supported_command (LoadgenCommand.set_throttler_installed v) = some (set_throttler_installed v)
is_supported_command (LoadgenCommand.set_worker_count v) = some (set_worker_count v)
is_supported_command (LoadgenCommand.set_sender_workers v) = some (set_sender_workers v)
is_supported_command (LoadgenCommand.set_reader_channel_capacity v) =
    some (set_reader_channel_capacity v)
is_supported_command (LoadgenCommand.set_sender_channel_capacity v) =
    some (set_sender_channel_capacity v)
is_supported_command (LoadgenCommand.set_read_batch_size v) = some (set_read_batch_size v)
is_supported_command (LoadgenCommand.set_http_timeout v) = none
is_supported_command other_command = none

abbrev pub supported_type : SupportedCommand → CommandType
supported_type run = run_type
supported_type pause = pause_type
supported_type reset = reset_type
supported_type (set_requested_tps v) = requested_tps_type
supported_type (set_throttler_installed v) = throttler_installed_type
supported_type (set_worker_count v) = worker_count_type
supported_type (set_sender_workers v) = sender_workers_type
supported_type (set_reader_channel_capacity v) = reader_channel_capacity_type
supported_type (set_sender_channel_capacity v) = sender_channel_capacity_type
supported_type (set_read_batch_size v) = read_batch_size_type

abbrev pub in_range_if_whole : Option ℕ → RangeControlConfigSnapshot → Bool
in_range_if_whole none config = false
in_range_if_whole (some n) config = in_range n config

-- `isRangeValue`
abbrev pub is_range_value : NumberValue → RangeControlConfigSnapshot → Bool
is_range_value value config = in_range_if_whole (safe_integer value) config

-- `allowed.includes(value)`, of whole numbers.
abbrev pub includes_value : List ℕ → NumberValue → Bool
includes_value allowed (fraction (pos z) n) = z % suc n == 0 && includes allowed (z / suc n)
includes_value allowed (fraction (negsuc z) n) = false
includes_value allowed not_finite = false

abbrev pub includes_installed : List Bool → Option Bool → Bool
includes_installed allowed none = false
includes_installed allowed (some b) = includes_boolean allowed b

abbrev pub is_error : ConnectionState → Bool
is_error ConnectionState.error = true
is_error connected = false
is_error connecting = false
is_error disconnected = false

abbrev pub is_connecting : ConnectionState → Bool
is_connecting connecting = true
is_connecting connected = false
is_connecting disconnected = false
is_connecting ConnectionState.error = false

-- `config?.readerWorkers !== undefined`, and the value is in that range.
abbrev pub workers_admit : NumberValue → Option RangeControlConfigSnapshot → Bool
workers_admit v none = false
workers_admit v (some range) = is_range_value v range

-- What a configuration admits of a command.
abbrev pub config_admits : SupportedCommand → LoadgenConfigSnapshot → Bool
config_admits run config = true
config_admits pause config = true
config_admits reset config = true
config_admits (set_requested_tps v) config = is_range_value v config.throttler_requested_tps
config_admits (set_throttler_installed v) config =
    includes_installed config.throttler_installed.allowed v
config_admits (set_worker_count v) config = elim config.reader_workers [
  | none ↦ false
  | some range ↦ is_range_value v range
]
config_admits (set_sender_workers v) config = is_range_value v config.sender_workers
config_admits (set_reader_channel_capacity v) config =
    includes_value config.reader_channel_capacity.allowed v
config_admits (set_sender_channel_capacity v) config =
    includes_value config.sender_channel_capacity.allowed v
config_admits (set_read_batch_size v) config = is_range_value v config.reader_read_batch_size

-- `config !== null`, and the configuration admits the command.
abbrev pub admitted : SupportedCommand → Option LoadgenConfigSnapshot → Bool
admitted command none = false
admitted command (some config) = config_admits command config

-- While idle alone.
abbrev pub needs_idle : SupportedCommand → Bool
needs_idle (set_reader_channel_capacity v) = true
needs_idle (set_sender_channel_capacity v) = true
needs_idle (set_read_batch_size v) = true
needs_idle _ = false

abbrev pub can_change : SupportedCommand → LoadgenTelemetrySnapshot → Bool
can_change command snapshot =
    is_connected snapshot.connection_state
    && (not (needs_idle command) || is_idle snapshot.run_state)
    && admitted command snapshot.config

-- `canDispatchConfigCommand`
abbrev pub can_dispatch_config_command : SupportedCommand → LoadgenTelemetrySnapshot → Bool
can_dispatch_config_command reset snapshot = true
can_dispatch_config_command run snapshot =
    not (is_error snapshot.connection_state)
    && (is_connecting snapshot.connection_state || is_some snapshot.config)
can_dispatch_config_command pause snapshot =
    not (is_error snapshot.connection_state)
    && (is_connecting snapshot.connection_state || is_some snapshot.config)
can_dispatch_config_command (set_requested_tps v) snapshot =
    can_change (set_requested_tps v) snapshot
can_dispatch_config_command (set_throttler_installed v) snapshot =
    can_change (set_throttler_installed v) snapshot
can_dispatch_config_command (set_worker_count v) snapshot = can_change (set_worker_count v) snapshot
can_dispatch_config_command (set_sender_workers v) snapshot =
    can_change (set_sender_workers v) snapshot
can_dispatch_config_command (set_reader_channel_capacity v) snapshot =
    can_change (set_reader_channel_capacity v) snapshot
can_dispatch_config_command (set_sender_channel_capacity v) snapshot =
    can_change (set_sender_channel_capacity v) snapshot
can_dispatch_config_command (set_read_batch_size v) snapshot =
    can_change (set_read_batch_size v) snapshot

abbrev action_with : String → Value → Value
action_with action value = object_of (("action", string action) ∷ ("value", value) ∷ [])

abbrev action_alone : String → Value
action_alone action = object_of (("action", string action) ∷ [])

abbrev boolean_value : Option Bool → Value
boolean_value none = undefined
boolean_value (some b) = boolean b

-- The body of a command's request.
abbrev pub request_body : SupportedCommand → Value
request_body run = action_alone "run"
request_body pause = action_alone "pause"
request_body reset = action_alone "reset"
request_body (set_requested_tps v) = action_with "set-requested-tps" (number v)
request_body (set_throttler_installed v) = action_with "set-throttler-installed" (boolean_value v)
request_body (set_worker_count v) = action_with "set-reader-workers" (number v)
request_body (set_sender_workers v) = action_with "set-sender-workers" (number v)
request_body (set_reader_channel_capacity v) = action_with "set-reader-channel-capacity" (number v)
request_body (set_sender_channel_capacity v) = action_with "set-sender-channel-capacity" (number v)
request_body (set_read_batch_size v) = action_with "set-read-batch-size" (number v)
