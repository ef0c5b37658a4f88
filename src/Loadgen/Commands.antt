-- ===== src/Loadgen/Commands.antt =====
-- The commands that adapters take and the receipts they give (frontend/src/model/loadgen.ts).
use Prim.Native.String.{String}
use ingestion_lab_loadgen.Prelude.{ℕ, Bool, Option}
use ingestion_lab_loadgen.Prelude.Int.{ℤ}
use ingestion_lab_loadgen.Loadgen.Snapshots.{ApplyMode}

-- A number that a command carries: a fraction z / (n + 1), as every finite double is one, or none.
pub data NumberValue : Type 0 where
  fraction : ℤ → ℕ → NumberValue
  not_finite : NumberValue

-- The types of the commands; `other_type` is one that is not a type of a command.
pub data CommandType : Type 0 where
  run_type pause_type reset_type requested_tps_type throttler_installed_type : CommandType
  worker_count_type sender_workers_type reader_channel_capacity_type : CommandType
  sender_channel_capacity_type read_batch_size_type http_timeout_type other_type : CommandType

-- A command as it arrives: the code checks at run time that a value is a finite number or a Boolean
-- (none is a value that is not), and that the type is one it knows.
pub data LoadgenCommand : Type 0 where
  run pause reset : LoadgenCommand
  set_requested_tps : NumberValue → LoadgenCommand
  set_throttler_installed : Option Bool → LoadgenCommand
  set_worker_count : NumberValue → LoadgenCommand
  set_sender_workers : NumberValue → LoadgenCommand
  set_reader_channel_capacity : NumberValue → LoadgenCommand
  set_sender_channel_capacity : NumberValue → LoadgenCommand
  set_read_batch_size : NumberValue → LoadgenCommand
  set_http_timeout : NumberValue → LoadgenCommand
  other_command : LoadgenCommand

abbrev pub command_type : LoadgenCommand → CommandType
command_type run = run_type
command_type pause = pause_type
command_type reset = reset_type
command_type (set_requested_tps value) = requested_tps_type
command_type (set_throttler_installed value) = throttler_installed_type
command_type (set_worker_count value) = worker_count_type
command_type (set_sender_workers value) = sender_workers_type
command_type (set_reader_channel_capacity value) = reader_channel_capacity_type
command_type (set_sender_channel_capacity value) = sender_channel_capacity_type
command_type (set_read_batch_size value) = read_batch_size_type
command_type (set_http_timeout value) = http_timeout_type
command_type other_command = other_type

pub data ErrorCode : Type 0 where
  invalid_command invalid_state disposed unavailable internal : ErrorCode

-- The `details` of an error, which the simulation adapter leaves null, are not carried.
pub record AdapterError : Type 0 where
  pub code : ErrorCode
  pub message : String
  pub retryable : Bool

-- The command's id is the number in it.
pub record CommandReceipt : Type 0 where
  pub command_id : ℕ
  pub command_type : CommandType
  pub accepted : Bool
  pub apply_mode : ApplyMode
  pub applied_at_ms : Option ℕ
  pub snapshot_revision : ℕ
  pub error : Option AdapterError
