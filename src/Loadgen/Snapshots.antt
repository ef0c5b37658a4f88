-- ===== src/Loadgen/Snapshots.antt =====
-- The data that adapters report (frontend/src/model/loadgen.ts). Counts and settings are whole numbers,
-- rates are fractions. A property that may be missing, or null, is an option.
use Prim.Native.String.{String}
use ingestion_lab_loadgen.Prelude.{ℕ, Bool, Option, List}
use ingestion_lab_loadgen.Simulation.Types.{HttpLastOutcome}
use ingestion_lab_loadgen.Simulation.Telemetry.{ChannelTrend}

pub data ActorId : Type 0 where
  reader throttler sender target : ActorId

pub data ChannelId : Type 0 where
  reader_to_throttler throttler_to_sender : ChannelId

pub data SelectableId : Type 0 where
  actor : ActorId → SelectableId
  channel : ChannelId → SelectableId
  http : SelectableId

pub data AdapterKind : Type 0 where
  simulation http : AdapterKind

pub data ConnectionState : Type 0 where
  connecting connected disconnected error : ConnectionState

pub data RunState : Type 0 where
  idle running paused faulted : RunState

pub data ApplyMode : Type 0 where
  immediate next_run unavailable : ApplyMode

pub data ReaderLimitationReason : Type 0 where
  downstream_backpressure : ReaderLimitationReason

pub data LogLevel : Type 0 where
  debug info warn error : LogLevel

pub data LogMutability : Type 0 where
  startup_only : LogMutability

pub data ErrorCategory : Type 0 where
  source : ErrorCategory

pub data SourceOperation : Type 0 where
  glob open_file read close reader_close : SourceOperation

-- The number `numerator` / (`divisor` + 1).
pub record Rate : Type 0 where
  pub numerator : ℕ
  pub divisor : ℕ

abbrev pub whole : ℕ → Rate
whole n = record { numerator = n; divisor = 0 }

pub record RetryPolicySnapshot : Type 0 where
  pub max_attempts : ℕ
  pub backoff_base_ms : ℕ
  pub backoff_multiplier : ℕ
  pub jitter_percent : ℕ
  pub retryable_status_codes : List ℕ
  pub retry_timeouts : Bool

pub record NumericControlSnapshot : Type 0 where
  pub applied : Option ℕ
  pub preview : Option ℕ
  pub pending : Option ℕ
  pub min : ℕ
  pub max : ℕ
  pub step : ℕ
  pub unit : String
  pub apply_mode : ApplyMode

pub record RangeControlConfigSnapshot : Type 0 where
  pub initial : ℕ
  pub min : ℕ
  pub max : ℕ
  pub step : ℕ
  pub unit : String
  pub mutability : String

pub record AllowedControlConfigSnapshot : Type 0 where
  pub initial : ℕ
  pub allowed : List ℕ
  pub unit : String
  pub mutability : String

pub record LoggingConfigSnapshot : Type 0 where
  pub level : LogLevel
  pub mutability : LogMutability

pub record InstalledConfigSnapshot : Type 0 where
  pub initial : Bool
  pub allowed : List Bool
  pub mutability : String

pub record LoadgenConfigSnapshot : Type 0 where
  pub reader_read_batch_size : RangeControlConfigSnapshot
  pub reader_workers : Option RangeControlConfigSnapshot
  pub reader_channel_capacity : AllowedControlConfigSnapshot
  pub sender_channel_capacity : AllowedControlConfigSnapshot
  pub metrics_window_ms : RangeControlConfigSnapshot
  pub throttler_requested_tps : RangeControlConfigSnapshot
  pub throttler_installed : InstalledConfigSnapshot
  pub sender_workers : RangeControlConfigSnapshot
  pub logging : Option LoggingConfigSnapshot

pub record InstalledControlSnapshot : Type 0 where
  pub applied : Option Bool
  pub pending : Option Bool
  pub apply_mode : ApplyMode
  pub writable : Bool
  pub unavailable_reason : Option String

pub record ReaderSourceErrorSnapshot : Type 0 where
  pub category : ErrorCategory
  pub operation : SourceOperation
  pub relative_path : String
  pub message : String

pub record ReaderSnapshot : Type 0 where
  pub id : ActorId
  pub workers : NumericControlSnapshot
  pub live_workers : ℕ
  pub idle_workers : ℕ
  pub reading_workers : ℕ
  pub blocked_workers : ℕ
  pub draining_workers : ℕ
  pub draining_idle_workers : ℕ
  pub draining_reading_workers : ℕ
  pub draining_blocked_workers : ℕ
  pub read_batch_size : NumericControlSnapshot
  pub read_tps : Option Rate
  pub configured_capacity_tps : Option ℕ
  pub limitation_reason : Option ReaderLimitationReason
  pub rows_read : Option ℕ
  pub source_directory : Option String
  pub source_error : Option ReaderSourceErrorSnapshot
  pub state : RunState

pub record ThrottlerSnapshot : Type 0 where
  pub id : ActorId
  pub requested_tps : NumericControlSnapshot
  pub installed : InstalledControlSnapshot
  pub admitted_tps : Option Rate
  pub limited_ms : Option ℕ
  pub state : RunState

pub record ChannelTelemetrySnapshot : Type 0 where
  pub id : ChannelId
  pub from : ActorId
  pub to : ActorId
  pub capacity : NumericControlSnapshot
  pub sent_batches_total : ℕ
  pub sent_transactions_total : ℕ
  pub received_batches_total : ℕ
  pub received_transactions_total : ℕ
  pub depth_batches : Option ℕ
  pub buffered_transactions : Option ℕ
  pub handoff_batches : ℕ
  pub handoff_batches_total : ℕ
  pub blocked_senders : ℕ
  pub oldest_blocked_sender_ms : ℕ
  pub input_batches_per_second : Rate
  pub output_batches_per_second : Rate
  pub input_transactions_per_second : Rate
  pub output_transactions_per_second : Rate
  pub input_tps : Option Rate
  pub output_tps : Option Rate
  pub throughput_tps : Option Rate
  pub blocked_ms : Option ℕ
  pub trend : ChannelTrend

pub record SenderSnapshot : Type 0 where
  pub id : ActorId
  pub workers : NumericControlSnapshot
  pub live_workers : ℕ
  pub idle_workers : ℕ
  pub in_flight_workers : ℕ
  pub backoff_workers : ℕ
  pub draining_workers : ℕ
  pub draining_idle_workers : ℕ
  pub draining_in_flight_workers : ℕ
  pub draining_backoff_workers : ℕ
  pub timeout_ms : NumericControlSnapshot
  pub retry_policy : Option RetryPolicySnapshot
  pub attempted_tps : Option ℕ
  pub retry_attempted_tps : Option ℕ
  pub terminal_failed_tps : Option ℕ
  pub in_flight_requests : Option ℕ
  pub attempts_started_total : ℕ
  pub retry_attempts_started_total : ℕ
  pub successful_responses : Option ℕ
  pub failed_responses : Option ℕ
  pub retries : Option ℕ
  pub timeouts_total : ℕ
  pub terminal_failed_batches_total : ℕ
  pub terminal_failed_transactions_total : ℕ
  pub ambiguous_timeout_transactions_total : ℕ
  pub duplicate_risk_transactions_total : ℕ
  pub ambiguous_terminal_transactions_total : ℕ
  pub state : RunState

pub record HttpSnapshot : Type 0 where
  pub id : SelectableId
  pub connection_state : ConnectionState
  pub status_code : Option ℕ
  pub last_outcome : Option HttpLastOutcome
  pub throughput_tps : Option ℕ
  pub in_flight_requests : Option ℕ
  pub requests_started_total : ℕ
  pub requests_completed_total : ℕ
  pub requests_succeeded_total : ℕ
  pub requests_failed_total : ℕ
  pub requests_timed_out_total : ℕ
  pub network_errors_total : ℕ
  pub latency_p95_ms : Option ℕ

pub record TargetSnapshot : Type 0 where
  pub id : ActorId
  pub endpoint : Option String
  pub accepted_tps : Option ℕ
  pub rejected_tps : Option ℕ
  pub latency_p95_ms : Option ℕ
  pub http200_responses : Option ℕ
  pub http503_responses : Option ℕ
  pub connection_state : ConnectionState

pub record LoadgenTelemetrySnapshot : Type 0 where
  pub revision : ℕ
  pub adapter_kind : AdapterKind
  pub connection_state : ConnectionState
  pub run_state : RunState
  pub elapsed_ms : ℕ
  pub total_transactions : ℕ
  pub config : Option LoadgenConfigSnapshot
  pub reader : ReaderSnapshot
  pub throttler : ThrottlerSnapshot
  pub reader_channel : ChannelTelemetrySnapshot
  pub sender_channel : ChannelTelemetrySnapshot
  pub sender : SenderSnapshot
  pub http : HttpSnapshot
  pub target : TargetSnapshot

pub data ChannelFlowState : Type 0 where
  normal near_limit backpressure stopped connection_error : ChannelFlowState

-- A channel's telemetry, with what is derived of it.
pub record ChannelSnapshot : Type 0 where
  pub telemetry : ChannelTelemetrySnapshot
  pub displayed_pressure : Rate
  pub flow_state : ChannelFlowState

-- The telemetry, with its channels as derived.
pub record LoadgenSnapshot : Type 0 where
  pub telemetry : LoadgenTelemetrySnapshot
  pub reader_channel : ChannelSnapshot
  pub sender_channel : ChannelSnapshot
