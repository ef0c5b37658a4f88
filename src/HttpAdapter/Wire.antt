-- ===== src/HttpAdapter/Wire.antt =====
-- The body of a snapshot response (frontend/src/adapters/HttpAdapter.ts).
use Prim.Native.String.{String}
use ingestion_lab_loadgen.Prelude.{ℕ, Bool, Option}
use ingestion_lab_loadgen.Loadgen.{RunState, Rate, ReaderSourceErrorSnapshot, LoadgenConfigSnapshot}

pub record WireRun : Type 0 where
  pub state : RunState
  pub total_transactions : ℕ
  pub elapsed_ms : ℕ

pub record WireReader : Type 0 where
  pub workers : ℕ
  pub live_workers : ℕ
  pub idle_workers : ℕ
  pub reading_workers : ℕ
  pub blocked_workers : ℕ
  pub draining_workers : ℕ
  pub draining_idle_workers : ℕ
  pub draining_reading_workers : ℕ
  pub draining_blocked_workers : ℕ
  pub read_batch_size : ℕ
  pub read_tps : Rate
  pub rows_read : ℕ
  pub source_directory : String
  pub source_error : Option ReaderSourceErrorSnapshot

pub record WireThrottler : Type 0 where
  pub requested_tps : ℕ
  pub admitted_tps : Rate
  pub installed : Bool

pub record WireSender : Type 0 where
  pub workers : ℕ
  pub live_workers : ℕ
  pub idle_workers : ℕ
  pub in_flight_workers : ℕ
  pub backoff_workers : ℕ
  pub draining_workers : ℕ
  pub draining_idle_workers : ℕ
  pub draining_in_flight_workers : ℕ
  pub draining_backoff_workers : ℕ

pub record WireChannelSnapshot : Type 0 where
  pub capacity : ℕ
  pub depth_batches : ℕ
  pub buffered_transactions : ℕ
  pub blocked_senders : ℕ
  pub oldest_blocked_sender_ms : ℕ
  pub blocked_ms : ℕ
  pub sent_batches_total : ℕ
  pub sent_transactions_total : ℕ
  pub received_batches_total : ℕ
  pub received_transactions_total : ℕ
  pub input_batches_per_second : Rate
  pub input_transactions_per_second : Rate
  pub output_batches_per_second : Rate
  pub output_transactions_per_second : Rate

pub record WireSnapshot : Type 0 where
  pub run : WireRun
  pub reader : WireReader
  pub throttler : WireThrottler
  pub sender : WireSender
  pub reader_channel : WireChannelSnapshot
  pub sender_channel : WireChannelSnapshot
  pub config : LoadgenConfigSnapshot
