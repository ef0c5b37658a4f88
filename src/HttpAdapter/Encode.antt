-- ===== src/HttpAdapter/Encode.antt =====
-- The response body that carries a snapshot: an object for each section, with the properties that
-- the types of a response in frontend/src/adapters/HttpAdapter.ts name. It is what the decoding is
-- measured against.
use Prim.Native.String.{String}
use ingestion_lab_loadgen.Prelude.{Bool, List, Option, [], none, some, ℕ, ◌∷◌}
use ingestion_lab_loadgen.Prelude.Int.{pos}
use ingestion_lab_loadgen.HttpAdapter.Wire.{
  WireChannelSnapshot, WireReader, WireRun, WireSender, WireSnapshot, WireThrottler,
}
use ingestion_lab_loadgen.HttpAdapter.Json.{
  Members, Value, Values, array, boolean, cons, end, member, nil, null, number, object, string,
}
use ingestion_lab_loadgen.Loadgen.{
  AllowedControlConfigSnapshot, InstalledConfigSnapshot, LoadgenConfigSnapshot, LogLevel,
  LoggingConfigSnapshot, RangeControlConfigSnapshot, Rate, ReaderSourceErrorSnapshot, RunState,
  SourceOperation, close, debug, faulted, fraction, glob, idle, info, open_file, paused, read,
  reader_close, running, warn,
}

abbrev pub members_of : List (String × Value) → Members
members_of [] = end
members_of (entry ∷ entries) = member entry.0 entry.1 (members_of entries)

-- An object, its properties in the order written.
abbrev pub object_of : List (String × Value) → Value
object_of entries = object (members_of entries)

abbrev pub natural : ℕ → Value
natural n = number (fraction (pos n) 0)

abbrev pub rational : Rate → Value
rational rate = number (fraction (pos rate.numerator) rate.divisor)

abbrev pub naturals : List ℕ → Values
naturals [] = nil
naturals (n ∷ ns) = cons (natural n) (naturals ns)

abbrev pub booleans : List Bool → Values
booleans [] = nil
booleans (b ∷ bs) = cons (boolean b) (booleans bs)

abbrev pub encode_range : RangeControlConfigSnapshot → Value
encode_range c = object_of (
    ("initial", natural c.initial)
    ∷ ("min", natural c.min)
    ∷ ("max", natural c.max)
    ∷ ("step", natural c.step)
    ∷ ("unit", string c.unit)
    ∷ ("mutability", string c.mutability)
    ∷ [])

abbrev pub encode_capacity : AllowedControlConfigSnapshot → Value
encode_capacity c = object_of (
    ("initial", natural c.initial)
    ∷ ("allowed", array (naturals c.allowed))
    ∷ ("unit", string c.unit)
    ∷ ("mutability", string c.mutability)
    ∷ [])

abbrev pub encode_installed : InstalledConfigSnapshot → Value
encode_installed c = object_of (
    ("initial", boolean c.initial)
    ∷ ("allowed", array (booleans c.allowed))
    ∷ ("mutability", string c.mutability)
    ∷ [])

abbrev pub level_name : LogLevel → String
level_name debug = "debug"
level_name info = "info"
level_name warn = "warn"
level_name LogLevel.error = "error"

abbrev pub encode_logging : LoggingConfigSnapshot → Value
encode_logging c =
    object_of (("level", string (level_name c.level)) ∷ ("mutability", string "startup-only") ∷ [])

abbrev pub encode_optional {ℓ} : {A : Type ℓ} → (A → Value) → Option A → Value
encode_optional encode none = null
encode_optional encode (some a) = encode a

abbrev pub encode_config : LoadgenConfigSnapshot → Value
encode_config c = object_of (
    ("readerReadBatchSize", encode_range c.reader_read_batch_size)
    ∷ ("readerWorkers", encode_optional encode_range c.reader_workers)
    ∷ ("readerChannelCapacity", encode_capacity c.reader_channel_capacity)
    ∷ ("senderChannelCapacity", encode_capacity c.sender_channel_capacity)
    ∷ ("metricsWindowMs", encode_range c.metrics_window_ms)
    ∷ ("throttlerRequestedTps", encode_range c.throttler_requested_tps)
    ∷ ("throttlerInstalled", encode_installed c.throttler_installed)
    ∷ ("senderWorkers", encode_range c.sender_workers)
    ∷ ("logging", encode_optional encode_logging c.logging)
    ∷ [])

abbrev pub run_state_name : RunState → String
run_state_name idle = "idle"
run_state_name running = "running"
run_state_name paused = "paused"
run_state_name faulted = "faulted"

abbrev pub encode_run : WireRun → Value
encode_run r = object_of (
    ("state", string (run_state_name r.state))
    ∷ ("totalTransactions", natural r.total_transactions)
    ∷ ("elapsedMs", natural r.elapsed_ms)
    ∷ [])

abbrev pub operation_name : SourceOperation → String
operation_name glob = "glob"
operation_name open_file = "open"
operation_name read = "read"
operation_name close = "close"
operation_name reader_close = "reader-close"

abbrev pub encode_source_error : ReaderSourceErrorSnapshot → Value
encode_source_error e = object_of (
    ("category", string "source")
    ∷ ("operation", string (operation_name e.operation))
    ∷ ("relativePath", string e.relative_path)
    ∷ ("message", string e.message)
    ∷ [])

abbrev pub encode_reader : WireReader → Value
encode_reader r = object_of (
    ("workers", natural r.workers)
    ∷ ("liveWorkers", natural r.live_workers)
    ∷ ("idleWorkers", natural r.idle_workers)
    ∷ ("readingWorkers", natural r.reading_workers)
    ∷ ("blockedWorkers", natural r.blocked_workers)
    ∷ ("drainingWorkers", natural r.draining_workers)
    ∷ ("drainingIdleWorkers", natural r.draining_idle_workers)
    ∷ ("drainingReadingWorkers", natural r.draining_reading_workers)
    ∷ ("drainingBlockedWorkers", natural r.draining_blocked_workers)
    ∷ ("readBatchSize", natural r.read_batch_size)
    ∷ ("readTps", rational r.read_tps)
    ∷ ("rowsRead", natural r.rows_read)
    ∷ ("sourceDirectory", string r.source_directory)
    ∷ ("sourceError", encode_optional encode_source_error r.source_error)
    ∷ [])

abbrev pub encode_throttler : WireThrottler → Value
encode_throttler t = object_of (
    ("requestedTps", natural t.requested_tps)
    ∷ ("admittedTps", rational t.admitted_tps)
    ∷ ("installed", boolean t.installed)
    ∷ [])

abbrev pub encode_sender : WireSender → Value
encode_sender s = object_of (
    ("workers", natural s.workers)
    ∷ ("liveWorkers", natural s.live_workers)
    ∷ ("idleWorkers", natural s.idle_workers)
    ∷ ("inFlightWorkers", natural s.in_flight_workers)
    ∷ ("backoffWorkers", natural s.backoff_workers)
    ∷ ("drainingWorkers", natural s.draining_workers)
    ∷ ("drainingIdleWorkers", natural s.draining_idle_workers)
    ∷ ("drainingInFlightWorkers", natural s.draining_in_flight_workers)
    ∷ ("drainingBackoffWorkers", natural s.draining_backoff_workers)
    ∷ [])

abbrev pub encode_channel : WireChannelSnapshot → Value
encode_channel c = object_of (
    ("capacity", natural c.capacity)
    ∷ ("depthBatches", natural c.depth_batches)
    ∷ ("bufferedTransactions", natural c.buffered_transactions)
    ∷ ("blockedSenders", natural c.blocked_senders)
    ∷ ("oldestBlockedSenderMs", natural c.oldest_blocked_sender_ms)
    ∷ ("blockedMs", natural c.blocked_ms)
    ∷ ("sentBatchesTotal", natural c.sent_batches_total)
    ∷ ("sentTransactionsTotal", natural c.sent_transactions_total)
    ∷ ("receivedBatchesTotal", natural c.received_batches_total)
    ∷ ("receivedTransactionsTotal", natural c.received_transactions_total)
    ∷ ("inputBatchesPerSecond", rational c.input_batches_per_second)
    ∷ ("inputTransactionsPerSecond", rational c.input_transactions_per_second)
    ∷ ("outputBatchesPerSecond", rational c.output_batches_per_second)
    ∷ ("outputTransactionsPerSecond", rational c.output_transactions_per_second)
    ∷ [])

abbrev pub encode_snapshot : WireSnapshot → Value
encode_snapshot w = object_of (
    ("run", encode_run w.run)
    ∷ ("reader", encode_reader w.reader)
    ∷ ("throttler", encode_throttler w.throttler)
    ∷ ("sender", encode_sender w.sender)
    ∷ ("readerChannel", encode_channel w.reader_channel)
    ∷ ("senderChannel", encode_channel w.sender_channel)
    ∷ ("config", encode_config w.config)
    ∷ [])
