-- ===== src/HttpAdapter/Decode/Reader.antt =====
-- The run and the reader of a snapshot response (`decodeWireSnapshot` of
-- frontend/src/adapters/HttpAdapter.ts).
use Prim.Native.String.{String}
use text.Mathlib.Text.{◌==◌ as str_eq, starts_with}
use ingestion_lab_loadgen.Loadgen.{
  ErrorCategory, LoadgenConfigSnapshot, RangeControlConfigSnapshot, ReaderSourceErrorSnapshot,
  RunState, SourceOperation, close, faulted, glob, open_file, paused, read, reader_close, running,
  source, idle,
}
use ingestion_lab_loadgen.Prelude.{
  Bool, List, Option, [], false, if◌then◌else◌, leb, not, some, true, ℕ, ◌&&◌, ◌+◌, ◌==◌, ◌||◌, ◌∷◌,
  none,
}
use ingestion_lab_loadgen.HttpAdapter.Wire.{WireReader, WireRun}
use ingestion_lab_loadgen.HttpAdapter.Json.{
  Value, accept, exact_object, in_range, property, string, wire_integer, wire_number, wire_text,
  ◌>>=◌, null,
}

abbrev pub run_keys : List String
run_keys = "elapsedMs" ∷ "state" ∷ "totalTransactions" ∷ []

abbrev pub read_run_state : Value → Option RunState
read_run_state (string name) =
    if str_eq name "idle"
    then some RunState.idle
    else if str_eq name "running"
    then some RunState.running
    else if str_eq name "paused"
    then some RunState.paused
    else if str_eq name "faulted"
    then some RunState.faulted
    else none
read_run_state other = none

unfoldable pub decode_run : Value → Option WireRun
decode_run value = do
  members ← exact_object run_keys value
  state ← read_run_state (property members "state")
  elapsed ← wire_integer (property members "elapsedMs")
  total ← wire_integer (property members "totalTransactions")
  some (record { state = state; total_transactions = total; elapsed_ms = elapsed })

abbrev pub source_error_keys : List String
source_error_keys = "category" ∷ "message" ∷ "operation" ∷ "relativePath" ∷ []

abbrev pub read_category : Value → Option ErrorCategory
read_category (string name) = if str_eq name "source" then some source else none
read_category other = none

abbrev pub read_operation : Value → Option SourceOperation
read_operation (string name) =
    if str_eq name "glob"
    then some glob
    else if str_eq name "open"
    then some open_file
    else if str_eq name "read"
    then some read
    else if str_eq name "close"
    then some close
    else if str_eq name "reader-close"
    then some reader_close
    else none
read_operation other = none

-- The path is under the source directory, and neither text is empty.
abbrev pub source_error_passes : ReaderSourceErrorSnapshot → Bool
source_error_passes e =
    not (str_eq e.relative_path "")
    && not (starts_with e.relative_path "/")
    && not (starts_with e.relative_path "../")
    && not (str_eq e.message "")

unfoldable pub decode_source_error : Value → Option ReaderSourceErrorSnapshot
decode_source_error value = do
  members ← exact_object source_error_keys value
  category ← read_category (property members "category")
  operation ← read_operation (property members "operation")
  path ← wire_text (property members "relativePath")
  message ← wire_text (property members "message")
  accept source_error_passes (record {
    category = category;
    operation = operation;
    relative_path = path;
    message = message;
  })

-- `reader.sourceError`, which may be null
unfoldable pub decode_source_errors : Value → Option (Option ReaderSourceErrorSnapshot)
decode_source_errors null = some none
decode_source_errors value = do e ← decode_source_error value; some (some e)

abbrev pub is_stopped : RunState → Bool
is_stopped idle = true
is_stopped faulted = true
is_stopped running = false
is_stopped paused = false

-- The workers add up, live and drairunning, none drains that is not there, and none is there in a run
-- that has stopped.
abbrev pub workers_pass : Bool → (a b c da db dc live draining : ℕ) → Bool
workers_pass stopped a b c da db dc live draining =
    live == a + b + c
    && draining == da + db + dc
    && leb da a
    && leb db b
    && leb dc c
    && not (stopped && (not (live == 0) || not (draining == 0)))

abbrev pub reader_keys : List String
reader_keys =
    "blockedWorkers" ∷ "drainingBlockedWorkers" ∷ "drainingIdleWorkers" ∷ "drainingReadingWorkers"
    ∷ "drainingWorkers" ∷ "idleWorkers" ∷ "liveWorkers" ∷ "readBatchSize" ∷ "readTps"
    ∷ "readingWorkers" ∷ "rowsRead" ∷ "sourceDirectory" ∷ "sourceError" ∷ "workers" ∷ []

-- `isRangeValue(value, config.readerWorkers!)`
abbrev pub in_some_range : ℕ → Option RangeControlConfigSnapshot → Bool
in_some_range n none = false
in_some_range n (some config) = in_range n config

abbrev pub reader_passes : LoadgenConfigSnapshot → RunState → WireReader → Bool
reader_passes config run r =
    in_some_range r.workers config.reader_workers
    && in_range r.read_batch_size config.reader_read_batch_size
    && workers_pass (is_stopped run) r.idle_workers r.reading_workers r.blocked_workers
        r.draining_idle_workers r.draining_reading_workers r.draining_blocked_workers r.live_workers
        r.draining_workers
    && not (str_eq r.source_directory "")

unfoldable pub decode_reader : LoadgenConfigSnapshot → RunState → Value → Option WireReader
decode_reader config run value = do
  members ← exact_object reader_keys value
  workers ← wire_integer (property members "workers")
  batch_size ← wire_integer (property members "readBatchSize")
  read_tps ← wire_number (property members "readTps")
  rows_read ← wire_integer (property members "rowsRead")
  live ← wire_integer (property members "liveWorkers")
  idle_count ← wire_integer (property members "idleWorkers")
  reading ← wire_integer (property members "readingWorkers")
  blocked ← wire_integer (property members "blockedWorkers")
  draining ← wire_integer (property members "drainingWorkers")
  draining_idle ← wire_integer (property members "drainingIdleWorkers")
  draining_reading ← wire_integer (property members "drainingReadingWorkers")
  draining_blocked ← wire_integer (property members "drainingBlockedWorkers")
  directory ← wire_text (property members "sourceDirectory")
  source_error ← decode_source_errors (property members "sourceError")
  accept (reader_passes config run) (record {
    workers = workers;
    live_workers = live;
    idle_workers = idle_count;
    reading_workers = reading;
    blocked_workers = blocked;
    draining_workers = draining;
    draining_idle_workers = draining_idle;
    draining_reading_workers = draining_reading;
    draining_blocked_workers = draining_blocked;
    read_batch_size = batch_size;
    read_tps = read_tps;
    rows_read = rows_read;
    source_directory = directory;
    source_error = source_error;
  })
