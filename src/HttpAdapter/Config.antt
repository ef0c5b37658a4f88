-- ===== src/HttpAdapter/Config.antt =====
-- `decodeConfig` of frontend/src/adapters/HttpAdapter.ts. An error that it throws is none: whoever
-- catches it reads no message.
use Prim.Native.String.{String}
use text.Mathlib.Text.{◌==◌ as str_eq}
use ingestion_lab_loadgen.Prelude.{
  ℕ, Bool, true, false, not, ◌&&◌, ◌||◌, Option, none, some, List, [], ◌∷◌, ltb, leb, ◌==◌,
  if◌then◌else◌, length, includes,
}
use ingestion_lab_loadgen.Loadgen.{
  RangeControlConfigSnapshot, AllowedControlConfigSnapshot, InstalledConfigSnapshot,
  LoggingConfigSnapshot, LoadgenConfigSnapshot, LogLevel, startup_only,
}
use ingestion_lab_loadgen.HttpAdapter.Json.{
  Value, array, Values, nil, cons, property, exact_object, wire_integer, wire_text, wire_boolean,
  in_range, accept, ◌>>=◌,
}

abbrev pub range_keys : List String
range_keys = "initial" ∷ "max" ∷ "min" ∷ "mutability" ∷ "step" ∷ "unit" ∷ []

-- An object with the keys of a range, whole numbers and texts where they belong.
unfoldable pub read_range : Value → Option RangeControlConfigSnapshot
read_range value = do
  members ← exact_object range_keys value
  initial ← wire_integer (property members "initial")
  lowest ← wire_integer (property members "min")
  highest ← wire_integer (property members "max")
  step ← wire_integer (property members "step")
  unit ← wire_text (property members "unit")
  mutability ← wire_text (property members "mutability")
  some (record {
    initial = initial;
    min = lowest;
    max = highest;
    step = step;
    unit = unit;
    mutability = mutability;
  })

-- A range of this unit and mutability, whose ends pass a test and whose initial value is in it.
abbrev pub range_passes : String → String → (ℕ → ℕ → Bool) → RangeControlConfigSnapshot → Bool
range_passes unit mutability bounds config =
    bounds config.min config.max
    && ltb 0 config.step
    && str_eq config.unit unit
    && str_eq config.mutability mutability
    && in_range config.initial config

unfoldable pub decode_range :
    String → String → (ℕ → ℕ → Bool) → Value → Option RangeControlConfigSnapshot
decode_range unit mutability bounds value = do
  config ← read_range value
  accept (range_passes unit mutability bounds) config

abbrev pub positive_bounds : ℕ → ℕ → Bool
positive_bounds lowest highest = ltb 0 lowest && leb lowest highest

abbrev pub window_bounds : ℕ → ℕ → Bool
window_bounds lowest highest = leb 100 lowest && leb highest 10_000 && leb lowest highest

-- The sender's range has fixed numbers.
abbrev pub sender_passes : RangeControlConfigSnapshot → Bool
sender_passes config =
    config.initial == 32
    && config.min == 1
    && config.max == 32
    && config.step == 1
    && str_eq config.unit "workers"
    && str_eq config.mutability "immediate"

unfoldable pub decode_sender : Value → Option RangeControlConfigSnapshot
decode_sender value = do config ← read_range value; accept sender_passes config

-- `allowed.every(isWireInteger)`, with the numbers.
unfoldable pub wire_integers : Values → Option (List ℕ)
wire_integers nil = some []
wire_integers (cons value values) = do
  n ← wire_integer value
  ns ← wire_integers values
  some (n ∷ ns)

unfoldable pub wire_booleans : Values → Option (List Bool)
wire_booleans nil = some []
wire_booleans (cons value values) = do
  b ← wire_boolean value
  bs ← wire_booleans values
  some (b ∷ bs)

unfoldable pub wire_array : Value → Option Values
wire_array (array values) = some values
wire_array other = none

-- No entry is at most the one before it.
unfoldable pub increasing_from : ℕ → List ℕ → Bool
increasing_from previous [] = true
increasing_from previous (n ∷ ns) = ltb previous n && increasing_from n ns

unfoldable pub increasing : List ℕ → Bool
increasing [] = true
increasing (n ∷ ns) = increasing_from n ns

abbrev pub is_empty : List ℕ → Bool
is_empty [] = true
is_empty (n ∷ ns) = false

abbrev pub capacity_passes : AllowedControlConfigSnapshot → Bool
capacity_passes config =
    not (is_empty config.allowed)
    && str_eq config.unit "batches"
    && str_eq config.mutability "idle-only"
    && increasing config.allowed
    && includes config.allowed config.initial

unfoldable pub decode_capacity : Value → Option AllowedControlConfigSnapshot
decode_capacity value = do
  members ← exact_object ("allowed" ∷ "initial" ∷ "mutability" ∷ "unit" ∷ []) value
  values ← wire_array (property members "allowed")
  allowed ← wire_integers values
  initial ← wire_integer (property members "initial")
  unit ← wire_text (property members "unit")
  mutability ← wire_text (property members "mutability")
  accept capacity_passes
      (record { initial = initial; allowed = allowed; unit = unit; mutability = mutability })

abbrev pub includes_boolean : List Bool → Bool → Bool
includes_boolean [] b = false
includes_boolean (true ∷ bs) b = b || includes_boolean bs b
includes_boolean (false ∷ bs) b = not b || includes_boolean bs b

-- Two Booleans, and not the same one twice.
abbrev pub both_booleans : List Bool → Bool
both_booleans bs = length bs == 2 && includes_boolean bs true && includes_boolean bs false

abbrev pub installed_passes : InstalledConfigSnapshot → Bool
installed_passes config =
    both_booleans config.allowed
    && includes_boolean config.allowed config.initial
    && str_eq config.mutability "immediate"

unfoldable pub decode_installed : Value → Option InstalledConfigSnapshot
decode_installed value = do
  members ← exact_object ("allowed" ∷ "initial" ∷ "mutability" ∷ []) value
  values ← wire_array (property members "allowed")
  allowed ← wire_booleans values
  initial ← wire_boolean (property members "initial")
  mutability ← wire_text (property members "mutability")
  accept installed_passes (record { initial = initial; allowed = allowed; mutability = mutability })

unfoldable pub read_level : String → Option LogLevel
read_level name =
    if str_eq name "debug"
    then some LogLevel.debug
    else if str_eq name "info"
    then some LogLevel.info
    else if str_eq name "warn"
    then some LogLevel.warn
    else if str_eq name "error"
    then some LogLevel.error
    else none

unfoldable pub read_mutability : LogLevel → String → Option LoggingConfigSnapshot
read_mutability level name =
    if str_eq name "startup-only"
    then some (record { level = level; mutability = startup_only })
    else none

unfoldable pub decode_logging : Value → Option LoggingConfigSnapshot
decode_logging value = do
  members ← exact_object ("level" ∷ "mutability" ∷ []) value
  name ← wire_text (property members "level")
  level ← read_level name
  mutability ← wire_text (property members "mutability")
  read_mutability level mutability

abbrev pub config_keys : List String
config_keys =
    "logging" ∷ "metricsWindowMs" ∷ "readerChannelCapacity" ∷ "readerReadBatchSize"
    ∷ "readerWorkers" ∷ "senderChannelCapacity" ∷ "senderWorkers" ∷ "throttlerInstalled"
    ∷ "throttlerRequestedTps" ∷ []

unfoldable pub decode_config : Value → Option LoadgenConfigSnapshot
decode_config value = do
  members ← exact_object config_keys value
  batch_size ←
      decode_range "transactions" "idle-only" positive_bounds
        (property members "readerReadBatchSize")
  reader_workers ←
      decode_range "workers" "immediate" positive_bounds (property members "readerWorkers")
  window ←
      decode_range "milliseconds" "startup-only" window_bounds (property members "metricsWindowMs")
  reader_capacity ← decode_capacity (property members "readerChannelCapacity")
  sender_capacity ← decode_capacity (property members "senderChannelCapacity")
  requested_tps ←
      decode_range "transactions/s" "immediate" ltb (property members "throttlerRequestedTps")
  installed ← decode_installed (property members "throttlerInstalled")
  sender_workers ← decode_sender (property members "senderWorkers")
  logging ← decode_logging (property members "logging")
  some (record {
    reader_read_batch_size = batch_size;
    reader_workers = some reader_workers;
    reader_channel_capacity = reader_capacity;
    sender_channel_capacity = sender_capacity;
    metrics_window_ms = window;
    throttler_requested_tps = requested_tps;
    throttler_installed = installed;
    sender_workers = sender_workers;
    logging = some logging;
  })
