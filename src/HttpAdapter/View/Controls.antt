-- ===== src/HttpAdapter/View/Controls.antt =====
-- The controls of a snapshot (frontend/src/adapters/HttpAdapter.ts). A channel's allowed capacities are
-- never empty in a response that was decoded; of an empty list the code would read `undefined`, here 0.
use Prim.Native.String.{String}
use ingestion_lab_loadgen.Prelude.{
  Bool, List, Option, [], false, if◌then◌else◌, none, some, true, ℕ, ◌&&◌, ◌∷◌,
}
use ingestion_lab_loadgen.Loadgen.{
  AllowedControlConfigSnapshot, ApplyMode, ConnectionState, NumericControlSnapshot,
  RangeControlConfigSnapshot, RunState, connected, connecting, disconnected, faulted, idle,
  immediate, paused, running, unavailable,
}

abbrev pub unavailable_control : String → NumericControlSnapshot
unavailable_control unit = record {
  applied = none;
  preview = none;
  pending = none;
  min = 0;
  max = 0;
  step = 1;
  unit = unit;
  apply_mode = unavailable;
}

abbrev pub is_connected : ConnectionState → Bool
is_connected connected = true
is_connected connecting = false
is_connected disconnected = false
is_connected ConnectionState.error = false

abbrev pub is_idle : RunState → Bool
is_idle idle = true
is_idle running = false
is_idle paused = false
is_idle faulted = false

abbrev pub mode_when : Bool → ApplyMode
mode_when writable = if writable then immediate else unavailable

-- The control of a range, which is there when the response has one.
abbrev pub range_control :
    Option ℕ → Option RangeControlConfigSnapshot → Bool → String → NumericControlSnapshot
range_control value none writable unit = unavailable_control unit
range_control value (some config) writable unit = record {
  applied = value;
  preview = none;
  pending = none;
  min = config.min;
  max = config.max;
  step = config.step;
  unit = config.unit;
  apply_mode = mode_when writable;
}

abbrev pub sender_control :
    Option ℕ → Option RangeControlConfigSnapshot → ConnectionState → NumericControlSnapshot
sender_control value config link = range_control value config (is_connected link) "workers"

abbrev pub throttler_requested_tps_control :
    Option ℕ → Option RangeControlConfigSnapshot → ConnectionState → NumericControlSnapshot
throttler_requested_tps_control value config link =
    range_control value config (is_connected link) "transactions/s"

abbrev pub read_batch_size_control :
    Option ℕ
    → Option RangeControlConfigSnapshot
    → ConnectionState
    → RunState
    → NumericControlSnapshot
read_batch_size_control value config link run_state =
    range_control value config (is_connected link && is_idle run_state) "transactions"

abbrev pub first_entry : List ℕ → ℕ
first_entry [] = 0
first_entry (n ∷ ns) = n

abbrev pub last_entry : List ℕ → ℕ
last_entry [] = 0
last_entry (n ∷ []) = n
last_entry (n ∷ m ∷ ns) = last_entry (m ∷ ns)

abbrev pub reader_channel_capacity_control :
    ℕ → AllowedControlConfigSnapshot → ConnectionState → RunState → NumericControlSnapshot
reader_channel_capacity_control value config link run_state = record {
  applied = some value;
  preview = none;
  pending = none;
  min = first_entry config.allowed;
  max = last_entry config.allowed;
  step = 1;
  unit = config.unit;
  apply_mode = mode_when (is_connected link && is_idle run_state);
}
