-- ===== src/SimulationAdapter/Ranges.antt =====
-- The ranges of the controls, and what a requested value becomes in its range
-- (frontend/src/adapters/SimulationAdapter.ts).
pub mod Grid
use Prim.Native.String.{String}
use ingestion_lab_loadgen.Prelude.{ℕ, suc, ◌+◌, ◌-◌, ◌*◌, ◌/◌, min, max, Option, none, some}
use ingestion_lab_loadgen.Prelude.Int.{ℤ, pos_part}
use ingestion_lab_loadgen.Simulation.Channel.{CapacityTelemetry}
use ingestion_lab_loadgen.Loadgen.{NumericControlSnapshot, immediate}

pub record NumericRange : Type 0 where
  pub lowest : ℕ
  pub highest : ℕ
  pub step : ℕ

abbrev range : ℕ → ℕ → ℕ → NumericRange
range lowest highest step = record { lowest = lowest; highest = highest; step = step }

-- `CONTROL_RANGES`
pub record ControlRanges : Type 0 where
  pub reader_workers : NumericRange
  pub sender_workers : NumericRange
  pub requested_tps : NumericRange
  pub reader_channel_capacity : NumericRange
  pub sender_channel_capacity : NumericRange
  pub read_batch_size : NumericRange
  pub http_timeout_ms : NumericRange
  pub target_delay_ms : NumericRange
  pub target_error_rate_percent : NumericRange

abbrev pub control_ranges : ControlRanges
control_ranges = record {
  reader_workers = range 1 7 1;
  sender_workers = range 1 32 1;
  requested_tps = range 0 250_000 5_000;
  reader_channel_capacity = range 0 12 1;
  sender_channel_capacity = range 0 160 10;
  read_batch_size = range 1_000 100_000 1_000;
  http_timeout_ms = range 10 5_000 10;
  target_delay_ms = range 0 2_000 10;
  target_error_rate_percent = range 0 100 1;
}

pub numeric_control : ℕ → NumericRange → String → Option ℕ → Option ℕ → NumericControlSnapshot
numeric_control applied range unit preview pending = record {
  applied = some applied;
  preview = preview;
  pending = pending;
  min = range.lowest;
  max = range.highest;
  step = range.step;
  unit = unit;
  apply_mode = immediate;
}

pub capacity_control : CapacityTelemetry → NumericRange → NumericControlSnapshot
unfolding numeric_control
capacity_control capacity range =
    numeric_control capacity.applied range "batches" capacity.preview capacity.pending

abbrev pub clamp : NumericRange → ℕ → ℕ
clamp range n = min range.highest (max range.lowest n)

-- `Math.round(n / d)` for whole n and d: halves round up.
abbrev pub round_ratio : ℕ → ℕ → ℕ
round_ratio n d = (2 * n + d) / (2 * d)

-- The value z / (n + 1) is carried as its numerator over q = n + 1; below 0 the range's least value
-- takes over, as no range reaches below 0.
pub normalize_numeric_value : ℤ → ℕ → NumericRange → ℕ
normalize_numeric_value z n range =
    let q = suc n in
    let bounded = min (range.highest * q) (max (range.lowest * q) (pos_part z)) in
    let stepped =
      range.lowest + round_ratio (bounded - range.lowest * q) (range.step * q) * range.step in
    clamp range stepped
