-- ===== src/Simulation/Retry.antt =====
-- The deterministic retry delay of frontend/src/model/simulation.ts: an exponential backoff with a
-- jitter factor that the batch's number chooses, rounded up to whole steps.
pub mod Bounds
use ingestion_lab_loadgen.Prelude.{
  ℕ, ◌+◌, ◌-◌, ◌*◌, ◌/◌, ◌%◌, ◌^◌, List, [], ◌∷◌, none, some, length, get_elem?,
}
use ingestion_lab_loadgen.Prelude.Int.{pos, pos_part}
use ingestion_lab_loadgen.Simulation.Types.{Duration, finite, not_finite, fixed_step_ms}

abbrev pub retry_max_attempts : ℕ
retry_max_attempts = 3

abbrev pub retry_backoff_base_ms : ℕ
retry_backoff_base_ms = 250

abbrev pub retry_backoff_multiplier : ℕ
retry_backoff_multiplier = 2

abbrev pub retryable_status_codes : List ℕ
retryable_status_codes = 408 ∷ 425 ∷ 429 ∷ 500 ∷ 502 ∷ 503 ∷ 504 ∷ []

-- The factors 0.8, 0.9, 1, 1.1 and 1.2, in tenths.
abbrev pub retry_jitter_factors : List ℕ
retry_jitter_factors = 8 ∷ 9 ∷ 10 ∷ 11 ∷ 12 ∷ []

-- `Math.ceil(x / FIXED_STEP_MS) * FIXED_STEP_MS`, for x not below 0
abbrev pub ceil_to_step : ℕ → ℕ
ceil_to_step x = (x + (fixed_step_ms - 1)) / fixed_step_ms * fixed_step_ms

pub rounded_step_duration : Duration → ℕ
rounded_step_duration (finite duration_ms) = ceil_to_step (pos_part duration_ms)
rounded_step_duration not_finite = ceil_to_step fixed_step_ms

-- The products with the five factors are whole, in doubles too. Past the last factor the source
-- would multiply by `undefined`, which is no finite number.
pub deterministic_retry_delay_ms : ℕ → ℕ → ℕ
unfolding rounded_step_duration
deterministic_retry_delay_ms batch_sequence retry_number =
    let nominal = retry_backoff_base_ms * retry_backoff_multiplier ^ (retry_number - 1) in
    let factors = length retry_jitter_factors in
    let factor_index = ((batch_sequence + retry_number) % factors + factors) % factors in
    rounded_step_duration (elim (get_elem? retry_jitter_factors factor_index) [
      | none ↦ not_finite
      | some factor ↦ finite (pos (nominal * factor / 10))
    ])
