-- ===== src/Simulation/Retry/Bounds.antt =====
-- The retry delay stays within its jitter, on the grid of the steps, and repeats every five batches.
use ingestion_lab_loadgen.Prelude.{
  ℕ, zero, suc, ◌/◌, none, ◌+◌, ◌-◌, ◌*◌, ◌%◌, ◌^◌, ◌≤◌, ◌<◌, ◌≡◌, ap, some, arith, get_elem?,
}
use ingestion_lab_loadgen.Prelude.Int.{pos, pos_part, ℤ}
use ingestion_lab_loadgen.Simulation.Types.{finite, not_finite, fixed_step_ms}
use ingestion_lab_loadgen.Simulation.Retry.{
  retry_backoff_base_ms, retry_backoff_multiplier, retry_jitter_factors, rounded_step_duration,
  deterministic_retry_delay_ms, ceil_to_step,
}

ceil_to_step-least :
    (x steps : ℕ)
    → x ≤ steps * fixed_step_ms
    → (ceil_to_step x % fixed_step_ms ≡ 0)
      × (x ≤ ceil_to_step x)
      × (ceil_to_step x ≤ steps * fixed_step_ms)
ceil_to_step-least x steps h = (omega arith, omega arith, omega arith)

-- A latency that is a number, a negative one counted as 0, is rounded up to a multiple of the step
-- that is not below it, and that is the least: it is at most any whole number of steps that is not
-- below the latency.
pub rounded_step_duration-least :
    (duration_ms : ℤ) (steps : ℕ)
    → pos_part duration_ms ≤ steps * fixed_step_ms
    → let d = rounded_step_duration (finite duration_ms) in
      (d % fixed_step_ms ≡ 0) × (pos_part duration_ms ≤ d) × (d ≤ steps * fixed_step_ms)
unfolding rounded_step_duration
rounded_step_duration-least duration_ms steps h = ceil_to_step-least (pos_part duration_ms) steps h

-- The nominal backoff before a retry.
abbrev pub nominal_ms : ℕ → ℕ
nominal_ms retry_number = retry_backoff_base_ms * retry_backoff_multiplier ^ (retry_number - 1)

-- The delay that the nominal backoff and the jitter factor at `i` give.
abbrev delay_at : ℕ → ℕ → ℕ
delay_at nominal i = rounded_step_duration (elim (get_elem? retry_jitter_factors i) [
  | none ↦ not_finite
  | some factor ↦ finite (pos (nominal * factor / 10))
])

delay_at-bounds :
    (p i : ℕ)
    → i < 5
    → 1 ≤ p
    → let d = delay_at (250 * p) i in
      (250 * p * 8 ≤ d * 10) × (d * 10 ≤ 250 * p * 12) × (d % 10 ≡ 0)
unfolding rounded_step_duration
delay_at-bounds p zero l h = omega arith
delay_at-bounds p (suc zero) l h = omega arith
delay_at-bounds p (suc (suc zero)) l h = omega arith
delay_at-bounds p (suc (suc (suc zero))) l h = omega arith
delay_at-bounds p (suc (suc (suc (suc zero)))) l h = omega arith
delay_at-bounds p (suc (suc (suc (suc (suc i))))) l h = absurd (omega arith)

pow-positive : (k : ℕ) → 1 ≤ 2 ^ k
pow-positive zero = ground arith
pow-positive (suc k) = ground (arith, pow-positive k)

-- The delay before a retry, for any batch and any number of the retry: it is the nominal backoff,
-- which doubles with every retry, give or take 20 percent, and a multiple of the step.
pub deterministic_retry_delay_ms-bounds :
    (batch_sequence retry_number : ℕ)
    → let d = deterministic_retry_delay_ms batch_sequence retry_number in
      (nominal_ms retry_number * 8 ≤ d * 10)
      × (d * 10 ≤ nominal_ms retry_number * 12)
      × (d % fixed_step_ms ≡ 0)
unfolding deterministic_retry_delay_ms
deterministic_retry_delay_ms-bounds batch_sequence retry_number =
    delay_at-bounds (2 ^ (retry_number - 1)) (((batch_sequence + retry_number) % 5 + 5) % 5)
      (omega arith) (pow-positive (retry_number - 1))

-- Batches whose numbers differ by five wait equally long.
pub deterministic_retry_delay_ms-periodic :
    (batch_sequence retry_number : ℕ)
    → deterministic_retry_delay_ms (batch_sequence + 5) retry_number
      ≡ deterministic_retry_delay_ms batch_sequence retry_number
unfolding deterministic_retry_delay_ms
deterministic_retry_delay_ms-periodic batch_sequence retry_number =
    ap {B = ℕ} (λ (i : ℕ). delay_at (nominal_ms retry_number) ((i + 5) % 5)) (omega arith)
