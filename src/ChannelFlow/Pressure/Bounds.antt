-- ===== src/ChannelFlow/Pressure/Bounds.antt =====
-- Pressures are between 0 and 1, and the displayed one reaches its target.
use native.Mathlib.Nat.{
  div-add-mod, mul-le-mul, mul-le-mul_right, lt_of_mul-lt-mul_left, lt_of_mul-lt-mul_right,
}
use ingestion_lab_loadgen.Loadgen.{ChannelTelemetrySnapshot, Rate}
use ingestion_lab_loadgen.Prelude.{
  Option, arith, both_branches, leb, none, some, suc, zero, ℕ, ◌==◌, ◌||◌, ◌≡◌, ◌≤◌, ◌-◌,
  Bool-cases, and_intro, false, inl, inr, le→leb, true, ◌*◌, ◌+◌, ◌/◌, ◌<◌,
}
use ingestion_lab_loadgen.ChannelFlow.Pressure.{
  blocking_noise_max_ms, blocking_pressure, clamp_pressure, effective_channel_pressure,
  has_rendezvous_waiter, move_displayed_pressure, occupancy_pressure, blocking_saturation_ms,
  is_above, is_within, millionths, rounded, full_pressure,
}

-- At most 1.
abbrev pub IsPressure : Rate → Type 0
IsPressure value = value.numerator ≤ suc value.divisor

clamp_pressure-IsPressure : (n d : ℕ) → IsPressure (clamp_pressure n d)
clamp_pressure-IsPressure n d = ground arith

occupancy_pressure-IsPressure :
    (depth applied : Option ℕ) → IsPressure (occupancy_pressure depth applied)
occupancy_pressure-IsPressure none applied = omega arith
occupancy_pressure-IsPressure (some depth) none = omega arith
occupancy_pressure-IsPressure (some depth) (some zero) = omega arith
occupancy_pressure-IsPressure (some depth) (some (suc n)) = clamp_pressure-IsPressure depth n

blocking_pressure-IsPressure : (blocked oldest : ℕ) → IsPressure (blocking_pressure blocked oldest)
unfolding blocking_pressure
blocking_pressure-IsPressure blocked oldest =
    both_branches IsPressure (blocked == 0 || leb oldest blocking_noise_max_ms) _ _ (omega arith) (
      clamp_pressure-IsPressure (oldest - blocking_noise_max_ms)
        (blocking_saturation_ms - blocking_noise_max_ms - 1))

pub effective_channel_pressure-IsPressure :
    (channel : ChannelTelemetrySnapshot) → IsPressure (effective_channel_pressure channel)
unfolding effective_channel_pressure
effective_channel_pressure-IsPressure channel =
    both_branches IsPressure (has_rendezvous_waiter channel) _ _ (omega arith) (
      both_branches IsPressure _ _ _
        (occupancy_pressure-IsPressure channel.depth_batches channel.capacity.applied)
        (blocking_pressure-IsPressure channel.blocked_senders channel.oldest_blocked_sender_ms))

-- What is at most `p`, times at most `c`.
product_le : (x p m c : ℕ) → x ≤ p → m ≤ c → x * m ≤ c * p
product_le x p m c h k = omega (arith, mul-le-mul h k)

-- Two pressures differ by no more than 1.
reach-is_within :
    (current target : Rate) (change : ℕ)
    → IsPressure current
    → IsPressure target
    → millionths ≤ change
    → is_within current target change ≡ true
reach-is_within current target change h k l =
    let p : ℕ = suc current.divisor * suc target.divisor in
    let up : target.numerator * suc current.divisor ≤ p =
      omega (arith, mul-le-mul_right (suc current.divisor) k) in
    let down : current.numerator * suc target.divisor ≤ p =
      omega (arith, mul-le-mul_right (suc target.divisor) h) in
    let first = product_le (target.numerator * suc current.divisor) p millionths change up l in
    let second = product_le (current.numerator * suc target.divisor) p millionths change down l in
    let a : ℕ = target.numerator * suc current.divisor * millionths in
    let b : ℕ = current.numerator * suc target.divisor * millionths in
    let reach : ℕ = change * p in
    and_intro (le→leb a (b + reach) (omega (arith, first)))
      (le→leb b (a + reach) (omega (arith, second)))

-- After half a second the target is reached, wherever the pressure was.
pub move_displayed_pressure-reaches :
    (current target : Rate) (elapsed : ℕ)
    → IsPressure current
    → IsPressure target
    → 500_000 ≤ elapsed
    → move_displayed_pressure current target elapsed ≡ target
unfolding move_displayed_pressure
move_displayed_pressure-reaches current target elapsed h k l =
    let some_time : (elapsed == 0) ≡ false = ground arith in
    rw (some_time, reach-is_within current target (2 * elapsed) h k (omega arith))

far_above :
    (current target : Rate) (change : ℕ)
    → is_within current target change ≡ false
    → is_above target current ≡ true
    → current.numerator * suc target.divisor * millionths
        + change * (suc current.divisor * suc target.divisor)
      < target.numerator * suc current.divisor * millionths
far_above current target change far rising = ground arith

-- A pressure that has not reached its target, and rises, does not pass 1 by rounding.
rise-le :
    (n d tn td e : ℕ)
    → n * suc td * millionths + 2 * e * (suc d * suc td) < tn * suc d * millionths
    → tn ≤ suc td
    → (2 * (n * millionths) + suc d) / (2 * suc d) + 2 * e ≤ millionths
rise-le n d tn td e h k =
    let top = mul-le-mul_right (suc d * millionths) k in
    let wide : (n * millionths + 2 * e * suc d) * suc td < suc d * millionths * suc td =
      omega (arith, h, top) in
    let narrow = lt_of_mul-lt-mul_right (suc td) wide in
    let q : ℕ = (2 * (n * millionths) + suc d) / (2 * suc d) in
    let quotient = div-add-mod (2 * (n * millionths) + suc d) (2 * suc d) in
    let scaled : 2 * suc d * (q + 2 * e) < 2 * suc d * (millionths + 1) =
      omega (arith, quotient, narrow) in
    omega (arith, lt_of_mul-lt-mul_left (2 * suc d) scaled)

rounded-le : (value : Rate) → IsPressure value → rounded value ≤ millionths
rounded-le value h =
    let top = mul-le-mul_right millionths h in
    let quotient =
      div-add-mod (2 * (value.numerator * millionths) + suc value.divisor)
        (2 * suc value.divisor) in
    let scaled : 2 * suc value.divisor * rounded value < 2 * suc value.divisor * (millionths + 1) =
      omega (arith, quotient, top) in
    omega (arith, lt_of_mul-lt-mul_left (2 * suc value.divisor) scaled)

pub move_displayed_pressure-IsPressure :
    (current target : Rate) (elapsed : ℕ)
    → IsPressure current
    → IsPressure target
    → IsPressure (move_displayed_pressure current target elapsed)
unfolding move_displayed_pressure
move_displayed_pressure-IsPressure current target elapsed h k =
    both_branches IsPressure (elapsed == 0) _ _ h
      (elim (Bool-cases (is_within current target (2 * elapsed))) [
        | inl near ↦ rw near k
        | inr far ↦ rw far (elim (Bool-cases (is_above target current)) [
          | inl rising ↦ rw rising (
              rise-le current.numerator current.divisor target.numerator target.divisor elapsed
                (far_above current target (2 * elapsed) far rising) k)
          | inr falling ↦ rw falling (omega (arith, rounded-le current h))
        ])
      ])

pub effective_channel_pressure-waiter :
    (c : ChannelTelemetrySnapshot)
    → has_rendezvous_waiter c ≡ true
    → effective_channel_pressure c ≡ full_pressure
unfolding effective_channel_pressure
effective_channel_pressure-waiter c h = rw h
