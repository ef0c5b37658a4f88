-- ===== src/ChannelFlow/Pressure.antt =====
-- Pressures (frontend/src/model/channelFlowState.ts), as fractions. Times are whole microseconds, so that
-- the displayed pressure moves by whole millionths, two for each microsecond.
use ingestion_lab_loadgen.Loadgen.{
  ChannelFlowState, ChannelTelemetrySnapshot, Rate, backpressure, near_limit, normal, whole,
}
use ingestion_lab_loadgen.Prelude.{
  Bool, Option, false, if◌then◌else◌, leb, ltb, none, some, suc, zero, ℕ, ◌&&◌, ◌*◌, ◌+◌, ◌-◌, ◌/◌,
  ◌==◌, ◌||◌,
}
pub mod Bounds

abbrev pub no_pressure : Rate
no_pressure = whole 0

abbrev pub full_pressure : Rate
full_pressure = whole 1

-- `clampPressure`, of the fraction n / (d + 1).
abbrev pub clamp_pressure : ℕ → ℕ → Rate
clamp_pressure n d = if leb (suc d) n then full_pressure else record { numerator = n; divisor = d }

abbrev pub occupancy_pressure : Option ℕ → Option ℕ → Rate
occupancy_pressure none applied = no_pressure
occupancy_pressure (some depth) none = no_pressure
occupancy_pressure (some depth) (some zero) = no_pressure
occupancy_pressure (some depth) (some (suc n)) = clamp_pressure depth n

abbrev pub blocking_noise_max_ms : ℕ
blocking_noise_max_ms = 100

abbrev pub blocking_saturation_ms : ℕ
blocking_saturation_ms = 500

pub blocking_pressure : ℕ → ℕ → Rate
blocking_pressure blocked oldest =
    if blocked == 0 || leb oldest blocking_noise_max_ms
    then no_pressure
    else clamp_pressure (oldest - blocking_noise_max_ms)
        (blocking_saturation_ms - blocking_noise_max_ms - 1)

abbrev is_zero : Option ℕ → Bool
is_zero none = false
is_zero (some n) = n == 0

abbrev pub has_rendezvous_waiter : ChannelTelemetrySnapshot → Bool
has_rendezvous_waiter channel = is_zero channel.capacity.applied && ltb 0 channel.blocked_senders

-- `Math.max`
abbrev pub larger : Rate → Rate → Rate
larger a b = if leb (b.numerator * suc a.divisor) (a.numerator * suc b.divisor) then a else b

pub effective_channel_pressure : ChannelTelemetrySnapshot → Rate
effective_channel_pressure channel =
    if has_rendezvous_waiter channel
    then full_pressure
    else larger (occupancy_pressure channel.depth_batches channel.capacity.applied)
        (blocking_pressure channel.blocked_senders channel.oldest_blocked_sender_ms)

abbrev pub millionths : ℕ
millionths = 1_000_000

-- `Math.round(value * 1_000_000)`
abbrev pub rounded : Rate → ℕ
rounded value = (2 * (value.numerator * millionths) + suc value.divisor) / (2 * suc value.divisor)

-- The two pressures differ by at most so many millionths.
abbrev pub is_within : Rate → Rate → ℕ → Bool
is_within current target change =
    let a = target.numerator * suc current.divisor in
    let b = current.numerator * suc target.divisor in
    let reach = change * (suc current.divisor * suc target.divisor) in
    leb (a * millionths) (b * millionths + reach) && leb (b * millionths) (a * millionths + reach)

abbrev pub is_above : Rate → Rate → Bool
is_above target current =
    ltb (current.numerator * suc target.divisor) (target.numerator * suc current.divisor)

-- `moveDisplayedPressure`, after so many microseconds.
pub move_displayed_pressure : Rate → Rate → ℕ → Rate
move_displayed_pressure current target elapsed =
    let change = 2 * elapsed in
    if elapsed == 0
    then current
    else if is_within current target change
    then target
    else if is_above target current
    then record { numerator = rounded current + change; divisor = millionths - 1 }
    else record { numerator = rounded current - change; divisor = millionths - 1 }

abbrev pub pressure_flow_state : Rate → ChannelFlowState
pressure_flow_state displayed =
    if displayed.numerator == suc displayed.divisor
    then backpressure
    else if leb (suc displayed.divisor) (2 * displayed.numerator)
    then near_limit
    else normal
