-- ===== src/Simulation/Start/Failures.antt =====
-- What the default outcome makes of a sequence of attempts.
use ingestion_lab_loadgen.Prelude.{
  ℕ, suc, ◌+◌, ◌*◌, ◌/◌, ◌≤◌, ◌<◌, ◌≡◌, arith, true, false, if◌then◌else◌, Bool, ◌∙◌, ap, sym,
  subst, refl, List, [], ◌∷◌, none, ltb, ◌==◌, length, Bool-cases, inl, inr,
}
use ingestion_lab_loadgen.Prelude.Int.{pos}
use ingestion_lab_loadgen.Simulation.Types.{
  Duration, SimulationAttemptContext, SimulationAttemptOutcome, SimulationBatch, SimulationConfig,
  finite,
}
use ingestion_lab_loadgen.Simulation.State.{Simulation}
use ingestion_lab_loadgen.Simulation.Start.{
  attempt_context, default_attempt_outcome, next_request_fails, select_outcome,
}

-- How many attempts succeed, fail with status 503, and time out.
pub record Tally : Type 0 where
  pub succeeded : ℕ
  pub failed : ℕ
  pub timed_out : ℕ

-- A tally with one attempt more.
pub tallied : SimulationAttemptOutcome → Tally → Tally
tallied (SimulationAttemptOutcome.http_response status latency) t =
    if status == 200
    then record t { succeeded = t.succeeded + 1 }
    else if status == 503
    then record t { failed = t.failed + 1 }
    else t
tallied (SimulationAttemptOutcome.timeout latency) t = record t { timed_out = t.timed_out + 1 }
tallied other t = t

-- The outcomes of these attempts, one after another: the simulation after them, and the tally.
pub outcomes : List (SimulationBatch × ℕ) → Simulation → Simulation × Tally
unfolding tallied
outcomes [] s = (s, record { succeeded = 0; failed = 0; timed_out = 0 })
outcomes ((batch, attempt) ∷ attempts) s =
    let (s₁, outcome) = select_outcome (attempt_context batch attempt s) s in
    let (s₂, more) = outcomes attempts s₁ in (s₂, tallied outcome more)

next_request_fails-credit :
    (s : Simulation)
    → let (s', fails) = next_request_fails s in
      (s'.failure_credit + (if fails then 100 else 0)
        ≡ s.failure_credit + s.config.target_error_rate_percent)
      × (s'.config ≡ s.config)
      × (s'.attempt_outcome_source ≡ s.attempt_outcome_source)
      × (s.failure_credit < 100
          → s.config.target_error_rate_percent ≤ 100
          → s'.failure_credit < 100)
unfolding next_request_fails
next_request_fails-credit s = ground arith

-- A first request and n more.
add_up :
    (fails : Bool) (n rate more before between after : ℕ)
    → between + (if fails then 100 else 0) ≡ before + rate
    → more * 100 + after ≡ n * rate + between
    → (if fails then suc more else more) * 100 + after ≡ suc n * rate + before
add_up true n rate more before between after h k = ground arith
add_up false n rate more before between after h k = ground arith

-- An attempt that is late by the configuration times out and changes nothing.
select_outcome-late :
    (context : SimulationAttemptContext) (s : Simulation)
    → s.attempt_outcome_source ≡ none
    → ltb context.http_timeout_ms (context.target_delay_ms + 5) ≡ true
    → select_outcome context s
      ≡ (s, SimulationAttemptOutcome.timeout (finite (pos context.http_timeout_ms)))
unfolding select_outcome default_attempt_outcome
select_outcome-late context s source late = rw (source, late) refl

-- One that is in time is answered with 503 or 200, as the credit says.
select_outcome-in_time :
    (context : SimulationAttemptContext) (s : Simulation)
    → s.attempt_outcome_source ≡ none
    → ltb context.http_timeout_ms (context.target_delay_ms + 5) ≡ false
    → let (s', fails) = next_request_fails s in
      select_outcome context s ≡ (
        s',
        SimulationAttemptOutcome.http_response
            (if fails then 503 else 200)
            (finite (pos (context.target_delay_ms + 5))),
      )
unfolding select_outcome default_attempt_outcome
select_outcome-in_time context s source in_time = rw (source, in_time) refl

tallied-answer :
    (fails : Bool) (latency : Duration) (t : Tally)
    → let t' =
        tallied (SimulationAttemptOutcome.http_response (if fails then 503 else 200) latency) t in
      (t'.failed ≡ (if fails then suc t.failed else t.failed))
      × (t'.succeeded + t'.failed ≡ suc (t.succeeded + t.failed))
      × (t'.timed_out ≡ t.timed_out)
unfolding tallied
tallied-answer true latency t = (omega arith, omega arith, refl)
tallied-answer false latency t = (omega arith, omega arith, refl)

-- Whether a default attempt outlasts the timeout.
abbrev pub is_late : SimulationConfig → Bool
is_late config = ltb config.http_timeout_ms (config.target_delay_ms + 5)

-- Of n attempts: all of them time out, if they are late; or the rate says how many fail, rounded down
-- with the credit counted in, and the others succeed.
abbrev pub Fates : Bool → ℕ → Simulation → Simulation × Tally → Type 0
Fates true n s r =
    (r.1.timed_out ≡ n)
    × (r.1.failed ≡ 0)
    × (r.1.succeeded ≡ 0)
    × (r.0.failure_credit ≡ s.failure_credit)
Fates false n s r =
    (r.1.timed_out ≡ 0)
    × (r.1.failed ≡ (n * s.config.target_error_rate_percent + s.failure_credit) / 100)
    × (r.1.succeeded + r.1.failed ≡ n)
    × (r.0.failure_credit < 100)

outcomes-late :
    (attempts : List (SimulationBatch × ℕ)) (s : Simulation)
    → s.attempt_outcome_source ≡ none
    → is_late s.config ≡ true
    → Fates true (length attempts) s (outcomes attempts s)
unfolding outcomes tallied
outcomes-late [] s source late = (refl, refl, refl, refl)
outcomes-late ((batch, attempt) ∷ attempts) s source late =
    let more = outcomes-late attempts s source late in
    rw (select_outcome-late (attempt_context batch attempt s) s source late)
      (omega (arith, more.0), more.1, more.2, more.3)

outcomes-credit :
    (attempts : List (SimulationBatch × ℕ)) (s : Simulation)
    → s.attempt_outcome_source ≡ none
    → is_late s.config ≡ false
    → s.failure_credit < 100
    → s.config.target_error_rate_percent ≤ 100
    → let (s', t) = outcomes attempts s in
      (t.failed * 100 + s'.failure_credit
        ≡ length attempts * s.config.target_error_rate_percent + s.failure_credit)
      × (s'.failure_credit < 100)
      × (t.succeeded + t.failed ≡ length attempts)
      × (t.timed_out ≡ 0)
unfolding outcomes
outcomes-credit [] s source in_time h k = (omega arith, h, refl, refl)
outcomes-credit ((batch, attempt) ∷ attempts) s source in_time h k =
    let one = next_request_fails-credit s in
    let s₁ = (next_request_fails s).0 in
    let same = ap (λ (c : SimulationConfig). c.target_error_rate_percent) one.1 in
    let more =
      outcomes-credit attempts s₁ (one.2 ∙ source) (ap is_late one.1 ∙ in_time) (one.3 h k)
        (subst (λ r. r ≤ 100) (sym same) k) in
    let t = (outcomes attempts s₁).1 in
    let fails = (next_request_fails s).1 in
    let entry = tallied-answer fails (finite (pos (s.config.target_delay_ms + 5))) t in
    rw (select_outcome-in_time (attempt_context batch attempt s) s source in_time) (
      ap (λ f. f * 100 + (outcomes attempts s₁).0.failure_credit) entry.0
          ∙ add_up fails (length attempts) s.config.target_error_rate_percent t.failed
              s.failure_credit s₁.failure_credit (outcomes attempts s₁).0.failure_credit one.0
              (more.0 ∙ ap {B = ℕ} (λ r. length attempts * r + s₁.failure_credit) same),
      more.1,
      omega (arith, entry.1, more.2),
      entry.2 ∙ more.3,
    )

-- Without an outcome source, with an error rate of at most 100 percent and a credit below 100: where
-- the target's delay and five milliseconds exceed the timeout, every one of n attempts in a row times
-- out and the credit stays; otherwise none does, as many fail with status 503 as the rate says, rounded
-- down, with the credit from before counted in, the others succeed, and the credit stays below 100.
pub outcomes-Fates :
    (attempts : List (SimulationBatch × ℕ)) (s : Simulation)
    → s.attempt_outcome_source ≡ none
    → s.failure_credit < 100
    → s.config.target_error_rate_percent ≤ 100
    → Fates (is_late s.config) (length attempts) s (outcomes attempts s)
outcomes-Fates attempts s source h k = elim (Bool-cases (is_late s.config)) [
  | inl late ↦ rw (late) (outcomes-late attempts s source late)
  | inr in_time ↦
      let c = outcomes-credit attempts s source in_time h k in
      rw (in_time) (c.3, omega (arith, c.0, c.1), c.2, c.1)
]
