-- ===== src/Simulation/Step/Sound.antt =====
-- Every public method of the simulation keeps the invariant, and a step never throws.
use ingestion_lab_loadgen.Prelude.{ℕ, zero, suc, ◌+◌, ◌*◌, ◌≡◌, refl, ◌∙◌, sym, subst, Bool, arith}
use ingestion_lab_loadgen.Prelude.Results.{Returns, Returns-bind, Returns-mono}
use ingestion_lab_loadgen.Simulation.Types.{StepActivity, create_step_activity, fixed_step_ms}
use ingestion_lab_loadgen.Simulation.Channel.Invariant.{IsValid, observe_blocked-IsValid}
use ingestion_lab_loadgen.Simulation.Channel.Fifo.{SameCounters, observe_blocked-SameCounters}
use ingestion_lab_loadgen.Simulation.Due.Tokens.{refill_throttler_tokens-Kept}
use ingestion_lab_loadgen.Simulation.State.{Simulation, transactions_of}
use ingestion_lab_loadgen.Simulation.Invariant.{Inv, Pool-cong, Plumbing-cong, Kept}
use ingestion_lab_loadgen.Simulation.Workers.Scaling.{finalize_sender_scale_down-Kept}
use ingestion_lab_loadgen.Simulation.Workers.{finalize_sender_scale_down}
use ingestion_lab_loadgen.Simulation.Due.{
  State, complete_due_attempts, start_due_retries, refill_throttler_tokens,
}
use ingestion_lab_loadgen.Simulation.Due.Accounts.{
  complete_due_attempts-Kept, start_due_retries-Kept,
}
use ingestion_lab_loadgen.Simulation.Delivery.{drain_sender_channel, flush_throttled_batch}
use ingestion_lab_loadgen.Simulation.Delivery.Drain.{Drained, drain_sender_channel-Drained}
use ingestion_lab_loadgen.Simulation.Delivery.Flush.{Flushed, flush_throttled_batch-Flushed}
use ingestion_lab_loadgen.Simulation.Production.{
  AdmissionResult, ReaderProductionResult, receive_reader_channel, produce_reader_batches,
}
use ingestion_lab_loadgen.Simulation.Production.Admission.{receive_reader_channel-Kept}
use ingestion_lab_loadgen.Simulation.Production.Reader.{produce_reader_batches-Kept}
use ingestion_lab_loadgen.Simulation.Step.{close_step, move_batches, advance_step, advance_steps}

Drained-Kept : (s s' : Simulation) → Inv s → Drained s s' → Kept s s'
Drained-Kept s s' v d = (
  record {
    plumbing = record {
      reader = subst (IsValid transactions_of) (sym d.outside.reader_channel) v.plumbing.reader;
      sender = d.channel;
      created = ground (arith, v.plumbing.created, d.outside);
      throttled = ground (arith, v.plumbing.throttled, d.outside, d);
      throttled_transactions = ground (arith, v.plumbing.throttled_transactions, d.outside, d);
    };
    pool = d.pool;
    batch_size = ground (arith, v.batch_size, d.outside);
  },
  d.outside.config,
  d.outside.elapsed,
)

close_step-Kept :
    (blocked : Bool) (admission : AdmissionResult) (production : ReaderProductionResult)
    (st : State)
    → Inv st.0
    → Kept st.0 (close_step blocked admission production st)
unfolding close_step
close_step-Kept blocked admission production (s, activity) v = (
  record {
    plumbing = record {
      reader = observe_blocked-IsValid transactions_of s.reader_channel _ _ v.plumbing.reader;
      sender = observe_blocked-IsValid transactions_of s.sender_channel _ _ v.plumbing.sender;
      created = ground (arith, v.plumbing.created, seen_reader);
      throttled = ground (arith, v.plumbing.throttled, seen_reader, seen_sender);
      throttled_transactions =
          ground (arith, v.plumbing.throttled_transactions, seen_reader, seen_sender);
    };
    pool = record {
      workers = v.pool.workers;
      ledger = ground (arith, v.pool.ledger, seen_sender);
      index = v.pool.index;
      pool_size = v.pool.pool_size;
      has_sender = v.pool.has_sender;
    };
    batch_size = v.batch_size;
  },
  refl,
  refl,
)
  where
    seen_reader :
        SameCounters s.reader_channel
          (close_step blocked admission production (s, activity)).reader_channel
    seen_reader = observe_blocked-SameCounters s.reader_channel _ _

    seen_sender :
        SameCounters s.sender_channel
          (close_step blocked admission production (s, activity)).sender_channel
    seen_sender = observe_blocked-SameCounters s.sender_channel _ _

move_batches-Kept :
    (s : Simulation) (activity : StepActivity)
    → Inv s
    → Returns (Kept s) (move_batches (s, activity))
unfolding move_batches
move_batches-Kept s activity v =
    let k₁ = finalize_sender_scale_down-Kept s v in
    let s₁ = finalize_sender_scale_down s in
    let k₂ = refill_throttler_tokens-Kept s₁ k₁.0 in
    let s₂ = refill_throttler_tokens s₁ in
    Returns-bind (λ st. Drained s₂ st.0) (Kept s) (drain_sender_channel (s₂, activity)) _
      (drain_sender_channel-Drained s₂ activity k₂.0.pool k₂.0.plumbing.sender)
      λ st₁ d.
        let k₃ = Drained-Kept s₂ st₁.0 k₂.0 d in
        Returns-bind (Flushed st₁.0) (Kept s) (flush_throttled_batch st₁) _
          (flush_throttled_batch-Flushed st₁.0 st₁.1 k₃.0)
          λ r f.
            Returns-bind (λ q. Kept r.0.0 q.0.0) (Kept s) (receive_reader_channel r.0) _
              (receive_reader_channel-Kept r.0.0 r.0.1 f.inv)
              λ q k₅.
                Returns-bind (λ p. Kept q.0.0 p.0.0) (Kept s) (produce_reader_batches q.0) _
                  (produce_reader_batches-Kept q.0.0 q.0.1 k₅.0)
                  λ p k₆.
                    let k₇ = close_step-Kept _ q.1 p.1 p.0 k₆.0 in
                    (
                      k₇.0,
                      k₇.1 ∙ k₆.1 ∙ k₅.1 ∙ f.outside.config ∙ k₃.1 ∙ k₂.1 ∙ k₁.1,
                      k₇.2 ∙ k₆.2 ∙ k₅.2 ∙ f.outside.elapsed ∙ k₃.2 ∙ k₂.2 ∙ k₁.2,
                    )

-- What a step does to a sound simulation.
abbrev pub Stepped : Simulation → Simulation → Type 0
Stepped s s' = Inv s' × (s'.config ≡ s.config) × (s'.elapsed_ms ≡ s.elapsed_ms + fixed_step_ms)

-- A step of a sound simulation returns: none of the code's throws is reached and every loop ends. It
-- leaves the simulation sound, its configuration as it was, and its clock one step later.
pub advance_step-Stepped : (s : Simulation) → Inv s → Returns (Stepped s) (advance_step s)
unfolding advance_step
advance_step-Stepped s v =
    let later : Simulation = record s { elapsed_ms = s.elapsed_ms + fixed_step_ms } in
    Returns-bind (λ st. Kept later st.0) (Stepped s)
      (complete_due_attempts (later, create_step_activity)) _
      (complete_due_attempts-Kept later create_step_activity (record {
        plumbing = Plumbing-cong refl refl refl refl v.plumbing;
        pool = Pool-cong refl refl refl refl refl v.pool;
        batch_size = v.batch_size;
      }))
      λ st₁ k₁.
        Returns-bind (λ st. Kept st₁.0 st.0) (Stepped s) (start_due_retries st₁) move_batches
          (start_due_retries-Kept st₁.0 st₁.1 k₁.0)
          λ st₂ k₂.
            Returns-mono (Kept st₂.0) (Stepped s) (move_batches st₂)
              (move_batches-Kept st₂.0 st₂.1 k₂.0)
              λ s' k₃. (k₃.0, k₃.1 ∙ k₂.1 ∙ k₁.1, k₃.2 ∙ k₂.2 ∙ k₁.2)

-- Any number of steps of a sound simulation returns: no throw is reached and every loop ends; the
-- invariant and the configuration stay, and the clock moves by as many steps.
pub advance_steps-Stepped :
    (n : ℕ) (s : Simulation)
    → Inv s
    → Returns
        (λ s'. Inv s' × (s'.config ≡ s.config) × (s'.elapsed_ms ≡ s.elapsed_ms + n * fixed_step_ms))
        (advance_steps n s)
unfolding advance_steps
advance_steps-Stepped zero s v = (v, refl, omega arith)
advance_steps-Stepped (suc n) s v =
    Returns-bind (Stepped s) _ (advance_step s) (advance_steps n) (advance_step-Stepped s v) λ s₁ k.
      Returns-mono _ _ (advance_steps n s₁) (advance_steps-Stepped n s₁ k.0)
        λ s₂ q. (q.0, q.1 ∙ k.1, omega (arith, k.2, q.2))
