-- ===== src/Simulation/Production/Reader.antt =====
-- The reader's production ends, never throws, and keeps the invariant.
use ingestion_lab_loadgen.Prelude.{
  if◌then◌else◌, ℕ, zero, suc, ◌+◌, ◌-◌, ◌≤◌, ◌<◌, ◌≡◌, refl, ◌∙◌, Option, none, some, true, false,
  Bool-cases, inl, inr, arith, ltb, leb, ◌==◌, Bool,
}
use ingestion_lab_loadgen.Prelude.Results.{Returns, Returns-bind, Returns-mono}
use ingestion_lab_loadgen.Simulation.Types.{SimulationBatch, StepActivity}
use ingestion_lab_loadgen.Simulation.Channel
use ingestion_lab_loadgen.Simulation.Channel.{StatefulChannel, depth_batches}
use ingestion_lab_loadgen.Simulation.Channel.Invariant.{IsValid, send-IsValid, handoff-IsValid}
use ingestion_lab_loadgen.Simulation.Channel.Fifo.{Sent, send-Sent, HandedOff, handoff-HandedOff}
use ingestion_lab_loadgen.Simulation.State.{Simulation, transactions_of}
use ingestion_lab_loadgen.Simulation.Invariant.{
  Inv, Pool-cong, Plumbing-cong, Kept, Kept-refl, Kept-trans,
}
use ingestion_lab_loadgen.Simulation.Due.{State}
use ingestion_lab_loadgen.Simulation.Delivery.{flush_throttled_batch}
use ingestion_lab_loadgen.Simulation.Delivery.Flush.{Flushed, flush_throttled_batch-Flushed}
use ingestion_lab_loadgen.Simulation.Production.{
  ReaderProductionResult, production_result, lacks_tokens, tokens_after, create_pipeline_batch,
  produce_handoff, produce_unbuffered, produce_buffered, produce_round, produce_rounds,
  continue_or_stop, earn_reader_credit, produce_reader_batches,
}

-- What a round leaves: the invariant, and a batch's worth of credit less if the loop goes on.
abbrev Spent : ℕ → Simulation → State × Option ReaderProductionResult → Type 0
Spent transactions s (st, none) =
    Kept s st.0 × (st.0.reader_transaction_credit + transactions ≡ s.reader_transaction_credit)
Spent transactions s (st, some result) = Kept s st.0

-- A new batch that goes past the reader's channel and is pending.
handed_on-Inv :
    (s : Simulation) (c : StatefulChannel SimulationBatch) (b : SimulationBatch) (tokens credit : ℕ)
    → Inv s
    → s.pending_throttled_batch ≡ none
    → HandedOff transactions_of b s.reader_channel c
    → IsValid transactions_of c
    → Inv (record s {
      reader_channel = c;
      throttler_tokens = tokens;
      reader_transaction_credit = credit;
      pending_throttled_batch = some b;
      next_batch_sequence = s.next_batch_sequence + 1;
    })
handed_on-Inv s c b tokens credit v e k valid = record {
  plumbing = record {
    reader = valid;
    sender = v.plumbing.sender;
    created = ground (arith, v.plumbing.created, k);
    throttled = ground (arith, v.plumbing.throttled, k);
    throttled_transactions = ground (arith, v.plumbing.throttled_transactions, k);
  };
  pool = Pool-cong refl refl refl refl refl v.pool;
  batch_size = v.batch_size;
}

-- A new batch that the reader's channel takes in.
on_channel-Inv :
    (s : Simulation) (c : StatefulChannel SimulationBatch) (b : SimulationBatch) (credit : ℕ)
    → Inv s
    → Sent transactions_of b s.reader_channel c
    → IsValid transactions_of c
    → Inv (record s {
      reader_channel = c;
      reader_transaction_credit = credit;
      next_batch_sequence = s.next_batch_sequence + 1;
    })
on_channel-Inv s c b credit v k valid = record {
  plumbing = record {
    reader = valid;
    sender = v.plumbing.sender;
    created = ground (arith, v.plumbing.created, k);
    throttled = ground (arith, v.plumbing.throttled, k);
    throttled_transactions = ground (arith, v.plumbing.throttled_transactions, k);
  };
  pool = Pool-cong refl refl refl refl refl v.pool;
  batch_size = v.batch_size;
}

-- The end of a round that flushed: a blocked flush stops the loop.
Flushed-Spent :
    (transactions : ℕ) (s t : Simulation) (r : State × Bool)
    → t.config ≡ s.config
    → t.elapsed_ms ≡ s.elapsed_ms
    → t.reader_transaction_credit + transactions ≡ s.reader_transaction_credit
    → Flushed t r
    → Spent transactions s (r.0, if r.1 then some (production_result true true false) else none)
Flushed-Spent transactions s t (st, true) p q c f =
    (f.inv, f.outside.config ∙ p, f.outside.elapsed ∙ q)
Flushed-Spent transactions s t (st, false) p q c f =
    ((f.inv, f.outside.config ∙ p, f.outside.elapsed ∙ q), omega (arith, f.outside.credit))

produce_handoff-Spent :
    (transactions : ℕ) (s : Simulation) (activity : StepActivity)
    → Inv s
    → s.pending_throttled_batch ≡ none
    → transactions ≤ s.reader_transaction_credit
    → Returns (Spent transactions s) (produce_handoff transactions (s, activity))
unfolding produce_handoff create_pipeline_batch
produce_handoff-Spent transactions s activity v e h =
    let b : SimulationBatch = record {
      sequence = s.next_batch_sequence;
      transactions = transactions;
    } in
    let k = handoff-HandedOff transactions_of s.reader_channel b activity.reader_channel in
    let c = (Channel.handoff transactions_of s.reader_channel b activity.reader_channel).0 in
    let t : Simulation = record s {
      reader_channel = c;
      throttler_tokens = tokens_after s transactions;
      reader_transaction_credit = s.reader_transaction_credit - transactions;
      pending_throttled_batch = some b;
      next_batch_sequence = s.next_batch_sequence + 1;
    } in
    Returns-bind (Flushed t) (Spent transactions s) (flush_throttled_batch (t, _)) _
      (flush_throttled_batch-Flushed t _ (
        handed_on-Inv s c b _ _ v e k (
          handoff-IsValid transactions_of s.reader_channel b activity.reader_channel
            v.plumbing.reader)))
      λ r f. Flushed-Spent transactions s t r refl refl (omega arith) f

produce_unbuffered-Spent :
    (o : Option SimulationBatch) (transactions : ℕ) (s : Simulation) (activity : StepActivity)
    → Inv s
    → s.pending_throttled_batch ≡ o
    → transactions ≤ s.reader_transaction_credit
    → Returns (Spent transactions s) (produce_unbuffered o transactions (s, activity))
unfolding produce_unbuffered
produce_unbuffered-Spent (some b) transactions s activity v e h = Kept-refl s v
produce_unbuffered-Spent none transactions s activity v e h =
    elim (Bool-cases (lacks_tokens s transactions)) [
      | inl few ↦ rw (produce_unbuffered, few) (Kept-refl s v)
      | inr enough ↦
          rw (produce_unbuffered, enough) (produce_handoff-Spent transactions s activity v e h)
    ]

-- The channel has room, so the send that the code guards with a throw succeeds.
produce_buffered-Spent :
    (transactions : ℕ) (s : Simulation) (activity : StepActivity)
    → Inv s
    → transactions ≤ s.reader_transaction_credit
    → Returns (Spent transactions s) (produce_buffered transactions (s, activity))
unfolding produce_buffered create_pipeline_batch
produce_buffered-Spent transactions s activity v h =
    let b : SimulationBatch = record {
      sequence = s.next_batch_sequence;
      transactions = transactions;
    } in
    elim (Bool-cases (leb s.reader_channel.applied_capacity (depth_batches s.reader_channel))) [
      | inl full ↦ rw (produce_buffered, full) (Kept-refl s v)
      | inr room ↦ elim (send-Sent transactions_of s.reader_channel b activity.reader_channel) [
        | inl (sent, _, k) ↦
            rw (produce_buffered, room, sent)
              (
                (
                  on_channel-Inv s _ b _ v k (
                      send-IsValid transactions_of s.reader_channel b activity.reader_channel
                        v.plumbing.reader),
                  refl,
                  refl,
                ),
                omega arith,
              )
        | inr (_, full, _, _) ↦ absurd (ground arith)
      ]
    ]

produce_round-Spent :
    (transactions : ℕ) (s : Simulation) (activity : StepActivity)
    → Inv s
    → transactions ≤ s.reader_transaction_credit
    → Returns (Spent transactions s) (produce_round transactions (s, activity))
unfolding produce_round
produce_round-Spent transactions s activity v h =
    elim (Bool-cases (s.reader_channel.applied_capacity == 0)) [
      | inl z ↦
          rw (produce_round, z)
            (produce_unbuffered-Spent s.pending_throttled_batch transactions s activity v refl h)
      | inr p ↦ rw (produce_round, p) (produce_buffered-Spent transactions s activity v h)
    ]

next_round :
    (fuel transactions : ℕ) (s : Simulation) (r : State × Option ReaderProductionResult)
    → 0 < transactions
    → s.reader_transaction_credit < suc fuel
    → ((t : Simulation) (a : StepActivity)
        → t.reader_transaction_credit < fuel
        → Inv t
        → Returns (λ q. Kept t q.0.0) (produce_rounds fuel transactions (t, a)))
    → Spent transactions s r
    → Returns (λ q. Kept s q.0.0) (continue_or_stop (produce_rounds fuel transactions) r)
unfolding continue_or_stop
next_round fuel transactions s (st, none) pos h loop k =
    Returns-mono (λ q. Kept st.0 q.0.0) (λ q. Kept s q.0.0) (produce_rounds fuel transactions st)
      (loop st.0 st.1 (omega arith) k.0.0) λ q g. Kept-trans s st.0 q.0.0 k.0 g
next_round fuel transactions s (st, some result) pos h loop k = k

-- With a batch size that is not 0 the credit is more than enough fuel.
produce_rounds-Kept :
    (fuel transactions : ℕ) (s : Simulation) (activity : StepActivity)
    → 0 < transactions
    → s.reader_transaction_credit < fuel
    → Inv s
    → Returns (λ r. Kept s r.0.0) (produce_rounds fuel transactions (s, activity))
unfolding produce_rounds continue_or_stop
produce_rounds-Kept zero transactions s activity pos h v = elim h [ ]
produce_rounds-Kept (suc fuel) transactions s activity pos h v =
    elim (Bool-cases (ltb s.reader_transaction_credit transactions)) [
      | inl done ↦ rw (produce_rounds, done) (Kept-refl s v)
      | inr more ↦
          rw (produce_rounds, more)
            (Returns-bind (Spent transactions s) (λ r. Kept s r.0.0)
              (produce_round transactions (s, activity))
              (continue_or_stop (produce_rounds fuel transactions))
              (produce_round-Spent transactions s activity v (ground arith))
              λ r k.
                next_round fuel transactions s r pos h
                  (λ t a p q. produce_rounds-Kept fuel transactions t a pos p q) k)
    ]

-- Production ends with no throw, and keeps the invariant.
pub produce_reader_batches-Kept :
    (s : Simulation) (activity : StepActivity)
    → Inv s
    → Returns (λ r. Kept s r.0.0) (produce_reader_batches (s, activity))
unfolding produce_reader_batches earn_reader_credit
produce_reader_batches-Kept s activity v =
    let earned = earn_reader_credit s in
    produce_rounds-Kept (suc earned.reader_transaction_credit) s.config.read_batch_size earned
      activity v.batch_size (omega arith)
      (record {
        plumbing = Plumbing-cong refl refl refl refl v.plumbing;
        pool = Pool-cong refl refl refl refl refl v.pool;
        batch_size = v.batch_size;
      })
