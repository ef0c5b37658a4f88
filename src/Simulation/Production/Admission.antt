-- ===== src/Simulation/Production/Admission.antt =====
-- Receiving from the reader's channel through the throttler never throws, and keeps the invariant.
use ingestion_lab_loadgen.Prelude.{
  ℕ, zero, suc, ◌≡◌, refl, ◌∙◌, Option, none, some, true, false, Option-cases, Bool-cases, inl, inr,
  arith, List,
}
use ingestion_lab_loadgen.Prelude.Results.{Result, Returns, Returns-bind, Returns-mono}
use ingestion_lab_loadgen.Simulation.Types.{SimulationBatch, StepActivity}
use ingestion_lab_loadgen.Simulation.Channel.{StatefulChannel, peek, depth_batches}
use ingestion_lab_loadgen.Simulation.Channel.Invariant.{IsValid, receive-IsValid}
use ingestion_lab_loadgen.Simulation.Channel.Fifo.{Received, receive-Received, peek-some}
use ingestion_lab_loadgen.Simulation.State.{Simulation, transactions_of}
use ingestion_lab_loadgen.Simulation.Invariant.{Inv, Pool-cong, Kept, Kept-refl, Kept-trans}
use ingestion_lab_loadgen.Simulation.Due.{State}
use ingestion_lab_loadgen.Simulation.Delivery.{flush_throttled_batch}
use ingestion_lab_loadgen.Simulation.Delivery.Flush.{Flushed, flush_throttled_batch-Flushed}
use ingestion_lab_loadgen.Simulation.Production.{
  lacks_tokens, tokens_after, receive_reader, admit_received, admit_head, admit_unblocked,
  receive_pending, receive_round, receive_rounds, receive_reader_channel,
}
use ingestion_lab_loadgen.Prelude.{Bool}
use ingestion_lab_loadgen.Simulation.Production.{continue_or_stop}

-- The simulation with the head of the reader's channel taken and pending.
taken-Inv :
    (s : Simulation) (c : StatefulChannel SimulationBatch) (b : SimulationBatch)
    (rest : List SimulationBatch) (tokens : ℕ)
    → Inv s
    → s.pending_throttled_batch ≡ none
    → Received transactions_of b rest s.reader_channel c
    → IsValid transactions_of c
    → Inv (record s {
      reader_channel = c;
      throttler_tokens = tokens;
      pending_throttled_batch = some b;
    })
taken-Inv s c b rest tokens v e k valid = record {
  plumbing = record {
    reader = valid;
    sender = v.plumbing.sender;
    created = ground (arith, v.plumbing.created, k);
    throttled = ground (arith, v.plumbing.throttled, k);
    throttled_transactions = ground (arith, v.plumbing.throttled_transactions, k);
  };
  pool = Pool-cong refl refl refl refl refl v.pool;
  batch_size = v.batch_size;
}

-- What a flush does to a simulation that the round has changed but for its configuration and time.
Flushed-Kept :
    (s t : Simulation) (r : State × Bool)
    → t.config ≡ s.config
    → t.elapsed_ms ≡ s.elapsed_ms
    → Flushed t r
    → Kept s r.0.0
Flushed-Kept s t r p q f = (f.inv, f.outside.config ∙ p, f.outside.elapsed ∙ q)

admit_received-Kept :
    (s t : Simulation) (activity : StepActivity) (b : SimulationBatch)
    → Inv (record t {
      throttler_tokens = tokens_after t b.transactions;
      pending_throttled_batch = some b;
    })
    → t.config ≡ s.config
    → t.elapsed_ms ≡ s.elapsed_ms
    → Returns (λ r. Kept s r.0.0) (admit_received ((t, activity), some b))
unfolding admit_received
admit_received-Kept s t activity b v p q =
    let t' : Simulation = record t {
      throttler_tokens = tokens_after t b.transactions;
      pending_throttled_batch = some b;
    } in
    Returns-bind (Flushed t') (λ r. Kept s r.0.0) (flush_throttled_batch (t', activity)) _
      (flush_throttled_batch-Flushed t' activity v) λ r f. Flushed-Kept s t' r p q f

admit_head-Kept :
    (s : Simulation) (activity : StepActivity)
    → Inv s
    → s.pending_throttled_batch ≡ none
    → Returns (λ r. Kept s r.0.0) (admit_head (s, activity))
unfolding admit_head receive_reader
admit_head-Kept s activity v e = elim (Option-cases (peek s.reader_channel)) [
  | inl none_left ↦ rw (none_left, admit_head) (Kept-refl s v)
  | inr (b, eb) ↦
      let (rest, er) = peek-some s.reader_channel b eb in
      let (eo, k) =
        receive-Received transactions_of b rest s.reader_channel activity.reader_channel er in
      elim (Bool-cases (lacks_tokens s b.transactions)) [
        | inl few ↦ rw (eb, admit_head, few) (Kept-refl s v)
        | inr enough ↦
            rw (eb, admit_head, enough, eo)
              (admit_received-Kept s _ _ b
                (taken-Inv s _ b rest _ v e k (
                  receive-IsValid transactions_of s.reader_channel activity.reader_channel
                    v.plumbing.reader))
                refl refl)
      ]
]

admit_unblocked-Kept :
    (s : Simulation) (r : State × Bool)
    → Flushed s r
    → Returns (λ t. Kept s t.0.0) (admit_unblocked r)
unfolding admit_unblocked
admit_unblocked-Kept s (st, true) f = Flushed-Kept s s (st, true) refl refl f
admit_unblocked-Kept s (st, false) f =
    Returns-mono (λ t. Kept st.0 t.0.0) (λ t. Kept s t.0.0) (admit_head st)
      (admit_head-Kept st.0 st.1 f.inv (f.emptied refl))
      λ t k. Kept-trans s st.0 t.0.0 (Flushed-Kept s s (st, false) refl refl f) k

receive_pending-Kept :
    (s : Simulation) (o : Option SimulationBatch) (activity : StepActivity)
    → Inv s
    → s.pending_throttled_batch ≡ o
    → Returns (λ t. Kept s t.0.0) (receive_pending o (s, activity))
unfolding receive_pending
receive_pending-Kept s none activity v e = admit_head-Kept s activity v e
receive_pending-Kept s (some b) activity v e =
    Returns-bind (Flushed s) (λ t. Kept s t.0.0) (flush_throttled_batch (s, activity))
      admit_unblocked (flush_throttled_batch-Flushed s activity v) (admit_unblocked-Kept s)

-- After a round that kept the invariant, a loop that keeps it goes on or has stopped.
continue_or_stop-Kept :
    {A : Type 0} (continue : State → Result (State × A)) (s : Simulation) (r : State × Option A)
    → ((t : Simulation) (a : StepActivity) → Inv t → Returns (λ q. Kept t q.0.0) (continue (t, a)))
    → Kept s r.0.0
    → Returns (λ q. Kept s q.0.0) (continue_or_stop continue r)
unfolding continue_or_stop
continue_or_stop-Kept continue s (st, none) loop k =
    Returns-mono (λ q. Kept st.0 q.0.0) (λ q. Kept s q.0.0) (continue st) (loop st.0 st.1 k.0)
      λ q h. Kept-trans s st.0 q.0.0 k h
continue_or_stop-Kept continue s (st, some result) loop k = k

receive_rounds-Kept :
    (n : ℕ) (s : Simulation) (activity : StepActivity)
    → Inv s
    → Returns (λ r. Kept s r.0.0) (receive_rounds n (s, activity))
unfolding receive_rounds receive_round continue_or_stop
receive_rounds-Kept zero s activity v = Kept-refl s v
receive_rounds-Kept (suc n) s activity v =
    Returns-bind (λ t. Kept s t.0.0) (λ r. Kept s r.0.0) (receive_round (s, activity))
      (continue_or_stop (receive_rounds n))
      (receive_pending-Kept s s.pending_throttled_batch activity v refl)
      λ r k. continue_or_stop-Kept (receive_rounds n) s r (receive_rounds-Kept n) k

-- Receiving from the reader's channel returns, and keeps the invariant.
pub receive_reader_channel-Kept :
    (s : Simulation) (activity : StepActivity)
    → Inv s
    → Returns (λ r. Kept s r.0.0) (receive_reader_channel (s, activity))
unfolding receive_reader_channel
receive_reader_channel-Kept s activity v =
    receive_rounds-Kept (depth_batches s.reader_channel) s activity v
