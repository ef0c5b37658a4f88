-- ===== src/Simulation/Delivery/Flush.antt =====
-- Flushing the batch that the throttler let through never throws, and keeps the invariant.
use native.Mathlib.Nat.{mod-lt}
use ingestion_lab_loadgen.Prelude.{
  ℕ, ◌+◌, ◌%◌, ◌<◌, ◌≡◌, refl, sym, ◌∙◌, ap, subst, Option, none, some, Bool, true, false,
  Bool-cases, inl, inr, arith, length, get_elem?, lt_of_get_elem?, ◌==◌,
}
use ingestion_lab_loadgen.Prelude.Results.{Returns, Returns-bind, Returns-mono}
use ingestion_lab_loadgen.Simulation.Types.{SimulationBatch, StepActivity, SenderWorker}
use ingestion_lab_loadgen.Simulation.Channel
use ingestion_lab_loadgen.Simulation.Channel.{StatefulChannel}
use ingestion_lab_loadgen.Simulation.Channel.Invariant.{IsValid, send-IsValid, handoff-IsValid}
use ingestion_lab_loadgen.Simulation.Channel.Fifo.{Sent, send-Sent, HandedOff, handoff-HandedOff}
use ingestion_lab_loadgen.Simulation.State.{Simulation, transactions_of}
use ingestion_lab_loadgen.Simulation.Ledger.{Ledger-cong}
use ingestion_lab_loadgen.Simulation.Invariant.{Pool, Inv, Plumbing-cong}
use ingestion_lab_loadgen.Simulation.Workers.{is_available, next_idle_worker}
use ingestion_lab_loadgen.Simulation.Workers.Search.{Found, next_idle_worker-Found}
use ingestion_lab_loadgen.Simulation.Due.{State}
use ingestion_lab_loadgen.Simulation.Delivery.{
  assign_batch, hand_found, hand_to_worker, put_on_channel, flush_pending, flush_throttled_batch,
  drain_sender_channel,
}
use ingestion_lab_loadgen.Simulation.Delivery.Accounts.{
  Waiting, Outside, Assigned, assign_batch-Assigned,
}
use ingestion_lab_loadgen.Simulation.Delivery.Drain.{
  Drained, drain_sender_channel-Drained, moved-Pool, position_some, Outside-trans, Outside-refl,
}

-- What a flush leaves. The batch is pending afterwards exactly if the sender's channel is blocked.
pub record Flushed (s : Simulation) (r : State × Bool) : Type 0 where
  pub inv : Inv r.0.0
  pub outside : Outside s r.0.0
  pub emptied : r.1 ≡ false → r.0.0.pending_throttled_batch ≡ none
  pub blocked : r.1 ≡ true → r.0.0.pending_throttled_batch ≡ s.pending_throttled_batch

-- What happens to the simulation on either way out of the throttler: the sender's channel has sent
-- one batch more, and nothing is pending.
delivered-Inv :
    (s s' : Simulation) (b : SimulationBatch)
    → Inv s
    → s.pending_throttled_batch ≡ some b
    → Outside s s'
    → Pool s'
    → IsValid transactions_of s'.sender_channel
    → s'.sender_channel.sent_batches_total ≡ s.sender_channel.sent_batches_total + 1
    → s'.sender_channel.sent_transactions_total
      ≡ s.sender_channel.sent_transactions_total + b.transactions
    → Inv (record s' { pending_throttled_batch = none })
delivered-Inv s s' b v e o p c q r = record {
  plumbing = record {
    reader = subst (IsValid transactions_of) (sym o.reader_channel) v.plumbing.reader;
    sender = c;
    created = ground (arith, v.plumbing.created, o);
    throttled = ground (arith, v.plumbing.throttled, o);
    throttled_transactions = ground (arith, v.plumbing.throttled_transactions, o);
  };
  pool = record {
    workers = p.workers;
    ledger = Ledger-cong s' _ refl refl refl refl refl p.ledger;
    index = p.index;
    pool_size = p.pool_size;
    has_sender = p.has_sender;
  };
  batch_size = ground (arith, v.batch_size, o);
}

delivered-Flushed :
    (s s' : Simulation) (b : SimulationBatch) (activity : StepActivity)
    → Inv s
    → s.pending_throttled_batch ≡ some b
    → Outside s s'
    → Pool s'
    → IsValid transactions_of s'.sender_channel
    → s'.sender_channel.sent_batches_total ≡ s.sender_channel.sent_batches_total + 1
    → s'.sender_channel.sent_transactions_total
      ≡ s.sender_channel.sent_transactions_total + b.transactions
    → Flushed s ((record s' { pending_throttled_batch = none }, activity), false)
delivered-Flushed s s' b activity v e o p c q r = record {
  inv = delivered-Inv s s' b v e o p c q r;
  outside = ground (arith, o);
  emptied = λ _. refl;
  blocked = λ h. cc;
}

blocked-Flushed :
    (s : Simulation) (activity : StepActivity) → Inv s → Flushed s ((s, activity), true)
blocked-Flushed s activity v = record {
  inv = v;
  outside = Outside-refl s;
  emptied = λ h. cc;
  blocked = λ _. refl;
}

with_channel-Outside :
    (s : Simulation) (c : StatefulChannel SimulationBatch)
    → Outside s (record s { sender_channel = c })
with_channel-Outside s c = ground arith

-- A batch that the channel takes in is no concern of the pool.
Sent-Pool :
    (s : Simulation) (c : StatefulChannel SimulationBatch) (b : SimulationBatch)
    → Sent transactions_of b s.sender_channel c
    → Pool s
    → Pool (record s { sender_channel = c })
Sent-Pool s c b k v = record {
  workers = v.workers;
  ledger = ground (arith, k, v.ledger);
  index = v.index;
  pool_size = v.pool_size;
  has_sender = v.has_sender;
}

put_on_channel-Flushed :
    (s : Simulation) (b : SimulationBatch) (activity : StepActivity)
    → Inv s
    → s.pending_throttled_batch ≡ some b
    → Returns (Flushed s) (put_on_channel b (s, activity))
unfolding put_on_channel
put_on_channel-Flushed s b activity v e =
    let (c, a, sent) = Channel.send transactions_of s.sender_channel b activity.sender_channel in
    elim (send-Sent transactions_of s.sender_channel b activity.sender_channel) [
      | inl (es, room, k) ↦
          let put : Simulation = record s { sender_channel = c } in
          rw (es, put_on_channel)
            (Returns-bind (λ st. Drained put st.0) (Flushed s)
              (drain_sender_channel (put, record activity { sender_channel = a })) _
              (drain_sender_channel-Drained put _ (Sent-Pool s c b k v.pool) (
                send-IsValid transactions_of s.sender_channel b activity.sender_channel
                  v.plumbing.sender))
              λ st d.
                delivered-Flushed s st.0 b st.1 v e
                  (Outside-trans (with_channel-Outside s c) d.outside) d.pool d.channel
                  (d.sent ∙ k.sent) (d.sent_transactions ∙ k.sent_transactions))
      | inr (es, full, same, _) ↦ rw (es, put_on_channel) (blocked-Flushed s activity v)
    ]

handed-Waiting :
    (s : Simulation) (c : StatefulChannel SimulationBatch) (b : SimulationBatch)
    → HandedOff transactions_of b s.sender_channel c
    → Pool s
    → Waiting b (record s { sender_channel = c })
handed-Waiting s c b k v = record {
  workers = v.workers;
  ledger = ground (arith, k, v.ledger);
  index = v.index;
  pool_size = v.pool_size;
  has_sender = v.has_sender;
}

-- The handoff to the available worker `w`.
hand_over-Flushed :
    (s : Simulation) (i : ℕ) (w : SenderWorker) (b : SimulationBatch) (activity : StepActivity)
    → Inv s
    → s.pending_throttled_batch ≡ some b
    → get_elem? s.workers i ≡ some w
    → is_available w ≡ true
    → Returns (Flushed s) (hand_found b (some (i, w), s) activity)
unfolding hand_found
hand_over-Flushed s i w b activity v e ew free =
    let (c, a) = Channel.handoff transactions_of s.sender_channel b activity.sender_channel in
    let k = handoff-HandedOff transactions_of s.sender_channel b activity.sender_channel in
    let handed : Simulation = record s { sender_channel = c } in
    Returns-bind (Assigned b i w handed) (Flushed s)
      (assign_batch i w b (handed, record activity { sender_channel = a })) _
      (assign_batch-Assigned b i w handed _ (handed-Waiting s c b k v.pool) ew free)
      λ st q.
        delivered-Flushed s st.0 b st.1 v e (Outside-trans (with_channel-Outside s c) q.1) q.0
          (subst (IsValid transactions_of) (sym q.2) (
            handoff-IsValid transactions_of s.sender_channel b activity.sender_channel
              v.plumbing.sender))
          (ap (λ (t : StatefulChannel SimulationBatch). t.sent_batches_total) q.2 ∙ k.sent)
          (ap (λ (t : StatefulChannel SimulationBatch). t.sent_transactions_total) q.2
            ∙ k.sent_transactions)

moved-Inv :
    (s : Simulation) (next : ℕ)
    → next < length s.workers
    → Inv s
    → Inv (record s { next_worker_index = some next })
moved-Inv s next h v = record {
  plumbing = Plumbing-cong refl refl refl refl v.plumbing;
  pool = moved-Pool s next h v.pool;
  batch_size = v.batch_size;
}

Flushed-moved :
    (s : Simulation) (next : ℕ) (r : State × Bool)
    → Flushed (record s { next_worker_index = some next }) r
    → Flushed s r
Flushed-moved s next r f = record {
  inv = f.inv;
  outside = Outside-trans (ground arith) f.outside;
  emptied = f.emptied;
  blocked = f.blocked;
}

hand_found-Flushed :
    (s : Simulation) (next : ℕ) (found : Option (ℕ × SenderWorker) × Simulation)
    (b : SimulationBatch) (activity : StepActivity)
    → Inv s
    → s.pending_throttled_batch ≡ some b
    → Found s next found
    → Returns (Flushed s) (hand_found b found activity)
unfolding hand_found
hand_found-Flushed s next (none, s') b activity v e f =
    subst (λ t. Flushed s ((t, activity), true)) (sym f.0) (blocked-Flushed s activity v)
hand_found-Flushed s next (some (i, w), s') b activity v e f =
    let j = (i + 1) % length s.workers in
    let moved : Simulation = record s { next_worker_index = some j } in
    let hj : j < length s.workers =
      mod-lt (i + 1) {m = length s.workers} (omega (arith, lt_of_get_elem? s.workers i f.1.0)) in
    subst (λ t. Returns (Flushed s) (hand_found b (some (i, w), t) activity)) (sym f.0)
      (Returns-mono (Flushed moved) (Flushed s) (hand_found b (some (i, w), moved) activity)
        (hand_over-Flushed moved i w b activity (moved-Inv s j hj v) e f.1.0 f.1.1)
        λ r q. Flushed-moved s j r q)

hand_to_worker-Flushed :
    (s : Simulation) (b : SimulationBatch) (activity : StepActivity)
    → Inv s
    → s.pending_throttled_batch ≡ some b
    → Returns (Flushed s) (hand_to_worker b (s, activity))
unfolding hand_to_worker
hand_to_worker-Flushed s b activity v e =
    let (next, en, hn) = position_some s.next_worker_index (length s.workers) v.pool.index in
    Returns-bind (Found s next) (Flushed s) (next_idle_worker s) _
      (next_idle_worker-Found s next en hn)
      λ found f. hand_found-Flushed s next found b activity v e f

nothing-Flushed :
    (s : Simulation) (activity : StepActivity)
    → Inv s
    → s.pending_throttled_batch ≡ none
    → Flushed s ((s, activity), false)
nothing-Flushed s activity v e = record {
  inv = v;
  outside = Outside-refl s;
  emptied = λ _. e;
  blocked = λ h. cc;
}

flush_pending-Flushed :
    (s : Simulation) (o : Option SimulationBatch) (activity : StepActivity)
    → Inv s
    → s.pending_throttled_batch ≡ o
    → Returns (Flushed s) (flush_pending o (s, activity))
unfolding flush_pending
flush_pending-Flushed s none activity v e = nothing-Flushed s activity v e
flush_pending-Flushed s (some b) activity v e =
    elim (Bool-cases (s.sender_channel.applied_capacity == 0)) [
      | inl z ↦ rw (flush_pending, z) (hand_to_worker-Flushed s b activity v e)
      | inr p ↦ rw (flush_pending, p) (put_on_channel-Flushed s b activity v e)
    ]

-- A flush returns and keeps the invariant; it leaves no batch pending if it says that the sender's
-- channel is not blocked, and the same batch otherwise.
pub flush_throttled_batch-Flushed :
    (s : Simulation) (activity : StepActivity)
    → Inv s
    → Returns (Flushed s) (flush_throttled_batch (s, activity))
unfolding flush_throttled_batch
flush_throttled_batch-Flushed s activity v =
    flush_pending-Flushed s s.pending_throttled_batch activity v refl
