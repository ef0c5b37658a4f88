-- ===== src/Simulation/Delivery/Drain.antt =====
-- Draining the sender's channel ends, never throws, and loses no batch.
use native.Mathlib.Nat.{mod-lt}
use ingestion_lab_loadgen.Prelude.{◌%◌}
use ingestion_lab_loadgen.Simulation.Channel.{StatefulChannel}
use ingestion_lab_loadgen.Prelude.{
  ℕ, lt_of_get_elem?, zero, suc, ◌+◌, ◌<◌, ◌≡◌, refl, sym, ◌∙◌, ap, subst, Option, none, some, true,
  Option-cases, inl, inr, arith, length,
}
use ingestion_lab_loadgen.Prelude.Results.{Result, Returns, Returns-bind, Returns-mono}
use ingestion_lab_loadgen.Simulation.Types.{SimulationBatch, StepActivity, SenderWorker}
use ingestion_lab_loadgen.Simulation.Channel.{depth_batches, peek}
use ingestion_lab_loadgen.Simulation.Channel.Invariant.{IsValid, receive-IsValid}
use ingestion_lab_loadgen.Simulation.Channel.Fifo.{receive-Received, peek-some}
use ingestion_lab_loadgen.Simulation.State.{Simulation, transactions_of}
use ingestion_lab_loadgen.Simulation.Ledger.{Ledger-cong}
use ingestion_lab_loadgen.Simulation.Invariant.{IsPosition, Pool}
use ingestion_lab_loadgen.Simulation.Workers.{is_available, next_idle_worker}
use ingestion_lab_loadgen.Simulation.Workers.Search.{Found, next_idle_worker-Found}
use ingestion_lab_loadgen.Simulation.Due.{State}
use ingestion_lab_loadgen.Simulation.Delivery.{
  assign_batch, receive_sender, drain_found, drain_rounds, drain_sender_channel,
}
use ingestion_lab_loadgen.Simulation.Delivery.Accounts.{Waiting, Outside, assign_batch-Assigned}
use ingestion_lab_loadgen.Prelude.{get_elem?}
use ingestion_lab_loadgen.Simulation.Delivery.Accounts.{Assigned}

-- What draining leaves: a sound pool and channel, and all that it does not touch.
pub record Drained (s s' : Simulation) : Type 0 where
  pub pool : Pool s'
  pub channel : IsValid transactions_of s'.sender_channel
  pub outside : Outside s s'
  pub pending : s'.pending_throttled_batch ≡ s.pending_throttled_batch
  pub sent : s'.sender_channel.sent_batches_total ≡ s.sender_channel.sent_batches_total
  pub sent_transactions :
      s'.sender_channel.sent_transactions_total ≡ s.sender_channel.sent_transactions_total

pub Outside-refl : (s : Simulation) → Outside s s
Outside-refl s = ground arith

-- Moving the index keeps the pool sound.
pub moved-Pool :
    (s : Simulation) (next : ℕ)
    → next < length s.workers
    → Pool s
    → Pool (record s { next_worker_index = some next })
moved-Pool s next h v = record {
  workers = v.workers;
  ledger = Ledger-cong s _ refl refl refl refl refl v.ledger;
  index = h;
  pool_size = v.pool_size;
  has_sender = v.has_sender;
}

-- What receiving the head `b` of the sender's channel leaves.
record Taken (b : SimulationBatch) (s s' : Simulation) : Type 0 where
  waiting : Waiting b s'
  channel : IsValid transactions_of s'.sender_channel
  outside : Outside s s'
  workers : s'.workers ≡ s.workers
  pending : s'.pending_throttled_batch ≡ s.pending_throttled_batch
  sent : s'.sender_channel.sent_batches_total ≡ s.sender_channel.sent_batches_total
  sent_transactions :
      s'.sender_channel.sent_transactions_total ≡ s.sender_channel.sent_transactions_total
  depth : suc (depth_batches s'.sender_channel) ≡ depth_batches s.sender_channel

receive_sender-Taken :
    (s : Simulation) (activity : StepActivity) (b : SimulationBatch)
    → Pool s
    → IsValid transactions_of s.sender_channel
    → peek s.sender_channel ≡ some b
    → let ((s', activity'), item) = receive_sender (s, activity) in (item ≡ some b) × Taken b s s'
unfolding receive_sender
receive_sender-Taken s activity b v c p =
    let (rest, er) = peek-some s.sender_channel b p in
    let r = receive-Received transactions_of b rest s.sender_channel activity.sender_channel er in
    (
      r.0,
      record {
        waiting = record {
          workers = v.workers;
          ledger = ground (arith, r.1, v.ledger);
          index = v.index;
          pool_size = v.pool_size;
          has_sender = v.has_sender;
        };
        channel = receive-IsValid transactions_of s.sender_channel activity.sender_channel c;
        outside = ground arith;
        workers = refl;
        pending = refl;
        sent = r.1.sent;
        sent_transactions = r.1.sent_transactions;
        depth = omega (arith, ap length r.1.items, ap length er);
      },
    )

pub Outside-trans : {s t u : Simulation} → Outside s t → Outside t u → Outside s u
Outside-trans p q = record {
  config = q.config ∙ p.config;
  reader_channel = q.reader_channel ∙ p.reader_channel;
  credit = q.credit ∙ p.credit;
  tokens = q.tokens ∙ p.tokens;
  sequence = q.sequence ∙ p.sequence;
  elapsed = q.elapsed ∙ p.elapsed;
}

Drained-after :
    {s t u : Simulation}
    → Outside s t
    → t.pending_throttled_batch ≡ s.pending_throttled_batch
    → t.sender_channel.sent_batches_total ≡ s.sender_channel.sent_batches_total
    → t.sender_channel.sent_transactions_total ≡ s.sender_channel.sent_transactions_total
    → Drained t u
    → Drained s u
Drained-after o p q r d = record {
  pool = d.pool;
  channel = d.channel;
  outside = Outside-trans o d.outside;
  pending = d.pending ∙ p;
  sent = d.sent ∙ q;
  sent_transactions = d.sent_transactions ∙ r;
}

Drained-refl : (s : Simulation) → Pool s → IsValid transactions_of s.sender_channel → Drained s s
Drained-refl s v c = record {
  pool = v;
  channel = c;
  outside = Outside-refl s;
  pending = refl;
  sent = refl;
  sent_transactions = refl;
}

-- What the further rounds of the loop do, for a channel less deep than `k`.
abbrev Drains : ℕ → (State → Result State) → Type 0
Drains k continue =
    (s : Simulation) (activity : StepActivity)
    → depth_batches s.sender_channel < k
    → Pool s
    → IsValid transactions_of s.sender_channel
    → Returns (λ st. Drained s st.0) (continue (s, activity))

module _ (k : ℕ) (continue : State → Result State) (loop : Drains k continue) where
  -- The head goes to the available worker `w`.
  drain_head-Drained :
      (s : Simulation) (i : ℕ) (w : SenderWorker) (activity : StepActivity) (b : SimulationBatch)
      → Pool s
      → IsValid transactions_of s.sender_channel
      → peek s.sender_channel ≡ some b
      → depth_batches s.sender_channel < suc k
      → get_elem? s.workers i ≡ some w
      → is_available w ≡ true
      → Returns (λ st. Drained s st.0) (drain_found continue (some (i, w), s) activity)
  unfolding drain_found
  drain_head-Drained s i w activity b v c p d e free =
      let (er, t) = receive_sender-Taken s activity b v c p in
      let ((s', activity'), item) = receive_sender (s, activity) in
      rw (er, drain_found)
        (Returns-bind (Assigned b i w s') (λ st. Drained s st.0)
          (assign_batch i w b (s', activity')) continue
          (assign_batch-Assigned b i w s' activity' t.waiting
            (ap (λ ws. get_elem? ws i) t.workers ∙ e) free)
          λ r q.
            Returns-mono (λ st. Drained r.0 st.0) (λ st. Drained s st.0) (continue r)
              (loop r.0 r.1 (omega (arith, t.depth, ap (depth_batches {0}) q.2)) q.0
                (subst (IsValid transactions_of) (sym q.2) t.channel))
              λ st dr.
                Drained-after (Outside-trans t.outside q.1) (q.3 ∙ t.pending)
                  (ap (λ (c : StatefulChannel SimulationBatch). c.sent_batches_total) q.2 ∙ t.sent)
                  (ap (λ (c : StatefulChannel SimulationBatch). c.sent_transactions_total) q.2
                    ∙ t.sent_transactions)
                  dr)

  drain_found-Drained :
      (s : Simulation) (next : ℕ) (found : Option (ℕ × SenderWorker) × Simulation)
      (activity : StepActivity) (b : SimulationBatch)
      → Pool s
      → IsValid transactions_of s.sender_channel
      → peek s.sender_channel ≡ some b
      → depth_batches s.sender_channel < suc k
      → Found s next found
      → Returns (λ st. Drained s st.0) (drain_found continue found activity)
  unfolding drain_found
  drain_found-Drained s next (none, s') activity b v c p d f =
      subst (λ t. Drained s t) (sym f.0) (Drained-refl s v c)
  drain_found-Drained s next (some (i, w), s') activity b v c p d f =
      let j = (i + 1) % length s.workers in
      let moved : Simulation = record s { next_worker_index = some j } in
      subst (λ t. Returns (λ st. Drained s st.0) (drain_found continue (some (i, w), t) activity))
        (sym f.0)
        (Returns-mono (λ st. Drained moved st.0) (λ st. Drained s st.0)
          (drain_found continue (some (i, w), moved) activity)
          (drain_head-Drained moved i w activity b
            (moved-Pool s j
              (mod-lt (i + 1) {m = length s.workers}
                (omega (arith, lt_of_get_elem? s.workers i f.1.0)))
              v)
            c p d f.1.0 f.1.1)
          λ st dr. Drained-after (ground arith) refl refl refl dr)

pub position_some :
    (index : Option ℕ) (n : ℕ) → IsPosition index n → (i : ℕ) × (index ≡ some i) × (i < n)
position_some none n h = absurd h
position_some (some i) n h = (i, refl, h)

drain_rounds-Drains : (fuel : ℕ) → Drains fuel (drain_rounds fuel)
unfolding drain_rounds
drain_rounds-Drains zero s activity h v c = elim h [ ]
drain_rounds-Drains (suc fuel) s activity h v c = elim (Option-cases (peek s.sender_channel)) [
  | inl e ↦ rw (e, drain_rounds) (Drained-refl s v c)
  | inr (b, e) ↦
      let (next, en, hn) = position_some s.next_worker_index (length s.workers) v.index in
      rw (e, drain_rounds)
        (Returns-bind (Found s next) (λ st. Drained s st.0) (next_idle_worker s) _
          (next_idle_worker-Found s next en hn)
          λ found f.
            drain_found-Drained fuel (drain_rounds fuel) (drain_rounds-Drains fuel) s next found
              activity b v c e h f)
]

-- Draining ends with no throw, and keeps the pool and the channel sound.
pub drain_sender_channel-Drained :
    (s : Simulation) (activity : StepActivity)
    → Pool s
    → IsValid transactions_of s.sender_channel
    → Returns (λ st. Drained s st.0) (drain_sender_channel (s, activity))
unfolding drain_sender_channel
drain_sender_channel-Drained s activity v c =
    drain_rounds-Drains (suc (depth_batches s.sender_channel)) s activity (omega arith) v c
