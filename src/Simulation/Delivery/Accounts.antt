-- ===== src/Simulation/Delivery/Accounts.antt =====
-- Delivering batches to the sender's workers never throws, and loses none.
use ingestion_lab_loadgen.Prelude.{
  ℕ, suc, ◌+◌, ◌<◌, ◌≡◌, refl, sym, ◌∙◌, ap, subst, some, true, false, if◌then◌else◌, arith, All,
  sum_by, length, get_elem?, set, sum_by-set, length-set, All-set, All-get,
}
use ingestion_lab_loadgen.Prelude.Results.{Returns, Returns-bind}
use ingestion_lab_loadgen.Simulation.Types.{
  SimulationBatch, SimulationConfig, StepActivity, SenderWorker, in_flight,
}
use ingestion_lab_loadgen.Simulation.State.{Simulation}
use ingestion_lab_loadgen.Simulation.Ledger.{
  IsWorker, held, held_transactions, flying, staying, Ledger, Ledger-cong, Untouched,
}
use ingestion_lab_loadgen.Simulation.Invariant.{IsPosition, Pool}
use ingestion_lab_loadgen.Simulation.Start.Accounts.{Started, start_attempt-first}
use ingestion_lab_loadgen.Simulation.Workers.{is_available}
use ingestion_lab_loadgen.Simulation.Due.{State}
use ingestion_lab_loadgen.Simulation.Delivery.{assign_batch}
use ingestion_lab_loadgen.Simulation.Start.{start_attempt}

-- The pool when the sender's channel has given out `b` and no worker has it yet.
pub record Waiting (b : SimulationBatch) (s : Simulation) : Type 0 where
  pub workers : All IsWorker s.workers
  pub ledger :
      Ledger s
        (suc (sum_by held s.workers))
        (b.transactions + sum_by held_transactions s.workers)
        (sum_by flying s.workers)
        1
  pub index : IsPosition s.next_worker_index (length s.workers)
  pub pool_size : sum_by staying s.workers ≡ s.config.sender_workers
  pub has_sender : 0 < s.config.sender_workers

-- What giving batches to workers leaves as it was, but for the sender's channel.
pub record Outside (s s' : Simulation) : Type 0 where
  pub config : s'.config ≡ s.config
  pub reader_channel : s'.reader_channel ≡ s.reader_channel
  pub credit : s'.reader_transaction_credit ≡ s.reader_transaction_credit
  pub tokens : s'.throttler_tokens ≡ s.throttler_tokens
  pub sequence : s'.next_batch_sequence ≡ s.next_batch_sequence
  pub elapsed : s'.elapsed_ms ≡ s.elapsed_ms

available_empty :
    (w : SenderWorker)
    → IsWorker w
    → is_available w ≡ true
    → (held w ≡ 0) × (held_transactions w ≡ 0) × (flying w ≡ 0)
available_empty w owns free = ground arith

in_flight_full :
    (w : SenderWorker) (b : SimulationBatch)
    → w.state ≡ in_flight
    → w.batch ≡ some b
    → (held w ≡ 1) × (held_transactions w ≡ b.transactions) × (flying w ≡ 1)
in_flight_full w b st e = ground arith

module _ (b : SimulationBatch) (i : ℕ) (w : SenderWorker) (s : Simulation) where
  abbrev pub Assigned : State → Type 0
  Assigned (s', activity') =
      Pool s'
      × Outside s s'
      × (s'.sender_channel ≡ s.sender_channel)
      × (s'.pending_throttled_batch ≡ s.pending_throttled_batch)

  -- The worker's entry is replaced by one that is in flight with the batch.
  written-Pool :
      (w' : SenderWorker) (s' : Simulation)
      → Waiting b s
      → get_elem? s.workers i ≡ some w
      → is_available w ≡ true
      → IsWorker w'
      → w'.retiring ≡ w.retiring
      → w'.state ≡ in_flight
      → w'.batch ≡ some b
      → Ledger s'
          (suc (sum_by held s.workers))
          (b.transactions + sum_by held_transactions s.workers)
          (1 + sum_by flying s.workers)
          0
      → Untouched s s'
      → Pool (record s' { workers = set s'.workers i w' })
  written-Pool w' s' v e free owns r st eb l u =
      let ew : get_elem? s'.workers i ≡ some w = ap (λ ws. get_elem? ws i) u.workers ∙ e in
      let empty = available_empty w (All-get IsWorker s.workers i v.workers e) free in
      let full = in_flight_full w' b st eb in
      record {
        workers =
            All-set IsWorker s'.workers i w' (subst (All IsWorker) (sym u.workers) v.workers) owns;
        ledger =
            Ledger-cong s' _ refl refl
              (omega (arith, sum_by-set held s'.workers i w' ew, ap (sum_by held) u.workers))
              (omega (
                arith,
                sum_by-set held_transactions s'.workers i w' ew,
                ap (sum_by held_transactions) u.workers,
              ))
              (omega (arith, sum_by-set flying s'.workers i w' ew, ap (sum_by flying) u.workers)) l;
        index = written-IsPosition;
        pool_size = omega (
          arith,
          sum_by-set staying s'.workers i w' ew,
          ap (sum_by staying) u.workers,
          ap {B = ℕ} (λ gone. if gone then 0 else 1) r,
          v.pool_size,
          ap (λ (c : SimulationConfig). c.sender_workers) u.config,
        );
        has_sender = ground (arith, v);
      }
    where
      written-IsPosition : IsPosition s'.next_worker_index (length (set s'.workers i w'))
      written-IsPosition =
          subst (IsPosition s'.next_worker_index) (sym (length-set s'.workers i w')) (
            subst (λ ws. IsPosition s'.next_worker_index (length ws)) (sym u.workers)
              (subst (λ k. IsPosition k (length s.workers)) (sym u.next_worker_index) v.index))

  -- Giving a batch to an available worker starts its first attempt.
  pub assign_batch-Assigned :
      (activity : StepActivity)
      → Waiting b s
      → get_elem? s.workers i ≡ some w
      → is_available w ≡ true
      → Returns Assigned (assign_batch i w b (s, activity))
  unfolding assign_batch
  assign_batch-Assigned activity v e free =
      let given : SenderWorker = record w { batch = some b; had_ambiguous_outcome = false } in
      Returns-bind
        (Started s given (suc (sum_by held s.workers))
          (b.transactions + sum_by held_transactions s.workers) (sum_by flying s.workers))
        Assigned (start_attempt given 1 s activity) _
        (start_attempt-first s b given activity _ _ _ refl v.ledger)
        λ r k. (
          written-Pool r.0 r.1 v e free k.0 k.1 k.2 k.3 k.4 k.5,
          record {
            config = k.5.config;
            reader_channel = k.5.reader_channel;
            credit = k.5.credit;
            tokens = k.5.tokens;
            sequence = k.5.sequence;
            elapsed = k.5.elapsed;
          },
          k.5.sender_channel,
          k.5.pending,
        )
