-- ===== src/Simulation/Invariant.antt =====
-- What holds of the simulation (frontend/src/model/simulation.ts) between any two of its methods.
use ingestion_lab_loadgen.Prelude.{ap, refl, ◌∙◌}
use ingestion_lab_loadgen.Simulation.Types.{SimulationConfig}
use ingestion_lab_loadgen.Simulation.Ledger.{Ledger-cong}
use ingestion_lab_loadgen.Prelude.{
  ℕ, ◌+◌, ◌<◌, ◌≡◌, sym, subst, arith, Option, none, some, All, sum_by, length,
}
use ingestion_lab_loadgen.Simulation.Channel.Invariant.{IsValid}
use ingestion_lab_loadgen.Simulation.State.{Simulation, transactions_of}
use ingestion_lab_loadgen.Simulation.Ledger.{
  IsWorker, batches_in, transactions_in, held, held_transactions, flying, staying, Ledger,
}

-- The index is a number, and a position of the list.
abbrev pub IsPosition : Option ℕ → ℕ → Type 0
IsPosition none workers = ⊥
IsPosition (some index) workers = index < workers

-- Where every batch that the reader made and the throttler let through is counted.
pub record Plumbing (s : Simulation) : Type 0 where
  pub reader : IsValid transactions_of s.reader_channel
  pub sender : IsValid transactions_of s.sender_channel
  pub created : s.next_batch_sequence ≡ s.reader_channel.sent_batches_total
  pub throttled :
      s.reader_channel.received_batches_total
      ≡ s.sender_channel.sent_batches_total + batches_in s.pending_throttled_batch
  pub throttled_transactions :
      s.reader_channel.received_transactions_total
      ≡ s.sender_channel.sent_transactions_total + transactions_in s.pending_throttled_batch

pub Plumbing-cong :
    {s s' : Simulation}
    → s'.reader_channel ≡ s.reader_channel
    → s'.sender_channel ≡ s.sender_channel
    → s'.pending_throttled_batch ≡ s.pending_throttled_batch
    → s'.next_batch_sequence ≡ s.next_batch_sequence
    → Plumbing s
    → Plumbing s'
Plumbing-cong p q r t v = record {
  reader = subst (IsValid transactions_of) (sym p) v.reader;
  sender = subst (IsValid transactions_of) (sym q) v.sender;
  created = ground arith;
  throttled = ground arith;
  throttled_transactions = ground arith;
}

-- The pool of workers, with the totals that account for what it got. Its workers that stay are as
-- many as were asked for, and there is at least one.
pub record Pool (s : Simulation) : Type 0 where
  pub workers : All IsWorker s.workers
  pub ledger :
      Ledger s
        (sum_by held s.workers)
        (sum_by held_transactions s.workers)
        (sum_by flying s.workers)
        0
  pub index : IsPosition s.next_worker_index (length s.workers)
  pub pool_size : sum_by staying s.workers ≡ s.config.sender_workers
  pub has_sender : 0 < s.config.sender_workers

-- Changes outside the pool, the totals and the sender's channel leave the pool sound.
pub Pool-cong :
    {s s' : Simulation}
    → s'.workers ≡ s.workers
    → s'.totals ≡ s.totals
    → s'.sender_channel ≡ s.sender_channel
    → s'.next_worker_index ≡ s.next_worker_index
    → s'.config ≡ s.config
    → Pool s
    → Pool s'
Pool-cong {s} {s'} p q r t u v = record {
  workers = subst (All IsWorker) (sym p) v.workers;
  ledger =
      Ledger-cong s s' q r (ap (sum_by held) (sym p)) (ap (sum_by held_transactions) (sym p))
        (ap (sum_by flying) (sym p)) v.ledger;
  index =
      subst (λ ws. IsPosition s'.next_worker_index (length ws)) (sym p)
        (subst (λ k. IsPosition k (length s.workers)) (sym t) v.index);
  pool_size =
      ap (sum_by staying) p ∙ v.pool_size ∙ ap (λ (c : SimulationConfig). c.sender_workers) (sym u);
  has_sender = subst (λ (c : SimulationConfig). 0 < c.sender_workers) (sym u) v.has_sender;
}

pub record Inv (s : Simulation) : Type 0 where
  pub plumbing : Plumbing s
  pub pool : Pool s
  pub batch_size : 0 < s.config.read_batch_size

-- What a method of a step leaves: the invariant, the configuration and the time.
abbrev pub Kept : Simulation → Simulation → Type 0
Kept s s' = Inv s' × (s'.config ≡ s.config) × (s'.elapsed_ms ≡ s.elapsed_ms)

pub Kept-refl : (s : Simulation) → Inv s → Kept s s
Kept-refl s v = (v, refl, refl)

pub Kept-trans : (s t u : Simulation) → Kept s t → Kept t u → Kept s u
Kept-trans s t u p q = (q.0, q.1 ∙ p.1, q.2 ∙ p.2)
