-- ===== src/Simulation/Ledger.antt =====
-- What the sender's counters must account for, and what a worker's fields must say in each state.
-- The statements are about `SenderWorker` and the totals of frontend/src/model/simulation.ts.
use ingestion_lab_loadgen.Prelude.{
  ℕ, ◌+◌, ◌≤◌, ◌<◌, ◌≡◌, refl, ◌∙◌, Option, none, some, true, is_some, if◌then◌else◌, arith,
}
use ingestion_lab_loadgen.Simulation.Types.{
  SenderWorker, SenderWorkerState, SimulationBatch, idle, in_flight, backoff, is_in_flight,
}
use ingestion_lab_loadgen.Simulation.Retry.{retry_max_attempts}
use ingestion_lab_loadgen.Simulation.State.{Simulation}

-- An idle worker owns nothing; one in flight owns a batch and an outcome; one in backoff owns a batch
-- and has an attempt left.
abbrev pub Owns : SenderWorkerState → SenderWorker → Type 0
Owns idle w = (w.batch ≡ none) × (w.attempt ≡ 0)
Owns in_flight w =
    (is_some w.batch ≡ true)
    × (is_some w.outcome ≡ true)
    × (1 ≤ w.attempt)
    × (w.attempt ≤ retry_max_attempts)
Owns backoff w = (is_some w.batch ≡ true) × (1 ≤ w.attempt) × (w.attempt < retry_max_attempts)

abbrev pub IsWorker : SenderWorker → Type 0
IsWorker w = Owns w.state w

abbrev pub batches_in : Option SimulationBatch → ℕ
batches_in none = 0
batches_in (some b) = 1

abbrev pub transactions_in : Option SimulationBatch → ℕ
transactions_in none = 0
transactions_in (some b) = b.transactions

-- What a worker adds to the batches and transactions held, to the attempts in flight, and to the
-- workers that stay.
abbrev pub held : SenderWorker → ℕ
held w = batches_in w.batch

abbrev pub held_transactions : SenderWorker → ℕ
held_transactions w = transactions_in w.batch

abbrev pub flying : SenderWorker → ℕ
flying w = if is_in_flight w.state then 1 else 0

abbrev pub staying : SenderWorker → ℕ
staying w = if w.retiring then 0 else 1

-- The totals account for all that the sender's channel gave out: workers hold `held` batches with
-- `load` transactions, `flying` attempts are under way, and `waiting` first attempts are to be started.
pub record Ledger (s : Simulation) (held load flying waiting : ℕ) : Type 0 where
  pub delivered :
      s.sender_channel.received_batches_total
      ≡ held + s.request_succeeded_total + s.terminal_failed_batches_total
  pub delivered_transactions :
      s.sender_channel.received_transactions_total
      ≡ load + s.successful_transactions_total + s.terminal_failed_transactions_total
  pub started : s.request_started_total ≡ s.request_completed_total + flying
  pub completed : s.request_completed_total ≡ s.request_succeeded_total + s.request_failed_total
  pub failed :
      s.request_failed_total
      ≡ s.response_rejected_total + s.request_timed_out_total + s.network_error_total
  pub first_attempts :
      s.request_started_total + waiting
      ≡ s.retry_attempt_started_total + s.sender_channel.received_batches_total

-- What an attempt leaves as it was.
pub record Untouched (s s' : Simulation) : Type 0 where
  pub config : s'.config ≡ s.config
  pub reader_channel : s'.reader_channel ≡ s.reader_channel
  pub sender_channel : s'.sender_channel ≡ s.sender_channel
  pub workers : s'.workers ≡ s.workers
  pub next_worker_index : s'.next_worker_index ≡ s.next_worker_index
  pub credit : s'.reader_transaction_credit ≡ s.reader_transaction_credit
  pub tokens : s'.throttler_tokens ≡ s.throttler_tokens
  pub pending : s'.pending_throttled_batch ≡ s.pending_throttled_batch
  pub sequence : s'.next_batch_sequence ≡ s.next_batch_sequence
  pub elapsed : s'.elapsed_ms ≡ s.elapsed_ms

pub Untouched-refl : (s : Simulation) → Untouched s s
Untouched-refl s = record {
  config = refl;
  reader_channel = refl;
  sender_channel = refl;
  workers = refl;
  next_worker_index = refl;
  credit = refl;
  tokens = refl;
  pending = refl;
  sequence = refl;
  elapsed = refl;
}

pub Untouched-trans : {s t u : Simulation} → Untouched s t → Untouched t u → Untouched s u
Untouched-trans p q = record {
  config = q.config ∙ p.config;
  reader_channel = q.reader_channel ∙ p.reader_channel;
  sender_channel = q.sender_channel ∙ p.sender_channel;
  workers = q.workers ∙ p.workers;
  next_worker_index = q.next_worker_index ∙ p.next_worker_index;
  credit = q.credit ∙ p.credit;
  tokens = q.tokens ∙ p.tokens;
  pending = q.pending ∙ p.pending;
  sequence = q.sequence ∙ p.sequence;
  elapsed = q.elapsed ∙ p.elapsed;
}

pub Ledger-cast :
    (s : Simulation) {h h' l l' f f' w : ℕ}
    → h ≡ h'
    → l ≡ l'
    → f ≡ f'
    → Ledger s h l f w
    → Ledger s h' l' f' w
Ledger-cast s p q r b = rw (← p, ← q, ← r) b

-- The ledger reads only the totals and the sender's channel.
pub Ledger-cong :
    (s s' : Simulation) {h h' l l' f f' w : ℕ}
    → s'.totals ≡ s.totals
    → s'.sender_channel ≡ s.sender_channel
    → h ≡ h'
    → l ≡ l'
    → f ≡ f'
    → Ledger s h l f w
    → Ledger s' h' l' f' w
Ledger-cong s s' t c p q r b = ground (arith, b)
