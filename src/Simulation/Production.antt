-- ===== src/Simulation/Production.antt =====
-- How `FixedStepSimulation` receives from the reader's channel through the throttler, and how the
-- reader produces batches (frontend/src/model/simulation.ts).
pub mod Admission
pub mod Reader
use ingestion_lab_loadgen.Prelude.{
  ℕ, zero, suc, ◌+◌, ◌-◌, ◌*◌, ◌/◌, min, Bool, true, false, ◌&&◌, Option, none, some, ltb, leb,
  ◌==◌, if◌then◌else◌,
}
use ingestion_lab_loadgen.Prelude.Results.{
  Result, ok, throw, ◌>>=◌, channel_capacity_changed, out_of_fuel,
}
use ingestion_lab_loadgen.Simulation.Types.{
  SimulationBatch, fixed_step_ms, reader_transactions_per_worker_second,
}
use ingestion_lab_loadgen.Simulation.Channel.{peek, depth_batches}
use ingestion_lab_loadgen.Simulation.Channel
use ingestion_lab_loadgen.Simulation.State.{Simulation, transactions_of, tokens_for}
use ingestion_lab_loadgen.Simulation.Due.{State}
use ingestion_lab_loadgen.Simulation.Delivery.{flush_throttled_batch}

pub record AdmissionResult : Type 0 where
  pub sender_channel_blocked : Bool
  pub token_limited : Bool

pub record ReaderProductionResult : Type 0 where
  pub admission : AdmissionResult
  pub open admission use *
  pub reader_channel_blocked : Bool

abbrev admission_result : Bool → Bool → AdmissionResult
admission_result blocked limited = record {
  sender_channel_blocked = blocked;
  token_limited = limited;
}

abbrev production_result : Bool → Bool → Bool → ReaderProductionResult
production_result reader_blocked sender_blocked limited = record {
  admission = admission_result sender_blocked limited;
  reader_channel_blocked = reader_blocked;
}

-- A batch's `identity` is 'pipeline-batch-' and its number, so the number stands for both.
pub create_pipeline_batch : ℕ → Simulation → SimulationBatch × Simulation
create_pipeline_batch transactions s = (
  record { sequence = s.next_batch_sequence; transactions = transactions },
  record s { next_batch_sequence = s.next_batch_sequence + 1 },
)

abbrev lacks_tokens : Simulation → ℕ → Bool
lacks_tokens s transactions =
    s.config.throttler_installed && ltb s.throttler_tokens (tokens_for transactions)

-- `throttlerTokens` after `if (installed) this.throttlerTokens -= transactions`, where they suffice.
abbrev tokens_after : Simulation → ℕ → ℕ
tokens_after s transactions =
    if s.config.throttler_installed
    then s.throttler_tokens - tokens_for transactions
    else s.throttler_tokens

-- `this.readerChannel.receive(activity.readerChannel)`
receive_reader : State → State × Option SimulationBatch
receive_reader (s, activity) =
    let (c, a, item) = Channel.receive transactions_of s.reader_channel activity.reader_channel in
    ((record s { reader_channel = c }, record activity { reader_channel = a }), item)

abbrev stop_if : Bool → AdmissionResult → Option AdmissionResult
stop_if blocked result = if blocked then some result else none

-- The end of a round of `receiveReaderChannel`, once the head of the channel was taken or not.
admit_received : State × Option SimulationBatch → Result (State × Option AdmissionResult)
admit_received (st, none) = ok (st, some (admission_result false false))
admit_received ((s, activity), some batch) = do
  (st, blocked) ← flush_throttled_batch (
    record s {
      throttler_tokens = tokens_after s batch.transactions;
      pending_throttled_batch = some batch;
    },
    activity,
  )
  ok (st, stop_if blocked (admission_result true false))

-- A round of `receiveReaderChannel` past its first test; none lets the loop go on.
admit_head : State → Result (State × Option AdmissionResult)
admit_head (s, activity) = elim (peek s.reader_channel) [
  | none ↦ ok ((s, activity), some (admission_result false false))
  | some batch ↦
      if lacks_tokens s batch.transactions
      then ok ((s, activity), some (admission_result false true))
      else admit_received (receive_reader (s, activity))
]

admit_unblocked : State × Bool → Result (State × Option AdmissionResult)
admit_unblocked (st, true) = ok (st, some (admission_result true false))
admit_unblocked (st, false) = admit_head st

receive_pending : Option SimulationBatch → State → Result (State × Option AdmissionResult)
receive_pending none st = admit_head st
receive_pending (some pending) st = flush_throttled_batch st >>= admit_unblocked

-- One round of `receiveReaderChannel`.
receive_round : State → Result (State × Option AdmissionResult)
receive_round (s, activity) = receive_pending s.pending_throttled_batch (s, activity)

-- What a loop does after a round that may have stopped it.
pub continue_or_stop :
    {A : Type 0} → (State → Result (State × A)) → State × Option A → Result (State × A)
continue_or_stop continue (st, none) = continue st
continue_or_stop continue (st, some result) = ok (st, result)

receive_rounds : ℕ → State → Result (State × AdmissionResult)
receive_rounds zero st = ok (st, admission_result false false)
receive_rounds (suc rounds) st = do
  (st', stopped) ← receive_round st
  elim stopped [ none ↦ receive_rounds rounds st' | some result ↦ ok (st', result) ]

pub receive_reader_channel : State → Result (State × AdmissionResult)
receive_reader_channel (s, activity) = receive_rounds (depth_batches s.reader_channel) (s, activity)

-- A round of `produceReaderBatches` where the reader's channel has no capacity, nothing is pending and
-- the tokens suffice.
produce_handoff : ℕ → State → Result (State × Option ReaderProductionResult)
produce_handoff transactions (s, activity) =
    let (batch, s') = create_pipeline_batch transactions s in
    let (c, a) = Channel.handoff transactions_of s'.reader_channel batch activity.reader_channel in
    do
      (st, blocked) ← flush_throttled_batch (
        record s' {
          reader_channel = c;
          throttler_tokens = tokens_after s' transactions;
          reader_transaction_credit = s'.reader_transaction_credit - transactions;
          pending_throttled_batch = some batch;
        },
        record activity { reader_channel = a },
      )
      ok (st, if blocked then some (production_result true true false) else none)

-- A round of `produceReaderBatches` where the reader's channel has no capacity.
produce_unbuffered :
    Option SimulationBatch → ℕ → State → Result (State × Option ReaderProductionResult)
produce_unbuffered (some pending) transactions st =
    ok (st, some (production_result true true false))
produce_unbuffered none transactions (s, activity) =
    if lacks_tokens s transactions
    then ok ((s, activity), some (production_result true false true))
    else produce_handoff transactions (s, activity)

-- One round of `produceReaderBatches` where the reader's channel has a capacity.
produce_buffered : ℕ → State → Result (State × Option ReaderProductionResult)
produce_buffered transactions (s, activity) =
    if leb s.reader_channel.applied_capacity (depth_batches s.reader_channel)
    then ok ((s, activity), some (production_result true false false))
    else let (batch, s') = create_pipeline_batch transactions s in
      let (c, a, sent) =
        Channel.send transactions_of s'.reader_channel batch activity.reader_channel in
      if sent
      then ok (
        (
          record s' {
            reader_channel = c;
            reader_transaction_credit = s'.reader_transaction_credit - transactions;
          },
          record activity { reader_channel = a },
        ),
        none,
      )
      else throw channel_capacity_changed

produce_round : ℕ → State → Result (State × Option ReaderProductionResult)
produce_round transactions (s, activity) =
    if s.reader_channel.applied_capacity == 0
    then produce_unbuffered s.pending_throttled_batch transactions (s, activity)
    else produce_buffered transactions (s, activity)

-- The `while` of `produceReaderBatches`.
produce_rounds : ℕ → ℕ → State → Result (State × ReaderProductionResult)
produce_rounds zero transactions st = throw out_of_fuel
produce_rounds (suc fuel) transactions (s, activity) =
    if ltb s.reader_transaction_credit transactions
    then ok ((s, activity), production_result false false false)
    else do
      (st, stopped) ← produce_round transactions (s, activity)
      elim stopped [ none ↦ produce_rounds fuel transactions st | some result ↦ ok (st, result) ]

earn_reader_credit : Simulation → Simulation
earn_reader_credit s =
    let capacity_tps = s.config.reader_workers * reader_transactions_per_worker_second in
    record s {
      reader_transaction_credit =
          min (s.config.reader_workers * s.config.read_batch_size)
            (s.reader_transaction_credit + capacity_tps * fixed_step_ms / 1_000);
    }

-- Each round spends a batch's worth of credit, so the credit bounds the rounds.
pub produce_reader_batches : State → Result (State × ReaderProductionResult)
produce_reader_batches (s, activity) =
    let earned = earn_reader_credit s in
    produce_rounds (suc earned.reader_transaction_credit) s.config.read_batch_size
      (earned, activity)
