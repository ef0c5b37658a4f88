-- ===== src/Simulation/Delivery.antt =====
-- How `FixedStepSimulation` brings batches to the sender's workers (frontend/src/model/simulation.ts):
-- draining the sender's channel, and flushing the batch that the throttler let through.
pub mod Accounts
pub mod Drain
pub mod Flush
use ingestion_lab_loadgen.Prelude.{
  ℕ, zero, suc, Bool, true, false, Option, none, some, ◌==◌, if◌then◌else◌, set,
}
use ingestion_lab_loadgen.Prelude.Results.{Result, ok, throw, ◌>>=◌, out_of_fuel}
use ingestion_lab_loadgen.Simulation.Types.{SimulationBatch, SenderWorker}
use ingestion_lab_loadgen.Simulation.Channel.{peek, depth_batches}
use ingestion_lab_loadgen.Simulation.Channel
use ingestion_lab_loadgen.Simulation.State.{transactions_of}
use ingestion_lab_loadgen.Simulation.Start.{start_attempt}
use ingestion_lab_loadgen.Simulation.Workers.{next_idle_worker}
use ingestion_lab_loadgen.Simulation.Due.{State}
use ingestion_lab_loadgen.Simulation.State.{Simulation}
use ingestion_lab_loadgen.Simulation.Types.{StepActivity}

-- `worker.batch = batch; worker.hadAmbiguousOutcome = false; this.startAttempt(worker, 1, activity)`
-- for the worker at `index`.
pub assign_batch : ℕ → SenderWorker → SimulationBatch → State → Result State
assign_batch index worker batch (s, activity) = do
  (worker', s', activity') ←
      start_attempt (record worker { batch = some batch; had_ambiguous_outcome = false }) 1 s
        activity
  ok (record s' { workers = set s'.workers index worker' }, activity')

-- `this.senderChannel.receive(activity.senderChannel)`
pub receive_sender : State → State × Option SimulationBatch
receive_sender (s, activity) =
    let (c, a, item) = Channel.receive transactions_of s.sender_channel activity.sender_channel in
    ((record s { sender_channel = c }, record activity { sender_channel = a }), item)

-- A round of `drainSenderChannel` once the search for a worker has returned; `continue` runs the
-- further rounds.
drain_found :
    (State → Result State) → Option (ℕ × SenderWorker) × Simulation → StepActivity → Result State
drain_found continue (none, s) activity = ok (s, activity)
drain_found continue (some (index, worker), s) activity =
    let (st, item) = receive_sender (s, activity) in
    elim item [ none ↦ ok st | some batch ↦ assign_batch index worker batch st >>= continue ]

-- The loop of `drainSenderChannel`; a round takes one batch off the channel.
pub drain_rounds : ℕ → State → Result State
drain_rounds zero st = throw out_of_fuel
drain_rounds (suc fuel) (s, activity) = elim (peek s.sender_channel) [
  | none ↦ ok (s, activity)
  | some head ↦ do found ← next_idle_worker s; drain_found (drain_rounds fuel) found activity
]

pub drain_sender_channel : State → Result State
drain_sender_channel (s, activity) =
    drain_rounds (suc (depth_batches s.sender_channel)) (s, activity)

-- Gives the pending batch to the worker that was found, past the channel that has no capacity.
hand_found :
    SimulationBatch → Option (ℕ × SenderWorker) × Simulation → StepActivity → Result (State × Bool)
hand_found batch (none, s) activity = ok ((s, activity), true)
hand_found batch (some (index, worker), s) activity =
    let (c, a) = Channel.handoff transactions_of s.sender_channel batch activity.sender_channel in
    do
      (s', activity') ←
          assign_batch index worker batch
            (record s { sender_channel = c }, record activity { sender_channel = a })
      ok ((record s' { pending_throttled_batch = none }, activity'), false)

hand_to_worker : SimulationBatch → State → Result (State × Bool)
hand_to_worker batch (s, activity) = do found ← next_idle_worker s; hand_found batch found activity

-- Puts the pending batch on the channel, and lets the workers drain it.
pub put_on_channel : SimulationBatch → State → Result (State × Bool)
put_on_channel batch (s, activity) =
    let (c, a, sent) =
      Channel.send transactions_of s.sender_channel batch activity.sender_channel in
    if sent
    then (do
      (s', activity') ←
          drain_sender_channel
            (record s { sender_channel = c }, record activity { sender_channel = a })
      ok ((record s' { pending_throttled_batch = none }, activity'), false))
    else ok ((s, activity), true)

flush_pending : Option SimulationBatch → State → Result (State × Bool)
flush_pending none st = ok (st, false)
flush_pending (some batch) (s, activity) =
    if s.sender_channel.applied_capacity == 0
    then hand_to_worker batch (s, activity)
    else put_on_channel batch (s, activity)

-- Whether the sender's channel is blocked is the second part of the result.
pub flush_throttled_batch : State → Result (State × Bool)
unfolding flush_pending
flush_throttled_batch (s, activity) = flush_pending s.pending_throttled_batch (s, activity)
