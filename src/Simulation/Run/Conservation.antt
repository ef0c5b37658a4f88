-- ===== src/Simulation/Run/Conservation.antt =====
-- Whatever is called in whatever order, no call throws, and every batch and transaction that the
-- reader made is in exactly one place.
use ingestion_lab_loadgen.Prelude.{
  ℕ, ◌+◌, ◌<◌, ◌≡◌, Option, none, some, List, [], ◌∷◌, arith, All, sum_by, or_else,
}
use ingestion_lab_loadgen.Prelude.Results.{Returns, Returns-bind, Returns-mono}
use ingestion_lab_loadgen.Simulation.Types.{
  SimulationConfig, SimulationAttemptContext, SimulationAttemptOutcome,
}
use ingestion_lab_loadgen.Simulation.Channel.{depth_batches, buffered_transactions}
use ingestion_lab_loadgen.Simulation.State.{Simulation, transactions_of, create_simulation}
use ingestion_lab_loadgen.Simulation.Ledger.{
  batches_in, transactions_in, held, held_transactions, flying,
}
use ingestion_lab_loadgen.Simulation.Invariant.{Inv}
use ingestion_lab_loadgen.Simulation.Step.{advance_step}
use ingestion_lab_loadgen.Simulation.Step.Sound.{Stepped, advance_step-Stepped}
use ingestion_lab_loadgen.Simulation.Step.Controls.{
  Positive, create_simulation-Inv, update_config-Inv, request_channel_capacity-Inv,
  clear_instantaneous_telemetry-Inv, reset-Inv,
}
use ingestion_lab_loadgen.Simulation.Run.{
  Call, advance, clear, restart, configure, resize, make_call, make_calls,
}

-- A value that is given is not 0.
abbrev pub GivenPositive : Option ℕ → Type 0
GivenPositive none = Unit
GivenPositive (some n) = 0 < n

-- A call that asks for a positive number of sender workers and a positive batch size, where it asks.
abbrev pub Permitted : Call → Type 0
Permitted (configure values) =
    GivenPositive values.sender_workers × GivenPositive values.read_batch_size
Permitted advance = Unit
Permitted clear = Unit
Permitted restart = Unit
Permitted (resize channel capacity) = Unit

given-Positive : (o : Option ℕ) (n : ℕ) → GivenPositive o → 0 < n → 0 < or_else o n
given-Positive none n h k = k
given-Positive (some m) n h k = h

make_call-Inv :
    (call : Call) (s : Simulation) → Permitted call → Inv s → Returns Inv (make_call call s)
unfolding make_call
make_call-Inv advance s p v =
    Returns-mono (Stepped s) Inv (advance_step s) (advance_step-Stepped s v) λ s' k. k.0
make_call-Inv clear s p v = clear_instantaneous_telemetry-Inv s v
make_call-Inv restart s p v = reset-Inv s v
make_call-Inv (configure values) s p v =
    update_config-Inv values s
      (
        given-Positive values.sender_workers s.config.sender_workers p.0 v.pool.has_sender,
        given-Positive values.read_batch_size s.config.read_batch_size p.1 v.batch_size,
      )
      v
make_call-Inv (resize channel capacity) s p v = request_channel_capacity-Inv channel capacity s v

pub make_calls-Inv :
    (calls : List Call) (s : Simulation)
    → All Permitted calls
    → Inv s
    → Returns Inv (make_calls calls s)
unfolding make_calls
make_calls-Inv [] s p v = v
make_calls-Inv (call ∷ calls) s p v =
    Returns-bind Inv Inv (make_call call s) (make_calls calls) (make_call-Inv call s p.0 v)
      λ s' v'. make_calls-Inv calls s' p.1 v'

-- Every batch made is in the reader's channel, before the sender's channel, in it, with a worker, or
-- has succeeded or failed for good; so are its transactions; every attempt started is in flight or
-- completed, and completed attempts are counted by their outcome.
pub record Conserved (s : Simulation) : Type 0 where
  pub batches :
      s.next_batch_sequence
      ≡ depth_batches s.reader_channel
        + batches_in s.pending_throttled_batch
        + depth_batches s.sender_channel
        + sum_by held s.workers
        + s.request_succeeded_total
        + s.terminal_failed_batches_total
  pub transactions :
      s.reader_channel.sent_transactions_total
      ≡ buffered_transactions transactions_of s.reader_channel
        + transactions_in s.pending_throttled_batch
        + buffered_transactions transactions_of s.sender_channel
        + sum_by held_transactions s.workers
        + s.successful_transactions_total
        + s.terminal_failed_transactions_total
  pub attempts : s.request_started_total ≡ s.request_completed_total + sum_by flying s.workers
  pub outcomes :
      s.request_completed_total
      ≡ s.request_succeeded_total + s.response_rejected_total + s.request_timed_out_total
        + s.network_error_total
  pub first_attempts :
      s.request_started_total
      ≡ s.retry_attempt_started_total + s.sender_channel.received_batches_total

Inv-Conserved : (s : Simulation) → Inv s → Conserved s
Inv-Conserved s v =
    let p = v.plumbing in
    let l = v.pool.ledger in
    record {
      batches =
          omega (arith, p.created, p.reader.batches, p.throttled, p.sender.batches, l.delivered);
      transactions = omega (
        arith, p.reader.transactions, p.throttled_transactions, p.sender.transactions,
        l.delivered_transactions,
      );
      attempts = omega (arith, l.started);
      outcomes = omega (arith, l.completed, l.failed);
      first_attempts = omega (arith, l.first_attempts);
    }

-- A new simulation with at least one sender worker and a batch size that is not 0, whatever its
-- channels' capacities and whatever outcomes its source chooses, survives every sequence of steps,
-- resets, capacity requests and changes of the configuration that ask for no 0 of these two: no call
-- throws, and at the end every batch, transaction and attempt ever made is accounted for exactly once.
pub make_calls-Conserved :
    (calls : List Call) (config : SimulationConfig) (reader_capacity sender_capacity : ℕ)
    (source : Option (SimulationAttemptContext → SimulationAttemptOutcome))
    → Positive config
    → All Permitted calls
    → Returns Conserved
        (make_calls calls (create_simulation config reader_capacity sender_capacity source))
make_calls-Conserved calls config r c source pos p =
    let s = create_simulation config r c source in
    Returns-mono Inv Conserved (make_calls calls s)
      (make_calls-Inv calls s p (create_simulation-Inv config r c source pos.0 pos.1)) Inv-Conserved
