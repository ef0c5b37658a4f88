-- ===== src/Simulation/Tests.antt =====
-- Runs of the simulation at concrete inputs, and its theorems at concrete inputs.
use ingestion_lab_loadgen.Prelude.{
  All, ℕ, ◌+◌, ◌*◌, ◌%◌, ◌≤◌, ◌≡◌, refl, true, none, some, List, [], ◌∷◌, arith,
}
use ingestion_lab_loadgen.Prelude.Int.{pos}
use ingestion_lab_loadgen.Prelude.Results.{Returns}
use ingestion_lab_loadgen.Simulation.Types.{
  SimulationConfig, SimulationBatch, SenderWorker, create_worker, create_step_activity,
  create_channel_activity, in_flight, finite, fixed_step_ms, timeout,
}
use ingestion_lab_loadgen.Simulation.Retry.{rounded_step_duration, deterministic_retry_delay_ms}
use ingestion_lab_loadgen.Simulation.Retry.Bounds.{
  nominal_ms, rounded_step_duration-least, deterministic_retry_delay_ms-bounds,
}
use ingestion_lab_loadgen.Simulation.Channel.{StatefulChannel, create}
use ingestion_lab_loadgen.Simulation.Channel.Invariant.{IsValid, create-IsValid}
use ingestion_lab_loadgen.Simulation.Channel.Queue.{
  Operation, put, take, Counted, Queued, operate_all, operate_all-Queued,
}
use ingestion_lab_loadgen.Simulation.State.{Simulation, create_simulation}
use ingestion_lab_loadgen.Simulation.Invariant.{Inv}
use ingestion_lab_loadgen.Simulation.Completion.{complete_attempt}
use ingestion_lab_loadgen.Simulation.Completion.Verdicts.{Judged, verdict, complete_attempt-Judged}
use ingestion_lab_loadgen.Simulation.Start.Failures.{Fates, is_late, outcomes, outcomes-Fates}
use ingestion_lab_loadgen.Simulation.Workers.{next_idle_worker}
use ingestion_lab_loadgen.Simulation.Workers.Search.{Chosen, next_idle_worker-Chosen}
use ingestion_lab_loadgen.Simulation.Due.{complete_due_attempts}
use ingestion_lab_loadgen.Simulation.Due.Settled.{Settled, complete_due_attempts-Settled}
use ingestion_lab_loadgen.Simulation.Step.{
  PartialConfig, ChannelNumber, advance_step, advance_steps, update_config, reset,
}
use ingestion_lab_loadgen.Simulation.Step.Sound.{
  Stepped, advance_step-Stepped, advance_steps-Stepped,
}
use ingestion_lab_loadgen.Simulation.Step.Controls.{create_simulation-Inv, update_config-Inv}
use ingestion_lab_loadgen.Simulation.Step.Restarted.{requested_capacity, reset-create_simulation}
use ingestion_lab_loadgen.Simulation.Telemetry.{telemetry}
use ingestion_lab_loadgen.Simulation.Telemetry.Counts.{total, telemetry-workers}
use ingestion_lab_loadgen.Simulation.Run.{Call, advance, restart, configure, make_calls}
use ingestion_lab_loadgen.Simulation.Run.Conservation.{Conserved, make_calls-Conserved}
use ingestion_lab_loadgen.Prelude.{map}

-- The configuration with which the simulation adapter starts.
abbrev adapter_config : SimulationConfig
adapter_config = record {
  reader_workers = 4;
  sender_workers = 3;
  requested_tps = 120_000;
  throttler_installed = true;
  read_batch_size = 25_000;
  http_timeout_ms = 500;
  target_delay_ms = 40;
  target_error_rate_percent = 2;
}

abbrev started : Simulation
started = create_simulation adapter_config 4 100 none

started-Inv : Inv started
started-Inv = create_simulation-Inv adapter_config 4 100 none (omega arith) (omega arith)

-- Five senders and smaller batches.
abbrev five_senders : PartialConfig
five_senders = record {
  reader_workers = none;
  sender_workers = some 5;
  requested_tps = none;
  throttler_installed = none;
  read_batch_size = some 1_000;
  http_timeout_ms = none;
  target_delay_ms = none;
  target_error_rate_percent = none;
}

abbrev sample_calls : List Call
sample_calls =
    advance
    ∷ configure five_senders
    ∷ advance
    ∷ Call.resize ChannelNumber.reader 0
    ∷ advance
    ∷ restart
    ∷ advance
    ∷ []

make_calls-Conserved_example :
    Returns Conserved (make_calls sample_calls (create_simulation adapter_config 4 100 none))
make_calls-Conserved_example =
    make_calls-Conserved sample_calls adapter_config 4 100 none (omega arith, omega arith)
      (tt, ((omega arith, omega arith), (tt, (tt, (tt, (tt, (tt, tt)))))))

advance_steps-Stepped_example :
    Returns
      (λ s'.
        Inv s'
        × (s'.config ≡ started.config)
        × (s'.elapsed_ms ≡ started.elapsed_ms + 60 * fixed_step_ms))
      (advance_steps 60 started)
advance_steps-Stepped_example = advance_steps-Stepped 60 started started-Inv

update_config-Inv_example : Inv (update_config five_senders started)
update_config-Inv_example =
    update_config-Inv five_senders started (omega arith, omega arith) started-Inv

abbrev batch_seven : SimulationBatch
batch_seven = record { sequence = 7; transactions = 25_000 }

-- A worker whose first attempt has timed out.
abbrev waiting_worker : SenderWorker
waiting_worker = record (create_worker 0) {
  state = in_flight;
  batch = some batch_seven;
  attempt = 1;
  outcome = some (timeout (finite (pos 500)));
}

-- A channel through which one batch has gone.
abbrev passed_one : ℕ → StatefulChannel SimulationBatch
passed_one capacity = record (create capacity) {
  sent_batches_total = 1;
  sent_transactions_total = 25_000;
  received_batches_total = 1;
  received_transactions_total = 25_000;
}

-- A simulation whose first worker has an attempt that is due.
abbrev busy : Simulation
busy = record started {
  reader_channel = passed_one 4;
  sender_channel = passed_one 100;
  workers = waiting_worker ∷ create_worker 1 ∷ create_worker 2 ∷ [];
  next_worker_index = some 1;
  next_batch_sequence = 1;
  totals = record started.totals { request_started_total = 1 };
  elapsed_ms = 500;
}

busy-Inv : Inv busy
unfolding create_simulation
busy-Inv = record {
  plumbing = record {
    reader = ground arith;
    sender = ground arith;
    created = refl;
    throttled = refl;
    throttled_transactions = refl;
  };
  pool = record {
    workers = ((refl, refl, omega arith, omega arith), ((refl, refl), ((refl, refl), tt)));
    ledger = record {
      delivered = refl;
      delivered_transactions = refl;
      started = refl;
      completed = refl;
      failed = refl;
      first_attempts = refl;
    };
    index = omega arith;
    pool_size = refl;
    has_sender = omega arith;
  };
  batch_size = omega arith;
}

complete_attempt-Judged_example :
    Returns
      (Judged started waiting_worker batch_seven (verdict (timeout (finite (pos 500))) 1))
      (complete_attempt waiting_worker started create_step_activity)
complete_attempt-Judged_example =
    complete_attempt-Judged started waiting_worker create_step_activity batch_seven
      (timeout (finite (pos 500))) refl refl

abbrev one : ℕ → ℕ
one item = 1

abbrev small_channel : StatefulChannel ℕ
small_channel = create 2

-- The third put finds the channel full.
abbrev sample_operations : List (Operation ℕ)
sample_operations =
    put 5 ∷ put 6 ∷ put 7 ∷ take ∷ Operation.pass 4 ∷ Operation.resize 0 ∷ put 8 ∷ take ∷ []

operate_all-Queued_example :
    Queued one create_channel_activity small_channel
      (operate_all one create_channel_activity sample_operations small_channel)
    × IsValid one (operate_all one create_channel_activity sample_operations small_channel).channel
    × Counted one create_channel_activity small_channel
        (operate_all one create_channel_activity sample_operations small_channel)
operate_all-Queued_example =
    operate_all-Queued one create_channel_activity sample_operations small_channel
      (create-IsValid one 2)

next_idle_worker-Chosen_example : Returns (Chosen started 0) (next_idle_worker started)
unfolding create_simulation
next_idle_worker-Chosen_example = next_idle_worker-Chosen started 0 refl (omega arith)

reset-create_simulation_example :
    reset started
    ≡ create_simulation started.config
        (requested_capacity started.reader_channel)
        (requested_capacity started.sender_channel)
        started.attempt_outcome_source
reset-create_simulation_example = reset-create_simulation started

deterministic_retry_delay_ms-bounds_example :
    (nominal_ms 2 * 8 ≤ deterministic_retry_delay_ms 7 2 * 10)
    × (deterministic_retry_delay_ms 7 2 * 10 ≤ nominal_ms 2 * 12)
    × (deterministic_retry_delay_ms 7 2 % fixed_step_ms ≡ 0)
deterministic_retry_delay_ms-bounds_example = deterministic_retry_delay_ms-bounds 7 2

rounded_step_duration-least_example :
    (rounded_step_duration (finite (pos 45)) % fixed_step_ms ≡ 0)
    × (45 ≤ rounded_step_duration (finite (pos 45)))
    × (rounded_step_duration (finite (pos 45)) ≤ 5 * fixed_step_ms)
rounded_step_duration-least_example = rounded_step_duration-least (pos 45) 5 (omega arith)

abbrev five_attempts : List (SimulationBatch × ℕ)
five_attempts = map (λ n. (record { sequence = n; transactions = 10 }, 1)) (1 ∷ 2 ∷ 3 ∷ 4 ∷ 5 ∷ [])

outcomes-Fates_example : Fates (is_late started.config) 5 started (outcomes five_attempts started)
unfolding create_simulation
outcomes-Fates_example = outcomes-Fates five_attempts started refl (omega arith) (omega arith)

telemetry-workers_example :
    (total (telemetry true busy).sender.worker_states
        + total (telemetry true busy).sender.draining_worker_states
      ≡ (telemetry true busy).sender.workers.applied)
    × ((telemetry true busy).http.in_flight_requests
          + (telemetry true busy).http.requests_completed_total
        ≡ (telemetry true busy).http.requests_started_total)
telemetry-workers_example = telemetry-workers true busy busy-Inv

complete_due_attempts-Settled_example :
    Returns
      (λ st. All (Settled busy.elapsed_ms) st.0.workers × (st.0.elapsed_ms ≡ busy.elapsed_ms))
      (complete_due_attempts (busy, create_step_activity))
complete_due_attempts-Settled_example =
    complete_due_attempts-Settled busy create_step_activity busy-Inv

advance_step-Stepped_example : Returns (Stepped busy) (advance_step busy)
advance_step-Stepped_example = advance_step-Stepped busy busy-Inv
