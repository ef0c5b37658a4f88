-- ===== src/Simulation/Step.antt =====
-- The public methods of `FixedStepSimulation` that change its state (frontend/src/model/simulation.ts).
pub mod Sound
pub mod Controls
pub mod Restarted
use ingestion_lab_loadgen.Prelude.{
  ℕ, zero, suc, ◌+◌, ◌*◌, min, Bool, false, ◌||◌, Option, none, some, List, [], ◌∷◌, ◌++◌, ltb,
  ◌==◌, if◌then◌else◌, or_else, is_some, length, tail, generate,
}
use ingestion_lab_loadgen.Prelude.Results.{Result, ok, ◌>>=◌}
use ingestion_lab_loadgen.Simulation.Types.{
  SimulationConfig, StepActivity, ChannelActivity, create_step_activity, create_worker,
  fixed_step_ms, rate_window_steps,
}
use ingestion_lab_loadgen.Simulation.Channel.{request_capacity, observe_blocked, reset_runtime}
use ingestion_lab_loadgen.Simulation.State.{Simulation, no_latest, zero_totals}
use ingestion_lab_loadgen.Simulation.Workers.{
  finalize_sender_scale_down, request_sender_worker_count,
}
use ingestion_lab_loadgen.Simulation.Due.{
  State, complete_due_attempts, start_due_retries, refill_throttler_tokens,
}
use ingestion_lab_loadgen.Simulation.Delivery.{drain_sender_channel, flush_throttled_batch}
use ingestion_lab_loadgen.Simulation.Production.{
  AdmissionResult, ReaderProductionResult, receive_reader_channel, produce_reader_batches,
}

abbrev progressed : ChannelActivity → Bool
progressed activity = ltb 0 activity.input_batches || ltb 0 activity.handoff_batches

-- `this.activities.push(activity)`, and a shift where the window is then too long.
pub push_activity : StepActivity → List StepActivity → List StepActivity
push_activity activity activities =
    let pushed = activities ++ activity ∷ [] in
    if ltb rate_window_steps (length pushed) then tail pushed else pushed

-- The end of a step: what was blocked or limited, and the rate window.
pub close_step : Bool → AdmissionResult → ReaderProductionResult → State → Simulation
unfolding push_activity
close_step sender_blocked admission production (s, activity) = record s {
  reader_channel =
      observe_blocked s.reader_channel production.reader_channel_blocked
        (progressed activity.reader_channel);
  sender_channel =
      observe_blocked s.sender_channel sender_blocked (progressed activity.sender_channel);
  limited_ms =
      if admission.token_limited || production.token_limited
      then s.limited_ms + fixed_step_ms
      else s.limited_ms;
  activities = push_activity activity s.activities;
}

-- A step past its due attempts and retries.
pub move_batches : State → Result Simulation
move_batches (s, activity) = do
  st₁ ← drain_sender_channel (refill_throttler_tokens (finalize_sender_scale_down s), activity)
  (st₂, flush_blocked) ← flush_throttled_batch st₁
  (st₃, admission) ← receive_reader_channel st₂
  (st₄, production) ← produce_reader_batches st₃
  ok (
      close_step
        (flush_blocked || admission.sender_channel_blocked || production.sender_channel_blocked)
        admission production st₄)

pub advance_step : Simulation → Result Simulation
advance_step s = do
  st₁ ←
      complete_due_attempts
        (record s { elapsed_ms = s.elapsed_ms + fixed_step_ms }, create_step_activity)
  st₂ ← start_due_retries st₁
  move_batches st₂

pub advance_steps : ℕ → Simulation → Result Simulation
advance_steps zero s = ok s
advance_steps (suc n) s = do s' ← advance_step s; advance_steps n s'

-- `Partial<SimulationConfig>`
pub record PartialConfig : Type 0 where
  pub reader_workers : Option ℕ
  pub sender_workers : Option ℕ
  pub requested_tps : Option ℕ
  pub throttler_installed : Option Bool
  pub read_batch_size : Option ℕ
  pub http_timeout_ms : Option ℕ
  pub target_delay_ms : Option ℕ
  pub target_error_rate_percent : Option ℕ

-- `Object.assign(this.config, values)`
abbrev pub assign_config : SimulationConfig → PartialConfig → SimulationConfig
assign_config config values = record {
  reader_workers = or_else values.reader_workers config.reader_workers;
  sender_workers = or_else values.sender_workers config.sender_workers;
  requested_tps = or_else values.requested_tps config.requested_tps;
  throttler_installed = or_else values.throttler_installed config.throttler_installed;
  read_batch_size = or_else values.read_batch_size config.read_batch_size;
  http_timeout_ms = or_else values.http_timeout_ms config.http_timeout_ms;
  target_delay_ms = or_else values.target_delay_ms config.target_delay_ms;
  target_error_rate_percent =
      or_else values.target_error_rate_percent config.target_error_rate_percent;
}

abbrev is_zero : Option ℕ → Bool
is_zero none = false
is_zero (some n) = n == 0

abbrev scale_sender : Option ℕ → Simulation → Simulation
scale_sender none s = s
scale_sender (some requested) s = request_sender_worker_count requested s

pub update_config : PartialConfig → Simulation → Simulation
update_config values s =
    let scaled =
      scale_sender values.sender_workers (record s { config = assign_config s.config values }) in
    record scaled {
      throttler_tokens =
          if is_zero values.requested_tps || is_some values.throttler_installed
          then 0
          else scaled.throttler_tokens;
      reader_transaction_credit =
          min scaled.reader_transaction_credit
            (scaled.config.reader_workers * scaled.config.read_batch_size);
    }

pub data ChannelNumber : Type 0 where
  reader sender : ChannelNumber

pub request_channel_capacity : ChannelNumber → ℕ → Simulation → Simulation × Bool
request_channel_capacity reader capacity s =
    let (c, changed) = request_capacity s.reader_channel capacity in
    (record s { reader_channel = c }, changed)
request_channel_capacity sender capacity s =
    let (c, changed) = request_capacity s.sender_channel capacity in
    (record s { sender_channel = c }, changed)

pub clear_instantaneous_telemetry : Simulation → Simulation
clear_instantaneous_telemetry s = record s { activities = [] }

pub reset : Simulation → Simulation
reset s = record s {
  reader_channel = reset_runtime s.reader_channel;
  sender_channel = reset_runtime s.sender_channel;
  activities = [];
  workers = generate create_worker 0 s.config.sender_workers;
  next_worker_index = some 0;
  reader_transaction_credit = 0;
  throttler_tokens = 0;
  pending_throttled_batch = none;
  next_batch_sequence = 0;
  failure_credit = 0;
  latest = no_latest;
  totals = zero_totals;
  elapsed_ms = 0;
  limited_ms = 0;
}
