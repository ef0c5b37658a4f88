-- ===== src/SimulationAdapter/Machine/Effects.antt =====
-- Which commands are refused, and what the others leave to the publication.
use Prim.Native.String.{String}
use ingestion_lab_loadgen.Prelude.{
  both_branches, ℕ, ◌≡◌, refl, true, false, not, Bool, none, some, Bool-cases, inl, inr, ◌==◌,
}
use ingestion_lab_loadgen.Prelude.Results.{◌>>=◌, Result, Returns, Returns-bind, Returns-mono}
use ingestion_lab_loadgen.Simulation.State.{Simulation}
use ingestion_lab_loadgen.Simulation.Step.{ChannelNumber}
use ingestion_lab_loadgen.Loadgen.{
  RunState, running, paused, NumberValue, fraction, not_finite, LoadgenCommand, set_requested_tps,
  set_throttler_installed, set_worker_count, set_sender_workers, set_reader_channel_capacity,
  set_sender_channel_capacity, set_read_batch_size, set_http_timeout, other_command,
}
use ingestion_lab_loadgen.SimulationAdapter.Ranges.{NumericRange}
use ingestion_lab_loadgen.SimulationAdapter.Snapshot.{is_running, is_paused}
use ingestion_lab_loadgen.SimulationAdapter.Machine.{
  same_Bool, SimulationAdapter, advance_to_now, ConfigKey, requested_tps, reader_workers,
  sender_workers, read_batch_size, http_timeout_ms, config_value, set_config, update_installed,
  set_capacity, reset_run_state, Effect, done, refused, done_with, set_number, resize_channel, run,
  pause, perform,
}
use ingestion_lab_loadgen.SimulationAdapter.Machine.Clock.{Advanced, advance_to_now-Advanced}
use ingestion_lab_loadgen.SimulationAdapter.Machine.Soundness.{IsSound}
use ingestion_lab_loadgen.SimulationAdapter.Machine.{same_Bool}
use ingestion_lab_loadgen.Prelude.{is_some}

-- The commands that are refused, and when.
abbrev pub is_finite : NumberValue → Bool
is_finite not_finite = false
is_finite (fraction z n) = true

abbrev pub refuses : LoadgenCommand → RunState → Bool
refuses LoadgenCommand.run state = false
refuses LoadgenCommand.pause state = false
refuses LoadgenCommand.reset state = is_running state
refuses (set_requested_tps value) state = not (is_finite value)
refuses (set_throttler_installed value) state = not (is_some value)
refuses (set_worker_count value) state = not (is_finite value)
refuses (set_sender_workers value) state = not (is_finite value)
refuses (set_reader_channel_capacity value) state = not (is_finite value)
refuses (set_sender_channel_capacity value) state = not (is_finite value)
refuses (set_read_batch_size value) state = not (is_finite value)
refuses (set_http_timeout value) state = not (is_finite value)
refuses other_command state = true

-- What only a publication, or a new subscription, changes.
pub record SamePublic (a a' : SimulationAdapter) : Type 0 where
  pub listeners : a'.listeners ≡ a.listeners
  pub revision : a'.revision ≡ a.revision
  pub snapshot : a'.snapshot ≡ a.snapshot
  pub notified : a'.notified ≡ a.notified
  pub command_sequence : a'.command_sequence ≡ a.command_sequence

quiet :
    (now : ℕ) (a : SimulationAdapter)
    → IsSound a
    → Returns (λ r. SamePublic a r.0) (advance_to_now now a)
quiet now a v =
    Returns-mono (λ r. Advanced now a r.0) (λ r. SamePublic a r.0) (advance_to_now now a)
      (advance_to_now-Advanced now a v.inv v.waiting)
      λ r k. record {
        listeners = k.4.listeners;
        revision = k.4.revision;
        snapshot = k.4.snapshot;
        notified = k.4.notified;
        command_sequence = k.4.command_sequence;
      }

-- A change of the simulation or of the run state that follows a reading is not public.
quietly :
    {B : Type 0} (P : B → Type 0) (now : ℕ) (a : SimulationAdapter)
    (f : SimulationAdapter × Bool → Result B)
    → IsSound a
    → ((r : SimulationAdapter × Bool) → SamePublic a r.0 → Returns P (f r))
    → Returns P (advance_to_now now a >>= f)
quietly P now a f v k =
    Returns-bind (λ r. SamePublic a r.0) P (advance_to_now now a) f (quiet now a v) k

changed_inside :
    (a a' : SimulationAdapter) (s : Simulation) (state : RunState)
    → SamePublic a a'
    → SamePublic a (record a' { simulation = s; run_state = state })
changed_inside a a' s state q = record {
  listeners = q.listeners;
  revision = q.revision;
  snapshot = q.snapshot;
  notified = q.notified;
  command_sequence = q.command_sequence;
}

-- Whether an effect is a refusal, as `refusing` says, and what it leaves otherwise.
abbrev pub Effected : Bool → SimulationAdapter → Effect → Type 0
Effected refusing a (done a' changed) = (refusing ≡ false) × SamePublic a a'
Effected refusing a (refused error) = refusing ≡ true

done_with-Effected :
    (a : SimulationAdapter) (r : Result (SimulationAdapter × Bool))
    → Returns (λ q. SamePublic a q.0) r
    → Returns (Effected false a) (done_with r)
done_with-Effected a r h =
    Returns-bind (λ q. SamePublic a q.0) (Effected false a) r _ h λ q k. (refl, k)

set_config-quiet :
    (key : ConfigKey) (value now : ℕ) (a : SimulationAdapter)
    → IsSound a
    → Returns (λ r. SamePublic a r.0) (set_config key value now a)
unfolding set_config
set_config-quiet key value now a v =
    quietly (λ r. SamePublic a r.0) now a _ v
      λ r k.
        both_branches (λ (q : SimulationAdapter × Bool). SamePublic a q.0)
          (config_value key r.0.simulation.config == value) _ _ k
          (changed_inside a r.0 _ r.0.run_state k)

update_installed-quiet :
    (value : Bool) (now : ℕ) (a : SimulationAdapter)
    → IsSound a
    → Returns (λ r. SamePublic a r.0) (update_installed value now a)
unfolding update_installed
update_installed-quiet value now a v =
    quietly (λ r. SamePublic a r.0) now a _ v
      λ r k.
        both_branches (λ (q : SimulationAdapter × Bool). SamePublic a q.0)
          (same_Bool r.0.simulation.config.throttler_installed value) _ _ k
          (changed_inside a r.0 _ r.0.run_state k)

set_capacity-quiet :
    (channel : ChannelNumber) (capacity now : ℕ) (a : SimulationAdapter)
    → IsSound a
    → Returns (λ r. SamePublic a r.0) (set_capacity channel capacity now a)
unfolding set_capacity
set_capacity-quiet channel capacity now a v =
    quietly (λ r. SamePublic a r.0) now a _ v λ r k. changed_inside a r.0 _ r.0.run_state k

set_number-Effected :
    (key : ConfigKey) (message : String) (value : NumberValue) (now : ℕ) (a : SimulationAdapter)
    → IsSound a
    → Returns (Effected (not (is_finite value)) a) (set_number key message value now a)
set_number-Effected key message not_finite now a v = refl
set_number-Effected key message (fraction z n) now a v =
    done_with-Effected a _ (set_config-quiet key _ now a v)

resize_channel-Effected :
    (channel : ChannelNumber) (range : NumericRange) (value : NumberValue) (now : ℕ)
    (a : SimulationAdapter)
    → IsSound a
    → Returns (Effected (not (is_finite value)) a) (resize_channel channel range value now a)
resize_channel-Effected channel range not_finite now a v = refl
resize_channel-Effected channel range (fraction z n) now a v =
    done_with-Effected a _ (set_capacity-quiet channel _ now a v)

inside :
    (a : SimulationAdapter) (s : Simulation) (state : RunState) (last waiting : ℕ)
    → SamePublic a (record a {
      simulation = s;
      run_state = state;
      last_tick_ms = last;
      pending_step_ms = waiting;
    })
inside a s state last waiting = record {
  listeners = refl;
  revision = refl;
  snapshot = refl;
  notified = refl;
  command_sequence = refl;
}

reset-Effected :
    (now : ℕ) (a : SimulationAdapter)
    → Returns (Effected (is_running a.run_state) a) (perform LoadgenCommand.reset now a)
unfolding perform reset_run_state
reset-Effected now a = elim (Bool-cases (is_running a.run_state)) [
  | inl e ↦ rw (e) refl
  | inr e ↦ rw (e) (refl, inside a _ _ now 0)
]

pub perform-Effected :
    (command : LoadgenCommand) (now : ℕ) (a : SimulationAdapter)
    → IsSound a
    → Returns (Effected (refuses command a.run_state) a) (perform command now a)
unfolding perform run pause
perform-Effected LoadgenCommand.run now a v =
    both_branches (Returns (Effected false a)) (is_running a.run_state) _ _
      (done_with-Effected a _ (quiet now a v)) (refl, inside a _ running now a.pending_step_ms)
perform-Effected LoadgenCommand.pause now a v = quietly (Effected false a) now a _ v λ r k.
    both_branches (Effected false a) (is_paused r.0.run_state) (done r.0 r.1)
      (done (record r.0 { run_state = paused }) true) (refl, k)
      (refl, changed_inside a r.0 r.0.simulation paused k)
perform-Effected LoadgenCommand.reset now a v = reset-Effected now a
perform-Effected (set_requested_tps value) now a v =
    set_number-Effected requested_tps _ value now a v
perform-Effected (set_throttler_installed none) now a v = refl
perform-Effected (set_throttler_installed (some value)) now a v =
    done_with-Effected a _ (update_installed-quiet value now a v)
perform-Effected (set_worker_count value) now a v =
    set_number-Effected reader_workers _ value now a v
perform-Effected (set_sender_workers value) now a v =
    set_number-Effected sender_workers _ value now a v
perform-Effected (set_reader_channel_capacity value) now a v =
    resize_channel-Effected ChannelNumber.reader _ value now a v
perform-Effected (set_sender_channel_capacity value) now a v =
    resize_channel-Effected ChannelNumber.sender _ value now a v
perform-Effected (set_read_batch_size value) now a v =
    set_number-Effected read_batch_size _ value now a v
perform-Effected (set_http_timeout value) now a v =
    set_number-Effected http_timeout_ms _ value now a v
perform-Effected other_command now a v = refl
