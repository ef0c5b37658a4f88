-- ===== src/HttpAdapter/Machine/Admitted.antt =====
-- What the adapter asks of the service: nothing that its present snapshot does not admit.
use ingestion_lab_loadgen.Prelude.{
  Option, [], and_elim, ap, false, head?, inl, inr, is_some, none, not, refl, some, true, ℕ, ◌&&◌,
  ◌++◌, ◌||◌, ◌∷◌, ◌≡◌, ◌⊎◌,
}
use ingestion_lab_loadgen.HttpAdapter.Valid.{Holds}
use ingestion_lab_loadgen.HttpAdapter.Machine.{HttpAdapter, publish, unsubscribe}
use ingestion_lab_loadgen.HttpAdapter.Requests.{
  SupportedCommand, can_change, can_dispatch_config_command, needs_idle,
}
use ingestion_lab_loadgen.HttpAdapter.Machine.Steps.{
  answered, queued, Step, happen-Step, polled, released, stay,
}
use ingestion_lab_loadgen.HttpAdapter.View.Controls.{is_connected, is_idle}
use ingestion_lab_loadgen.HttpAdapter.Machine.Events.{Event, happen}
use ingestion_lab_loadgen.Loadgen.{
  ConnectionState, LoadgenConfigSnapshot, LoadgenTelemetrySnapshot, RunState, connected, connecting,
  disconnected, faulted, idle, paused, running,
}
use ingestion_lab_loadgen.HttpAdapter.Machine.Steps.{published}
use ingestion_lab_loadgen.HttpAdapter.Requests.{set_reader_channel_capacity}
use ingestion_lab_loadgen.HttpAdapter.Requests.{set_requested_tps}
use ingestion_lab_loadgen.HttpAdapter.Machine.Steps.{subscribed}
use ingestion_lab_loadgen.HttpAdapter.Requests.{set_sender_channel_capacity}
use ingestion_lab_loadgen.HttpAdapter.Requests.{set_throttler_installed}
use ingestion_lab_loadgen.HttpAdapter.Machine.Steps.{unsubscribed}
use ingestion_lab_loadgen.HttpAdapter.Requests.{set_read_batch_size}
use ingestion_lab_loadgen.HttpAdapter.Requests.{set_worker_count}
use ingestion_lab_loadgen.HttpAdapter.Machine.Steps.{ended}
use ingestion_lab_loadgen.HttpAdapter.Requests.{set_sender_workers}
use ingestion_lab_loadgen.HttpAdapter.Machine.Steps.{refused}
use ingestion_lab_loadgen.HttpAdapter.Machine.Steps.{queued}
use ingestion_lab_loadgen.HttpAdapter.Requests.{admitted, is_connecting, is_error}
use ingestion_lab_loadgen.HttpAdapter.Machine.Steps.{turned_down}
use ingestion_lab_loadgen.HttpAdapter.Machine.Steps.{posted}
use ingestion_lab_loadgen.HttpAdapter.Machine.Fitting.{Fits, config_admits-Fits}

-- `run` and `pause` may be sent without an error, before the first response or with a configuration.
abbrev pub MayStart : ConnectionState → Option LoadgenConfigSnapshot → Type 0
MayStart ConnectionState.error config = ⊥
MayStart connecting config = Unit
MayStart connected config = Holds (λ c. Unit) config
MayStart disconnected config = Holds (λ c. Unit) config

-- Capacities and the batch size are changed while idle alone.
abbrev pub RunAdmits : SupportedCommand → RunState → Type 0
RunAdmits (set_reader_channel_capacity v) state = state ≡ idle
RunAdmits (set_sender_channel_capacity v) state = state ≡ idle
RunAdmits (set_read_batch_size v) state = state ≡ idle
RunAdmits command state = Unit

-- A command with a value fits the snapshot's configuration, while connected.
abbrev pub FitsSnapshot : SupportedCommand → LoadgenTelemetrySnapshot → Type 0
FitsSnapshot command s =
    (s.connection_state ≡ connected) × RunAdmits command s.run_state × Holds (Fits command) s.config

abbrev pub IsAdmissible : SupportedCommand → LoadgenTelemetrySnapshot → Type 0
IsAdmissible SupportedCommand.run s = MayStart s.connection_state s.config
IsAdmissible SupportedCommand.pause s = MayStart s.connection_state s.config
IsAdmissible SupportedCommand.reset s = Unit
IsAdmissible command s = FitsSnapshot command s

admitted-Holds :
    (command : SupportedCommand) (o : Option LoadgenConfigSnapshot)
    → admitted command o ≡ true
    → Holds (Fits command) o
admitted-Holds command none h = cc
admitted-Holds command (some config) h = config_admits-Fits command config h

connected_if : (link : ConnectionState) → is_connected link ≡ true → link ≡ connected
connected_if connected h = refl
connected_if connecting h = cc
connected_if disconnected h = cc
connected_if ConnectionState.error h = cc

idle_if : (state : RunState) → is_idle state ≡ true → state ≡ idle
idle_if idle h = refl
idle_if running h = cc
idle_if paused h = cc
idle_if faulted h = cc

run_admits :
    (command : SupportedCommand) (state : RunState)
    → (not (needs_idle command) || is_idle state) ≡ true
    → RunAdmits command state
run_admits SupportedCommand.run state h = tt
run_admits SupportedCommand.pause state h = tt
run_admits SupportedCommand.reset state h = tt
run_admits (set_requested_tps v) state h = tt
run_admits (set_throttler_installed v) state h = tt
run_admits (set_worker_count v) state h = tt
run_admits (set_sender_workers v) state h = tt
run_admits (set_reader_channel_capacity v) state h = idle_if state h
run_admits (set_sender_channel_capacity v) state h = idle_if state h
run_admits (set_read_batch_size v) state h = idle_if state h

can_change-FitsSnapshot :
    (command : SupportedCommand) (s : LoadgenTelemetrySnapshot)
    → can_change command s ≡ true
    → FitsSnapshot command s
can_change-FitsSnapshot command s h =
    let outer =
      and_elim
        (is_connected s.connection_state && (not (needs_idle command) || is_idle s.run_state))
        (admitted command s.config) h in
    let inner =
      and_elim (is_connected s.connection_state) (not (needs_idle command) || is_idle s.run_state)
        outer.0 in
    (
      connected_if s.connection_state inner.0,
      run_admits command s.run_state inner.1,
      admitted-Holds command s.config outer.1,
    )

may_start :
    (link : ConnectionState) (config : Option LoadgenConfigSnapshot)
    → (not (is_error link) && (is_connecting link || is_some config)) ≡ true
    → MayStart link config
may_start ConnectionState.error config h = cc
may_start connecting config h = tt
may_start connected none h = cc
may_start connected (some c) h = tt
may_start disconnected none h = cc
may_start disconnected (some c) h = tt

can_dispatch-IsAdmissible :
    (command : SupportedCommand) (s : LoadgenTelemetrySnapshot)
    → can_dispatch_config_command command s ≡ true
    → IsAdmissible command s
can_dispatch-IsAdmissible SupportedCommand.run s h = may_start s.connection_state s.config h
can_dispatch-IsAdmissible SupportedCommand.pause s h = may_start s.connection_state s.config h
can_dispatch-IsAdmissible SupportedCommand.reset s h = tt
can_dispatch-IsAdmissible (set_requested_tps v) s h =
    can_change-FitsSnapshot (set_requested_tps v) s h
can_dispatch-IsAdmissible (set_throttler_installed v) s h =
    can_change-FitsSnapshot (set_throttler_installed v) s h
can_dispatch-IsAdmissible (set_worker_count v) s h =
    can_change-FitsSnapshot (set_worker_count v) s h
can_dispatch-IsAdmissible (set_sender_workers v) s h =
    can_change-FitsSnapshot (set_sender_workers v) s h
can_dispatch-IsAdmissible (set_reader_channel_capacity v) s h =
    can_change-FitsSnapshot (set_reader_channel_capacity v) s h
can_dispatch-IsAdmissible (set_sender_channel_capacity v) s h =
    can_change-FitsSnapshot (set_sender_channel_capacity v) s h
can_dispatch-IsAdmissible (set_read_batch_size v) s h =
    can_change-FitsSnapshot (set_read_batch_size v) s h

-- Between two states no request for a command is made, or one, for the command that waits first; then
-- the adapter is not disposed, and the command is admissible by the snapshot there is.
abbrev pub AsksAdmissibly : HttpAdapter → HttpAdapter → Type 0
AsksAdmissibly a b =
    (b.posts ≡ a.posts)
    ⊎ ((id : ℕ) × (command : SupportedCommand) × (b.posts ≡ a.posts ++ (id, command) ∷ [])
        × (head? a.waiting ≡ some (id, command))
        × (a.disposed ≡ false)
        × IsAdmissible command a.snapshot)

Step-AsksAdmissibly : (a b : HttpAdapter) → Step a b → AsksAdmissibly a b
unfolding unsubscribe publish
Step-AsksAdmissibly a _ (stay _) = inl refl
Step-AsksAdmissibly a _ (polled _ d f) = inl refl
Step-AsksAdmissibly a _ (released _ d) = inl refl
Step-AsksAdmissibly a _ (published _ wire d v) = inl refl
Step-AsksAdmissibly a _ (subscribed _ listener listeners d) = inl refl
Step-AsksAdmissibly a _ (unsubscribed _ listener) = inl refl
Step-AsksAdmissibly a _ (ended _ d) = inl refl
Step-AsksAdmissibly a _ (refused _ r e) = inl refl
Step-AsksAdmissibly a _ (queued _ c d) = inl refl
Step-AsksAdmissibly a _ (turned_down _ id c rest r s w e) = inl refl
Step-AsksAdmissibly a _ (posted _ id c rest s w d e) =
    inr (id, c, refl, ap head? w, d, can_dispatch-IsAdmissible c a.snapshot e)
Step-AsksAdmissibly a _ (answered _ id c r s e) = inl refl

-- Whatever event happens to whatever adapter, either no request for a command is made, or one, for the
-- command that waits first. Then the adapter is not disposed, and the snapshot it has at that moment
-- admits the command: a value is sent while connected alone, and is a whole number in the range of the
-- snapshot's configuration and on its grid, one of its allowed capacities, or one of its allowed
-- Booleans; a capacity or the batch size is changed while idle alone; `run` and `pause` are sent while
-- waiting for the first response, or with a configuration and not in error.
pub happen-AsksAdmissibly : (event : Event) (a : HttpAdapter) → AsksAdmissibly a (happen event a)
happen-AsksAdmissibly event a = Step-AsksAdmissibly a (happen event a) (happen-Step event a)
