-- ===== src/SimulationAdapter/Machine/Events.antt =====
-- Any sequence of calls of the adapter keeps it sound; none of them throws.
use ingestion_lab_loadgen.Prelude.{ℕ, List, [], ◌∷◌}
use ingestion_lab_loadgen.Prelude.Results.{◌>>=◌, Result, Returns, Returns-bind, ok}
use ingestion_lab_loadgen.Loadgen.{LoadgenCommand}
use ingestion_lab_loadgen.SimulationAdapter.Machine.{
  SimulationAdapter, create_adapter, subscribe, unsubscribe, dispose, tick, dispatch,
}
use ingestion_lab_loadgen.SimulationAdapter.Machine.Soundness.{IsSound, create_adapter-IsSound}
use ingestion_lab_loadgen.SimulationAdapter.Machine.Lifecycle.{
  dispatch-IsSound, tick-IsSound, dispose-IsSound,
}

-- What happens to an adapter: a command with two readings of the clock, the timer with one, a
-- listener that comes or goes, and the end.
pub data Event : Type 0 where
  command_sent : LoadgenCommand → ℕ → ℕ → Event
  timer_fired : ℕ → Event
  listener_added listener_removed : ℕ → Event
  closed : Event

pub happen : Event → SimulationAdapter → Result SimulationAdapter
happen (command_sent command now at) a = do (a', receipt) ← dispatch command now at a; ok a'
happen (timer_fired now) a = tick now a
happen (listener_added listener) a = ok (subscribe listener a)
happen (listener_removed listener) a = ok (unsubscribe listener a)
happen closed a = ok (dispose a)

pub happen_all : List Event → SimulationAdapter → Result SimulationAdapter
unfolding happen
happen_all [] a = ok a
happen_all (event ∷ events) a = do a' ← happen event a; happen_all events a'

happen-IsSound :
    (event : Event) (a : SimulationAdapter) → IsSound a → Returns IsSound (happen event a)
unfolding happen subscribe unsubscribe
happen-IsSound (command_sent command now at) a v =
    Returns-bind (λ r. IsSound r.0) IsSound (dispatch command now at a) _
      (dispatch-IsSound command now at a v) λ r k. k
happen-IsSound (timer_fired now) a v = tick-IsSound now a v
happen-IsSound (listener_added listener) a v = record {
  inv = v.inv;
  ranges = v.ranges;
  waiting = v.waiting;
  published = v.published;
  timer = v.timer;
}
happen-IsSound (listener_removed listener) a v = record {
  inv = v.inv;
  ranges = v.ranges;
  waiting = v.waiting;
  published = v.published;
  timer = v.timer;
}
happen-IsSound closed a v = dispose-IsSound a v

happen_all-IsSound' :
    (events : List Event) (a : SimulationAdapter)
    → IsSound a
    → Returns IsSound (happen_all events a)
unfolding happen_all
happen_all-IsSound' [] a v = v
happen_all-IsSound' (event ∷ events) a v =
    Returns-bind IsSound IsSound (happen event a) _ (happen-IsSound event a v)
      λ a' k. happen_all-IsSound' events a' k

-- From its construction on, no sequence of commands, timer events, subscriptions and disposals, at
-- whatever times, makes the adapter throw: it returns a sound adapter.
pub happen_all-IsSound :
    (start : ℕ) (events : List Event) → Returns IsSound (happen_all events (create_adapter start))
happen_all-IsSound start events =
    happen_all-IsSound' events (create_adapter start) (create_adapter-IsSound start)
