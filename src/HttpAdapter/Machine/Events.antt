-- ===== src/HttpAdapter/Machine/Events.antt =====
-- What may happen to an `HttpAdapter`, in any order.
use ingestion_lab_loadgen.Loadgen.{LoadgenCommand}
use ingestion_lab_loadgen.Prelude.{List, Option, [], if◌then◌else◌, ℕ, ◌∷◌}
use ingestion_lab_loadgen.HttpAdapter.Responses.{Response}
use ingestion_lab_loadgen.HttpAdapter.Machine.{
  HttpAdapter, dispatch, dispose, poll, poll_settled, send_command, send_settled, subscribe,
  unsubscribe,
}

-- The timer fires, an answer to a poll is there, a command is dispatched, the next command's turn
-- comes, an answer to a command is there, at a time, a listener comes or goes, and the end.
pub data Event : Type 0 where
  timer_fired : Event
  poll_answered : Option Response → Event
  command_sent : LoadgenCommand → Event
  turn_came : Event
  command_answered : Option Response → ℕ → Event
  listener_added listener_removed : ℕ → Event
  closed : Event

-- The timer fires while it is set alone.
abbrev pub happen : Event → HttpAdapter → HttpAdapter
happen timer_fired a = if a.timer_set then poll a else a
happen (poll_answered response) a = poll_settled response a
happen (command_sent command) a = dispatch command a
happen turn_came a = send_command a
happen (command_answered response now) a = send_settled response now a
happen (listener_added listener) a = subscribe listener a
happen (listener_removed listener) a = unsubscribe listener a
happen closed a = dispose a

abbrev pub happen_all : List Event → HttpAdapter → HttpAdapter
happen_all [] a = a
happen_all (event ∷ events) a = happen_all events (happen event a)
