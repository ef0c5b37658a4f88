-- ===== src/HttpAdapter/Machine/Steps.antt =====
-- The transitions of an `HttpAdapter`, and that every event is one.
use Prim.Native.String.{String}
use ingestion_lab_loadgen.Loadgen.{CommandReceipt, CommandType, LoadgenCommand}
use ingestion_lab_loadgen.Prelude.{
  Bool, List, Option, [], arith, both_branches, false, if◌then◌else◌, none, not, refl, some, true,
  ℕ, ◌++◌, ◌+◌, ◌==◌, ◌||◌, ◌∷◌, ◌≡◌,
}
use ingestion_lab_loadgen.HttpAdapter.Json.Laws.{Yields, Yields-none}
use ingestion_lab_loadgen.HttpAdapter.Machine.Events.{
  Event, closed, command_answered, command_sent, happen, happen_all, listener_added,
  listener_removed, poll_answered, timer_fired, turn_came,
}
use ingestion_lab_loadgen.HttpAdapter.Responses.Success.{decode_response-Yields}
use ingestion_lab_loadgen.HttpAdapter.Valid.{IsSnapshot}
use ingestion_lab_loadgen.HttpAdapter.Responses.{Response, decode_command_error, is_success}
use ingestion_lab_loadgen.HttpAdapter.Machine.{
  HttpAdapter, abort, answer, decoded, dispatch, dispose, enqueue, poll, poll_settled, post,
  publish, receipt_for, reject_command, release, send_command, send_first, send_settled,
  send_unless, settle, snapshot_of, subscribe, told, unsubscribe, dispatch_as,
}
use ingestion_lab_loadgen.HttpAdapter.Wire.{WireSnapshot}
use ingestion_lab_loadgen.HttpAdapter.Requests.{
  SupportedCommand, can_dispatch_config_command, is_supported_command, supported_type,
}

abbrev pub settled : HttpAdapter → HttpAdapter
settled a = record a {
  active_controller = release a.polls a.active_controller;
  request_in_flight = false;
}

abbrev pub numbered : HttpAdapter → HttpAdapter
numbered a = record a { command_sequence = a.command_sequence + 1 }

abbrev pub polling : HttpAdapter → HttpAdapter
polling a = record a {
  request_in_flight = true;
  active_controller = some (a.polls + 1);
  polls = a.polls + 1;
}

-- A refusal of the command of this number.
abbrev pub Refuses : ℕ → CommandReceipt → Type 0
Refuses id receipt = (receipt.command_id ≡ id) × (receipt.accepted ≡ false)

pub data Step : HttpAdapter → HttpAdapter → Type 0 where
  stay : (a : HttpAdapter) → Step a a
  polled : (a : HttpAdapter) → a.disposed ≡ false → a.request_in_flight ≡ false → Step a (polling a)
  released : (a : HttpAdapter) → a.disposed ≡ true → Step a (settled a)
  published :
      (a : HttpAdapter) (wire : Option WireSnapshot)
      → a.disposed ≡ false
      → Yields IsSnapshot wire
      → Step a (publish (snapshot_of (a.snapshot.revision + 1) wire) (settled a))
  subscribed :
      (a : HttpAdapter) (listener : ℕ) (listeners : List ℕ)
      → a.disposed ≡ false
      → Step a
          (record a { listeners = listeners; notified = a.notified ++ (listener, a.snapshot) ∷ [] })
  unsubscribed : (a : HttpAdapter) (listener : ℕ) → Step a (unsubscribe listener a)
  ended :
      (a : HttpAdapter)
      → a.disposed ≡ false
      → Step a (record a {
        disposed = true;
        timer_set = false;
        aborts = abort a.active_controller a.aborts;
        listeners = [];
      })
  refused :
      (a : HttpAdapter) (receipt : CommandReceipt)
      → Refuses (a.command_sequence + 1) receipt
      → Step a (answer receipt (numbered a))
  queued :
      (a : HttpAdapter) (command : SupportedCommand)
      → a.disposed ≡ false
      → Step a (enqueue (a.command_sequence + 1) command (numbered a))
  turned_down :
      (a : HttpAdapter) (id : ℕ) (command : SupportedCommand) (rest : List (ℕ × SupportedCommand))
      (receipt : CommandReceipt)
      → a.sending ≡ none
      → a.waiting ≡ (id, command) ∷ rest
      → Refuses id receipt
      → Step a (answer receipt (record a { waiting = rest }))
  posted :
      (a : HttpAdapter) (id : ℕ) (command : SupportedCommand) (rest : List (ℕ × SupportedCommand))
      → a.sending ≡ none
      → a.waiting ≡ (id, command) ∷ rest
      → a.disposed ≡ false
      → can_dispatch_config_command command a.snapshot ≡ true
      → Step a (post id command (record a { waiting = rest }))
  answered :
      (a : HttpAdapter) (id : ℕ) (command : SupportedCommand) (receipt : CommandReceipt)
      → a.sending ≡ some (id, command)
      → receipt.command_id ≡ id
      → Step a (answer receipt (record a { sending = none }))

-- A conditional is a step, if each branch is one where its test comes out so.
test_Step :
    (a : HttpAdapter) (test : Bool) {x y : HttpAdapter}
    → ((test ≡ true) → Step a x)
    → ((test ≡ false) → Step a y)
    → Step a (if test then x else y)
test_Step a true h k = h refl
test_Step a false h k = k refl

poll-Step : (a : HttpAdapter) → Step a (poll a)
unfolding poll
poll-Step a =
    test_Step a (a.disposed || a.request_in_flight) (λ e. stay a)
      (λ e. polled a (ground arith) (ground arith))

decoded-Yields : (response : Option Response) → Yields IsSnapshot (decoded response)
decoded-Yields none = Yields-none IsSnapshot
decoded-Yields (some response) = decode_response-Yields response

poll_settled-Step :
    (response : Option Response) (a : HttpAdapter) → Step a (poll_settled response a)
unfolding poll_settled
poll_settled-Step response a =
    test_Step a (not a.request_in_flight) (λ e. stay a)
      (λ e.
        test_Step a a.disposed (λ d. released a d)
          (λ d. published a (decoded response) d (decoded-Yields response)))

subscribe-Step : (listener : ℕ) (a : HttpAdapter) → Step a (subscribe listener a)
unfolding subscribe
subscribe-Step listener a = test_Step a a.disposed (λ d. stay a) (λ d. subscribed a listener _ d)

dispose-Step : (a : HttpAdapter) → Step a (dispose a)
unfolding dispose
dispose-Step a = test_Step a a.disposed (λ d. stay a) (λ d. ended a d)

dispatch_as-Step :
    (command : LoadgenCommand) (a : HttpAdapter) (o : Option SupportedCommand)
    → Step a (dispatch_as o command a)
unfolding reject_command
dispatch_as-Step command a none = refused a _ (refl, refl)
dispatch_as-Step command a (some supported) =
    test_Step a a.disposed (λ d. refused a _ (refl, refl))
      (λ d.
        test_Step a (can_dispatch_config_command supported a.snapshot) (λ e. queued a supported d)
          (λ e. refused a _ (refl, refl)))

dispatch-Step : (command : LoadgenCommand) (a : HttpAdapter) → Step a (dispatch command a)
unfolding dispatch
dispatch-Step command a = dispatch_as-Step command a (is_supported_command command)

send_first-Step :
    (a : HttpAdapter) (queue : List (ℕ × SupportedCommand))
    → a.sending ≡ none
    → a.waiting ≡ queue
    → Step a (send_first queue a)
unfolding reject_command
send_first-Step a [] s w = stay a
send_first-Step a ((id, command) ∷ rest) s w =
    test_Step a a.disposed (λ d. turned_down a id command rest _ s w (refl, refl))
      (λ d.
        test_Step a (can_dispatch_config_command command a.snapshot)
          (λ e. posted a id command rest s w d e)
          (λ e. turned_down a id command rest _ s w (refl, refl)))

send_unless-Step :
    (a : HttpAdapter) (outstanding : Option (ℕ × SupportedCommand))
    → a.sending ≡ outstanding
    → Step a (send_unless outstanding a)
send_unless-Step a none s = send_first-Step a a.waiting s refl
send_unless-Step a (some entry) s = stay a

send_command-Step : (a : HttpAdapter) → Step a (send_command a)
unfolding send_command
send_command-Step a = send_unless-Step a a.sending refl

told-id :
    (message : Option String) (id : ℕ) (type : CommandType) (a : HttpAdapter)
    → (told message id type a).command_id ≡ id
unfolding reject_command
told-id none id type a = refl
told-id (some message) id type a = refl

pub receipt_for-id :
    (response : Option Response) (now id : ℕ) (type : CommandType) (a : HttpAdapter)
    → (receipt_for response now id type a).command_id ≡ id
unfolding receipt_for reject_command
receipt_for-id none now id type a = refl
receipt_for-id (some response) now id type a =
    both_branches (λ (r : CommandReceipt). r.command_id ≡ id) (is_success response.status) _ _ refl
      (both_branches (λ (r : CommandReceipt). r.command_id ≡ id) (response.status == 422) _ _
        (told-id (decode_command_error response.body) id type a) refl)

settle-Step :
    (response : Option Response) (now : ℕ) (a : HttpAdapter)
    (outstanding : Option (ℕ × SupportedCommand))
    → a.sending ≡ outstanding
    → Step a (settle outstanding response now a)
settle-Step response now a none s = stay a
settle-Step response now a (some (id, command)) s =
    answered a id command _ s (receipt_for-id response now id (supported_type command) a)

send_settled-Step :
    (response : Option Response) (now : ℕ) (a : HttpAdapter) → Step a (send_settled response now a)
unfolding send_settled
send_settled-Step response now a = settle-Step response now a a.sending refl

-- Every event is a transition.
pub happen-Step : (event : Event) (a : HttpAdapter) → Step a (happen event a)
happen-Step timer_fired a = test_Step a a.timer_set (λ t. poll-Step a) (λ t. stay a)
happen-Step (poll_answered response) a = poll_settled-Step response a
happen-Step (command_sent command) a = dispatch-Step command a
happen-Step turn_came a = send_command-Step a
happen-Step (command_answered response now) a = send_settled-Step response now a
happen-Step (listener_added listener) a = subscribe-Step listener a
happen-Step (listener_removed listener) a = unsubscribed a listener
happen-Step closed a = dispose-Step a

-- What every transition keeps, every sequence of events keeps.
pub happen_all-keeps {ℓ} :
    (P : HttpAdapter → Type ℓ)
    → ((a b : HttpAdapter) → Step a b → P a → P b)
    → (events : List Event) (a : HttpAdapter) → P a
    → P (happen_all events a)
happen_all-keeps P keep [] a h = h
happen_all-keeps P keep (event ∷ events) a h =
    happen_all-keeps P keep events (happen event a)
      (keep a (happen event a) (happen-Step event a) h)
