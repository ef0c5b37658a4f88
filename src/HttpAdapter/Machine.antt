-- ===== src/HttpAdapter/Machine.antt =====
-- `class HttpAdapter` (frontend/src/adapters/HttpAdapter.ts): its state and its methods. A request and
-- its answer are two events, so that anything may happen between them; an answer that does not
-- come back, an abort included, is none. The two awaits of an answer, for the response and for its
-- body, are one event, as the code only asks after each whether it is disposed. The commands of
-- `commandChannel` that no request has been made for are those that wait. Listeners are numbers, and call nothing of
-- the adapter in turn. What is sent and told is written down in the state.
pub mod Events
pub mod Steps
pub mod Polling
pub mod Progress
pub mod Fitting
pub mod Admitted
pub mod Truth
pub mod Answers
pub mod Order
pub mod Silence
pub mod Published
use Prim.Native.String.{String, ◌++◌ as append}
use ingestion_lab_loadgen.Loadgen.{
  CommandReceipt, CommandType, ConnectionState, ErrorCode, LoadgenCommand, LoadgenTelemetrySnapshot,
  command_type, connected, connecting, immediate, unavailable,
}
use ingestion_lab_loadgen.Prelude.{
  Bool, List, Option, [], false, filter, if◌then◌else◌, includes, leb, ltb, map, none, not, some,
  true, ℕ, ◌%◌, ◌&&◌, ◌++◌, ◌+◌, ◌/◌, ◌==◌, ◌||◌, ◌∷◌,
}
use ingestion_lab_loadgen.HttpAdapter.Responses.{
  Response, decode_command_error, decode_response, is_success,
}
use ingestion_lab_loadgen.HttpAdapter.View.{create_snapshot}
use ingestion_lab_loadgen.HttpAdapter.Wire.{WireSnapshot}
use ingestion_lab_loadgen.HttpAdapter.Requests.{
  SupportedCommand, can_dispatch_config_command, is_supported_command, supported_type,
}

pub record HttpAdapter : Type 0 where
  pub listeners : List ℕ
  pub snapshot : LoadgenTelemetrySnapshot
  pub timer_set : Bool
  pub active_controller : Option ℕ
  pub request_in_flight : Bool
  pub command_sequence : ℕ
  pub waiting : List (ℕ × SupportedCommand)
  pub sending : Option (ℕ × SupportedCommand)
  pub disposed : Bool
  -- How often the snapshot was asked for: the number of the last controller, too.
  pub polls : ℕ
  -- The controllers that were told to abort their request.
  pub aborts : List ℕ
  pub posts : List (ℕ × SupportedCommand)
  pub notified : List (ℕ × LoadgenTelemetrySnapshot)
  pub receipts : List CommandReceipt

unfoldable pub poll : HttpAdapter → HttpAdapter
poll a = if a.disposed || a.request_in_flight then a else record a {
  request_in_flight = true;
  active_controller = some (a.polls + 1);
  polls = a.polls + 1;
}

abbrev initial : HttpAdapter
initial = record {
  listeners = [];
  snapshot = create_snapshot 0 connecting none;
  timer_set = true;
  active_controller = none;
  request_in_flight = false;
  command_sequence = 0;
  waiting = [];
  sending = none;
  disposed = false;
  polls = 0;
  aborts = [];
  posts = [];
  notified = [];
  receipts = [];
}

-- The constructor.
unfoldable pub create_adapter : HttpAdapter
create_adapter = poll initial

pub publish : LoadgenTelemetrySnapshot → HttpAdapter → HttpAdapter
publish snapshot a = record a {
  snapshot = snapshot;
  notified = a.notified ++ map (λ l. (l, snapshot)) a.listeners;
}

-- `if (this.activeController === controller) this.activeController = null`
abbrev pub release : ℕ → Option ℕ → Option ℕ
release controller none = none
release controller (some active) = if active == controller then none else some active

abbrev pub decoded : Option Response → Option WireSnapshot
decoded none = none
decoded (some response) = decode_response response

abbrev pub snapshot_of : ℕ → Option WireSnapshot → LoadgenTelemetrySnapshot
snapshot_of revision none = create_snapshot revision ConnectionState.error none
snapshot_of revision (some wire) = create_snapshot revision connected (some wire)

-- The rest of `poll`, when the answer is there.
pub poll_settled : Option Response → HttpAdapter → HttpAdapter
poll_settled response a =
    let settled = record a {
      active_controller = release a.polls a.active_controller;
      request_in_flight = false;
    } in
    if not a.request_in_flight
    then a
    else if a.disposed
    then settled
    else publish (snapshot_of (a.snapshot.revision + 1) (decoded response)) settled

unfoldable pub subscribe : ℕ → HttpAdapter → HttpAdapter
subscribe listener a = if a.disposed then a else record a {
  listeners = if includes a.listeners listener then a.listeners else a.listeners ++ listener ∷ [];
  notified = a.notified ++ (listener, a.snapshot) ∷ [];
}

-- The first call of the function that `subscribe` returns.
pub unsubscribe : ℕ → HttpAdapter → HttpAdapter
unsubscribe listener a = record a { listeners = filter (λ l. not (l == listener)) a.listeners }

-- `activeController?.abort()`
abbrev pub abort : Option ℕ → List ℕ → List ℕ
abort none aborts = aborts
abort (some controller) aborts = aborts ++ controller ∷ []

pub dispose : HttpAdapter → HttpAdapter
dispose a = if a.disposed then a else record a {
  disposed = true;
  timer_set = false;
  aborts = abort a.active_controller a.aborts;
  listeners = [];
}

pub reject_command : ℕ → CommandType → ErrorCode → String → Bool → HttpAdapter → CommandReceipt
reject_command id type code message retryable a = record {
  command_id = id;
  command_type = type;
  accepted = false;
  apply_mode = unavailable;
  applied_at_ms = none;
  snapshot_revision = a.snapshot.revision;
  error = some (record { code = code; message = message; retryable = retryable });
}

abbrev pub unavailable_command : ℕ → CommandType → HttpAdapter → CommandReceipt
unavailable_command id type a =
    reject_command id type ErrorCode.unavailable "command is not available in the HTTP adapter"
      false a

abbrev pub disposed_command : ℕ → CommandType → HttpAdapter → CommandReceipt
disposed_command id type a =
    reject_command id type ErrorCode.disposed "http adapter is disposed" false a

-- A command's promise is settled.
abbrev pub answer : CommandReceipt → HttpAdapter → HttpAdapter
answer receipt a = record a { receipts = a.receipts ++ receipt ∷ [] }

abbrev pub enqueue : ℕ → SupportedCommand → HttpAdapter → HttpAdapter
enqueue id command a = record a { waiting = a.waiting ++ (id, command) ∷ [] }

abbrev pub dispatch_as : Option SupportedCommand → LoadgenCommand → HttpAdapter → HttpAdapter
dispatch_as none command a =
    let id = a.command_sequence + 1 in
    answer (unavailable_command id (command_type command) a) (record a { command_sequence = id })
dispatch_as (some supported) command a =
    let id = a.command_sequence + 1 in
    let numbered = record a { command_sequence = id } in
    if a.disposed
    then answer (disposed_command id (supported_type supported) a) numbered
    else if can_dispatch_config_command supported a.snapshot
    then enqueue id supported numbered
    else answer (unavailable_command id (supported_type supported) a) numbered

unfoldable pub dispatch : LoadgenCommand → HttpAdapter → HttpAdapter
dispatch command a = dispatch_as (is_supported_command command) command a

abbrev pub post : ℕ → SupportedCommand → HttpAdapter → HttpAdapter
post id command a = record a { sending = some (id, command); posts = a.posts ++ (id, command) ∷ [] }

-- The start of `sendCommand`, for the first of the commands that wait.
abbrev pub send_first : List (ℕ × SupportedCommand) → HttpAdapter → HttpAdapter
send_first [] a = a
send_first ((id, command) ∷ rest) a =
    let started = record a { waiting = rest } in
    if a.disposed
    then answer (disposed_command id (supported_type command) a) started
    else if can_dispatch_config_command command a.snapshot
    then post id command started
    else answer (unavailable_command id (supported_type command) a) started

abbrev pub send_unless : Option (ℕ × SupportedCommand) → HttpAdapter → HttpAdapter
send_unless none a = send_first a.waiting a
send_unless (some outstanding) a = a

-- The next command's turn, which comes when the one before it is answered.
pub send_command : HttpAdapter → HttpAdapter
send_command a = send_unless a.sending a

abbrev accepted_command : ℕ → CommandType → ℕ → HttpAdapter → CommandReceipt
accepted_command id type now a = record {
  command_id = id;
  command_type = type;
  accepted = true;
  apply_mode = immediate;
  applied_at_ms = some now;
  snapshot_revision = a.snapshot.revision;
  error = none;
}

abbrev digit : ℕ → String
digit n =
    if n == 0
    then "0"
    else if n == 1
    then "1"
    else if n == 2
    then "2"
    else if n == 3
    then "3"
    else if n == 4
    then "4"
    else if n == 5
    then "5"
    else if n == 6
    then "6"
    else if n == 7
    then "7"
    else if n == 8
    then "8"
    else "9"

-- A status has at most three digits, and no leading zeros are written.
abbrev status_text : ℕ → String
status_text n =
    if ltb n 10
    then digit n
    else if ltb n 100
    then append (digit (n / 10)) (digit (n % 10))
    else append (digit (n / 100)) (append (digit (n / 10 % 10)) (digit (n % 10)))

abbrev failed_command : ℕ → CommandType → ℕ → HttpAdapter → CommandReceipt
failed_command id type status a =
    reject_command id type ErrorCode.unavailable
      (append "command request failed with HTTP status " (status_text status))
      (leb 500 status && leb status 599) a

abbrev pub told : Option String → ℕ → CommandType → HttpAdapter → CommandReceipt
told none id type a = failed_command id type 422 a
told (some message) id type a = reject_command id type ErrorCode.unavailable message false a

-- What `sendCommand` makes of the answer to its request.
pub receipt_for : Option Response → ℕ → ℕ → CommandType → HttpAdapter → CommandReceipt
receipt_for none now id type a =
    reject_command id type ErrorCode.unavailable "command request failed due to a network error"
      true a
receipt_for (some response) now id type a =
    if is_success response.status
    then accepted_command id type now a
    else if response.status == 422
    then told (decode_command_error response.body) id type a
    else failed_command id type response.status a

abbrev pub settle : Option (ℕ × SupportedCommand) → Option Response → ℕ → HttpAdapter → HttpAdapter
settle none response now a = a
settle (some (id, command)) response now a =
    answer (receipt_for response now id (supported_type command) a) (record a { sending = none })

pub send_settled : Option Response → ℕ → HttpAdapter → HttpAdapter
send_settled response now a = settle a.sending response now a
