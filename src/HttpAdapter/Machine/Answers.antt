-- ===== src/HttpAdapter/Machine/Answers.antt =====
-- Every command that is dispatched is answered exactly once, or waits still.
use ingestion_lab_loadgen.Loadgen.{CommandReceipt}
use ingestion_lab_loadgen.Prelude.{
  List, Option, [], ap, arith, if◌then◌else◌, leb, ltb, none, some, sum_by, sum_by-append, ℕ, ◌&&◌,
  ◌++◌, ◌+◌, ◌==◌, ◌∷◌, ◌≡◌,
}
use ingestion_lab_loadgen.HttpAdapter.Machine.Events.{Event, happen_all}
use ingestion_lab_loadgen.HttpAdapter.Machine.{
  HttpAdapter, answer, create_adapter, poll, publish, unsubscribe,
}
use ingestion_lab_loadgen.HttpAdapter.Requests.{SupportedCommand}
use ingestion_lab_loadgen.HttpAdapter.Machine.Steps.{
  Step, happen_all-keeps, numbered, released, stay, polled, published, subscribed, unsubscribed,
  ended, refused, queued, turned_down, posted, answered,
}

-- One, if the numbers are the same.
abbrev pub hit : ℕ → ℕ → ℕ
hit k n = if n == k then 1 else 0

-- How many receipts the command of number `k` has, and how often it waits or is being sent.
abbrev pub answers : ℕ → HttpAdapter → ℕ
answers k a = sum_by (λ (r : CommandReceipt). hit k r.command_id) a.receipts

abbrev pub in_queue : ℕ → List (ℕ × SupportedCommand) → ℕ
in_queue k queue = sum_by (λ (e : ℕ × SupportedCommand). hit k e.0) queue

abbrev pub on_the_way : ℕ → Option (ℕ × SupportedCommand) → ℕ
on_the_way k none = 0
on_the_way k (some e) = hit k e.0

abbrev pub pending : ℕ → HttpAdapter → ℕ
pending k a = in_queue k a.waiting + on_the_way k a.sending

-- One for the numbers that were given out, which start from 1.
abbrev pub due : ℕ → HttpAdapter → ℕ
due k a = if ltb 0 k && leb k a.command_sequence then 1 else 0

abbrev pub Accounted : ℕ → HttpAdapter → Type 0
Accounted k a = answers k a + pending k a ≡ due k a

due-numbered :
    (k : ℕ) (a : HttpAdapter) → due k (numbered a) ≡ due k a + hit k (a.command_sequence + 1)
due-numbered k a = ground arith

answers-answer :
    (k : ℕ) (r : CommandReceipt) (a : HttpAdapter)
    → answers k (answer r a) ≡ answers k a + hit k r.command_id
answers-answer k r a =
    omega (arith, sum_by-append (λ (x : CommandReceipt). hit k x.command_id) a.receipts (r ∷ []))

in_queue-append :
    (k id : ℕ) (command : SupportedCommand) (queue : List (ℕ × SupportedCommand))
    → in_queue k (queue ++ (id, command) ∷ []) ≡ in_queue k queue + hit k id
in_queue-append k id command queue =
    omega
      (arith, sum_by-append (λ (e : ℕ × SupportedCommand). hit k e.0) queue ((id, command) ∷ []))

pub Step-Accounted : (k : ℕ) (a b : HttpAdapter) → Step a b → Accounted k a → Accounted k b
unfolding unsubscribe publish
Step-Accounted k a _ (stay _) h = h
Step-Accounted k a _ (polled _ d f) h = h
Step-Accounted k a _ (released _ d) h = h
Step-Accounted k a _ (published _ wire d v) h = h
Step-Accounted k a _ (subscribed _ listener listeners d) h = h
Step-Accounted k a _ (unsubscribed _ listener) h = h
Step-Accounted k a _ (ended _ d) h = h
Step-Accounted k a _ (refused _ r e) h =
    let id = ap (hit k) e.0 in
    omega (arith, h, id, answers-answer k r (numbered a), due-numbered k a)
Step-Accounted k a _ (queued _ c d) h =
    omega (arith, h, in_queue-append k (a.command_sequence + 1) c a.waiting, due-numbered k a)
Step-Accounted k a _ (turned_down _ id c rest r s w e) h =
    let same = ap (hit k) e.0 in
    let queue = ap (in_queue k) w in
    omega (arith, h, same, queue, answers-answer k r (record a { waiting = rest }))
Step-Accounted k a _ (posted _ id c rest s w d e) h =
    let queue = ap (in_queue k) w in let free = ap (on_the_way k) s in omega (arith, h, queue, free)
Step-Accounted k a _ (answered _ id c r s e) h =
    let same = ap (hit k) e in
    let busy = ap (on_the_way k) s in
    omega (arith, h, same, busy, answers-answer k r (record a { sending = none }))

create_adapter-Accounted : (k : ℕ) → Accounted k create_adapter
unfolding create_adapter poll
create_adapter-Accounted k = ground arith

-- Whatever happens to a new adapter, a number that it gave to a command has one receipt, or is the
-- number of one command that waits or is being sent; a number that it did not give has none.
pub happen_all-Accounted :
    (events : List Event) (k : ℕ) → Accounted k (happen_all events create_adapter)
happen_all-Accounted events k =
    happen_all-keeps (Accounted k) (Step-Accounted k) events create_adapter
      (create_adapter-Accounted k)
