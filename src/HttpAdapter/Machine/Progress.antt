-- ===== src/HttpAdapter/Machine/Progress.antt =====
-- Commands do not wait for ever: answers that come in, one after another, settle them all.
use ingestion_lab_loadgen.Prelude.{
  List, Option, [], both_branches, none, refl, some, tail, ℕ, ◌∷◌, ◌≡◌, ap, arith, length, subst,
  sym, ◌<◌, ◌∙◌, if◌then◌else◌, leb, ltb, ◌&&◌,
}
use ingestion_lab_loadgen.HttpAdapter.Responses.{Response}
use ingestion_lab_loadgen.HttpAdapter.Machine.{
  HttpAdapter, send_command, send_first, send_settled, settle, create_adapter, send_unless,
}
use ingestion_lab_loadgen.HttpAdapter.Requests.{SupportedCommand, can_dispatch_config_command}
use ingestion_lab_loadgen.HttpAdapter.Machine.Events.{
  Event, command_answered, happen_all, turn_came,
}
use ingestion_lab_loadgen.HttpAdapter.Machine.Answers.{
  Accounted, Step-Accounted, answers, due, happen_all-Accounted, in_queue, on_the_way,
}
use ingestion_lab_loadgen.HttpAdapter.Machine.Steps.{happen_all-keeps}

-- Answers that come in, each followed by the next command's turn.
abbrev pub schedule : List (Option Response × ℕ) → List Event
schedule [] = []
schedule (entry ∷ entries) = command_answered entry.0 entry.1 ∷ turn_came ∷ schedule entries

abbrev round : Option Response × ℕ → HttpAdapter → HttpAdapter
round entry a = send_command (send_settled entry.0 entry.1 a)

settle-free :
    (response : Option Response) (now : ℕ) (a : HttpAdapter)
    (outstanding : Option (ℕ × SupportedCommand))
    → a.sending ≡ outstanding
    → ((settle outstanding response now a).sending ≡ none)
      × ((settle outstanding response now a).waiting ≡ a.waiting)
      × ((settle outstanding response now a).command_sequence ≡ a.command_sequence)
settle-free response now a none s = (s, refl, refl)
settle-free response now a (some (id, command)) s = (refl, refl, refl)

send_first-tail :
    (a : HttpAdapter) (queue : List (ℕ × SupportedCommand))
    → a.waiting ≡ queue
    → ((send_first queue a).waiting ≡ tail queue)
      × ((send_first queue a).command_sequence ≡ a.command_sequence)
send_first-tail a [] w = (w, refl)
send_first-tail a ((id, command) ∷ rest) w =
    both_branches
      (λ (b : HttpAdapter). (b.waiting ≡ rest) × (b.command_sequence ≡ a.command_sequence))
      a.disposed _ _ (refl, refl)
      (both_branches
        (λ (b : HttpAdapter). (b.waiting ≡ rest) × (b.command_sequence ≡ a.command_sequence))
        (can_dispatch_config_command command a.snapshot) _ _ (refl, refl) (refl, refl))

-- A round takes the first command off the queue.
round-waiting :
    (entry : Option Response × ℕ) (a : HttpAdapter)
    → ((round entry a).waiting ≡ tail a.waiting)
      × ((round entry a).command_sequence ≡ a.command_sequence)
unfolding send_command send_settled
round-waiting entry a =
    let b : HttpAdapter = settle a.sending entry.0 entry.1 a in
    let free = settle-free entry.0 entry.1 a a.sending refl in
    let taken = send_first-tail b b.waiting refl in
    subst
      (λ (o : Option (ℕ × SupportedCommand)).
        ((send_unless o b).waiting ≡ tail a.waiting)
        × ((send_unless o b).command_sequence ≡ a.command_sequence))
      (sym free.0) (taken.0 ∙ ap tail free.1, taken.1 ∙ free.2)

-- A round of an empty queue leaves nothing being sent.
round-free :
    (entry : Option Response × ℕ) (a : HttpAdapter)
    → a.waiting ≡ []
    → (round entry a).sending ≡ none
unfolding send_command send_settled
round-free entry a w =
    let b : HttpAdapter = settle a.sending entry.0 entry.1 a in
    let free = settle-free entry.0 entry.1 a a.sending refl in
    subst (λ (o : Option (ℕ × SupportedCommand)). (send_unless o b).sending ≡ none) (sym free.0)
      (subst (λ (q : List (ℕ × SupportedCommand)). (send_first q b).sending ≡ none)
        (sym (free.1 ∙ w)) free.0)

-- Nothing waits, nothing is being sent, and no number was given out.
pub record IsDone (since a : HttpAdapter) : Type 0 where
  pub waiting : a.waiting ≡ []
  pub sending : a.sending ≡ none
  pub sequence : a.command_sequence ≡ since.command_sequence

schedule_idle-IsDone :
    (since : HttpAdapter) (entries : List (Option Response × ℕ)) (a : HttpAdapter)
    → IsDone since a
    → IsDone since (happen_all (schedule entries) a)
schedule_idle-IsDone since [] a h = h
schedule_idle-IsDone since (entry ∷ entries) a h =
    let moved = round-waiting entry a in
    schedule_idle-IsDone since entries (round entry a) (record {
      waiting = moved.0 ∙ ap tail h.waiting;
      sending = round-free entry a h.waiting;
      sequence = moved.1 ∙ h.sequence;
    })

schedule-IsDone :
    (since : HttpAdapter) (entries : List (Option Response × ℕ)) (a : HttpAdapter)
    (queue : List (ℕ × SupportedCommand))
    → a.waiting ≡ queue
    → a.command_sequence ≡ since.command_sequence
    → length queue < length entries
    → IsDone since (happen_all (schedule entries) a)
schedule-IsDone since [] a queue w s l = absurd (omega (arith, l))
schedule-IsDone since (entry ∷ entries) a [] w s l =
    let moved = round-waiting entry a in
    schedule_idle-IsDone since entries (round entry a) (record {
      waiting = moved.0 ∙ ap tail w;
      sending = round-free entry a w;
      sequence = moved.1 ∙ s;
    })
schedule-IsDone since (entry ∷ entries) a (first ∷ rest) w s l =
    let moved = round-waiting entry a in
    schedule-IsDone since entries (round entry a) rest (moved.0 ∙ ap tail w) (moved.1 ∙ s)
      (omega (arith, l))

-- After whatever has happened to a new adapter, one answer more than commands wait, each followed by
-- the next command's turn, settles every command: each number that was given out has exactly one
-- receipt, and nothing waits or is being sent.
pub schedule-answered :
    (events : List Event) (entries : List (Option Response × ℕ)) (k : ℕ)
    → length (happen_all events create_adapter).waiting < length entries
    → answers k (happen_all (schedule entries) (happen_all events create_adapter))
      ≡ due k (happen_all events create_adapter)
schedule-answered events entries k l =
    let before = happen_all events create_adapter in
    let done = schedule-IsDone before entries before before.waiting refl refl l in
    let accounted =
      happen_all-keeps (Accounted k) (Step-Accounted k) (schedule entries) before
        (happen_all-Accounted events k) in
    let queue = ap (in_queue k) done.waiting in
    let free = ap (on_the_way k) done.sending in
    let given = ap {B = ℕ} (λ n. if ltb 0 k && leb k n then 1 else 0) done.sequence in
    omega (arith, accounted, queue, free, given)
