-- ===== src/Simulation/Channel/Queue.antt =====
-- A channel is a bounded first-in first-out queue, over any sequence of calls of its methods.
use mathlib.Core.List.{append_assoc}
use ingestion_lab_loadgen.Prelude.{
  ◌+◌, length, sum_by, length-append, sum_by-append, ℕ, ◌≡◌, refl, sym, ap, ◌∙◌, List, [], ◌∷◌,
  ◌++◌, Option, none, some, Bool, if◌then◌else◌, arith,
}
use ingestion_lab_loadgen.Simulation.Types.{ChannelActivity}
use ingestion_lab_loadgen.Simulation.Channel.{
  apply_pending_capacity, record_output, StatefulChannel, request_capacity, observe_blocked, send,
  receive, handoff, receive_items,
}
use ingestion_lab_loadgen.Simulation.Channel.Invariant.{
  IsValid, request_capacity-IsValid, send-IsValid, receive-IsValid, handoff-IsValid,
  observe_blocked-IsValid,
}

pub data Operation {ℓ} (A : Type ℓ) : Type ℓ where
  put pass : A → Operation A
  take : Operation A
  resize : ℕ → Operation A
  watch : Bool → Bool → Operation A

-- A channel, with what it took in, what it gave out and what was passed from hand to hand, each
-- oldest first.
pub record History {ℓ} (A : Type ℓ) : Type ℓ where
  pub channel : StatefulChannel A
  pub accepted : List A
  pub received : List A
  pub handed : List A

abbrev pub to_list {ℓ} : {A : Type ℓ} → Option A → List A
to_list none = []
to_list (some a) = a ∷ []

module _ {ℓ} {A : Type ℓ} (transactions_of : A → ℕ) (activity : ChannelActivity) where
  -- One call, and the part of the history it adds.
  pub operate : Operation A → StatefulChannel A → History A
  operate (put item) c =
      let (c', activity', sent) = send transactions_of c item activity in
      record { channel = c'; accepted = if sent then item ∷ [] else []; received = []; handed = [] }
  operate (pass item) c = record {
    channel = (handoff transactions_of c item activity).0;
    accepted = [];
    received = [];
    handed = item ∷ [];
  }
  operate take c =
      let (c', activity', item) = receive transactions_of c activity in
      record { channel = c'; accepted = []; received = to_list item; handed = [] }
  operate (resize capacity) c = record {
    channel = (request_capacity c capacity).0;
    accepted = [];
    received = [];
    handed = [];
  }
  operate (watch blocked progressed) c = record {
    channel = observe_blocked c blocked progressed;
    accepted = [];
    received = [];
    handed = [];
  }

  pub operate_all : List (Operation A) → StatefulChannel A → History A
  unfolding operate
  operate_all [] c = record { channel = c; accepted = []; received = []; handed = [] }
  operate_all (o ∷ os) c =
      let first = operate o c in
      let rest = operate_all os first.channel in
      record {
        channel = rest.channel;
        accepted = first.accepted ++ rest.accepted;
        received = first.received ++ rest.received;
        handed = first.handed ++ rest.handed;
      }

  -- What was there and came in is what went out and is there.
  abbrev pub Queued : StatefulChannel A → History A → Type ℓ
  Queued c h = c.items ++ h.accepted ≡ h.received ++ h.channel.items

  receive_items-Queued :
      (items : List A) (c : StatefulChannel A)
      → c.items ≡ items
      → let (c', activity', item) = receive_items transactions_of items c activity in
        c.items ≡ to_list item ++ c'.items
  unfolding receive_items
  receive_items-Queued [] c e = refl
  receive_items-Queued (item ∷ rest) c e = ground (arith, e)

  append_nil : (xs : List A) → xs ++ [] ≡ xs
  append_nil [] = refl
  append_nil (x ∷ xs) = ap (λ ys. x ∷ ys) (append_nil xs)

  operate-Queued : (o : Operation A) (c : StatefulChannel A) → Queued c (operate o c)
  unfolding operate send handoff receive request_capacity observe_blocked
  operate-Queued (put item) c = ground (arith, append_nil c.items)
  operate-Queued (pass item) c = append_nil c.items
  operate-Queued take c = append_nil c.items ∙ receive_items-Queued c.items c refl
  operate-Queued (resize capacity) c = ground (arith, append_nil c.items)
  operate-Queued (watch blocked progressed) c = ground (arith, append_nil c.items)

  append-middle :
      (xs ys zs us : List A) (vs ws : List A)
      → xs ++ ys ≡ zs ++ us
      → us ++ vs ≡ ws
      → xs ++ (ys ++ vs) ≡ zs ++ ws
  append-middle xs ys zs us vs ws p q =
      sym (append_assoc xs ys vs)
      ∙ ap (λ l. l ++ vs) p
      ∙ append_assoc zs us vs
      ∙ ap (λ l. zs ++ l) q

  operate_all-Queued' :
      (os : List (Operation A)) (c : StatefulChannel A) → Queued c (operate_all os c)
  unfolding operate_all
  operate_all-Queued' [] c = append_nil c.items
  operate_all-Queued' (o ∷ os) c =
      let first = operate o c in
      let rest = operate_all os first.channel in
      append-middle c.items first.accepted first.received first.channel.items rest.accepted
        (rest.received ++ rest.channel.items) (operate-Queued o c)
        (operate_all-Queued' os first.channel)
      ∙ sym (append_assoc first.received rest.received rest.channel.items)

  operate-IsValid :
      (o : Operation A) (c : StatefulChannel A)
      → IsValid transactions_of c
      → IsValid transactions_of (operate o c).channel
  unfolding operate
  operate-IsValid (put item) c v = send-IsValid transactions_of c item activity v
  operate-IsValid (pass item) c v = handoff-IsValid transactions_of c item activity v
  operate-IsValid take c v = receive-IsValid transactions_of c activity v
  operate-IsValid (resize capacity) c v = request_capacity-IsValid transactions_of c capacity v
  operate-IsValid (watch blocked progressed) c v =
      observe_blocked-IsValid transactions_of c blocked progressed v

  operate_all-IsValid :
      (os : List (Operation A)) (c : StatefulChannel A)
      → IsValid transactions_of c
      → IsValid transactions_of (operate_all os c).channel
  unfolding operate_all
  operate_all-IsValid [] c v = v
  operate_all-IsValid (o ∷ os) c v =
      operate_all-IsValid os (operate o c).channel (operate-IsValid o c v)

  -- The counters count what came in, what went out and what was handed over, and its transactions.
  pub record Counted (c : StatefulChannel A) (h : History A) : Type 0 where
    pub sent :
        h.channel.sent_batches_total ≡ c.sent_batches_total + length h.accepted + length h.handed
    pub received :
        h.channel.received_batches_total
        ≡ c.received_batches_total + length h.received + length h.handed
    pub handoffs : h.channel.handoff_batches_total ≡ c.handoff_batches_total + length h.handed
    pub sent_transactions :
        h.channel.sent_transactions_total
        ≡ c.sent_transactions_total
          + sum_by transactions_of h.accepted
          + sum_by transactions_of h.handed
    pub received_transactions :
        h.channel.received_transactions_total
        ≡ c.received_transactions_total
          + sum_by transactions_of h.received
          + sum_by transactions_of h.handed

  -- What a receipt takes out of a channel with these items is counted.
  receive_items-Counted :
      (items : List A) (c : StatefulChannel A)
      → let (c', activity', item) = receive_items transactions_of items c activity in
        Counted c (record { channel = c'; accepted = []; received = to_list item; handed = [] })
  unfolding receive_items apply_pending_capacity record_output
  receive_items-Counted [] c = ground arith
  receive_items-Counted (item ∷ rest) c = ground arith

  operate-Counted : (o : Operation A) (c : StatefulChannel A) → Counted c (operate o c)
  unfolding operate send handoff receive request_capacity observe_blocked
  operate-Counted (put item) c = ground arith
  operate-Counted (pass item) c = ground arith
  operate-Counted take c = receive_items-Counted c.items c
  operate-Counted (resize capacity) c = ground arith
  operate-Counted (watch blocked progressed) c = ground arith

  operate_all-Counted :
      (os : List (Operation A)) (c : StatefulChannel A) → Counted c (operate_all os c)
  unfolding operate_all
  operate_all-Counted [] c = ground arith
  operate_all-Counted (o ∷ os) c =
      let first = operate o c in
      let rest = operate_all os first.channel in
      let one = operate-Counted o c in
      let more = operate_all-Counted os first.channel in
      record {
        sent = omega (
          arith,
          one.sent,
          more.sent,
          length-append first.accepted rest.accepted,
          length-append first.handed rest.handed,
        );
        received = omega (
          arith,
          one.received,
          more.received,
          length-append first.received rest.received,
          length-append first.handed rest.handed,
        );
        handoffs =
            omega (arith, one.handoffs, more.handoffs, length-append first.handed rest.handed);
        sent_transactions = omega (
          arith,
          one.sent_transactions,
          more.sent_transactions,
          sum_by-append transactions_of first.accepted rest.accepted,
          sum_by-append transactions_of first.handed rest.handed,
        );
        received_transactions = omega (
          arith,
          one.received_transactions,
          more.received_transactions,
          sum_by-append transactions_of first.received rest.received,
          sum_by-append transactions_of first.handed rest.handed,
        );
      }

  -- Over any sequence of sends, receipts, handoffs, capacity requests and observations, a valid channel
  -- gives out what was in it and what it accepts in that order, keeping the rest; it stays valid, so it
  -- never holds more than its applied capacity; and its counters grow by exactly the batches and the
  -- transactions that it accepted, gave out and handed over.
  pub operate_all-Queued :
      (os : List (Operation A)) (c : StatefulChannel A)
      → IsValid transactions_of c
      → Queued c (operate_all os c)
        × IsValid transactions_of (operate_all os c).channel
        × Counted c (operate_all os c)
  operate_all-Queued os c v =
      (operate_all-Queued' os c, operate_all-IsValid os c v, operate_all-Counted os c)
