-- ===== src/Simulation/Channel/Fifo.antt =====
-- What each method of a channel does to its items and its counters.
use ingestion_lab_loadgen.Prelude.{◌==◌, ◌||◌, leb, inl, inr}
use ingestion_lab_loadgen.Prelude.{
  ℕ, ◌+◌, ◌≤◌, ◌<◌, ◌≡◌, refl, sym, subst, ◌⊎◌, List, [], ◌∷◌, ◌++◌, some, true, false, arith,
}
use ingestion_lab_loadgen.Simulation.Types.{ChannelActivity}
use ingestion_lab_loadgen.Simulation.Channel.{
  StatefulChannel, observe_blocked, request_capacity, reset_runtime, send, receive, handoff,
  receive_items, depth_batches, peek,
}
use ingestion_lab_loadgen.Prelude.{Bool-cases}
use ingestion_lab_loadgen.Prelude.{Bool}

module _ {ℓ} {A : Type ℓ} where
  pub peek-some :
      (c : StatefulChannel A) (item : A)
      → peek c ≡ some item
      → (rest : List A) × (c.items ≡ item ∷ rest)
  peek-some c item e = go c.items refl e
    where
      go :
          (xs : List A)
          → c.items ≡ xs
          → peek (record c { items = xs }) ≡ some item
          → (rest : List A) × (c.items ≡ item ∷ rest)
      go [] p q = cc
      go (x ∷ xs) p q = (xs, ground (arith, p, q))

module _ {ℓ} {A : Type ℓ} where
  pub record SameCounters (c c' : StatefulChannel A) : Type 0 where
    pub sent : c'.sent_batches_total ≡ c.sent_batches_total
    pub sent_transactions : c'.sent_transactions_total ≡ c.sent_transactions_total
    pub received : c'.received_batches_total ≡ c.received_batches_total
    pub received_transactions : c'.received_transactions_total ≡ c.received_transactions_total

  -- Watching a channel moves none of its counters of batches.
  pub observe_blocked-SameCounters :
      (c : StatefulChannel A) (blocked progressed : Bool)
      → SameCounters c (observe_blocked c blocked progressed)
  unfolding observe_blocked
  observe_blocked-SameCounters c blocked progressed = ground arith

  -- A reset channel has counted nothing.
  pub record Cleared (c : StatefulChannel A) : Type 0 where
    pub sent : c.sent_batches_total ≡ 0
    pub sent_transactions : c.sent_transactions_total ≡ 0
    pub received : c.received_batches_total ≡ 0
    pub received_transactions : c.received_transactions_total ≡ 0

  pub reset_runtime-Cleared : (c : StatefulChannel A) → Cleared (reset_runtime c)
  unfolding reset_runtime
  reset_runtime-Cleared c = ground arith

  -- Nor does asking for another capacity.
  pub request_capacity-SameCounters :
      (c : StatefulChannel A) (capacity : ℕ) → SameCounters c (request_capacity c capacity).0
  unfolding request_capacity
  request_capacity-SameCounters c capacity = ground arith

module _ {ℓ} {A : Type ℓ} (transactions_of : A → ℕ) where
  -- What a receipt of `item` leaves of the channel.
  pub record Received (item : A) (rest : List A) (c c' : StatefulChannel A) : Type ℓ where
    pub items : c'.items ≡ rest
    pub sent : c'.sent_batches_total ≡ c.sent_batches_total
    pub sent_transactions : c'.sent_transactions_total ≡ c.sent_transactions_total
    pub received : c'.received_batches_total ≡ c.received_batches_total + 1
    pub received_transactions :
        c'.received_transactions_total ≡ c.received_transactions_total + transactions_of item

  receive_items-Received :
      (item : A) (rest : List A) (c : StatefulChannel A) (activity : ChannelActivity)
      → let (c', activity', r) = receive_items transactions_of (item ∷ rest) c activity in
        (r ≡ some item) × Received item rest c c'
  unfolding receive_items
  receive_items-Received item rest c activity = ground arith

  -- A channel that is not empty gives out its oldest item.
  pub receive-Received :
      (item : A) (rest : List A) (c : StatefulChannel A) (activity : ChannelActivity)
      → c.items ≡ item ∷ rest
      → let (c', activity', r) = receive transactions_of c activity in
        (r ≡ some item) × Received item rest c c'
  unfolding receive
  receive-Received item rest c activity e =
      subst
        (λ xs.
          let (c', activity', r) = receive_items transactions_of xs c activity in
          (r ≡ some item) × Received item rest c c')
        (sym e) (receive_items-Received item rest c activity)

  -- What taking `item` in leaves of the channel.
  pub record Sent (item : A) (c c' : StatefulChannel A) : Type ℓ where
    pub items : c'.items ≡ c.items ++ item ∷ []
    pub sent : c'.sent_batches_total ≡ c.sent_batches_total + 1
    pub sent_transactions :
        c'.sent_transactions_total ≡ c.sent_transactions_total + transactions_of item
    pub received : c'.received_batches_total ≡ c.received_batches_total
    pub received_transactions : c'.received_transactions_total ≡ c.received_transactions_total

  -- A channel takes an item exactly when it has a capacity that its depth does not reach, and
  -- otherwise stays as it was.
  pub send-Sent :
      (c : StatefulChannel A) (item : A) (activity : ChannelActivity)
      → let (c', activity', sent) = send transactions_of c item activity in
        ((sent ≡ true) × (depth_batches c < c.applied_capacity) × Sent item c c')
        ⊎ ((sent ≡ false)
            × (c.applied_capacity ≤ depth_batches c)
            × (c' ≡ c)
            × (activity' ≡ activity))
  unfolding send
  send-Sent c item activity =
      elim (Bool-cases (c.applied_capacity == 0 || leb c.applied_capacity (depth_batches c))) [
        | inl full ↦ rw (full, send) (inr (refl, ground arith, refl, refl))
        | inr room ↦ rw (room, send) (inl (refl, ground arith, ground arith))
      ]

  -- What a handoff of `item` past the buffer leaves of the channel.
  pub record HandedOff (item : A) (c c' : StatefulChannel A) : Type ℓ where
    pub items : c'.items ≡ c.items
    pub sent : c'.sent_batches_total ≡ c.sent_batches_total + 1
    pub sent_transactions :
        c'.sent_transactions_total ≡ c.sent_transactions_total + transactions_of item
    pub received : c'.received_batches_total ≡ c.received_batches_total + 1
    pub received_transactions :
        c'.received_transactions_total ≡ c.received_transactions_total + transactions_of item

  pub handoff-HandedOff :
      (c : StatefulChannel A) (item : A) (activity : ChannelActivity)
      → HandedOff item c (handoff transactions_of c item activity).0
  unfolding handoff
  handoff-HandedOff c item activity = ground arith
