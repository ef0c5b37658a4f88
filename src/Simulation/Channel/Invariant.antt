-- ===== src/Simulation/Channel/Invariant.antt =====
-- What holds of a channel between two calls, and that every method keeps it.
use ingestion_lab_loadgen.Prelude.{
  or_else, ℕ, ◌+◌, ◌≤◌, ◌<◌, ◌≡◌, refl, ap, List, [], ◌∷◌, Option, none, some, Bool, arith, length,
  sum_by, length-append, sum_by-append,
}
use ingestion_lab_loadgen.Simulation.Types.{ChannelActivity}
use ingestion_lab_loadgen.Simulation.Channel.{
  StatefulChannel, create, request_capacity, observe_blocked, reset_runtime, send, receive, handoff,
  receive_items, depth_batches, buffered_transactions,
}

-- A capacity that waits to be applied is smaller than the depth.
abbrev pub Shrinks : Option ℕ → ℕ → Type 0
Shrinks none depth = Unit
Shrinks (some pending) depth = pending < depth

module _ {ℓ} {A : Type ℓ} (transactions_of : A → ℕ) where
  pub record IsValid (c : StatefulChannel A) : Type 0 where
    pub fits : depth_batches c ≤ c.applied_capacity
    pub previewed : c.preview_capacity ≡ c.pending_capacity
    pub shrinks : Shrinks c.pending_capacity (depth_batches c)
    pub batches : c.sent_batches_total ≡ c.received_batches_total + depth_batches c
    pub transactions :
        c.sent_transactions_total
        ≡ c.received_transactions_total + buffered_transactions transactions_of c
    pub handoffs : c.handoff_batches_total ≤ c.received_batches_total

  pub create-IsValid : (capacity : ℕ) → IsValid (create capacity)
  create-IsValid capacity = ground arith

  pub request_capacity-IsValid :
      (c : StatefulChannel A) (capacity : ℕ) → IsValid c → IsValid (request_capacity c capacity).0
  unfolding request_capacity
  request_capacity-IsValid c capacity v = ground arith

  pub send-IsValid :
      (c : StatefulChannel A) (item : A) (activity : ChannelActivity)
      → IsValid c
      → IsValid (send transactions_of c item activity).0
  unfolding send
  send-IsValid c item activity v =
      ground (
        arith,
        length-append c.items (item ∷ []),
        sum_by-append transactions_of c.items (item ∷ []),
      )

  receive_items-IsValid :
      (items : List A) (c : StatefulChannel A) (activity : ChannelActivity)
      → c.items ≡ items
      → IsValid c
      → IsValid (receive_items transactions_of items c activity).0
  unfolding receive_items
  receive_items-IsValid [] c activity e v = v
  receive_items-IsValid (item ∷ rest) c activity e v =
      ground (arith, ap length e, ap (sum_by transactions_of) e)

  pub receive-IsValid :
      (c : StatefulChannel A) (activity : ChannelActivity)
      → IsValid c
      → IsValid (receive transactions_of c activity).0
  unfolding receive
  receive-IsValid c activity v = receive_items-IsValid c.items c activity refl v

  pub handoff-IsValid :
      (c : StatefulChannel A) (item : A) (activity : ChannelActivity)
      → IsValid c
      → IsValid (handoff transactions_of c item activity).0
  unfolding handoff
  handoff-IsValid c item activity v = ground arith

  pub observe_blocked-IsValid :
      (c : StatefulChannel A) (blocked progressed : Bool)
      → IsValid c
      → IsValid (observe_blocked c blocked progressed)
  unfolding observe_blocked
  observe_blocked-IsValid c blocked progressed v = ground arith

  pub reset_runtime-IsValid : (c : StatefulChannel A) → IsValid (reset_runtime c)
  unfolding reset_runtime
  reset_runtime-IsValid c = ground arith

-- After a request, the capacity that waits, or else the one that is applied, is the requested one.
pub request_capacity-requested {ℓ} :
    {A : Type ℓ} (c : StatefulChannel A) (capacity : ℕ)
    → let c' = (request_capacity c capacity).0 in
      or_else c'.pending_capacity c'.applied_capacity ≡ capacity
unfolding request_capacity
request_capacity-requested c capacity = go c.pending_capacity refl
  where
    go :
        (pending : Option ℕ)
        → c.pending_capacity ≡ pending
        → let c' = (request_capacity c capacity).0 in
          or_else c'.pending_capacity c'.applied_capacity ≡ capacity
    go none e = ground (arith, e)
    go (some pending) e = ground (arith, e)
