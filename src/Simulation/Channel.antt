-- ===== src/Simulation/Channel.antt =====
-- `class StatefulChannel` of frontend/src/model/simulation.ts: a bounded first-in first-out channel
-- whose capacity may be asked to shrink below its depth, with its counters. The activity of the
-- running step, which the source mutates, is an argument and a part of each result.
pub mod Queue
pub mod Invariant
pub mod Fifo
use ingestion_lab_loadgen.Prelude.{
  ℕ, ◌+◌, List, [], ◌∷◌, ◌++◌, Option, none, some, Bool, true, false, not, ◌&&◌, ◌||◌, leb, ◌==◌,
  if◌then◌else◌, is_some, or_else, length, head?, sum_by,
}
use ingestion_lab_loadgen.Simulation.Types.{ChannelActivity, fixed_step_ms}

pub record StatefulChannel {ℓ} (A : Type ℓ) : Type ℓ where
  pub items : List A
  pub applied_capacity : ℕ
  pub preview_capacity : Option ℕ
  pub pending_capacity : Option ℕ
  pub blocked_for_ms : ℕ
  pub sent_batches_total : ℕ
  pub sent_transactions_total : ℕ
  pub received_batches_total : ℕ
  pub received_transactions_total : ℕ
  pub handoff_batches_total : ℕ
  pub blocked_ms_total : ℕ
  pub blocked_senders : ℕ

pub record CapacityTelemetry : Type 0 where
  pub applied : ℕ
  pub preview : Option ℕ
  pub pending : Option ℕ

module _ {ℓ} {A : Type ℓ} where
  -- The constructor.
  abbrev pub create : ℕ → StatefulChannel A
  create capacity = record {
    items = [];
    applied_capacity = capacity;
    preview_capacity = none;
    pending_capacity = none;
    blocked_for_ms = 0;
    sent_batches_total = 0;
    sent_transactions_total = 0;
    received_batches_total = 0;
    received_transactions_total = 0;
    handoff_batches_total = 0;
    blocked_ms_total = 0;
    blocked_senders = 0;
  }

  abbrev pub depth_batches : StatefulChannel A → ℕ
  depth_batches c = length c.items

  abbrev pub capacity : StatefulChannel A → CapacityTelemetry
  capacity c = record {
    applied = c.applied_capacity;
    preview = c.preview_capacity;
    pending = c.pending_capacity;
  }

  pub request_capacity : StatefulChannel A → ℕ → StatefulChannel A × Bool
  request_capacity c capacity =
      if capacity == c.applied_capacity
        && not (is_some c.preview_capacity)
        && not (is_some c.pending_capacity)
      then (c, false)
      else if leb (depth_batches c) capacity
      then (
        record c { applied_capacity = capacity; preview_capacity = none; pending_capacity = none },
        true,
      )
      else (record c { preview_capacity = some capacity; pending_capacity = some capacity }, true)

  abbrev pub peek : StatefulChannel A → Option A
  peek c = head? c.items

  pub apply_pending_capacity : StatefulChannel A → StatefulChannel A
  apply_pending_capacity c = elim c.pending_capacity [
    | none ↦ c
    | some pending ↦
        if leb (depth_batches c) pending
        then record c {
          applied_capacity = pending;
          preview_capacity = none;
          pending_capacity = none;
        }
        else c
  ]

  pub observe_blocked : StatefulChannel A → Bool → Bool → StatefulChannel A
  observe_blocked c blocked sender_progressed =
      if blocked
      then record c {
        blocked_senders = 1;
        blocked_for_ms =
            if sender_progressed then fixed_step_ms else c.blocked_for_ms + fixed_step_ms;
        blocked_ms_total = c.blocked_ms_total + fixed_step_ms;
      }
      else record c { blocked_senders = 0; blocked_for_ms = 0 }

  unfoldable pub reset_runtime : StatefulChannel A → StatefulChannel A
  reset_runtime c = record {
    items = [];
    applied_capacity = or_else c.pending_capacity c.applied_capacity;
    preview_capacity = none;
    pending_capacity = none;
    blocked_for_ms = 0;
    sent_batches_total = 0;
    sent_transactions_total = 0;
    received_batches_total = 0;
    received_transactions_total = 0;
    handoff_batches_total = 0;
    blocked_ms_total = 0;
    blocked_senders = 0;
  }

-- What depends on how many transactions an item holds.
module _ {ℓ} {A : Type ℓ} (transactions_of : A → ℕ) where
  abbrev pub buffered_transactions : StatefulChannel A → ℕ
  buffered_transactions c = sum_by transactions_of c.items

  pub record_input : A → StatefulChannel A → StatefulChannel A
  record_input item c = record c {
    sent_batches_total = c.sent_batches_total + 1;
    sent_transactions_total = c.sent_transactions_total + transactions_of item;
  }

  pub activity_input : A → ChannelActivity → ChannelActivity
  activity_input item activity = record activity {
    input_batches = activity.input_batches + 1;
    input_transactions = activity.input_transactions + transactions_of item;
  }

  pub record_output : A → StatefulChannel A → StatefulChannel A
  record_output item c = record c {
    received_batches_total = c.received_batches_total + 1;
    received_transactions_total = c.received_transactions_total + transactions_of item;
  }

  pub activity_output : A → ChannelActivity → ChannelActivity
  activity_output item activity = record activity {
    output_batches = activity.output_batches + 1;
    output_transactions = activity.output_transactions + transactions_of item;
  }

  pub send : StatefulChannel A → A → ChannelActivity → StatefulChannel A × ChannelActivity × Bool
  unfolding record_input activity_input
  send c item activity =
      if c.applied_capacity == 0 || leb c.applied_capacity (depth_batches c)
      then (c, activity, false)
      else (
        record_input item (record c { items = c.items ++ item ∷ [] }),
        activity_input item activity,
        true,
      )

  receive_items :
      List A → StatefulChannel A → ChannelActivity → StatefulChannel A × ChannelActivity × Option A
  unfolding record_output activity_output apply_pending_capacity
  receive_items [] c activity = (c, activity, none)
  receive_items (item ∷ rest) c activity = (
    apply_pending_capacity (record_output item (record c { items = rest })),
    activity_output item activity,
    some item,
  )

  pub receive : StatefulChannel A → ChannelActivity → StatefulChannel A × ChannelActivity × Option A
  unfolding receive_items
  receive c activity = receive_items c.items c activity

  pub handoff : StatefulChannel A → A → ChannelActivity → StatefulChannel A × ChannelActivity
  unfolding record_input activity_input record_output activity_output
  handoff c item activity =
      let c' = record_output item (record_input item c) in
      let activity' = activity_output item (activity_input item activity) in
      (
        record c' { handoff_batches_total = c'.handoff_batches_total + 1 },
        record activity' { handoff_batches = activity'.handoff_batches + 1 },
      )
