-- ===== src/SimulationAdapter/Machine/Receipts.antt =====
-- What a command's receipt says, and what the command publishes.
use ingestion_lab_loadgen.Prelude.{
  ◌++◌, map, ◌||◌, ℕ, ◌+◌, ◌≡◌, refl, ap, ◌∙◌, true, false, not, Bool, none, some, inl, inr,
  if◌then◌else◌,
}
use ingestion_lab_loadgen.Prelude.Results.{Result, Returns, Returns-bind}
use ingestion_lab_loadgen.Loadgen.{LoadgenCommand}
use ingestion_lab_loadgen.SimulationAdapter.Snapshot.{freeze_snapshot}
use ingestion_lab_loadgen.SimulationAdapter.Machine.{
  SimulationAdapter, publish, publish_if, Effect, done, refused, perform, conclude, dispatch,
}
use ingestion_lab_loadgen.SimulationAdapter.Machine.Soundness.{IsSound}
use ingestion_lab_loadgen.SimulationAdapter.Machine.{refusal}
use ingestion_lab_loadgen.Loadgen.{ErrorCode}
use ingestion_lab_loadgen.SimulationAdapter.Machine.{reject}
use ingestion_lab_loadgen.Loadgen.{CommandReceipt}
use ingestion_lab_loadgen.Prelude.{◌⊎◌}
use ingestion_lab_loadgen.SimulationAdapter.Machine.Lifecycle.{numbered-IsSound}
use ingestion_lab_loadgen.SimulationAdapter.Machine.Effects.{
  refuses, SamePublic, Effected, perform-Effected,
}

-- Nothing was published, or one revision, which every listener was called with.
abbrev pub PublishedOnce : SimulationAdapter → SimulationAdapter → Type 0
PublishedOnce a a' =
    ((a'.revision ≡ a.revision) × (a'.notified ≡ a.notified))
    ⊎ ((a'.revision ≡ a.revision + 1)
        × (a'.snapshot.revision ≡ a.revision + 1)
        × (a'.notified ≡ a.notified ++ map (λ l. (l, a'.snapshot)) a.listeners))

-- A refusal leaves all but the number of the next command as it was.
abbrev pub Unmoved : Bool → SimulationAdapter → SimulationAdapter → Type 0
Unmoved true a a' = a' ≡ record a { command_sequence = a.command_sequence + 1 }
Unmoved false a a' = Unit

-- What a dispatch returns.
abbrev pub Answered : Bool → ℕ → SimulationAdapter → SimulationAdapter × CommandReceipt → Type 0
Answered refusing at a (a', receipt) =
    (receipt.accepted ≡ not refusing)
    × (receipt.command_id ≡ a.command_sequence + 1)
    × (receipt.snapshot_revision ≡ a'.snapshot.revision)
    × (receipt.applied_at_ms ≡ (if refusing then none else some at))
    × Unmoved refusing a a'
    × PublishedOnce a a'

publish_if-Published :
    (changed : Bool) (n a' : SimulationAdapter)
    → SamePublic n a'
    → PublishedOnce n (publish_if changed a')
unfolding publish freeze_snapshot
publish_if-Published false n a' q = inl (q.revision, q.notified)
publish_if-Published true n a' q = inr (
  ap (λ r. r + 1) q.revision,
  ap (λ r. r + 1) q.revision,
  ap (λ p. p ++ map (λ l. (l, (publish a').snapshot)) a'.listeners) q.notified
      ∙ ap (λ ls. n.notified ++ map (λ l. (l, (publish a').snapshot)) ls) q.listeners,
)

publish_if-sequence :
    (changed : Bool) (a : SimulationAdapter)
    → (publish_if changed a).command_sequence ≡ a.command_sequence
unfolding publish
publish_if-sequence false a = refl
publish_if-sequence true a = refl

conclude-Answered :
    (refusing : Bool) (command : LoadgenCommand) (at : ℕ) (a : SimulationAdapter) (e : Effect)
    → let n : SimulationAdapter = record a { command_sequence = a.command_sequence + 1 } in
      Effected refusing n e → Answered refusing at a (conclude command at n e)
unfolding conclude reject
conclude-Answered true command at a (refused error) h =
    (refl, refl, refl, refl, refl, inl (refl, refl))
conclude-Answered false command at a (refused error) h = cc
conclude-Answered true command at a (done a' changed) h = cc
conclude-Answered false command at a (done a' changed) h = (
  refl,
  publish_if-sequence changed a' ∙ h.1.command_sequence,
  refl,
  refl,
  tt,
  publish_if-Published changed (record a { command_sequence = a.command_sequence + 1 }) a' h.1,
)

either_way :
    (closed refusing : Bool) (at : ℕ) (a : SimulationAdapter)
    (x y : Result (SimulationAdapter × CommandReceipt))
    → Returns (Answered true at a) x
    → Returns (Answered refusing at a) y
    → Returns (Answered (closed || refusing) at a) (if closed then x else y)
either_way true refusing at a x y h k = h
either_way false refusing at a x y h k = k

-- Every dispatch of a sound adapter returns, and is refused exactly if the adapter is disposed, the
-- command is a reset while running, its value is no finite number or no Boolean, or its type is not
-- known. The receipt carries the command's number, the time if it is accepted, and the revision that
-- is then published; a refused command changes nothing but the number of the next one; an accepted one
-- publishes at most one revision, which every listener gets.
pub dispatch-Answered :
    (command : LoadgenCommand) (now at : ℕ) (a : SimulationAdapter)
    → IsSound a
    → Returns
        (Answered (a.disposed || refuses command a.run_state) at a)
        (dispatch command now at a)
unfolding dispatch
dispatch-Answered command now at a v =
    let n : SimulationAdapter = record a { command_sequence = a.command_sequence + 1 } in
    either_way a.disposed (refuses command a.run_state) at a _ _
      (conclude-Answered true command at a
        (refused (refusal ErrorCode.disposed "simulation adapter is disposed")) refl)
      (Returns-bind (Effected (refuses command a.run_state) n)
        (Answered (refuses command a.run_state) at a) (perform command now n) _
        (perform-Effected command now n (numbered-IsSound (a.command_sequence + 1) a v))
        λ e h. conclude-Answered (refuses command a.run_state) command at a e h)
