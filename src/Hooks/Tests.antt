-- ===== src/Hooks/Tests.antt =====
-- Concrete runs of the properties of the hooks, and the data that they use.
use ingestion_lab_loadgen.Hooks.DesiredControl.{create_control}
use ingestion_lab_loadgen.Hooks.DesiredControl.Consistency.{
  Event, rendered, previewed, cancelled, committed, answered, Consistent, happen_all,
  happen_all-Consistent,
}
use ingestion_lab_loadgen.Hooks.PauseFrozen.{presented}
use ingestion_lab_loadgen.Hooks.PauseFrozen.Scan.{derive_all, derive_all-shown, shown}
use ingestion_lab_loadgen.Loadgen.{LoadgenTelemetrySnapshot, connected, paused, running}
use ingestion_lab_loadgen.Prelude.{
  List, [], arith, false, none, some, suc, true, zero, ℕ, ◌==◌, ◌∷◌, ◌≡◌,
}
use ingestion_lab_loadgen.HttpAdapter.View.{create_snapshot}
use ingestion_lab_loadgen.Hooks.SnapshotHook.{get_snapshot}
use ingestion_lab_loadgen.Hooks.SnapshotHook.Reads.{Shows, references, get_all, get_snapshot-Shows}
use ingestion_lab_loadgen.Prelude.{Option}

-- A value is previewed and sent, the answer comes, the control is withdrawn and comes back.
abbrev some_events : List (Event ℕ)
some_events =
    previewed 7
    ∷ committed (some 8)
    ∷ answered 1 (some true)
    ∷ rendered 8 3 true
    ∷ previewed 9
    ∷ cancelled
    ∷ committed (some 4)
    ∷ rendered 8 4 false
    ∷ answered 3 none
    ∷ []

same_number : (x y : ℕ) → (x == y) ≡ true → x ≡ y
same_number x y h = ground arith

happen_all-Consistent_example :
    Consistent
      (happen_all ◌==◌ "rejected" "unavailable" same_number some_events (create_control 5 2 true))
happen_all-Consistent_example =
    happen_all-Consistent ◌==◌ "rejected" "unavailable" same_number 5 2 true some_events

-- Snapshots of a service that ran and then paused.
abbrev history : ℕ → LoadgenTelemetrySnapshot
history zero = record (create_snapshot 0 connected none) { run_state = running; elapsed_ms = 70 }
history (suc n) = record (create_snapshot (suc n) connected none) {
  run_state = paused;
  elapsed_ms = 90;
}

derive_all-shown_example :
    presented history 2 (derive_all history (2 ∷ 1 ∷ 0 ∷ [])) ≡ shown history 2 (1 ∷ 0 ∷ [])
derive_all-shown_example = derive_all-shown history 2 (1 ∷ 0 ∷ [])

abbrev some_reads : List (ℕ × Option ℕ)
some_reads = (2, some 40) ∷ (1, none) ∷ (0, some 20) ∷ []

get_snapshot-Shows_example :
    Shows 2
      (shown history 2 (references history some_reads))
      (get_snapshot history 2 (some 50) (get_all history some_reads)).presentation
get_snapshot-Shows_example = get_snapshot-Shows history some_reads 2 (some 50)
