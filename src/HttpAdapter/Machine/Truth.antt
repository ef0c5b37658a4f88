-- ===== src/HttpAdapter/Machine/Truth.antt =====
-- What it means that the adapter is truthful, and that the answer to a poll keeps it so.
use ingestion_lab_loadgen.Prelude.{List}
use ingestion_lab_loadgen.Loadgen.{ConnectionState, LoadgenTelemetrySnapshot, connecting}
use ingestion_lab_loadgen.Prelude.{
  All, All-append, All-mono, Option, [], arith, both_branches, inl, inr, length, map, none, not,
  refl, some, subst, suc, sym, ℕ, ◌+◌, ◌∷◌, ◌≡◌, ◌≤◌, ◌⊎◌,
}
use ingestion_lab_loadgen.HttpAdapter.View.Restored.{
  Carries, IsBlank, create_snapshot-Carries, create_snapshot-IsBlank,
}
use ingestion_lab_loadgen.HttpAdapter.Json.Laws.{Yields-some}
use ingestion_lab_loadgen.HttpAdapter.Machine.Steps.{settled}
use ingestion_lab_loadgen.HttpAdapter.Responses.Success.{
  Succeeds, Succeeds-decode_response, decode_response-Succeeds, decode_response-Yields,
}
use ingestion_lab_loadgen.HttpAdapter.Valid.{IsMember, IsSnapshot}
use ingestion_lab_loadgen.HttpAdapter.Responses.{Response, decode_response}
use ingestion_lab_loadgen.HttpAdapter.Wire.{WireSnapshot}
use ingestion_lab_loadgen.HttpAdapter.Machine.{
  HttpAdapter, decoded, poll_settled, publish, snapshot_of,
}

-- A failure of the response leaves a blank snapshot in error; a success is carried whole.
abbrev pub Tells : Option Response → LoadgenTelemetrySnapshot → Type 0
Tells response s =
    ((wire : WireSnapshot) × Succeeds response wire × Carries wire s)
    ⊎ (((wire : WireSnapshot) → Succeeds response wire → ⊥) × IsBlank ConnectionState.error s)

-- The first snapshot, or the one of a response among those that came in.
abbrev pub Published : List (Option Response) → LoadgenTelemetrySnapshot → Type 0
Published heard s =
    (IsBlank connecting s × (s.revision ≡ 0))
    ⊎ ((response : Option Response) × IsMember response heard × Tells response s)

abbrev pub Told : List (Option Response) → ℕ → ℕ × LoadgenTelemetrySnapshot → Type 0
Told heard revision entry = Published heard entry.1 × (entry.1.revision ≤ revision)

-- The snapshot now, and every one that a listener was called with; there have been no more revisions
-- than responses, and none that was told is later than the one now.
pub record IsTruthful (heard : List (Option Response)) (a : HttpAdapter) : Type 0 where
  pub now : Published heard a.snapshot
  pub revisions : a.snapshot.revision ≤ length heard
  pub told : All (Told heard a.snapshot.revision) a.notified

Published-later :
    (heard : List (Option Response)) (response : Option Response) (s : LoadgenTelemetrySnapshot)
    → Published heard s
    → Published (response ∷ heard) s
Published-later heard response s (inl first) = inl first
Published-later heard response s (inr (r, (i, e), t)) = inr (r, (suc i, e), t)

later-IsTruthful :
    (heard : List (Option Response)) (response : Option Response) (a : HttpAdapter)
    → IsTruthful heard a
    → IsTruthful (response ∷ heard) a
later-IsTruthful heard response a h = record {
  now = Published-later heard response a.snapshot h.now;
  revisions = omega (arith, h.revisions);
  told = All-mono _ _ a.notified h.told λ x k. (Published-later heard response x.1 k.0, k.1);
}

-- What changes neither the snapshot nor what was told.
pub same-IsTruthful :
    (heard : List (Option Response)) (a b : HttpAdapter)
    → b.snapshot ≡ a.snapshot
    → b.notified ≡ a.notified
    → IsTruthful heard a
    → IsTruthful heard b
same-IsTruthful heard a b s n h = record {
  now = subst (Published heard) (sym s) h.now;
  revisions =
      subst (λ (x : LoadgenTelemetrySnapshot). x.revision ≤ length heard) (sym s) h.revisions;
  told =
      subst (λ l. All (Told heard b.snapshot.revision) l) (sym n)
        (subst (λ (x : LoadgenTelemetrySnapshot). All (Told heard x.revision) a.notified) (sym s)
          h.told);
}

told-all :
    (P : ℕ × LoadgenTelemetrySnapshot → Type 0) (snapshot : LoadgenTelemetrySnapshot)
    → ((l : ℕ) → P (l, snapshot))
    → (listeners : List ℕ) → All P (map (λ l. (l, snapshot)) listeners)
told-all P snapshot h [] = tt
told-all P snapshot h (l ∷ ls) = (h l, told-all P snapshot h ls)

snapshot_of-Tells :
    (revision : ℕ) (response : Option Response)
    → Tells response (snapshot_of revision (decoded response))
snapshot_of-Tells revision none =
    inr (λ wire s. s, create_snapshot-IsBlank revision ConnectionState.error)
snapshot_of-Tells revision (some response) = tells (decode_response response) refl
  where
    tells :
        (o : Option WireSnapshot)
        → decode_response response ≡ o
        → Tells (some response) (snapshot_of revision o)
    tells none e = inr (
      λ wire s. absurd (cc (Succeeds-decode_response response wire s, e)),
      create_snapshot-IsBlank revision ConnectionState.error,
    )
    tells (some wire) e = inl (
      wire,
      decode_response-Succeeds response wire e,
      create_snapshot-Carries revision wire
          (Yields-some IsSnapshot _ (decode_response-Yields response) e),
    )

publish-IsTruthful :
    (heard : List (Option Response)) (response : Option Response) (a : HttpAdapter)
    → IsTruthful heard a
    → IsTruthful
        (response ∷ heard)
        (publish (snapshot_of (a.snapshot.revision + 1) (decoded response)) (settled a))
unfolding publish
publish-IsTruthful heard response a h =
    let s = snapshot_of (a.snapshot.revision + 1) (decoded response) in
    let right : s.revision ≡ a.snapshot.revision + 1 =
      snapshot_of-revision (a.snapshot.revision + 1) (decoded response) in
    let new : Published (response ∷ heard) s =
      inr (response, (0, refl), snapshot_of-Tells (a.snapshot.revision + 1) response) in
    record {
      now = new;
      revisions = omega (arith, right, h.revisions);
      told =
          All-append _ a.notified _
            (All-mono _ _ a.notified h.told
              λ x k. (Published-later heard response x.1 k.0, omega (arith, right, k.1)))
            (told-all _ s (λ l. (new, omega arith)) a.listeners);
    }
  where
    snapshot_of-revision :
        (revision : ℕ) (wire : Option WireSnapshot)
        → (snapshot_of revision wire).revision ≡ revision
    snapshot_of-revision revision none = refl
    snapshot_of-revision revision (some wire) = refl

pub poll_settled-IsTruthful :
    (heard : List (Option Response)) (response : Option Response) (a : HttpAdapter)
    → IsTruthful heard a
    → IsTruthful (response ∷ heard) (poll_settled response a)
unfolding poll_settled
poll_settled-IsTruthful heard response a h =
    let later = later-IsTruthful heard response a h in
    both_branches (IsTruthful (response ∷ heard)) (not a.request_in_flight) _ _ later (
      both_branches (IsTruthful (response ∷ heard)) a.disposed _ _
        (same-IsTruthful (response ∷ heard) a (settled a) refl refl later)
        (publish-IsTruthful heard response a h))
