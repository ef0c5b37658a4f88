-- ===== src/Hooks/SnapshotHook/Reads.antt =====
-- What the presentation hook returns, read after read.
use ingestion_lab_loadgen.Loadgen.{LoadgenSnapshot, LoadgenTelemetrySnapshot}
use ingestion_lab_loadgen.Prelude.{
  Bool-cases, List, Option, [], and_elim, ap, arith, false, inl, inr, is_some, none, refl, some,
  subst, sym, true, ℕ, ◌&&◌, ◌∙◌, ◌∷◌, ◌≡◌,
}
use ingestion_lab_loadgen.Hooks.PauseFrozen
use ingestion_lab_loadgen.Hooks.PauseFrozen.{
  PauseFrozenObservedDeriver, Presented, is_source, presented,
}
use ingestion_lab_loadgen.Hooks.PauseFrozen.Scan.{
  RemembersAll, again-Remembers, derive-Remembers, is_source-same, observed, shown, shown_at_again,
}
use ingestion_lab_loadgen.Hooks.SnapshotHook.{
  Derivation, LoadgenSnapshotPresentation, create_derivation, derive_presentation, get_snapshot,
  presentation_of,
}
use ingestion_lab_loadgen.ChannelFlow.Deriver.Content.{Derives, DerivesOne, derive-DerivesOne}
use ingestion_lab_loadgen.ChannelFlow.Deriver.Display.{
  Displays, IsBounded, create_deriver-IsBounded, derive-IsBounded, derive-Displays, DisplaysOne,
}

-- A presentation of the snapshot with this reference: what the paused view shows of it, as frozen as
-- the view says, with its channels, whose pressures are between 0 and 1.
abbrev pub Shows : ℕ → Presented → Option LoadgenSnapshotPresentation → Type 0
Shows reference view none = ⊥
Shows reference view (some p) =
    (p.live_snapshot ≡ reference)
    × (p.frozen_observed ≡ view.frozen_observed)
    × Derives view.snapshot p.snapshot
    × Displays p.snapshot

Shows-is_some :
    (reference : ℕ) (view : Presented) (p : Option LoadgenSnapshotPresentation)
    → Shows reference view p
    → is_some p ≡ true
Shows-is_some reference view none h = absurd h
Shows-is_some reference view (some p) h = refl

presentation_of-Shows :
    (reference : ℕ) (view : Presented) (s : Option LoadgenSnapshot)
    → DerivesOne view.snapshot s
    → DisplaysOne s
    → Shows reference view (presentation_of reference view.frozen_observed s)
presentation_of-Shows reference view none c h = h
presentation_of-Shows reference view (some s) c h = (refl, refl, c, h)

module _ (object : ℕ → LoadgenTelemetrySnapshot) where
  -- What the hook remembers of the snapshots that were read, the latest first.
  abbrev pub ShowsLatest : List ℕ → Option ℕ → Option LoadgenSnapshotPresentation → Type 0
  ShowsLatest [] source p = source ≡ none
  ShowsLatest (r ∷ rs) source p = (source ≡ some r) × Shows r (shown object r rs) p

  pub record IsCurrent (rs : List ℕ) (d : Derivation) : Type 0 where
    pub bounded : IsBounded d.channel_deriver
    pub pause : RemembersAll object rs d.pause_deriver
    pub aligned : d.channel_deriver.source_snapshot ≡ d.source_snapshot
    pub shows : ShowsLatest rs d.source_snapshot d.presentation

  create_derivation-IsCurrent : IsCurrent [] create_derivation
  create_derivation-IsCurrent = record {
    bounded = create_deriver-IsBounded;
    pause = refl;
    aligned = refl;
    shows = refl;
  }

  -- The snapshot that was read last is read again.
  same-IsCurrent :
      (reference : ℕ) (rs : List ℕ) (d : Derivation)
      → is_source reference d.source_snapshot ≡ true
      → IsCurrent rs d
      → IsCurrent (reference ∷ rs) d
  same-IsCurrent reference [] d e h =
      absurd (ground (arith, subst (λ o. is_source reference o ≡ true) h.shows e))
  same-IsCurrent reference (r ∷ rs) d e h =
      let same = is_source-same object reference r d.source_snapshot h.shows.0 e in
      let again = shown_at_again object (object r).run_state r (observed object rs) in
      subst (λ n. IsCurrent (n ∷ r ∷ rs) d) same
        (record {
          bounded = h.bounded;
          pause = again-Remembers object r rs d.pause_deriver h.pause;
          aligned = h.aligned;
          shows = (h.shows.0, subst (λ v. Shows r v d.presentation) (sym again) h.shows.1);
        })

  -- Another one is none that a deriver remembers.
  other-source :
      (reference : ℕ) (rs : List ℕ) (d : Derivation)
      → (is_source reference d.source_snapshot && is_some d.presentation) ≡ false
      → IsCurrent rs d
      → is_source reference d.channel_deriver.source_snapshot ≡ false
  other-source reference [] d e h = ap (is_source reference) (h.aligned ∙ h.shows)
  other-source reference (r ∷ rs) d e h =
      let there = Shows-is_some r (shown object r rs) d.presentation h.shows.1 in
      ap (is_source reference) h.aligned ∙ ground (arith, e, there)

  derive_presentation-IsCurrent :
      (reference : ℕ) (now : Option ℕ) (rs : List ℕ) (d : Derivation)
      → is_source reference d.channel_deriver.source_snapshot ≡ false
      → IsCurrent rs d
      → IsCurrent (reference ∷ rs) (derive_presentation object reference now d)
  derive_presentation-IsCurrent reference now rs d e h =
      let pause = PauseFrozen.derive object reference d.pause_deriver in
      let view = presented object reference pause in
      let kept = derive-Remembers object reference rs d.pause_deriver h.pause in
      let content = derive-DerivesOne reference view.snapshot now d.channel_deriver e in
      let fits = derive-Displays reference view.snapshot now d.channel_deriver h.bounded in
      record {
        bounded = derive-IsBounded reference view.snapshot now d.channel_deriver h.bounded;
        pause = kept;
        aligned = content.1;
        shows = (
          refl,
          subst (λ v. Shows reference v (derive_presentation object reference now d).presentation)
              kept.display (presentation_of-Shows reference view _ content.0 fits),
        );
      }

  get_snapshot-IsCurrent :
      (reference : ℕ) (now : Option ℕ) (rs : List ℕ) (d : Derivation)
      → IsCurrent rs d
      → IsCurrent (reference ∷ rs) (get_snapshot object reference now d)
  unfolding get_snapshot
  get_snapshot-IsCurrent reference now rs d h =
      elim (Bool-cases (is_source reference d.source_snapshot && is_some d.presentation)) [
        | inl e ↦ rw e (same-IsCurrent reference rs d (and_elim _ _ e).0 h)
        | inr e ↦
            rw e
              (derive_presentation-IsCurrent reference now rs d (other-source reference rs d e h) h)
      ]

  -- The reads, the latest first, each with the adapter's snapshot and the time.
  abbrev pub get_all : List (ℕ × Option ℕ) → Derivation
  get_all [] = create_derivation
  get_all ((reference, now) ∷ reads) = get_snapshot object reference now (get_all reads)

  abbrev pub references : List (ℕ × Option ℕ) → List ℕ
  references [] = []
  references ((reference, now) ∷ reads) = reference ∷ references reads

  get_all-IsCurrent : (reads : List (ℕ × Option ℕ)) → IsCurrent (references reads) (get_all reads)
  get_all-IsCurrent [] = create_derivation-IsCurrent
  get_all-IsCurrent ((reference, now) ∷ reads) =
      get_snapshot-IsCurrent reference now (references reads) (get_all reads)
        (get_all-IsCurrent reads)

  -- After any reads, at whatever times, a read returns a presentation, derived anew or remembered, of
  -- the adapter's snapshot at that moment. Its telemetry, and that of both channels, is what a scan of
  -- the snapshots read so far shows for the latest, frozen measurements included, it is marked as
  -- frozen just when the scan says so, and the pressures of both channels are between 0 and 1.
  pub get_snapshot-Shows :
      (reads : List (ℕ × Option ℕ)) (reference : ℕ) (now : Option ℕ)
      → Shows reference
          (shown object reference (references reads))
          (get_snapshot object reference now (get_all reads)).presentation
  get_snapshot-Shows reads reference now =
      (get_snapshot-IsCurrent reference now (references reads) (get_all reads)
        (get_all-IsCurrent reads)).shows.1
