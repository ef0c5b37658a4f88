-- ===== src/Simulation/Workers/Search.antt =====
-- The round-robin search finds an idle worker that is not retiring exactly when there is one.
use native.Mathlib.Nat.{mod-eq_of_lt, add-mod_right}
use ingestion_lab_loadgen.Prelude.{
  ℕ, zero, suc, ◌+◌, ◌-◌, ◌%◌, ◌≤◌, ◌<◌, ◌≡◌, refl, ap, subst, ◌∙◌, ◌⊎◌, inl, inr, Option, none,
  some, true, false, Bool-cases, List, [], ◌∷◌, arith, length, get_elem?, get_elem?-lt,
  lt_of_get_elem?,
}
use ingestion_lab_loadgen.Prelude.Results.{Returns-mono, Returns, Result, ok}
use ingestion_lab_loadgen.Simulation.Types.{SenderWorker, is_idle, idle}
use ingestion_lab_loadgen.Simulation.State.{Simulation}
use ingestion_lab_loadgen.Simulation.Workers.{
  is_available, scan_workers, search_idle, next_idle_worker,
}
use ingestion_lab_loadgen.Prelude.Results.{throw}

-- What stands `offset` places past `next`, round the list.
abbrev pub at_offset : List SenderWorker → ℕ → ℕ → Option SenderWorker
at_offset workers next offset = get_elem? workers ((next + offset) % length workers)

-- A worker at an offset below `rounds` is not available.
abbrev pub NoneBefore : List SenderWorker → ℕ → ℕ → Type 0
NoneBefore workers next rounds =
    (offset : ℕ) (w : SenderWorker)
    → offset < rounds
    → at_offset workers next offset ≡ some w
    → is_available w ≡ false

-- The first available worker from `next` on, round the list; none if no worker is available.
abbrev pub FirstFound : List SenderWorker → ℕ → Option (ℕ × SenderWorker) → Type 0
FirstFound workers next none = NoneBefore workers next (length workers)
FirstFound workers next (some (index, w)) =
    (get_elem? workers index ≡ some w)
    × (is_available w ≡ true)
    × ((k : ℕ) × (k < length workers)
        × (index ≡ (next + k) % length workers)
        × NoneBefore workers next k)

NoneBefore-step :
    (ws : List SenderWorker) (next k : ℕ) (w : SenderWorker)
    → at_offset ws next k ≡ some w
    → is_available w ≡ false
    → NoneBefore ws next k
    → NoneBefore ws next (k + 1)
NoneBefore-step ws next k w e n before j v lt ej = elim (lt_or_eq j k lt) [
  | inl h ↦ before j v h ej
  | inr h ↦ cc
]
  where
    lt_or_eq : (j k : ℕ) → j < k + 1 → (j < k) ⊎ (j ≡ k)
    lt_or_eq j k h = grind arith

scan_workers-FirstFound :
    (ws : List SenderWorker) (next offset rounds : ℕ)
    → 0 < length ws
    → offset + rounds ≡ length ws
    → NoneBefore ws next offset
    → Returns (FirstFound ws next) (scan_workers ws next offset rounds)
unfolding scan_workers
scan_workers-FirstFound ws next offset zero pos e before =
    subst (NoneBefore ws next) (omega arith) before
scan_workers-FirstFound ws next offset (suc rounds) pos e before =
    let (w, ew) = get_elem?-lt ws ((next + offset) % length ws) (grind arith) in
    elim (Bool-cases (is_available w)) [
      | inl yes_ ↦ rw (ew, scan_workers, yes_) (ew, yes_, (offset, omega arith, refl, before))
      | inr no_ ↦
          rw (ew, scan_workers, no_)
            (scan_workers-FirstFound ws next (offset + 1) rounds pos (omega arith)
              (NoneBefore-step ws next offset w ew no_ before))
    ]

-- Every position is at some offset from `next`.
offset_of : (n next j : ℕ) → next < n → j < n → (k : ℕ) × (k < n) × ((next + k) % n ≡ j)
offset_of n next j h p = elim (le_or_lt next j) [
  | inl q ↦ (j - next, omega arith, rw (add-sub next j q) (mod-eq_of_lt p))
  | inr q ↦ (
    j + n - next,
    omega arith,
    rw (add-sub next (j + n) (omega arith)) (add-mod_right j n ∙ mod-eq_of_lt p),
  )
]
  where
    le_or_lt : (a b : ℕ) → (a ≤ b) ⊎ (b < a)
    le_or_lt a b = grind arith

    add-sub : (a b : ℕ) → a ≤ b → a + (b - a) ≡ b
    add-sub a b h = omega arith

All-NoneBefore :
    (ws : List SenderWorker) (next : ℕ)
    → next < length ws
    → NoneBefore ws next (length ws)
    → (j : ℕ) (w : SenderWorker) → get_elem? ws j ≡ some w
    → is_available w ≡ false
All-NoneBefore ws next h before j w e =
    let (k, hk, ek) = offset_of (length ws) next j h (lt_of_get_elem? ws j e) in
    before k w hk (rw ek e)

-- What the search returns, with the simulation as it leaves it.
abbrev pub Found : Simulation → ℕ → Option (ℕ × SenderWorker) × Simulation → Type 0
Found s next (none, s') =
    (s' ≡ s)
    × ((j : ℕ) (w : SenderWorker) → get_elem? s.workers j ≡ some w → is_available w ≡ false)
Found s next (some (index, w), s') =
    (s' ≡ record s { next_worker_index = some ((index + 1) % length s.workers) })
    × FirstFound s.workers next (some (index, w))

next_idle_worker-Found' :
    (s : Simulation) (next : ℕ) (r : Result (Option (ℕ × SenderWorker)))
    → next < length s.workers
    → search_idle s.workers s.next_worker_index ≡ r
    → Returns (FirstFound s.workers next) r
    → Returns (Found s next) (next_idle_worker s)
unfolding next_idle_worker
next_idle_worker-Found' s next (ok none) h e v =
    rw (e, next_idle_worker) (refl, All-NoneBefore s.workers next h v)
next_idle_worker-Found' s next (ok (some (i, w))) h e v = rw (e, next_idle_worker) (refl, v)
next_idle_worker-Found' s next (throw fault) h e v = absurd v

search_idle-FirstFound :
    (ws : List SenderWorker) (next : ℕ)
    → next < length ws
    → Returns (FirstFound ws next) (search_idle ws (some next))
unfolding search_idle
search_idle-FirstFound [] next h = elim h [ ]
search_idle-FirstFound (w ∷ ws) next h =
    scan_workers-FirstFound (w ∷ ws) next 0 (length (w ∷ ws)) (omega arith) (omega arith)
      (λ offset v lt e. absurd (omega arith))

pub next_idle_worker-Found :
    (s : Simulation) (next : ℕ)
    → s.next_worker_index ≡ some next
    → next < length s.workers
    → Returns (Found s next) (next_idle_worker s)
next_idle_worker-Found s next e h =
    next_idle_worker-Found' s next _ h (ap (search_idle s.workers) e)
      (search_idle-FirstFound s.workers next h)

-- What the search promises of the worker that it returns, in the worker's own fields.
abbrev pub Chosen : Simulation → ℕ → Option (ℕ × SenderWorker) × Simulation → Type 0
Chosen s next (none, s') =
    (s' ≡ s)
    × ((j : ℕ) (w : SenderWorker)
        → get_elem? s.workers j ≡ some w
        → (w.retiring ≡ true) ⊎ (is_idle w.state ≡ false))
Chosen s next (some (index, w), s') =
    Found s next (some (index, w), s') × (w.retiring ≡ false) × (w.state ≡ idle)

available-fields :
    (w : SenderWorker) → is_available w ≡ true → (w.retiring ≡ false) × (w.state ≡ idle)
available-fields w e = ground arith

unavailable-fields :
    (w : SenderWorker) → is_available w ≡ false → (w.retiring ≡ true) ⊎ (is_idle w.state ≡ false)
unavailable-fields w e = ground arith

Found-Chosen :
    (s : Simulation) (next : ℕ) (r : Option (ℕ × SenderWorker) × Simulation)
    → Found s next r
    → Chosen s next r
Found-Chosen s next (none, s') (e, h) = (e, λ j w g. unavailable-fields w (h j w g))
Found-Chosen s next (some (index, w), s') f = let g = available-fields w f.1.1 in (f, g.0, g.1)

-- From an index that is a position the search returns the first worker, counting round the list from
-- the index, that is idle and not retiring, and leaves the index behind it; it finds none only if each
-- worker is retiring or not idle, and then changes nothing.
pub next_idle_worker-Chosen :
    (s : Simulation) (next : ℕ)
    → s.next_worker_index ≡ some next
    → next < length s.workers
    → Returns (Chosen s next) (next_idle_worker s)
next_idle_worker-Chosen s next e h =
    Returns-mono (Found s next) (Chosen s next) (next_idle_worker s)
      (next_idle_worker-Found s next e h) (Found-Chosen s next)
