-- ===== src/SimulationAdapter/Ranges/Grid.antt =====
-- A requested value becomes one of its range's positions, and positions stay as they are.
use native.Mathlib.Nat.{div-eq_of_lt-le}
use ingestion_lab_loadgen.Prelude.{
  ℕ, ◌+◌, ◌-◌, ◌*◌, ◌≤◌, ◌<◌, ◌≡◌, refl, sym, ap, ◌∙◌, ◌⊎◌, inl, inr, min, max, arith,
}
use ingestion_lab_loadgen.Prelude.Int.{ℤ, pos}
use ingestion_lab_loadgen.SimulationAdapter.Ranges.{
  NumericRange, clamp, round_ratio, normalize_numeric_value,
}

-- A range whose ends are positions: it has a step, and a whole number of them.
abbrev pub IsRange : NumericRange → Type 0
IsRange range = (0 < range.step) × ((k : ℕ) × (range.highest ≡ range.lowest + k * range.step))

abbrev pub IsPosition : NumericRange → ℕ → Type 0
IsPosition range n =
    (range.lowest ≤ n) × (n ≤ range.highest) × ((k : ℕ) × (n ≡ range.lowest + k * range.step))

clamp-cases :
    (range : NumericRange) (n : ℕ)
    → range.lowest ≤ range.highest
    → range.lowest ≤ n
    → ((clamp range n ≡ n) × (n ≤ range.highest)) ⊎ (clamp range n ≡ range.highest)
clamp-cases range n h k = ground arith

clamp-IsPosition :
    (range : NumericRange) (k : ℕ)
    → IsRange range
    → IsPosition range (clamp range (range.lowest + k * range.step))
clamp-IsPosition range k (s, (most, e)) =
    elim (clamp-cases range (range.lowest + k * range.step) (omega (arith, e)) (omega arith)) [
      | inl (p, q) ↦ rw (p) (omega arith, q, (k, refl))
      | inr p ↦ rw (p) (omega (arith, e), omega arith, (most, e))
    ]

-- In a range whose ends are a whole number of steps apart, every finite value becomes a position of
-- the range: not below its least value, not above its greatest, and a whole number of steps up.
pub normalize_numeric_value-IsPosition :
    (z : ℤ) (n : ℕ) (range : NumericRange)
    → IsRange range
    → IsPosition range (normalize_numeric_value z n range)
unfolding normalize_numeric_value
normalize_numeric_value-IsPosition z n range r = clamp-IsPosition range _ r

round_ratio-exact : (k d : ℕ) → 0 < d → round_ratio (k * d) d ≡ k
round_ratio-exact k d h = div-eq_of_lt-le (2 * d) (omega arith) (omega arith)

-- A value that is a position already stays as it is.
pub normalize_numeric_value-fixed :
    (m : ℕ) (range : NumericRange)
    → IsRange range
    → IsPosition range m
    → normalize_numeric_value (pos m) 0 range ≡ m
unfolding normalize_numeric_value
normalize_numeric_value-fixed m range (s, w) (l, u, (k, e)) =
    let up : min (range.highest * 1) (max (range.lowest * 1) m) - range.lowest * 1
        ≡ k * (range.step * 1) =
      omega arith in
    let steps : round_ratio (min (range.highest * 1) (max (range.lowest * 1) m) - range.lowest * 1)
          (range.step * 1)
        ≡ k =
      ap {B = ℕ} (λ x. round_ratio x (range.step * 1)) up
      ∙ round_ratio-exact k (range.step * 1) (omega arith) in
    ap {B = ℕ} (λ x. clamp range (range.lowest + x * range.step)) steps
    ∙ ap (clamp range) (sym e)
    ∙ omega arith
