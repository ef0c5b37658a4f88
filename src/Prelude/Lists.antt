-- ===== src/Prelude/Lists.antt =====
-- Lists measured and indexed by native numbers, sums over lists, and the predicate on all entries.
use Prim.Native.Nat.{ℕ, zero, suc, ◌+◌, ◌≤◌, ◌<◌}
use mathlib.Core.Path.{◌≡◌, refl, ap}
use mathlib.Core.List.{List, [], ◌∷◌, ◌++◌}
use mathlib.Core.Logic.{inl, inr}
use mathlib.Core.Option.{Option, none, some}
use mathlib.Core.Bool.{Bool, true, false}
use native.Mathlib.Omega.{arith}
use ingestion_lab_loadgen.Prelude.Tests.{if◌then◌else◌, ◌==◌, Bool-cases}

module _ {ℓ} {A : Type ℓ} where
  abbrev pub length : List A → ℕ
  length [] = 0
  length (x ∷ xs) = suc (length xs)

  -- `xs[0] ?? null`
  abbrev pub head? : List A → Option A
  head? [] = none
  head? (x ∷ xs) = some x

  -- `xs.shift()`, without what it returns
  abbrev pub tail : List A → List A
  tail [] = []
  tail (x ∷ xs) = xs

  abbrev pub get_elem? : List A → ℕ → Option A
  get_elem? [] i = none
  get_elem? (x ∷ xs) zero = some x
  get_elem? (x ∷ xs) (suc i) = get_elem? xs i

  -- A write out of bounds changes nothing.
  abbrev pub set : List A → ℕ → A → List A
  set [] i v = []
  set (x ∷ xs) zero v = v ∷ xs
  set (x ∷ xs) (suc i) v = x ∷ set xs i v

  -- `xs.filter(test)`
  abbrev pub filter : (A → Bool) → List A → List A
  filter test [] = []
  filter test (x ∷ xs) = if test x then x ∷ filter test xs else filter test xs

  -- `xs.some(test)`
  abbrev pub any : (A → Bool) → List A → Bool
  any test [] = false
  any test (x ∷ xs) = if test x then true else any test xs

  -- `Array.from({ length: n }, (_, ordinal) => f(ordinal))`, the ordinals from `first` on.
  abbrev pub generate : (ℕ → A) → ℕ → ℕ → List A
  generate f first zero = []
  generate f first (suc n) = f first ∷ generate f (suc first) n

  -- The sum of a measure over a list.
  abbrev pub sum_by : (A → ℕ) → List A → ℕ
  sum_by f [] = 0
  sum_by f (x ∷ xs) = f x + sum_by f xs

  abbrev pub All {κ} : (A → Type κ) → List A → Type κ
  All P [] = Unit
  All P (x ∷ xs) = P x × All P xs

-- `xs.includes(n)`
abbrev pub includes : List ℕ → ℕ → Bool
includes [] n = false
includes (x ∷ xs) n = if x == n then true else includes xs n

module _ {ℓ} {A : Type ℓ} where
  pub length-append : (xs ys : List A) → length (xs ++ ys) ≡ length xs + length ys
  length-append [] ys = omega arith
  length-append (x ∷ xs) ys = omega (arith, length-append xs ys)

  pub length-set : (xs : List A) (i : ℕ) (v : A) → length (set xs i v) ≡ length xs
  length-set [] i v = refl
  length-set (x ∷ xs) zero v = refl
  length-set (x ∷ xs) (suc i) v = ap suc (length-set xs i v)

  pub length-generate : (f : ℕ → A) (first n : ℕ) → length (generate f first n) ≡ n
  length-generate f first zero = refl
  length-generate f first (suc n) = ap suc (length-generate f (suc first) n)

  pub length-filter-le : (test : A → Bool) (xs : List A) → length (filter test xs) ≤ length xs
  length-filter-le test [] = omega arith
  length-filter-le test (x ∷ xs) = ground (arith, length-filter-le test xs)

  pub get_elem?-lt : (xs : List A) (i : ℕ) → i < length xs → (x : A) × (get_elem? xs i ≡ some x)
  get_elem?-lt [] i h = elim h [ ]
  get_elem?-lt (x ∷ xs) zero h = (x, refl)
  get_elem?-lt (x ∷ xs) (suc i) h = get_elem?-lt xs i (omega arith)

  pub lt_of_get_elem? : (xs : List A) (i : ℕ) {x : A} → get_elem? xs i ≡ some x → i < length xs
  lt_of_get_elem? [] i h = cc
  lt_of_get_elem? (x ∷ xs) zero h = omega arith
  lt_of_get_elem? (x ∷ xs) (suc i) h = omega (arith, lt_of_get_elem? xs i h)

  -- Writing one entry moves a sum by the difference of the two entries.
  pub sum_by-set :
      (f : A → ℕ) (xs : List A) (i : ℕ) {x : A} (v : A)
      → get_elem? xs i ≡ some x
      → sum_by f (set xs i v) + f x ≡ sum_by f xs + f v
  sum_by-set f [] i v h = cc
  sum_by-set f (x ∷ xs) zero v h = ground arith
  sum_by-set f (y ∷ xs) (suc i) v h = omega (arith, sum_by-set f xs i v h)

  pub sum_by-append : (f : A → ℕ) (xs ys : List A) → sum_by f (xs ++ ys) ≡ sum_by f xs + sum_by f ys
  sum_by-append f [] ys = omega arith
  sum_by-append f (x ∷ xs) ys = omega (arith, sum_by-append f xs ys)

module _ {ℓ κ} {A : Type ℓ} (P : A → Type κ) where
  pub All-get : (xs : List A) (i : ℕ) {x : A} → All P xs → get_elem? xs i ≡ some x → P x
  All-get [] i a h = cc
  All-get (x ∷ xs) zero a h = ground arith
  All-get (x ∷ xs) (suc i) a h = All-get xs i a.1 h

  pub All-set : (xs : List A) (i : ℕ) (v : A) → All P xs → P v → All P (set xs i v)
  All-set [] i v a h = a
  All-set (x ∷ xs) zero v a h = (h, a.1)
  All-set (x ∷ xs) (suc i) v a h = (a.0, All-set xs i v a.1 h)

  pub All-append : (xs ys : List A) → All P xs → All P ys → All P (xs ++ ys)
  All-append [] ys a b = b
  All-append (x ∷ xs) ys a b = (a.0, All-append xs ys a.1 b)

  pub All-generate : (f : ℕ → A) (first n : ℕ) → ((k : ℕ) → P (f k)) → All P (generate f first n)
  All-generate f first zero h = tt
  All-generate f first (suc n) h = (h first, All-generate f (suc first) n h)

  pub All-filter : (test : A → Bool) (xs : List A) → All P xs → All P (filter test xs)
  All-filter test [] a = a
  All-filter test (x ∷ xs) a = ground (arith, All-filter test xs a.1)

pub All-mono {ℓ κ μ} :
    {A : Type ℓ} (P : A → Type κ) (Q : A → Type μ) (xs : List A)
    → All P xs
    → ((x : A) → P x → Q x)
    → All Q xs
All-mono P Q [] a k = tt
All-mono P Q (x ∷ xs) a k = (k x a.0, All-mono P Q xs a.1 k)

pub includes→get_elem? :
    (xs : List ℕ) (n : ℕ) → includes xs n ≡ true → (i : ℕ) × (get_elem? xs i ≡ some n)
includes→get_elem? [] n h = cc
includes→get_elem? (x ∷ xs) n h = elim (Bool-cases (x == n)) [
  | inl e ↦ (0, ap some (ground arith))
  | inr e ↦ let later = includes→get_elem? xs n (ground arith) in (suc later.0, later.1)
]

pub get_elem?→includes :
    (xs : List ℕ) (i : ℕ) {n : ℕ} → get_elem? xs i ≡ some n → includes xs n ≡ true
get_elem?→includes [] i h = cc
get_elem?→includes (x ∷ xs) zero h = ground arith
get_elem?→includes (x ∷ xs) (suc i) {n} h = ground (arith, get_elem?→includes xs i h)
