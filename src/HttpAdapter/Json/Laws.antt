-- ===== src/HttpAdapter/Json/Laws.antt =====
-- How results are read off the checks of a value, and which values pass them.
use ingestion_lab_loadgen.Prelude.{Bool, Option, none, some, true, ℕ, ◌≡◌, arith, subst, ap}
use ingestion_lab_loadgen.Loadgen.{NumberValue, fraction, not_finite}
use ingestion_lab_loadgen.HttpAdapter.Valid.{IsSafe}
use ingestion_lab_loadgen.HttpAdapter.Encode.{natural}
use ingestion_lab_loadgen.HttpAdapter.Json.{
  Value, accept, array, boolean, null, number, object, safe_integer, string, undefined,
  wire_integer, ◌>>=◌,
}
use ingestion_lab_loadgen.Prelude.Int.{negsuc, pos}

-- What the value holds, if there is one, satisfies `P`.
pub Yields {ℓ} : {A : Type ℓ} → (A → Type 0) → Option A → Type 0
Yields P none = Unit
Yields P (some a) = P a

pub Yields-none {ℓ} : {A : Type ℓ} (Q : A → Type 0) → Yields Q none
unfolding Yields
Yields-none Q = tt

pub Yields-pure {ℓ} : {A : Type ℓ} (Q : A → Type 0) (a : A) → Q a → Yields Q (some a)
unfolding Yields
Yields-pure Q a h = h

module _ {ℓ κ} {A : Type ℓ} {B : Type κ} (Q : B → Type 0) where
  pub Yields-bind :
      (P : A → Type 0) (m : Option A) (f : A → Option B)
      → Yields P m
      → ((a : A) → P a → Yields Q (f a))
      → Yields Q (m >>= f)
  unfolding Yields ◌>>=◌
  Yields-bind P none f h k = tt
  Yields-bind P (some a) f h k = k a h

  pub Yields-any :
      (m : Option A) (f : A → Option B) → ((a : A) → Yields Q (f a)) → Yields Q (m >>= f)
  unfolding Yields ◌>>=◌
  Yields-any none f k = tt
  Yields-any (some a) f k = k a

pub Yields-accept {ℓ} :
    {A : Type ℓ} (Q : A → Type 0) (passes : A → Bool) (a : A)
    → (passes a ≡ true → Q a)
    → Yields Q (accept passes a)
unfolding Yields accept
Yields-accept Q passes a k = ground arith

pub Yields-some {ℓ} :
    {A : Type ℓ} (P : A → Type 0) (m : Option A) {a : A} → Yields P m → m ≡ some a → P a
unfolding Yields
Yields-some P none h e = cc
Yields-some P (some a) h e = subst (Yields P) e h

pub safe_integer-Yields : (value : NumberValue) → Yields IsSafe (safe_integer value)
unfolding Yields safe_integer
safe_integer-Yields (fraction (pos z) n) = ground arith
safe_integer-Yields (fraction (negsuc z) n) = tt
safe_integer-Yields not_finite = tt

pub wire_integer-Yields : (value : Value) → Yields IsSafe (wire_integer value)
unfolding Yields wire_integer
wire_integer-Yields (number value) = safe_integer-Yields value
wire_integer-Yields undefined = tt
wire_integer-Yields null = tt
wire_integer-Yields (boolean b) = tt
wire_integer-Yields (string s) = tt
wire_integer-Yields (array values) = tt
wire_integer-Yields (object members) = tt

-- A whole number in bounds is read as itself.
pub wire_integer-natural : (n : ℕ) → IsSafe n → wire_integer (natural n) ≡ some n
unfolding wire_integer safe_integer
wire_integer-natural n h = ground arith

pub accept-true {ℓ} :
    {A : Type ℓ} (passes : A → Bool) (a : A) → passes a ≡ true → accept passes a ≡ some a
unfolding accept
accept-true passes a h = ground arith

pub bind-some {ℓ κ} :
    {A : Type ℓ} {B : Type κ} {m : Option A} {a : A} (f : A → Option B)
    → m ≡ some a
    → (m >>= f) ≡ f a
unfolding ◌>>=◌
bind-some f h = ap (λ m. m >>= f) h
