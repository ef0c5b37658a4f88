-- ===== src/HttpAdapter/Json.antt =====
-- What `response.json()` gives, and the checks of frontend/src/adapters/HttpAdapter.ts on it. An
-- object's keys are distinct, as those of a parsed object are.
use Prim.Native.String.{String, compare}
pub mod Laws
use text.Mathlib.Text.{◌==◌ as str_eq, is_le}
use ingestion_lab_loadgen.Prelude.{
  ℕ, suc, ◌-◌, ◌/◌, ◌%◌, Bool, true, false, ◌&&◌, Option, none, some, List, [], ◌∷◌, leb, ◌==◌,
  if◌then◌else◌,
}
use ingestion_lab_loadgen.Prelude.Int.{pos, negsuc}
use ingestion_lab_loadgen.Loadgen.{
  NumberValue, fraction, not_finite, Rate, RangeControlConfigSnapshot,
}

-- A value that the code calls `unknown`; `undefined` is what a missing property gives.
mutual
  pub data Value : Type 0 where
    undefined null : Value
    boolean : Bool → Value
    number : NumberValue → Value
    string : String → Value
    array : Values → Value
    object : Members → Value

  pub data Values : Type 0 where
    nil : Values
    cons : Value → Values → Values

  pub data Members : Type 0 where
    end : Members
    member : String → Value → Members → Members

-- `value[key]`
unfoldable pub property : Members → String → Value
property end key = undefined
property (member name value members) key = if str_eq name key then value else property members key

-- `Object.keys(value)`
unfoldable pub keys : Members → List String
keys end = []
keys (member name value members) = name ∷ keys members

unfoldable pub insert_key : String → List String → List String
insert_key key [] = key ∷ []
insert_key key (k ∷ ks) = if is_le (compare key k) then key ∷ k ∷ ks else k ∷ insert_key key ks

-- `Object.keys(value).sort()`
unfoldable pub sort_keys : List String → List String
sort_keys [] = []
sort_keys (k ∷ ks) = insert_key k (sort_keys ks)

-- `actual.length === keys.length && actual.every((key, index) => key === keys[index])`
unfoldable pub same_keys : List String → List String → Bool
same_keys [] [] = true
same_keys (x ∷ xs) (y ∷ ys) = str_eq x y && same_keys xs ys
same_keys _ _ = false

-- `isExactObject`: the value's properties, if it is an object with these keys and no others.
unfoldable pub exact_object : List String → Value → Option Members
exact_object wanted (object members) =
    if same_keys (sort_keys (keys members)) wanted then some members else none
exact_object wanted other = none

-- `Number.MAX_SAFE_INTEGER`
abbrev pub max_safe_integer : ℕ
max_safe_integer = 9_007_199_254_740_991

-- `isWireInteger`, of a number: the whole number that it is, if it is one in bounds.
unfoldable pub safe_integer : NumberValue → Option ℕ
safe_integer (fraction (pos z) n) =
    if z % suc n == 0 && leb (z / suc n) max_safe_integer then some (z / suc n) else none
safe_integer (fraction (negsuc z) n) = none
safe_integer not_finite = none

-- `isWireInteger`
unfoldable pub wire_integer : Value → Option ℕ
wire_integer (number value) = safe_integer value
wire_integer other = none

-- `isWireNumber`
unfoldable pub wire_number : Value → Option Rate
wire_number (number (fraction (pos z) n)) = some (record { numerator = z; divisor = n })
wire_number other = none

-- `typeof value === 'string'`, and so for a Boolean
unfoldable pub wire_text : Value → Option String
wire_text (string s) = some s
wire_text other = none

unfoldable pub wire_boolean : Value → Option Bool
wire_boolean (boolean b) = some b
wire_boolean other = none

-- `isRangeValue`, of a whole number in bounds. The step is not 0 where it is called.
abbrev pub in_range : ℕ → RangeControlConfigSnapshot → Bool
in_range n config = leb config.min n && leb n config.max && (n - config.min) % config.step == 0

infixl 5 ◌>>=◌
unfoldable pub ◌>>=◌ {ℓ κ} : {A : Type ℓ} {B : Type κ} → Option A → (A → Option B) → Option B
none >>= f = none
some a >>= f = f a

-- A value that passes the checks, and an error where it does not.
unfoldable pub accept {ℓ} : {A : Type ℓ} → (A → Bool) → A → Option A
accept passes a = if passes a then some a else none
