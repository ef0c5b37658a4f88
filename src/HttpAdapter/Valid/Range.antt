-- ===== src/HttpAdapter/Valid/Range.antt =====
-- A range of the configuration (frontend/src/adapters/HttpAdapter.ts): decoded, it is valid, and a
-- valid one is read back.
use text.Mathlib.TextEquality.{eq_iff}
use Prim.Native.String.{String}
use ingestion_lab_loadgen.Prelude.{some, ◌≡◌, Bool, arith, true, ℕ}
use ingestion_lab_loadgen.Loadgen.{RangeControlConfigSnapshot}
use ingestion_lab_loadgen.HttpAdapter.Encode.{encode_range}
use ingestion_lab_loadgen.HttpAdapter.Config.{read_range, decode_range, range_passes}
use ingestion_lab_loadgen.HttpAdapter.Valid.{IsRange, IsSafe, IsSetting}
use ingestion_lab_loadgen.HttpAdapter.Json.Laws.{
  wire_integer-natural, Yields, Yields-accept, Yields-any, Yields-bind, accept-true,
  wire_integer-Yields, Yields-pure,
}
use ingestion_lab_loadgen.HttpAdapter.Json.{
  exact_object, insert_key, keys, property, same_keys, sort_keys, wire_text, Value, in_range, ◌>>=◌,
}

pub read_range-encode_range :
    (unit mutability : String) (c : RangeControlConfigSnapshot)
    → IsRange unit mutability c
    → read_range (encode_range c) ≡ some c
unfolding read_range exact_object property keys sort_keys insert_key same_keys wire_text ◌>>=◌
read_range-encode_range unit mutability c h = rw (
  wire_integer-natural c.initial h.safe.0,
  wire_integer-natural c.min h.safe.1,
  wire_integer-natural c.max h.safe.2,
  wire_integer-natural c.step h.safe.3,
)

read_range-Yields :
    (value : Value)
    → Yields
        (λ c. IsSafe c.initial × IsSafe c.min × IsSafe c.max × IsSafe c.step)
        (read_range value)
unfolding read_range
read_range-Yields value = Yields-any _ _ _ (λ members.
    Yields-bind _ IsSafe _ _ (wire_integer-Yields _) (λ initial h_initial.
      Yields-bind _ IsSafe _ _ (wire_integer-Yields _) (λ lowest h_lowest.
        Yields-bind _ IsSafe _ _ (wire_integer-Yields _) (λ highest h_highest.
          Yields-bind _ IsSafe _ _ (wire_integer-Yields _) (λ step h_step. Yields-any _ _ _ (λ unit.
            Yields-any _ _ _
              (λ mutability. Yields-pure _ _ (h_initial, h_lowest, h_highest, h_step))))))))

pub in_range-IsSetting :
    (n : ℕ) (c : RangeControlConfigSnapshot) → in_range n c ≡ true → IsSetting n c
in_range-IsSetting n c h = record {
  above = ground arith;
  below = ground arith;
  on_grid = ground arith;
}

pub IsSetting-in_range :
    (n : ℕ) (c : RangeControlConfigSnapshot) → IsSetting n c → in_range n c ≡ true
IsSetting-in_range n c h = ground (arith, h.above, h.below, h.on_grid)

range_passes-IsRange :
    (unit mutability : String) (bounds : ℕ → ℕ → Bool) (c : RangeControlConfigSnapshot)
    → IsSafe c.initial × IsSafe c.min × IsSafe c.max × IsSafe c.step
    → range_passes unit mutability bounds c ≡ true
    → IsRange unit mutability c × bounds c.min c.max ≡ true
range_passes-IsRange unit mutability bounds c safe h = (
  record {
    safe = safe;
    initial_setting = in_range-IsSetting c.initial c (ground arith);
    positive_step = ground arith;
    right_unit = (eq_iff _ _).0 (ground arith);
    right_mutability = (eq_iff _ _).0 (ground arith);
  },
  ground arith,
)

IsRange-range_passes :
    (unit mutability : String) (bounds : ℕ → ℕ → Bool) (c : RangeControlConfigSnapshot)
    → IsRange unit mutability c
    → bounds c.min c.max ≡ true
    → range_passes unit mutability bounds c ≡ true
IsRange-range_passes unit mutability bounds c h b = ground (
  arith,
  b,
  h.positive_step,
  (eq_iff _ _).1 h.right_unit,
  (eq_iff _ _).1 h.right_mutability,
  IsSetting-in_range c.initial c h.initial_setting,
)

module _ (unit mutability : String) (bounds : ℕ → ℕ → Bool) where
  -- A range that is decoded is valid, and its ends pass the test.
  pub decode_range-Yields :
      (value : Value)
      → Yields
          (λ c. IsRange unit mutability c × bounds c.min c.max ≡ true)
          (decode_range unit mutability bounds value)
  unfolding decode_range
  decode_range-Yields value = Yields-bind _ _ _ _ (read_range-Yields value) (λ c safe.
      Yields-accept _ (range_passes unit mutability bounds) c
        (λ passes. range_passes-IsRange unit mutability bounds c safe passes))

  pub decode_range-encode_range :
      (c : RangeControlConfigSnapshot)
      → IsRange unit mutability c
      → bounds c.min c.max ≡ true
      → decode_range unit mutability bounds (encode_range c) ≡ some c
  unfolding decode_range ◌>>=◌
  decode_range-encode_range c h b = rw (read_range-encode_range unit mutability c h) (
      accept-true (range_passes unit mutability bounds) c
        (IsRange-range_passes unit mutability bounds c h b))
