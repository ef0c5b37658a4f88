-- ===== src/HttpAdapter/Valid/Lists.antt =====
-- The lists of allowed values, and the log level, of the configuration
-- (frontend/src/adapters/HttpAdapter.ts): decoded, they are valid, and valid ones are read back.
use text.Mathlib.TextEquality.{eq_iff}
use ingestion_lab_loadgen.Loadgen.{
  AllowedControlConfigSnapshot, InstalledConfigSnapshot, LogLevel, LoggingConfigSnapshot, debug,
  info, startup_only, warn, LogMutability,
}
use ingestion_lab_loadgen.Prelude.{
  All, All-get, All-mono, Bool, List, [], arith, false, get_elem?, get_elem?→includes,
  includes→get_elem?, inl, inr, not, refl, some, true, ℕ, ◌<◌, ◌∷◌, ◌≡◌, ◌⊎◌, ap,
}
use ingestion_lab_loadgen.HttpAdapter.Json.Laws.{
  Yields, Yields-accept, Yields-any, Yields-bind, Yields-pure, accept-true, wire_integer-Yields,
  wire_integer-natural,
}
use ingestion_lab_loadgen.HttpAdapter.Valid.{IsCapacityList, IsIncreasing, IsInstalledList, IsSafe}
use ingestion_lab_loadgen.HttpAdapter.Encode.{
  booleans, encode_capacity, encode_installed, encode_logging, naturals, level_name,
}
use ingestion_lab_loadgen.HttpAdapter.Config.{
  both_booleans, capacity_passes, decode_capacity, decode_installed, decode_logging,
  includes_boolean, increasing, increasing_from, installed_passes, is_empty, read_level,
  read_mutability, wire_array, wire_booleans, wire_integers,
}
use ingestion_lab_loadgen.HttpAdapter.Json.{
  Value, Values, cons, exact_object, insert_key, keys, nil, property, same_keys, sort_keys,
  wire_boolean, wire_text, ◌>>=◌,
}

wire_integers-Yields : (values : Values) → Yields (All IsSafe) (wire_integers values)
unfolding wire_integers
wire_integers-Yields nil = Yields-pure _ _ tt
wire_integers-Yields (cons value values) =
    Yields-bind _ IsSafe _ _ (wire_integer-Yields value) (λ n h.
      Yields-bind _ (All IsSafe) _ _ (wire_integers-Yields values)
        (λ ns hs. Yields-pure _ _ (h, hs)))

wire_integers-naturals : (ns : List ℕ) → All IsSafe ns → wire_integers (naturals ns) ≡ some ns
unfolding wire_integers ◌>>=◌
wire_integers-naturals [] h = refl
wire_integers-naturals (n ∷ ns) h = rw (wire_integer-natural n h.0, wire_integers-naturals ns h.1)

wire_booleans-booleans : (bs : List Bool) → wire_booleans (booleans bs) ≡ some bs
unfolding wire_booleans wire_boolean ◌>>=◌
wire_booleans-booleans [] = refl
wire_booleans-booleans (b ∷ bs) = rw (wire_booleans-booleans bs)

increasing_from-IsIncreasing :
    (previous : ℕ) (ns : List ℕ)
    → increasing_from previous ns ≡ true
    → All (λ m. previous < m) ns × IsIncreasing ns
unfolding increasing_from
increasing_from-IsIncreasing previous [] h = (tt, tt)
increasing_from-IsIncreasing previous (n ∷ ns) h =
    let later = increasing_from-IsIncreasing n ns (ground arith) in
    let first : previous < n = ground arith in
    ((first, All-mono _ _ ns later.0 (λ m l. omega arith)), later)

IsIncreasing-increasing_from :
    (previous : ℕ) (ns : List ℕ)
    → All (λ m. previous < m) ns
    → IsIncreasing ns
    → increasing_from previous ns ≡ true
unfolding increasing_from
IsIncreasing-increasing_from previous [] a h = refl
IsIncreasing-increasing_from previous (n ∷ ns) a h =
    ground (arith, a.0, IsIncreasing-increasing_from n ns h.0 h.1)

increasing-IsIncreasing : (ns : List ℕ) → increasing ns ≡ true → IsIncreasing ns
unfolding increasing
increasing-IsIncreasing [] h = tt
increasing-IsIncreasing (n ∷ ns) h = increasing_from-IsIncreasing n ns h

IsIncreasing-increasing : (ns : List ℕ) → IsIncreasing ns → increasing ns ≡ true
unfolding increasing
IsIncreasing-increasing [] h = refl
IsIncreasing-increasing (n ∷ ns) h = IsIncreasing-increasing_from n ns h.0 h.1

capacity_passes-IsCapacityList :
    (c : AllowedControlConfigSnapshot)
    → All IsSafe c.allowed
    → capacity_passes c ≡ true
    → IsCapacityList c
capacity_passes-IsCapacityList c safe h = record {
  safe = safe;
  increases = increasing-IsIncreasing c.allowed (ground arith);
  initial_member = includes→get_elem? c.allowed c.initial (ground arith);
  right_unit = (eq_iff _ _).0 (ground arith);
  right_mutability = (eq_iff _ _).0 (ground arith);
}

not_empty-get : (ns : List ℕ) (i : ℕ) {n : ℕ} → get_elem? ns i ≡ some n → not (is_empty ns) ≡ true
not_empty-get [] i h = cc
not_empty-get (n ∷ ns) i h = refl

IsCapacityList-capacity_passes :
    (c : AllowedControlConfigSnapshot) → IsCapacityList c → capacity_passes c ≡ true
IsCapacityList-capacity_passes c h = ground (
  arith,
  IsIncreasing-increasing c.allowed h.increases,
  not_empty-get c.allowed h.initial_member.0 h.initial_member.1,
  get_elem?→includes c.allowed h.initial_member.0 h.initial_member.1,
  (eq_iff _ _).1 h.right_unit,
  (eq_iff _ _).1 h.right_mutability,
)

pub decode_capacity-Yields : (value : Value) → Yields IsCapacityList (decode_capacity value)
unfolding decode_capacity
decode_capacity-Yields value = Yields-any _ _ _ (λ members. Yields-any _ _ _ (λ values.
    Yields-bind _ (All IsSafe) _ _ (wire_integers-Yields values) (λ allowed safe.
      Yields-any _ _ _ (λ initial. Yields-any _ _ _ (λ unit. Yields-any _ _ _ (λ mutability.
        Yields-accept _ capacity_passes _ (capacity_passes-IsCapacityList _ safe)))))))

pub decode_capacity-encode_capacity :
    (c : AllowedControlConfigSnapshot)
    → IsCapacityList c
    → decode_capacity (encode_capacity c) ≡ some c
unfolding decode_capacity exact_object property keys sort_keys insert_key same_keys wire_text
    wire_array ◌>>=◌
decode_capacity-encode_capacity c h =
    rw
      (
        wire_integers-naturals c.allowed h.safe,
        wire_integer-natural c.initial (All-get IsSafe c.allowed _ h.safe h.initial_member.1),
      )
      (accept-true capacity_passes c (IsCapacityList-capacity_passes c h))

both_booleans-orders :
    (bs : List Bool) → both_booleans bs ≡ true → (bs ≡ true ∷ false ∷ []) ⊎ (bs ≡ false ∷ true ∷ [])
both_booleans-orders [] h = cc
both_booleans-orders (b ∷ []) h = ground arith
both_booleans-orders (true ∷ true ∷ []) h = cc
both_booleans-orders (true ∷ false ∷ []) h = inl refl
both_booleans-orders (false ∷ true ∷ []) h = inr refl
both_booleans-orders (false ∷ false ∷ []) h = cc
both_booleans-orders (a ∷ b ∷ c ∷ bs) h = ground arith

pub orders-includes :
    (bs : List Bool) (b : Bool)
    → (bs ≡ true ∷ false ∷ []) ⊎ (bs ≡ false ∷ true ∷ [])
    → includes_boolean bs b ≡ true × both_booleans bs ≡ true
orders-includes bs true (inl e) = rw e (refl, refl)
orders-includes bs false (inl e) = rw e (refl, refl)
orders-includes bs true (inr e) = rw e (refl, refl)
orders-includes bs false (inr e) = rw e (refl, refl)

pub decode_installed-Yields : (value : Value) → Yields IsInstalledList (decode_installed value)
unfolding decode_installed
decode_installed-Yields value = Yields-any _ _ _ (λ members. Yields-any _ _ _ (λ values.
    Yields-any _ _ _ (λ allowed. Yields-any _ _ _ (λ initial. Yields-any _ _ _ (λ mutability.
      Yields-accept _ installed_passes _ (λ h. record {
        both = both_booleans-orders allowed (ground arith);
        right_mutability = (eq_iff _ _).0 (ground arith);
      }))))))

pub decode_installed-encode_installed :
    (c : InstalledConfigSnapshot)
    → IsInstalledList c
    → decode_installed (encode_installed c) ≡ some c
unfolding decode_installed exact_object property keys sort_keys insert_key same_keys wire_text
    wire_boolean wire_array ◌>>=◌
decode_installed-encode_installed c h = rw (wire_booleans-booleans c.allowed) (
    accept-true installed_passes c (
      ground
        (arith, orders-includes c.allowed c.initial h.both, (eq_iff _ _).1 h.right_mutability)))

read_level-level_name : (level : LogLevel) → read_level (level_name level) ≡ some level
unfolding read_level
read_level-level_name debug = refl
read_level-level_name info = refl
read_level-level_name warn = refl
read_level-level_name LogLevel.error = refl

only_startup_only : (m : LogMutability) → startup_only ≡ m
only_startup_only startup_only = refl

pub decode_logging-encode_logging :
    (c : LoggingConfigSnapshot) → decode_logging (encode_logging c) ≡ some c
unfolding decode_logging read_mutability exact_object property keys sort_keys insert_key same_keys
    wire_text ◌>>=◌
decode_logging-encode_logging c =
    rw (read_level-level_name c.level)
      (ap (λ m. some (record { level = c.level; mutability = m })) (only_startup_only c.mutability))
