-- ===== src/HttpAdapter/Machine/Fitting.antt =====
-- Which commands with a value fit a configuration, and that the code's tests say so.
use ingestion_lab_loadgen.Prelude.{List}
use native.Mathlib.Nat.{div-add-mod'}
use ingestion_lab_loadgen.Prelude.Int.{negsuc, pos}
use ingestion_lab_loadgen.Prelude.{
  Bool, Bool-cases, Option, and_elim, arith, includes→get_elem?, inl, inr, leb, none, refl, some,
  subst, suc, true, ℕ, ◌%◌, ◌&&◌, ◌*◌, ◌/◌, ◌==◌, ◌≡◌,
}
use ingestion_lab_loadgen.HttpAdapter.Valid.Range.{in_range-IsSetting}
use ingestion_lab_loadgen.HttpAdapter.Valid.Flows.{includes_boolean-IsMember}
use ingestion_lab_loadgen.HttpAdapter.Valid.{Holds, IsMember, IsSetting}
use ingestion_lab_loadgen.HttpAdapter.Requests.{
  SupportedCommand, config_admits, in_range_if_whole, includes_installed, includes_value,
  is_range_value, workers_admit,
}
use ingestion_lab_loadgen.HttpAdapter.Json.{max_safe_integer, safe_integer}
use ingestion_lab_loadgen.Loadgen.{
  LoadgenConfigSnapshot, NumberValue, RangeControlConfigSnapshot, fraction, not_finite,
}
use ingestion_lab_loadgen.HttpAdapter.Requests.{set_reader_channel_capacity}
use ingestion_lab_loadgen.HttpAdapter.Requests.{set_requested_tps}
use ingestion_lab_loadgen.HttpAdapter.Requests.{set_sender_channel_capacity}
use ingestion_lab_loadgen.HttpAdapter.Requests.{set_throttler_installed}
use ingestion_lab_loadgen.HttpAdapter.Requests.{set_read_batch_size}
use ingestion_lab_loadgen.HttpAdapter.Requests.{set_worker_count}
use ingestion_lab_loadgen.HttpAdapter.Requests.{set_sender_workers}

-- The value of a command is the whole number `n`.
abbrev pub Amounts : NumberValue → ℕ → Type 0
Amounts (fraction (pos z) d) n = z ≡ n * suc d
Amounts (fraction (negsuc z) d) n = ⊥
Amounts not_finite n = ⊥

-- The value is a setting that the range admits, or one of those that are allowed.
abbrev pub FitsRange : NumberValue → RangeControlConfigSnapshot → Type 0
FitsRange v range = (n : ℕ) × Amounts v n × IsSetting n range

abbrev pub FitsList : NumberValue → List ℕ → Type 0
FitsList v allowed = (n : ℕ) × Amounts v n × IsMember n allowed

abbrev pub FitsInstalled : Option Bool → List Bool → Type 0
FitsInstalled none allowed = ⊥
FitsInstalled (some b) allowed = IsMember b allowed

-- The command fits the configuration. Those without a value always do.
abbrev pub Fits : SupportedCommand → LoadgenConfigSnapshot → Type 0
Fits SupportedCommand.run config = Unit
Fits SupportedCommand.pause config = Unit
Fits SupportedCommand.reset config = Unit
Fits (set_requested_tps v) config = FitsRange v config.throttler_requested_tps
Fits (set_throttler_installed v) config = FitsInstalled v config.throttler_installed.allowed
Fits (set_worker_count v) config = Holds (FitsRange v) config.reader_workers
Fits (set_sender_workers v) config = FitsRange v config.sender_workers
Fits (set_reader_channel_capacity v) config = FitsList v config.reader_channel_capacity.allowed
Fits (set_sender_channel_capacity v) config = FitsList v config.sender_channel_capacity.allowed
Fits (set_read_batch_size v) config = FitsRange v config.reader_read_batch_size

whole-Amounts : (z d : ℕ) → z % suc d ≡ 0 → z ≡ z / suc d * suc d
whole-Amounts z d h = omega (arith, h, div-add-mod' z (suc d))

safe_integer-Amounts : (v : NumberValue) (n : ℕ) → safe_integer v ≡ some n → Amounts v n
unfolding safe_integer
safe_integer-Amounts (fraction (pos z) d) n h =
    elim (Bool-cases (z % suc d == 0 && leb (z / suc d) max_safe_integer)) [
      | inl e ↦
          let same : z / suc d ≡ n = ground arith in
          subst (λ x. z ≡ x * suc d) same (whole-Amounts z d (ground arith))
      | inr e ↦ absurd (ground arith)
    ]
safe_integer-Amounts (fraction (negsuc z) d) n h = cc
safe_integer-Amounts not_finite n h = cc

in_range_if_whole-FitsRange :
    (v : NumberValue) (range : RangeControlConfigSnapshot) (o : Option ℕ)
    → safe_integer v ≡ o
    → in_range_if_whole o range ≡ true
    → FitsRange v range
in_range_if_whole-FitsRange v range none e h = cc
in_range_if_whole-FitsRange v range (some n) e h =
    (n, safe_integer-Amounts v n e, in_range-IsSetting n range h)

is_range_value-FitsRange :
    (v : NumberValue) (range : RangeControlConfigSnapshot)
    → is_range_value v range ≡ true
    → FitsRange v range
is_range_value-FitsRange v range h = in_range_if_whole-FitsRange v range (safe_integer v) refl h

includes_value-FitsList :
    (v : NumberValue) (allowed : List ℕ) → includes_value allowed v ≡ true → FitsList v allowed
includes_value-FitsList (fraction (pos z) d) allowed h =
    let parts = and_elim (z % suc d == 0) _ h in
    (
      z / suc d,
      whole-Amounts z d (ground (arith, parts.0)),
      includes→get_elem? allowed (z / suc d) parts.1,
    )
includes_value-FitsList (fraction (negsuc z) d) allowed h = cc
includes_value-FitsList not_finite allowed h = cc

includes_installed-FitsInstalled :
    (v : Option Bool) (allowed : List Bool)
    → includes_installed allowed v ≡ true
    → FitsInstalled v allowed
includes_installed-FitsInstalled none allowed h = cc
includes_installed-FitsInstalled (some b) allowed h = includes_boolean-IsMember allowed b h

workers_admit-Holds :
    (v : NumberValue) (o : Option RangeControlConfigSnapshot)
    → workers_admit v o ≡ true
    → Holds (FitsRange v) o
workers_admit-Holds v none h = cc
workers_admit-Holds v (some range) h = is_range_value-FitsRange v range h

-- What the configuration admits by the code's test fits it.
pub config_admits-Fits :
    (command : SupportedCommand) (config : LoadgenConfigSnapshot)
    → config_admits command config ≡ true
    → Fits command config
config_admits-Fits SupportedCommand.run config h = tt
config_admits-Fits SupportedCommand.pause config h = tt
config_admits-Fits SupportedCommand.reset config h = tt
config_admits-Fits (set_requested_tps v) config h = is_range_value-FitsRange v _ h
config_admits-Fits (set_throttler_installed v) config h = includes_installed-FitsInstalled v _ h
config_admits-Fits (set_worker_count v) config h = workers_admit-Holds v config.reader_workers h
config_admits-Fits (set_sender_workers v) config h = is_range_value-FitsRange v _ h
config_admits-Fits (set_reader_channel_capacity v) config h = includes_value-FitsList v _ h
config_admits-Fits (set_sender_channel_capacity v) config h = includes_value-FitsList v _ h
config_admits-Fits (set_read_batch_size v) config h = is_range_value-FitsRange v _ h
