-- ===== src/HttpAdapter/Valid.antt =====
-- What a snapshot response may say, written apart from the checks of
-- frontend/src/adapters/HttpAdapter.ts: the ranges and lists of the configuration, the counts of the
-- workers, and the settings in the configured ranges.
pub mod Range
pub mod RoundTrip
pub mod Readers
pub mod Flows
pub mod Sections
pub mod Settings
pub mod Lists
use Prim.Native.String.{String}
use text.Mathlib.Text.{starts_with}
use ingestion_lab_loadgen.Prelude.{
  All, List, Option, [], false, get_elem?, none, some, true, ℕ, ◌%◌, ◌+◌, ◌-◌, ◌<◌, ◌∷◌, ◌≡◌, ◌≢◌,
  ◌≤◌, ◌⊎◌,
}
use ingestion_lab_loadgen.HttpAdapter.Wire.{
  WireChannelSnapshot, WireReader, WireRun, WireSender, WireSnapshot, WireThrottler,
}
use ingestion_lab_loadgen.HttpAdapter.Json.{max_safe_integer}
use ingestion_lab_loadgen.Loadgen.{
  AllowedControlConfigSnapshot, InstalledConfigSnapshot, LoadgenConfigSnapshot,
  RangeControlConfigSnapshot, ReaderSourceErrorSnapshot, RunState, faulted, idle, paused, running,
}

-- A whole number that a double carries exactly.
abbrev pub IsSafe : ℕ → Type 0
IsSafe n = n ≤ max_safe_integer

-- A setting that the range admits: in its bounds, and on its grid.
pub record IsSetting (n : ℕ) (c : RangeControlConfigSnapshot) : Type 0 where
  pub above : c.min ≤ n
  pub below : n ≤ c.max
  pub on_grid : (n - c.min) % c.step ≡ 0

pub record IsRange (unit mutability : String) (c : RangeControlConfigSnapshot) : Type 0 where
  pub safe : IsSafe c.initial × IsSafe c.min × IsSafe c.max × IsSafe c.step
  pub initial_setting : IsSetting c.initial c
  pub positive_step : 0 < c.step
  pub right_unit : c.unit ≡ unit
  pub right_mutability : c.mutability ≡ mutability

-- Every entry is less than all that follow it.
abbrev pub IsIncreasing : List ℕ → Type 0
IsIncreasing [] = Unit
IsIncreasing (n ∷ ns) = All (λ m. n < m) ns × IsIncreasing ns

abbrev pub IsMember {ℓ} : {A : Type ℓ} → A → List A → Type ℓ
IsMember x xs = (i : ℕ) × (get_elem? xs i ≡ some x)

pub record IsCapacityList (c : AllowedControlConfigSnapshot) : Type 0 where
  pub safe : All IsSafe c.allowed
  pub increases : IsIncreasing c.allowed
  pub initial_member : IsMember c.initial c.allowed
  pub right_unit : c.unit ≡ "batches"
  pub right_mutability : c.mutability ≡ "idle-only"

-- Both Booleans, in one order or the other.
pub record IsInstalledList (c : InstalledConfigSnapshot) : Type 0 where
  pub both : (c.allowed ≡ true ∷ false ∷ []) ⊎ (c.allowed ≡ false ∷ true ∷ [])
  pub right_mutability : c.mutability ≡ "immediate"

abbrev pub sender_range : RangeControlConfigSnapshot
sender_range = record {
  initial = 32;
  min = 1;
  max = 32;
  step = 1;
  unit = "workers";
  mutability = "immediate";
}

-- The range is there, and has a property.
abbrev pub Holds {ℓ} : {A : Type ℓ} → (A → Type 0) → Option A → Type 0
Holds P none = ⊥
Holds P (some a) = P a

abbrev pub IsPositiveRange : String → String → RangeControlConfigSnapshot → Type 0
IsPositiveRange unit mutability c = IsRange unit mutability c × 0 < c.min

pub record IsConfig (c : LoadgenConfigSnapshot) : Type 0 where
  pub batch_size : IsPositiveRange "transactions" "idle-only" c.reader_read_batch_size
  pub reader_workers : Holds (IsPositiveRange "workers" "immediate") c.reader_workers
  pub window : IsRange "milliseconds" "startup-only" c.metrics_window_ms
  pub window_bounds : 100 ≤ c.metrics_window_ms.min × c.metrics_window_ms.max ≤ 10_000
  pub reader_capacity : IsCapacityList c.reader_channel_capacity
  pub sender_capacity : IsCapacityList c.sender_channel_capacity
  pub requested_tps : IsRange "transactions/s" "immediate" c.throttler_requested_tps
  pub tps_bounds : c.throttler_requested_tps.min < c.throttler_requested_tps.max
  pub installed : IsInstalledList c.throttler_installed
  pub sender_workers : c.sender_workers ≡ sender_range
  pub logging : c.logging ≢ none

-- The counts of the workers of an actor, by what they do (`a`, `b`, `c`), with those that drain.
pub record AddUp (a b c da db dc live draining : ℕ) : Type 0 where
  pub live_sum : live ≡ a + b + c
  pub draining_sum : draining ≡ da + db + dc
  pub draining_a : da ≤ a
  pub draining_b : db ≤ b
  pub draining_c : dc ≤ c

-- No worker is there when a run has not started, or has failed.
abbrev pub NoneLeft : RunState → ℕ → Type 0
NoneLeft idle live = live ≡ 0
NoneLeft faulted live = live ≡ 0
NoneLeft running live = Unit
NoneLeft paused live = Unit

pub record IsSourceError (e : ReaderSourceErrorSnapshot) : Type 0 where
  pub some_path : e.relative_path ≢ ""
  pub relative : starts_with e.relative_path "/" ≡ false
  pub inside : starts_with e.relative_path "../" ≡ false
  pub some_message : e.message ≢ ""

abbrev pub HoldsIfAny {ℓ} : {A : Type ℓ} → (A → Type 0) → Option A → Type 0
HoldsIfAny P none = Unit
HoldsIfAny P (some a) = P a

pub record IsReader (c : LoadgenConfigSnapshot) (run : RunState) (r : WireReader) : Type 0 where
  pub workers : Holds (IsSetting r.workers) c.reader_workers
  pub batch_size : IsSetting r.read_batch_size c.reader_read_batch_size
  pub counts :
      AddUp r.idle_workers r.reading_workers r.blocked_workers r.draining_idle_workers
        r.draining_reading_workers r.draining_blocked_workers r.live_workers r.draining_workers
  pub none_left : NoneLeft run r.live_workers
  pub some_directory : r.source_directory ≢ ""
  pub source_error : HoldsIfAny IsSourceError r.source_error
  pub safe :
      IsSafe r.workers × IsSafe r.read_batch_size × IsSafe r.rows_read × IsSafe r.live_workers

pub record IsThrottler (c : LoadgenConfigSnapshot) (t : WireThrottler) : Type 0 where
  pub requested : IsSetting t.requested_tps c.throttler_requested_tps
  pub installed : IsMember t.installed c.throttler_installed.allowed
  pub safe : IsSafe t.requested_tps

pub record IsSender (c : LoadgenConfigSnapshot) (run : RunState) (s : WireSender) : Type 0 where
  pub workers : IsSetting s.workers c.sender_workers
  pub counts :
      AddUp s.idle_workers s.in_flight_workers s.backoff_workers s.draining_idle_workers
        s.draining_in_flight_workers s.draining_backoff_workers s.live_workers s.draining_workers
  pub none_left : NoneLeft run s.live_workers
  pub safe : IsSafe s.workers × IsSafe s.live_workers

pub record IsChannel (allowed : List ℕ) (c : WireChannelSnapshot) : Type 0 where
  pub capacity : IsMember c.capacity allowed
  pub safe_state :
      IsSafe c.capacity
      × IsSafe c.depth_batches
      × IsSafe c.buffered_transactions
      × IsSafe c.blocked_senders
      × IsSafe c.oldest_blocked_sender_ms
      × IsSafe c.blocked_ms
  pub safe_totals :
      IsSafe c.sent_batches_total
      × IsSafe c.sent_transactions_total
      × IsSafe c.received_batches_total
      × IsSafe c.received_transactions_total

pub record IsRun (r : WireRun) : Type 0 where
  pub safe : IsSafe r.elapsed_ms × IsSafe r.total_transactions

pub record IsSnapshot (w : WireSnapshot) : Type 0 where
  pub config : IsConfig w.config
  pub run : IsRun w.run
  pub reader : IsReader w.config w.run.state w.reader
  pub throttler : IsThrottler w.config w.throttler
  pub sender : IsSender w.config w.run.state w.sender
  pub reader_channel : IsChannel w.config.reader_channel_capacity.allowed w.reader_channel
  pub sender_channel : IsChannel w.config.sender_channel_capacity.allowed w.sender_channel
