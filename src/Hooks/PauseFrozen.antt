-- ===== src/Hooks/PauseFrozen.antt =====
-- `PauseFrozenObservedDeriver` of frontend/src/hooks/useLoadgenSnapshot.ts: what was observed while the
-- generator ran stays on display while it is paused. A snapshot is known by a reference, as the
-- code compares snapshots by identity; `object` gives the snapshot of a reference.
pub mod Scan
use ingestion_lab_loadgen.Loadgen.{
  RunState, LoadgenTelemetrySnapshot, faulted, idle, paused, running,
}
use ingestion_lab_loadgen.Prelude.{
  Bool, Option, false, if◌then◌else◌, is_some, none, or_else, some, ℕ, ◌&&◌, ◌==◌,
}
use ingestion_lab_loadgen.HttpAdapter.View.Controls.{is_connected}

-- `freezeObservedTelemetry`: the measurements of one snapshot, the controls and states of another.
abbrev pub freeze_observed_telemetry :
    LoadgenTelemetrySnapshot → LoadgenTelemetrySnapshot → LoadgenTelemetrySnapshot
freeze_observed_telemetry observed live = record observed {
  revision = live.revision;
  adapter_kind = live.adapter_kind;
  connection_state = live.connection_state;
  run_state = live.run_state;
  config = live.config;
  reader = record observed.reader {
    workers = live.reader.workers;
    read_batch_size = live.reader.read_batch_size;
    state = live.reader.state;
  };
  throttler = record observed.throttler {
    requested_tps = live.throttler.requested_tps;
    installed = live.throttler.installed;
    state = live.throttler.state;
  };
  reader_channel = record observed.reader_channel { capacity = live.reader_channel.capacity };
  sender_channel = record observed.sender_channel { capacity = live.sender_channel.capacity };
  sender = record observed.sender {
    workers = live.sender.workers;
    timeout_ms = live.sender.timeout_ms;
    state = live.sender.state;
  };
  http = record observed.http { connection_state = live.http.connection_state };
  target = record observed.target { connection_state = live.target.connection_state };
}

pub record PauseFrozenObservedDeriver : Type 0 where
  pub last_running : Option ℕ
  pub frozen : Option ℕ
  pub source_snapshot : Option ℕ
  pub presentation : Option LoadgenTelemetrySnapshot

abbrev pub create_deriver : PauseFrozenObservedDeriver
create_deriver = record {
  last_running = none;
  frozen = none;
  source_snapshot = none;
  presentation = none;
}

-- What `derive` returns.
pub record Presented : Type 0 where
  pub snapshot : LoadgenTelemetrySnapshot
  pub frozen_observed : Bool

-- `snapshot === this.sourceSnapshot`
abbrev pub is_source : ℕ → Option ℕ → Bool
is_source reference none = false
is_source reference (some origin) = origin == reference

-- `this.frozen`, or else `this.lastRunning`
abbrev pub frozen_or_running : Option ℕ → Option ℕ → Option ℕ
frozen_or_running none last = last
frozen_or_running (some frozen) last = some frozen

module _ (object : ℕ → LoadgenTelemetrySnapshot) where
  abbrev pub present : Option ℕ → LoadgenTelemetrySnapshot → LoadgenTelemetrySnapshot
  present none live = live
  present (some observed) live = freeze_observed_telemetry (object observed) live

  -- The fields that `derive` writes, by the run state of the snapshot.
  abbrev pub observe : RunState → ℕ → PauseFrozenObservedDeriver → PauseFrozenObservedDeriver
  observe running reference d = record d {
    frozen = none;
    last_running =
        if is_connected (object reference).connection_state then some reference else none;
    presentation = some (object reference);
  }
  observe idle reference d = record d {
    last_running = none;
    frozen = none;
    presentation = some (object reference);
  }
  observe paused reference d =
      let frozen = frozen_or_running d.frozen d.last_running in
      record d { frozen = frozen; presentation = some (present frozen (object reference)) }
  observe faulted reference d =
      let frozen = frozen_or_running d.frozen d.last_running in
      record d { frozen = frozen; presentation = some (present frozen (object reference)) }

  -- `derive`, the state after it. A snapshot that was derived before leaves the state as it is.
  pub derive : ℕ → PauseFrozenObservedDeriver → PauseFrozenObservedDeriver
  derive reference d =
      if is_source reference d.source_snapshot && is_some d.presentation
      then d
      else record (observe (object reference).run_state reference d) {
        source_snapshot = some reference;
      }

  -- What `derive` returns is read from the state after it, whose presentation is there.
  abbrev pub presented : ℕ → PauseFrozenObservedDeriver → Presented
  presented reference d = record {
    snapshot = or_else d.presentation (object reference);
    frozen_observed = is_some d.frozen;
  }
