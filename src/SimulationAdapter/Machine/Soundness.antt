-- ===== src/SimulationAdapter/Machine/Soundness.antt =====
-- Every method of the adapter keeps it sound, and none of them throws.
use ingestion_lab_loadgen.Prelude.{
  ℕ, ◌<◌, ◌≡◌, refl, sym, ap, subst, ◌∙◌, true, false, not, Bool, none, arith,
}
use ingestion_lab_loadgen.Prelude.Results.{◌>>=◌, Result, Returns, Returns-bind, Returns-mono}
use ingestion_lab_loadgen.Simulation.Types.{SimulationConfig, fixed_step_ms}
use ingestion_lab_loadgen.Simulation.State.{Simulation, create_simulation}
use ingestion_lab_loadgen.Simulation.Invariant.{Inv}
use ingestion_lab_loadgen.Simulation.Step.{assign_config}
use ingestion_lab_loadgen.Simulation.Step.Controls.{Positive, create_simulation-Inv}
use ingestion_lab_loadgen.SimulationAdapter.Ranges.{control_ranges}
use ingestion_lab_loadgen.SimulationAdapter.Ranges.Grid.{IsRange, IsPosition}
use ingestion_lab_loadgen.SimulationAdapter.Snapshot.{freeze_snapshot}
use ingestion_lab_loadgen.SimulationAdapter.Machine.{
  SimulationAdapter, create_adapter, publish, publish_if, advance_to_now, ConfigKey, requested_tps,
  reader_workers, sender_workers, read_batch_size, http_timeout_ms, partial, range_of,
}
use ingestion_lab_loadgen.SimulationAdapter.Machine.Clock.{Advanced, advance_to_now-Advanced}

-- The values of the configuration that commands write are positions of their ranges.
abbrev pub InRanges : SimulationConfig → Type 0
InRanges config =
    IsPosition control_ranges.requested_tps config.requested_tps
    × IsPosition control_ranges.reader_workers config.reader_workers
    × IsPosition control_ranges.sender_workers config.sender_workers
    × IsPosition control_ranges.read_batch_size config.read_batch_size
    × IsPosition control_ranges.http_timeout_ms config.http_timeout_ms

pub record IsSound (a : SimulationAdapter) : Type 0 where
  pub inv : Inv a.simulation
  pub ranges : InRanges a.simulation.config
  pub waiting : a.pending_step_ms < fixed_step_ms
  pub published : a.snapshot.revision ≡ a.revision
  pub timer : a.timer_set ≡ not a.disposed

pub InRanges-Positive : (config : SimulationConfig) → InRanges config → Positive config
InRanges-Positive config r = (omega (arith, r.2), omega (arith, r.3))

pub range_of-IsRange : (key : ConfigKey) → IsRange (range_of key)
range_of-IsRange requested_tps = (omega arith, (50, omega arith))
range_of-IsRange reader_workers = (omega arith, (6, omega arith))
range_of-IsRange sender_workers = (omega arith, (31, omega arith))
range_of-IsRange read_batch_size = (omega arith, (99, omega arith))
range_of-IsRange http_timeout_ms = (omega arith, (499, omega arith))

pub assign_config-InRanges :
    (key : ConfigKey) (value : ℕ) (config : SimulationConfig)
    → IsPosition (range_of key) value
    → InRanges config
    → InRanges (assign_config config (partial key value))
assign_config-InRanges requested_tps value config p r = (p, r.1, r.2, r.3, r.4)
assign_config-InRanges reader_workers value config p r = (r.0, p, r.2, r.3, r.4)
assign_config-InRanges sender_workers value config p r = (r.0, r.1, p, r.3, r.4)
assign_config-InRanges read_batch_size value config p r = (r.0, r.1, r.2, p, r.4)
assign_config-InRanges http_timeout_ms value config p r = (r.0, r.1, r.2, r.3, p)

pub create_adapter-IsSound : (now : ℕ) → IsSound (create_adapter now)
unfolding create_adapter create_simulation freeze_snapshot
create_adapter-IsSound now = record {
  inv = create_simulation-Inv _ 4 100 none (omega arith) (omega arith);
  ranges = (
    (omega arith, omega arith, (24, omega arith)),
    (omega arith, omega arith, (3, omega arith)),
    (omega arith, omega arith, (2, omega arith)),
    (omega arith, omega arith, (24, omega arith)),
    (omega arith, omega arith, (49, omega arith)),
  );
  waiting = omega arith;
  published = refl;
  timer = refl;
}

-- A sound adapter with another sound simulation in the ranges.
pub with_simulation :
    (a : SimulationAdapter) (s : Simulation)
    → IsSound a
    → Inv s
    → InRanges s.config
    → IsSound (record a { simulation = s })
with_simulation a s v i r = record {
  inv = i;
  ranges = r;
  waiting = v.waiting;
  published = v.published;
  timer = v.timer;
}

pub publish_if-IsSound :
    (changed : Bool) (a : SimulationAdapter) → IsSound a → IsSound (publish_if changed a)
unfolding publish freeze_snapshot
publish_if-IsSound false a v = v
publish_if-IsSound true a v = record {
  inv = v.inv;
  ranges = v.ranges;
  waiting = v.waiting;
  published = refl;
  timer = v.timer;
}

pub Advanced-IsSound :
    (now : ℕ) (a a' : SimulationAdapter) → IsSound a → Advanced now a a' → IsSound a'
Advanced-IsSound now a a' v (i, w, t, e, same) = record {
  inv = i;
  ranges = subst InRanges (sym same.config) v.ranges;
  waiting = w;
  published = ap (λ s. s.revision) same.snapshot ∙ v.published ∙ sym same.revision;
  timer = same.timer_set ∙ v.timer ∙ ap not (sym same.disposed);
}

pub advance_to_now-IsSound :
    (now : ℕ) (a : SimulationAdapter)
    → IsSound a
    → Returns (λ r. IsSound r.0) (advance_to_now now a)
advance_to_now-IsSound now a v =
    Returns-mono (λ r. Advanced now a r.0) _ (advance_to_now now a)
      (advance_to_now-Advanced now a v.inv v.waiting) λ r k. Advanced-IsSound now a r.0 v k

-- What follows a reading of the clock.
pub after_reading :
    {B : Type 0} (P : B → Type 0) (now : ℕ) (a : SimulationAdapter)
    (f : SimulationAdapter × Bool → Result B)
    → IsSound a
    → ((r : SimulationAdapter × Bool) → IsSound r.0 → Returns P (f r))
    → Returns P (advance_to_now now a >>= f)
after_reading P now a f v k =
    Returns-bind (λ r. IsSound r.0) P (advance_to_now now a) f (advance_to_now-IsSound now a v) k
