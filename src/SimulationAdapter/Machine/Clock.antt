-- ===== src/SimulationAdapter/Machine/Clock.antt =====
-- The adapter's clock: whole steps are carried out, and no time is lost between two readings.
use ingestion_lab_loadgen.Prelude.{
  Bool, ℕ, ◌+◌, ◌-◌, ◌/◌, ◌<◌, ◌≡◌, refl, ap, true, false, not, ◌||◌, ◌==◌, Bool-cases, inl, inr,
  arith,
}
use ingestion_lab_loadgen.Prelude.Results.{Returns, Returns-bind}
use ingestion_lab_loadgen.Simulation.Types.{fixed_step_ms}
use ingestion_lab_loadgen.Simulation.Invariant.{Inv}
use ingestion_lab_loadgen.Simulation.Step.{advance_steps}
use ingestion_lab_loadgen.Simulation.Step.Sound.{advance_steps-Stepped}
use ingestion_lab_loadgen.SimulationAdapter.Snapshot.{is_running}
use ingestion_lab_loadgen.SimulationAdapter.Machine.{SimulationAdapter, advance_to_now}

-- What a reading of the clock leaves as it was.
pub record SameShell (a a' : SimulationAdapter) : Type 0 where
  pub listeners : a'.listeners ≡ a.listeners
  pub revision : a'.revision ≡ a.revision
  pub run_state : a'.run_state ≡ a.run_state
  pub snapshot : a'.snapshot ≡ a.snapshot
  pub timer_set : a'.timer_set ≡ a.timer_set
  pub command_sequence : a'.command_sequence ≡ a.command_sequence
  pub disposed : a'.disposed ≡ a.disposed
  pub notified : a'.notified ≡ a.notified
  pub config : a'.simulation.config ≡ a.simulation.config

-- The simulated time and the time that waits to be simulated.
abbrev pub accounted_ms : SimulationAdapter → ℕ
accounted_ms a = a.simulation.elapsed_ms + a.pending_step_ms

-- What a reading at `now` does to the time: while running, the accounted time grows by the time since
-- the last reading, none if the clock went back; otherwise the simulation stands still.
abbrev pub Timed : Bool → ℕ → SimulationAdapter → SimulationAdapter → Type 0
Timed true now a a' = accounted_ms a' ≡ accounted_ms a + (now - a.last_tick_ms)
Timed false now a a' = a'.simulation ≡ a.simulation

-- What a reading at `now` leaves of a sound adapter.
abbrev pub Advanced : ℕ → SimulationAdapter → SimulationAdapter → Type 0
Advanced now a a' =
    Inv a'.simulation
    × (a'.pending_step_ms < fixed_step_ms)
    × (a'.last_tick_ms ≡ now)
    × Timed (is_running a.run_state) now a a'
    × SameShell a a'

unchanged :
    {a a' : SimulationAdapter}
    → a' ≡ record a {
      simulation = a'.simulation;
      last_tick_ms = a'.last_tick_ms;
      pending_step_ms = a'.pending_step_ms;
    }
    → a'.simulation.config ≡ a.simulation.config
    → SameShell a a'
unchanged e c = record {
  listeners = ap (λ (x : SimulationAdapter). x.listeners) e;
  revision = ap (λ (x : SimulationAdapter). x.revision) e;
  run_state = ap (λ (x : SimulationAdapter). x.run_state) e;
  snapshot = ap (λ (x : SimulationAdapter). x.snapshot) e;
  timer_set = ap (λ (x : SimulationAdapter). x.timer_set) e;
  command_sequence = ap (λ (x : SimulationAdapter). x.command_sequence) e;
  disposed = ap (λ (x : SimulationAdapter). x.disposed) e;
  notified = ap (λ (x : SimulationAdapter). x.notified) e;
  config = c;
}

still :
    (now : ℕ) (a : SimulationAdapter) (runs : Bool)
    → not runs || (now - a.last_tick_ms) == 0 ≡ true
    → Timed runs now a (record a { last_tick_ms = now })
still now a true e = ground arith
still now a false e = refl

moving :
    (now : ℕ) (a a' : SimulationAdapter) (runs : Bool)
    → not runs || (now - a.last_tick_ms) == 0 ≡ false
    → accounted_ms a' ≡ accounted_ms a + (now - a.last_tick_ms)
    → Timed runs now a a'
moving now a a' true e h = h
moving now a a' false e h = cc

-- Reading the clock with a sound simulation and less than a step waiting never throws. Afterwards the
-- simulation is sound and less than a step waits; while running, the simulated and the waiting time
-- together have grown by exactly the time since the last reading, none if the clock went back, and
-- otherwise the simulation is as it was; the configuration and the rest of the adapter are unchanged.
pub advance_to_now-Advanced :
    (now : ℕ) (a : SimulationAdapter)
    → Inv a.simulation
    → a.pending_step_ms < fixed_step_ms
    → Returns (λ r. Advanced now a r.0) (advance_to_now now a)
unfolding advance_to_now
advance_to_now-Advanced now a v p =
    elim (Bool-cases (not (is_running a.run_state) || (now - a.last_tick_ms) == 0)) [
      | inl e ↦ rw (e) (v, p, refl, still now a (is_running a.run_state) e, unchanged refl refl)
      | inr e ↦ rw (e) (
          Returns-bind _ (λ r. Advanced now a r.0) (advance_steps steps a.simulation) _
            (advance_steps-Stepped steps a.simulation v)
            λ s k. (
              k.0,
              omega arith,
              refl,
              moving now a _ (is_running a.run_state) e (omega (arith, k.2)),
              unchanged refl k.1,
            ))
    ]
  where
    steps : ℕ
    steps = (a.pending_step_ms + (now - a.last_tick_ms)) / fixed_step_ms
