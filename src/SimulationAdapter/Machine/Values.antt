-- ===== src/SimulationAdapter/Machine/Values.antt =====
-- What a configuration command leaves in the configuration.
use ingestion_lab_loadgen.Prelude.{
  refl, ℕ, ◌≡◌, sym, ap, ◌∙◌, Bool, true, arith, ◌==◌, if◌then◌else◌, Bool-cases, inl, inr,
}
use ingestion_lab_loadgen.Prelude.Results.{Returns, Returns-bind}
use ingestion_lab_loadgen.Simulation.Types.{SimulationConfig}
use ingestion_lab_loadgen.Simulation.Step.{assign_config, update_config}
use ingestion_lab_loadgen.Simulation.Step.Controls.{update_config-config}
use ingestion_lab_loadgen.SimulationAdapter.Machine.{
  SimulationAdapter, advance_to_now, ConfigKey, requested_tps, reader_workers, sender_workers,
  read_batch_size, http_timeout_ms, config_value, partial, set_config,
}
use ingestion_lab_loadgen.SimulationAdapter.Machine.Clock.{Advanced, advance_to_now-Advanced}
use ingestion_lab_loadgen.SimulationAdapter.Machine.Soundness.{IsSound}

-- Writing the value that a key has changes nothing.
assign_config-unchanged :
    (key : ConfigKey) (value : ℕ) (config : SimulationConfig)
    → config_value key config ≡ value
    → config ≡ assign_config config (partial key value)
assign_config-unchanged requested_tps value config e =
    ap (λ v. assign_config config (partial requested_tps v)) e
assign_config-unchanged reader_workers value config e =
    ap (λ v. assign_config config (partial reader_workers v)) e
assign_config-unchanged sender_workers value config e =
    ap (λ v. assign_config config (partial sender_workers v)) e
assign_config-unchanged read_batch_size value config e =
    ap (λ v. assign_config config (partial read_batch_size v)) e
assign_config-unchanged http_timeout_ms value config e =
    ap (λ v. assign_config config (partial http_timeout_ms v)) e

-- The configuration with this key's value, every other field as it is.
abbrev pub written : ConfigKey → ℕ → SimulationConfig → SimulationConfig
written requested_tps value config = record config { requested_tps = value }
written reader_workers value config = record config { reader_workers = value }
written sender_workers value config = record config { sender_workers = value }
written read_batch_size value config = record config { read_batch_size = value }
written http_timeout_ms value config = record config { http_timeout_ms = value }

assign_config-written :
    (key : ConfigKey) (value : ℕ) (config : SimulationConfig)
    → assign_config config (partial key value) ≡ written key value config
assign_config-written requested_tps value config = refl
assign_config-written reader_workers value config = refl
assign_config-written sender_workers value config = refl
assign_config-written read_batch_size value config = refl
assign_config-written http_timeout_ms value config = refl

-- The configuration `before` with the key's value replaced.
abbrev pub Replaced : ConfigKey → ℕ → SimulationConfig → SimulationAdapter × Bool → Type 0
Replaced key value before r = r.0.simulation.config ≡ written key value before

replaced :
    (key : ConfigKey) (value : ℕ) (before : SimulationConfig) (r : SimulationAdapter × Bool)
    → r.0.simulation.config ≡ before
    → Replaced key value before (
        if◌then◌else◌ {A = SimulationAdapter × Bool}
          (config_value key r.0.simulation.config == value)
          (r.0, r.1)
          (record r.0 { simulation = update_config (partial key value) r.0.simulation }, true))
replaced key value before r same =
    elim (Bool-cases (config_value key r.0.simulation.config == value)) [
      | inl e ↦ rw (e) (
          same
          ∙ assign_config-unchanged key value before
              (ap (config_value key) (sym same) ∙ equal _ value e)
          ∙ assign_config-written key value before)
      | inr e ↦ rw (e) (
          update_config-config (partial key value) r.0.simulation
          ∙ ap (λ c. assign_config c (partial key value)) same
          ∙ assign_config-written key value before)
    ]
  where
    equal : (m n : ℕ) → m == n ≡ true → m ≡ n
    equal m n h = ground arith

-- `updateConfig` of a sound adapter returns, and the configuration is then the one from before with
-- exactly the value of this key replaced, whether the value is new or not, and however much time is
-- simulated first.
pub set_config-Replaced :
    (key : ConfigKey) (value now : ℕ) (a : SimulationAdapter)
    → IsSound a
    → Returns (Replaced key value a.simulation.config) (set_config key value now a)
unfolding set_config
set_config-Replaced key value now a v =
    Returns-bind (λ r. Advanced now a r.0) (Replaced key value a.simulation.config)
      (advance_to_now now a) _ (advance_to_now-Advanced now a v.inv v.waiting)
      λ r k. replaced key value a.simulation.config r k.4.config
