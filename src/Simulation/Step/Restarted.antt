-- ===== src/Simulation/Step/Restarted.antt =====
-- A reset simulation is a new one.
use ingestion_lab_loadgen.Prelude.{ℕ, ◌≡◌, refl, or_else}
use ingestion_lab_loadgen.Simulation.Channel.{StatefulChannel, reset_runtime}
use ingestion_lab_loadgen.Simulation.Channel.Invariant.{request_capacity-requested}
use ingestion_lab_loadgen.Simulation.State.{Simulation, create_simulation}
use ingestion_lab_loadgen.Simulation.Step.{reset}
use ingestion_lab_loadgen.Simulation.Step.{reader, request_channel_capacity, sender}

-- The capacity that was last asked for, whether it applies already or still waits.
abbrev pub requested_capacity : {A : Type 0} → StatefulChannel A → ℕ
requested_capacity c = or_else c.pending_capacity c.applied_capacity

-- Whatever a simulation has done, a reset makes it the simulation that the constructor makes from its
-- present configuration, the capacities last requested of its two channels and its outcome source.
pub reset-create_simulation :
    (s : Simulation)
    → reset s
      ≡ create_simulation s.config
          (requested_capacity s.reader_channel)
          (requested_capacity s.sender_channel)
          s.attempt_outcome_source
unfolding reset create_simulation reset_runtime
reset-create_simulation s = refl

-- A requested capacity is the one that the channel has or waits for.
pub reader_capacity-requested :
    (capacity : ℕ) (s : Simulation)
    → requested_capacity (request_channel_capacity reader capacity s).0.reader_channel ≡ capacity
unfolding request_channel_capacity
reader_capacity-requested capacity s = request_capacity-requested s.reader_channel capacity

pub sender_capacity-requested :
    (capacity : ℕ) (s : Simulation)
    → requested_capacity (request_channel_capacity sender capacity s).0.sender_channel ≡ capacity
unfolding request_channel_capacity
sender_capacity-requested capacity s = request_capacity-requested s.sender_channel capacity
