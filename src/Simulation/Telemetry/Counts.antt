-- ===== src/Simulation/Telemetry/Counts.antt =====
-- What the telemetry says of the workers agrees with the pool and with the totals.
use ingestion_lab_loadgen.Prelude.{ℕ, ◌+◌, ◌≡◌, Bool, arith}
use ingestion_lab_loadgen.Simulation.State.{Simulation}
use ingestion_lab_loadgen.Simulation.Invariant.{Inv}
use ingestion_lab_loadgen.Simulation.Workers.{WorkerStateCounts}
use ingestion_lab_loadgen.Simulation.Workers.Counts.{state_counts-total, state_counts-in_flight}
use ingestion_lab_loadgen.Simulation.Telemetry.{telemetry, sender_telemetry, http_telemetry}

abbrev pub total : WorkerStateCounts → ℕ
total c = c.idle + c.in_flight + c.backoff

-- For every sound simulation, running or not, the reported workers that stay and that drain, by their
-- states, add up to the reported size of the pool, and the reported requests in flight are the
-- requests started less those completed.
pub telemetry-workers :
    (running : Bool) (s : Simulation)
    → Inv s
    → let t = telemetry running s in
      (total t.sender.worker_states + total t.sender.draining_worker_states
        ≡ t.sender.workers.applied)
      × (t.http.in_flight_requests + t.http.requests_completed_total
          ≡ t.http.requests_started_total)
unfolding telemetry sender_telemetry http_telemetry
telemetry-workers running s v = (
  state_counts-total s.workers,
  omega (arith, state_counts-in_flight s.workers, v.pool.ledger.started),
)
