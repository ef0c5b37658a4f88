-- ===== src/Simulation/Completion/Times.antt =====
-- A completed attempt is no longer under way, and takes no time.
use ingestion_lab_loadgen.Prelude.{◌≡◌, some, false, arith}
use ingestion_lab_loadgen.Prelude.Results.{Returns}
use ingestion_lab_loadgen.Simulation.Types.{
  SimulationBatch, SimulationAttemptOutcome, StepActivity, SenderWorker, is_in_flight,
  http_response, timeout, network_error,
}
use ingestion_lab_loadgen.Simulation.State.{Simulation}
use ingestion_lab_loadgen.Simulation.Completion.{
  Attempt, schedule_retry, fail_terminally, complete_response, complete_no_response,
  complete_outcome, complete_attempt, record_completion, release_worker, record_no_response,
}

abbrev pub Landed : Simulation → Attempt → Type 0
Landed s (w', s', a') = (is_in_flight w'.state ≡ false) × (s'.elapsed_ms ≡ s.elapsed_ms)

complete_outcome-Landed :
    (s : Simulation) (w : SenderWorker) (a : StepActivity) (b : SimulationBatch)
    (o : SimulationAttemptOutcome)
    → w.batch ≡ some b
    → Returns (Landed s) (complete_outcome o b w (record_completion b w s) a)
unfolding complete_outcome complete_response complete_no_response schedule_retry fail_terminally
    record_completion record_no_response release_worker
complete_outcome-Landed s w a b (http_response code latency) e = ground arith
complete_outcome-Landed s w a b (timeout latency) e = ground arith
complete_outcome-Landed s w a b (network_error latency) e = ground arith

pub complete_attempt-Landed :
    (s : Simulation) (w : SenderWorker) (a : StepActivity) (b : SimulationBatch)
    (o : SimulationAttemptOutcome)
    → w.batch ≡ some b
    → w.outcome ≡ some o
    → Returns (Landed s) (complete_attempt w s a)
unfolding complete_attempt
complete_attempt-Landed s w a b o e d =
    rw (e, d, complete_attempt) (complete_outcome-Landed s w _ b o e)
