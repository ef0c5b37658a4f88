-- ===== src/Simulation/Workers.antt =====
-- The sender's pool of `FixedStepSimulation` (frontend/src/model/simulation.ts): the round-robin
-- search for an idle worker, and scaling up and down.
pub mod Search
pub mod Scaling
pub mod Requests
pub mod Counts
use ingestion_lab_loadgen.Prelude.{
  ℕ, zero, suc, ◌+◌, ◌-◌, ◌%◌, Bool, true, false, not, ◌||◌, ◌&&◌, Option, none, some, List, [],
  ◌∷◌, ◌++◌, ltb, ◌==◌, if◌then◌else◌, length, get_elem?, filter, any, generate, map,
}
use ingestion_lab_loadgen.Prelude.Results.{Result, ok, throw, undefined_worker}
use ingestion_lab_loadgen.Simulation.Types.{
  SenderWorker, is_idle, is_in_flight, is_backoff, create_worker,
}
use ingestion_lab_loadgen.Simulation.State.{Simulation}

-- A worker that takes a new batch.
abbrev pub is_available : SenderWorker → Bool
is_available worker = not worker.retiring && is_idle worker.state

-- The loop of `nextIdleWorker` from `offset` on, with `rounds` of it left.
scan_workers : List SenderWorker → ℕ → ℕ → ℕ → Result (Option (ℕ × SenderWorker))
scan_workers workers next offset zero = ok none
scan_workers workers next offset (suc rounds) =
    let index = (next + offset) % length workers in
    let rest = scan_workers workers next (offset + 1) rounds in
    elim (get_elem? workers index) [
      | none ↦ throw undefined_worker
      | some worker ↦ if is_available worker then ok (some (index, worker)) else rest
    ]

-- With no worker the loop has no round; otherwise an index that is NaN reads `undefined`.
search_idle : List SenderWorker → Option ℕ → Result (Option (ℕ × SenderWorker))
unfolding scan_workers
search_idle [] next = ok none
search_idle (w ∷ ws) none = throw undefined_worker
search_idle (w ∷ ws) (some next) = scan_workers (w ∷ ws) next 0 (length (w ∷ ws))

-- The worker with its index, and `nextWorkerIndex` moved past it.
pub next_idle_worker : Simulation → Result (Option (ℕ × SenderWorker) × Simulation)
unfolding search_idle
next_idle_worker s = elim (search_idle s.workers s.next_worker_index) [
  | throw fault ↦ throw fault
  | ok none ↦ ok (none, s)
  | ok (some (index, worker)) ↦
      ok (
        some (index, worker),
        record s { next_worker_index = some ((index + 1) % length s.workers) },
      )
]

-- `n % m`, which is NaN for m = 0
abbrev remainder : ℕ → ℕ → Option ℕ
remainder n m = if m == 0 then none else some (n % m)

-- `this.nextWorkerIndex %= this.workers.length`
abbrev wrap_index : Option ℕ → ℕ → Option ℕ
wrap_index none workers = none
wrap_index (some index) workers = remainder index workers

-- Workers that retire leave together, once all of them are idle.
pub finalize_sender_scale_down : Simulation → Simulation
finalize_sender_scale_down s =
    let retiring = filter (λ w. w.retiring) s.workers in
    let staying = filter (λ w. not w.retiring) s.workers in
    if length retiring == 0 || any (λ w. not (is_idle w.state)) retiring then s else record s {
      workers = staying;
      next_worker_index = wrap_index s.next_worker_index (length staying);
    }

-- The workers from `index` on retire, those before it do not.
pub mark_retiring : ℕ → List SenderWorker → List SenderWorker
mark_retiring index [] = []
mark_retiring zero (w ∷ ws) = record w { retiring = true } ∷ mark_retiring zero ws
mark_retiring (suc index) (w ∷ ws) = w ∷ mark_retiring index ws

abbrev pub stay : SenderWorker → SenderWorker
stay w = record w { retiring = false }

pub request_sender_worker_count : ℕ → Simulation → Simulation
unfolding finalize_sender_scale_down mark_retiring
request_sender_worker_count requested s =
    let kept = map stay s.workers in
    let count = length s.workers in
    if ltb count requested
    then record s { workers = kept ++ generate create_worker count (requested - count) }
    else if requested == count
    then record s { workers = kept }
    else finalize_sender_scale_down
        (record s { workers = mark_retiring (count - (count - requested)) kept })

pub record WorkerStateCounts : Type 0 where
  pub idle : ℕ
  pub in_flight : ℕ
  pub backoff : ℕ

abbrev count_if : (SenderWorker → Bool) → List SenderWorker → ℕ
count_if test ws = length (filter test ws)

-- `workerStateCounts` for the workers that retire, or for those that do not.
pub state_counts : Bool → List SenderWorker → WorkerStateCounts
state_counts retiring ws =
    let group = filter (λ w. if retiring then w.retiring else not w.retiring) ws in
    record {
      idle = count_if (λ w. is_idle w.state) group;
      in_flight = count_if (λ w. is_in_flight w.state) group;
      backoff = count_if (λ w. is_backoff w.state) group;
    }
