-- ===== src/Simulation/Workers/Requests.antt =====
-- A request for another number of sender workers keeps the pool sound.
use ingestion_lab_loadgen.Prelude.{
  ℕ, zero, suc, ◌-◌, ◌≤◌, ◌<◌, ◌≡◌, refl, List, [], ◌∷◌, ◌++◌, arith, All, sum_by, length, map,
  generate, ltb, ◌==◌, Option, none, some, sym, length-append, sum_by-append, All-append, ltb→lt,
  Bool-cases, inl, inr,
}
use ingestion_lab_loadgen.Simulation.Types.{SenderWorker, create_worker}
use ingestion_lab_loadgen.Simulation.State.{Simulation}
use ingestion_lab_loadgen.Simulation.Ledger.{
  IsWorker, held, held_transactions, flying, staying, Ledger, Ledger-cong,
}
use ingestion_lab_loadgen.Simulation.Invariant.{Pool, IsPosition}
use ingestion_lab_loadgen.Simulation.Workers.{request_sender_worker_count, mark_retiring, stay}
use ingestion_lab_loadgen.Simulation.Workers.Scaling.{finalize_sender_scale_down-Pool}

-- Two lists of workers hold and fly the same.
abbrev SameLoad : List SenderWorker → List SenderWorker → Type 0
SameLoad xs ys =
    (sum_by held xs ≡ sum_by held ys)
    × (sum_by held_transactions xs ≡ sum_by held_transactions ys)
    × (sum_by flying xs ≡ sum_by flying ys)

stay-facts :
    (ws : List SenderWorker)
    → All IsWorker ws
    → All IsWorker (map stay ws)
      × SameLoad (map stay ws) ws
      × (sum_by staying (map stay ws) ≡ length ws)
      × (length (map stay ws) ≡ length ws)
stay-facts [] a = (tt, (refl, refl, refl), refl, refl)
stay-facts (w ∷ ws) a = ground (arith, stay-facts ws a.1)

mark_retiring-facts :
    (k : ℕ) (ws : List SenderWorker)
    → k ≤ length ws
    → All IsWorker ws
    → let marked = mark_retiring k (map stay ws) in
      All IsWorker marked
      × SameLoad marked ws
      × (sum_by staying marked ≡ k)
      × (length marked ≡ length ws)
unfolding mark_retiring
mark_retiring-facts zero [] h a = (tt, (refl, refl, refl), refl, refl)
mark_retiring-facts (suc k) [] h a = elim h [ ]
mark_retiring-facts zero (w ∷ ws) h a =
    ground (arith, mark_retiring-facts zero ws (omega arith) a.1)
mark_retiring-facts (suc k) (w ∷ ws) h a =
    ground (arith, mark_retiring-facts k ws (omega arith) a.1)

pub generate-facts :
    (first n : ℕ)
    → let ws = generate create_worker first n in
      All IsWorker ws × SameLoad ws [] × (sum_by staying ws ≡ n) × (length ws ≡ n)
generate-facts first zero = (tt, (refl, refl, refl), refl, refl)
generate-facts first (suc n) = ground (arith, generate-facts (suc first) n)

-- A pool that is sound but for the number of workers that was last asked for.
abbrev pub Loaded : Simulation → Type 0
Loaded s =
    All IsWorker s.workers
    × Ledger s (sum_by held s.workers) (sum_by held_transactions s.workers)
        (sum_by flying s.workers) 0
    × IsPosition s.next_worker_index (length s.workers)

-- Only the workers change, to a list with the same load.
with_workers-Pool :
    (s : Simulation) (ws : List SenderWorker)
    → Loaded s
    → All IsWorker ws
    → SameLoad ws s.workers
    → sum_by staying ws ≡ s.config.sender_workers
    → length s.workers ≤ length ws
    → 0 < s.config.sender_workers
    → Pool (record s { workers = ws })
with_workers-Pool s ws v a same size long pos = record {
  workers = a;
  ledger = Ledger-cong s _ refl refl (sym same.0) (sym same.1) (sym same.2) v.1;
  index = IsPosition-mono s.next_worker_index _ _ long v.2;
  pool_size = size;
  has_sender = pos;
}
  where
    IsPosition-mono : (i : Option ℕ) (n m : ℕ) → n ≤ m → IsPosition i n → IsPosition i m
    IsPosition-mono none n m h p = absurd p
    IsPosition-mono (some i) n m h p = omega arith

grown : ℕ → List SenderWorker → List SenderWorker
grown requested ws = map stay ws ++ generate create_worker (length ws) (requested - length ws)

grown-facts :
    (requested : ℕ) (ws : List SenderWorker)
    → length ws < requested
    → All IsWorker ws
    → All IsWorker (grown requested ws)
      × SameLoad (grown requested ws) ws
      × (sum_by staying (grown requested ws) ≡ requested)
      × (length ws ≤ length (grown requested ws))
unfolding grown
grown-facts requested ws h a =
    let kept = stay-facts ws a in
    let fresh = generate-facts (length ws) (requested - length ws) in
    let xs = map stay ws in
    let ys = generate create_worker (length ws) (requested - length ws) in
    (
      All-append IsWorker xs ys kept.0 fresh.0,
      (
        omega (arith, sum_by-append held xs ys, kept.1.0, fresh.1.0),
        omega (arith, sum_by-append held_transactions xs ys, kept.1.1, fresh.1.1),
        omega (arith, sum_by-append flying xs ys, kept.1.2, fresh.1.2),
      ),
      omega (arith, sum_by-append staying xs ys, kept.2, fresh.2),
      omega (arith, length-append xs ys, kept.3),
    )

-- Whatever positive number is asked for, the pool is sound after the request.
pub request_sender_worker_count-Pool :
    (s : Simulation)
    → Loaded s
    → 0 < s.config.sender_workers
    → Pool (request_sender_worker_count s.config.sender_workers s)
unfolding request_sender_worker_count grown
request_sender_worker_count-Pool s v pos =
    let requested = s.config.sender_workers in
    let count = length s.workers in
    elim (Bool-cases (ltb count requested)) [
      | inl more ↦
          let g = grown-facts requested s.workers (ltb→lt _ _ more) v.0 in
          rw (more, request_sender_worker_count)
            (with_workers-Pool s (grown requested s.workers) v g.0 g.1 g.2 g.3 pos)
      | inr not_more ↦ elim (Bool-cases (requested == count)) [
        | inl same ↦
            let k = stay-facts s.workers v.0 in
            rw (not_more, request_sender_worker_count, same)
              (with_workers-Pool s (map stay s.workers) v k.0 k.1 (ground (arith, k.2))
                (omega (arith, k.3)) pos)
        | inr fewer ↦
            let m = mark_retiring-facts (count - (count - requested)) s.workers (omega arith) v.0 in
            rw (not_more, request_sender_worker_count, fewer)
              (finalize_sender_scale_down-Pool _
                (with_workers-Pool s _ v m.0 m.1 (ground (arith, m.2)) (omega (arith, m.3)) pos))
      ]
    ]

-- A request changes the workers and the index, and nothing else.
pub request_sender_worker_count-unchanged :
    (requested : ℕ) (s : Simulation)
    → let s' = request_sender_worker_count requested s in
      (s'.config ≡ s.config)
      × (s'.reader_channel ≡ s.reader_channel)
      × (s'.sender_channel ≡ s.sender_channel)
      × (s'.pending_throttled_batch ≡ s.pending_throttled_batch)
      × (s'.next_batch_sequence ≡ s.next_batch_sequence)
unfolding request_sender_worker_count
request_sender_worker_count-unchanged requested s = ground arith
