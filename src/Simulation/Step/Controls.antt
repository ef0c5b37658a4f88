-- ===== src/Simulation/Step/Controls.antt =====
-- The constructor establishes the invariant, and the methods that change the simulation between two
-- steps keep it.
use ingestion_lab_loadgen.Prelude.{All, sum_by, length, ap}
use ingestion_lab_loadgen.Simulation.State.{zero_totals}
use ingestion_lab_loadgen.Simulation.Ledger.{IsWorker, held, held_transactions, flying, staying}
use ingestion_lab_loadgen.Simulation.Invariant.{IsPosition}
use ingestion_lab_loadgen.Simulation.Channel.Fifo.{Cleared, reset_runtime-Cleared}
use ingestion_lab_loadgen.Prelude.{
  ℕ, ◌<◌, ◌≡◌, refl, ◌∙◌, sym, subst, Option, none, some, arith, or_else, generate,
}
use ingestion_lab_loadgen.Simulation.Types.{
  SimulationConfig, SimulationAttemptContext, SimulationAttemptOutcome, create_worker,
}
use ingestion_lab_loadgen.Simulation.Channel.Fifo.{request_capacity-SameCounters}
use ingestion_lab_loadgen.Simulation.Channel.Invariant.{
  IsValid, reset_runtime-IsValid, request_capacity-IsValid, create-IsValid,
}
use ingestion_lab_loadgen.Simulation.State.{Simulation, transactions_of, create_simulation}
use ingestion_lab_loadgen.Simulation.Ledger.{Ledger-cong}
use ingestion_lab_loadgen.Simulation.Invariant.{Inv, Pool, Pool-cong, Plumbing-cong}
use ingestion_lab_loadgen.Simulation.Workers.{request_sender_worker_count}
use ingestion_lab_loadgen.Simulation.Workers.Requests.{
  generate-facts, Loaded, request_sender_worker_count-Pool, request_sender_worker_count-unchanged,
}
use ingestion_lab_loadgen.Simulation.Step.{
  PartialConfig, assign_config, scale_sender, update_config, ChannelNumber, reader, sender,
  request_channel_capacity, clear_instantaneous_telemetry, reset,
}

-- The values asked for leave at least one sender worker and a batch size that is not 0.
abbrev pub Positive : SimulationConfig → Type 0
Positive config = (0 < config.sender_workers) × (0 < config.read_batch_size)

-- A simulation that has done nothing yet, with new workers.
fresh-Inv :
    (s : Simulation)
    → s.workers ≡ generate create_worker 0 s.config.sender_workers
    → s.next_worker_index ≡ some 0
    → s.totals ≡ zero_totals
    → s.pending_throttled_batch ≡ none
    → s.next_batch_sequence ≡ 0
    → IsValid transactions_of s.reader_channel
    → IsValid transactions_of s.sender_channel
    → Cleared s.reader_channel
    → Cleared s.sender_channel
    → Positive s.config
    → Inv s
fresh-Inv s ew ei et ep es r c kr kc pos =
    let f = generate-facts 0 s.config.sender_workers in
    record {
      plumbing = record {
        reader = r;
        sender = c;
        created = ground (arith, kr, kc);
        throttled = ground (arith, kr, kc);
        throttled_transactions = ground (arith, kr, kc);
      };
      pool = record {
        workers = subst (All IsWorker) (sym ew) f.0;
        ledger = ground (
          arith,
          kc,
          ap (sum_by held) ew,
          ap (sum_by held_transactions) ew,
          ap (sum_by flying) ew,
          f.1,
        );
        index =
            subst (λ k. IsPosition k (length s.workers)) (sym ei)
              (omega (arith, pos, ap (length {0}) ew, f.3));
        pool_size = ap (sum_by staying) ew ∙ f.2;
        has_sender = pos.0;
      };
      batch_size = pos.1;
    }

-- A new simulation is sound, if it has a sender worker and its batches are not empty.
pub create_simulation-Inv :
    (config : SimulationConfig) (reader_capacity sender_capacity : ℕ)
    (source : Option (SimulationAttemptContext → SimulationAttemptOutcome))
    → 0 < config.sender_workers
    → 0 < config.read_batch_size
    → Inv (create_simulation config reader_capacity sender_capacity source)
unfolding create_simulation
create_simulation-Inv config r s source pos size =
    fresh-Inv (create_simulation config r s source) refl refl refl refl refl
      (create-IsValid transactions_of r) (create-IsValid transactions_of s) (ground arith)
      (ground arith) (pos, size)

scale_sender-Pool :
    (o : Option ℕ) (s : Simulation) (old : ℕ)
    → s.config.sender_workers ≡ or_else o old
    → Loaded s
    → sum_by staying s.workers ≡ old
    → 0 < s.config.sender_workers
    → Pool (scale_sender o s)
scale_sender-Pool none s old e v size pos = record {
  workers = v.0;
  ledger = v.1;
  index = v.2;
  pool_size = size ∙ sym e;
  has_sender = pos;
}
scale_sender-Pool (some requested) s old e v size pos =
    subst (λ n. Pool (request_sender_worker_count n s)) e (request_sender_worker_count-Pool s v pos)

scale_sender-unchanged :
    (o : Option ℕ) (s : Simulation)
    → let s' = scale_sender o s in
      (s'.config ≡ s.config)
      × (s'.reader_channel ≡ s.reader_channel)
      × (s'.sender_channel ≡ s.sender_channel)
      × (s'.pending_throttled_batch ≡ s.pending_throttled_batch)
      × (s'.next_batch_sequence ≡ s.next_batch_sequence)
scale_sender-unchanged none s = (refl, refl, refl, refl, refl)
scale_sender-unchanged (some requested) s = request_sender_worker_count-unchanged requested s

-- Any change of the configuration that keeps it positive keeps the simulation sound, also one of the
-- number of sender workers while attempts are under way.
pub update_config-Inv :
    (values : PartialConfig) (s : Simulation)
    → Positive (assign_config s.config values)
    → Inv s
    → Inv (update_config values s)
unfolding update_config
update_config-Inv values s pos v =
    let s₁ : Simulation = record s { config = assign_config s.config values } in
    let same = scale_sender-unchanged values.sender_workers s₁ in
    record {
      plumbing = Plumbing-cong {s = s} same.1 same.2 same.3 same.4 v.plumbing;
      pool = Pool-cong {s = scale_sender values.sender_workers s₁} refl refl refl refl refl (
          scale_sender-Pool values.sender_workers s₁ s.config.sender_workers refl
            (v.pool.workers, Ledger-cong s _ refl refl refl refl refl v.pool.ledger, v.pool.index)
            v.pool.pool_size pos.0);
      batch_size = subst (λ (c : SimulationConfig). 0 < c.read_batch_size) (sym same.0) pos.1;
    }

-- The configuration becomes the given values, with the old ones where none is given.
pub update_config-config :
    (values : PartialConfig) (s : Simulation)
    → (update_config values s).config ≡ assign_config s.config values
unfolding update_config
update_config-config values s =
    (scale_sender-unchanged values.sender_workers
      (record s { config = assign_config s.config values })).0

pub request_channel_capacity-Inv :
    (channel : ChannelNumber) (capacity : ℕ) (s : Simulation)
    → Inv s
    → Inv (request_channel_capacity channel capacity s).0
unfolding request_channel_capacity
request_channel_capacity-Inv reader capacity s v =
    let k = request_capacity-SameCounters s.reader_channel capacity in
    record {
      plumbing = record {
        reader =
            request_capacity-IsValid transactions_of s.reader_channel capacity v.plumbing.reader;
        sender = v.plumbing.sender;
        created = ground (arith, v.plumbing.created, k);
        throttled = ground (arith, v.plumbing.throttled, k);
        throttled_transactions = ground (arith, v.plumbing.throttled_transactions, k);
      };
      pool = Pool-cong refl refl refl refl refl v.pool;
      batch_size = v.batch_size;
    }
request_channel_capacity-Inv sender capacity s v =
    let k = request_capacity-SameCounters s.sender_channel capacity in
    record {
      plumbing = record {
        reader = v.plumbing.reader;
        sender =
            request_capacity-IsValid transactions_of s.sender_channel capacity v.plumbing.sender;
        created = v.plumbing.created;
        throttled = ground (arith, v.plumbing.throttled, k);
        throttled_transactions = ground (arith, v.plumbing.throttled_transactions, k);
      };
      pool = record {
        workers = v.pool.workers;
        ledger = ground (arith, v.pool.ledger, k);
        index = v.pool.index;
        pool_size = v.pool.pool_size;
        has_sender = v.pool.has_sender;
      };
      batch_size = v.batch_size;
    }

pub clear_instantaneous_telemetry-Inv :
    (s : Simulation) → Inv s → Inv (clear_instantaneous_telemetry s)
unfolding clear_instantaneous_telemetry
clear_instantaneous_telemetry-Inv s v = record {
  plumbing = Plumbing-cong refl refl refl refl v.plumbing;
  pool = Pool-cong refl refl refl refl refl v.pool;
  batch_size = v.batch_size;
}

pub reset-Inv : (s : Simulation) → Inv s → Inv (reset s)
unfolding reset
reset-Inv s v =
    fresh-Inv (reset s) refl refl refl refl refl
      (reset_runtime-IsValid transactions_of s.reader_channel)
      (reset_runtime-IsValid transactions_of s.sender_channel)
      (reset_runtime-Cleared s.reader_channel) (reset_runtime-Cleared s.sender_channel)
      (v.pool.has_sender, v.batch_size)

-- Neither a capacity request, nor clearing the rate window, nor a reset changes the configuration.
pub request_channel_capacity-config :
    (channel : ChannelNumber) (capacity : ℕ) (s : Simulation)
    → (request_channel_capacity channel capacity s).0.config ≡ s.config
unfolding request_channel_capacity
request_channel_capacity-config reader capacity s = refl
request_channel_capacity-config sender capacity s = refl

pub clear_instantaneous_telemetry-config :
    (s : Simulation) → (clear_instantaneous_telemetry s).config ≡ s.config
unfolding clear_instantaneous_telemetry
clear_instantaneous_telemetry-config s = refl

pub reset-config : (s : Simulation) → (reset s).config ≡ s.config
unfolding reset
reset-config s = refl
