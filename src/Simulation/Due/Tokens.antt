-- ===== src/Simulation/Due/Tokens.antt =====
-- The throttler's tokens: a refill keeps the invariant.
use ingestion_lab_loadgen.Prelude.{arith}
use ingestion_lab_loadgen.Simulation.State.{Simulation}
use ingestion_lab_loadgen.Simulation.Invariant.{Inv, Pool-cong, Plumbing-cong, Kept}
use ingestion_lab_loadgen.Simulation.Due.{refill_throttler_tokens}

pub refill_throttler_tokens-Kept : (s : Simulation) → Inv s → Kept s (refill_throttler_tokens s)
unfolding refill_throttler_tokens
refill_throttler_tokens-Kept s v = (
  record {
    plumbing = Plumbing-cong (ground arith) (ground arith) (ground arith) (ground arith) v.plumbing;
    pool =
        Pool-cong (ground arith) (ground arith) (ground arith) (ground arith) (ground arith) v.pool;
    batch_size = ground (arith, v.batch_size);
  },
  ground arith,
  ground arith,
)
