-- ===== src/LoadBalancer/Random.antt =====
-- The seeds of `AbsolateWorker::random`, include/mola/scheduler.hpp.
use elastic_actor.Prelude.{ℕ, ◌<◌, arith}
use elastic_actor.LoadBalancer.{rng_mod, srand, random}

-- A seed that the generator can be in.
abbrev pub IsSeed : ℕ → Type 0
IsSeed s = (0 < s) × (s < rng_mod)

pub srand-IsSeed : (s : ℕ) → IsSeed (srand s)
unfolding srand
srand-IsSeed s = ground arith

-- 69070 has an inverse modulo 2^32 - 5, so that a product with it vanishes only for 0.
pub random-IsSeed : (s : ℕ) → IsSeed s → IsSeed (random s)
unfolding random
random-IsSeed s (some_there, small) = (omega arith, omega arith)
