-- ===== src/LoadBalancer.antt =====
-- include/mola/load_balancer.hpp: `RandomStrategy`, with the generator `AbsolateWorker::random` of
-- include/mola/scheduler.hpp. The seed of the thread is passed along. What is done with a message for
-- a node is an argument: whether it returns 0, and the state that it leaves.
pub mod Random
pub mod Spread
pub mod Taken
mod Tests
use elastic_actor.Prelude.{
  ℕ, zero, suc, ◌+◌, ◌-◌, ◌*◌, ◌%◌, ◌^◌, Bool, List, [], ◌∷◌, Option, none, some, ltb, ◌==◌,
  if◌then◌else◌, length, get_elem?, inc32, map, u32,
}

-- `RNGMOD` and `RNGMUL`
abbrev pub rng_mod : ℕ
rng_mod = 4294967291

abbrev pub rng_mul : ℕ
rng_mul = 69070

-- `srand`: the seed that is kept.
unfoldable pub srand : ℕ → ℕ
srand s = let r = s % rng_mod in if r == 0 then r + 1 else r

-- `random`: the new seed, which is the result as well.
unfoldable pub random : ℕ → ℕ
random seed = u32 (rng_mul * seed % rng_mod)

module _ {N : Type 0} where
  -- `candidates[i]`, out of bounds `none`.
  abbrev pub at : List N → ℕ → Option N
  at candidates i = get_elem? candidates i

  -- `select_one_node(candidates, size)`: the node and the new seed.
  unfoldable pub select_one_node : List N → ℕ → ℕ → Option N × ℕ
  unfolding random
  select_one_node candidates size seed = let r = random seed in (at candidates (r % size), r)

module _ {N M : Type 0} where
  -- The loop over a group that is larger than the set of candidates, from the random number `r` on:
  -- the node for each message.
  unfoldable pub in_turn : List N → ℕ → List M → List (Option N × M)
  in_turn candidates r [] = []
  in_turn candidates r (m ∷ group) =
      (at candidates (r % length candidates), m) ∷ in_turn candidates (inc32 r) group

  -- The loop over a group that is not.
  unfoldable pub at_random : List N → ℕ → List M → List (Option N × M)
  unfolding select_one_node
  at_random candidates seed [] = []
  at_random candidates seed (m ∷ group) =
      let (n, seed') = select_one_node candidates (length candidates) seed in
      (n, m) ∷ at_random candidates seed' group

  -- The node that each message of the group goes to; the task does not draw random numbers itself.
  unfoldable pub choose : List N → ℕ → List M → List (Option N × M)
  unfolding in_turn at_random
  choose candidates seed group =
      if ltb (length candidates) (length group)
      then in_turn candidates (random seed) group
      else at_random candidates seed group

  module _ {S : Type 0} (task : N → M → S → Bool × S) where
    -- `if (task(candidates[i], group[i]) == 0) rc++;`, where `none` is a read out of bounds.
    unfoldable pub run_jobs : List (Option N × M) → ℕ → S → Option (ℕ × S)
    run_jobs [] rc s = some (rc, s)
    run_jobs ((none, m) ∷ rest) rc s = none
    run_jobs ((some n, m) ∷ rest) rc s =
        let (done, s') = task n m s in run_jobs rest (if done then rc + 1 else rc) s'

    -- `scatter_to_nodes`: the number of messages that were taken; `none` is a failed assertion.
    unfoldable pub scatter_to_nodes : List N → ℕ → List M → S → Option (ℕ × S)
    unfolding choose run_jobs
    scatter_to_nodes candidates seed group s =
        if length candidates == 0 then none else run_jobs (choose candidates seed group) 0 s
