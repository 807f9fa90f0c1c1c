-- ===== src/LoadBalancer/Tests.antt =====
-- Groups and candidates at concrete values, and the generator.
use elastic_actor.Prelude.{
  ℕ, ◌<◌, ◌≡◌, ◌≢◌, Bool, true, false, List, [], ◌∷◌, some, length, arith, refl, zero, suc,
  if◌then◌else◌, ◌==◌,
}
use elastic_actor.LoadBalancer.{at, choose, srand, random, scatter_to_nodes}
use elastic_actor.LoadBalancer.Random.{IsSeed, srand-IsSeed, random-IsSeed}
use elastic_actor.LoadBalancer.Spread.{choose-apart}

abbrev two : List ℕ
two = 7 ∷ 8 ∷ []

abbrev five : List ℕ
five = 1 ∷ 2 ∷ 3 ∷ 4 ∷ 5 ∷ []

-- A task that fails on one node and keeps what the others took.
abbrev task : ℕ → ℕ → List ℕ → Bool × List ℕ
task n m s = if n == 8 then (false, s) else (true, m ∷ s)

random_1 : random 1 ≡ 69070
unfolding random
random_1 = refl

scatter_five : scatter_to_nodes task two 1 five [] ≡ some (3, 5 ∷ 3 ∷ 1 ∷ [])
unfolding scatter_to_nodes
scatter_five = refl

two_distinct : (a b : ℕ) → a < length two → b < length two → at two a ≡ at two b → a ≡ b
two_distinct zero zero p q e = refl
two_distinct (suc zero) (suc zero) p q e = refl
two_distinct zero (suc b) p q e = absurd (ground arith)
two_distinct (suc a) zero p q e = absurd (ground arith)
two_distinct (suc (suc a)) b p q e = absurd (omega arith)
two_distinct a (suc (suc b)) p q e = absurd (omega arith)

choose-apart_example : at two 0 ≢ at two 1
unfolding choose random
choose-apart_example =
    choose-apart two 1 five 2 3 (at two 0) (at two 1) 3 4 two_distinct (omega arith) (omega arith)
      (omega arith) (omega arith) refl refl

random-IsSeed_example : IsSeed (random (srand 0))
random-IsSeed_example = random-IsSeed (srand 0) (srand-IsSeed 0)
