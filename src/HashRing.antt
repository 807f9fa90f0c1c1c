-- ===== src/HashRing.antt =====
-- include/mola/consistent_hashing.hpp: nodes on a ring of hash values. The `std::map` from hashes is
-- the list of its entries in ascending order; the hasher is applied by the caller.
pub mod Successor
mod Tests
use elastic_actor.Prelude.{
  ℕ, Bool, List, [], ◌∷◌, Option, none, some, ltb, leb, ◌==◌, if◌then◌else◌,
}

module _ {T : Type 0} where
  -- `nodes_.insert`, which leaves a hash that is present as it is.
  unfoldable pub insert_node : ℕ → T → List (ℕ × T) → List (ℕ × T)
  insert_node h t [] = (h, t) ∷ []
  insert_node h t ((k, x) ∷ m) =
      let rest = insert_node h t m in
      if ltb h k then ((h, t) ∷ (k, x) ∷ m) else if h == k then ((k, x) ∷ m) else ((k, x) ∷ rest)

  -- `nodes_.erase`
  unfoldable pub erase_node : ℕ → List (ℕ × T) → List (ℕ × T)
  erase_node h [] = []
  erase_node h ((k, x) ∷ m) = let rest = erase_node h m in if h == k then m else ((k, x) ∷ rest)

  unfoldable pub lower_bound : ℕ → List (ℕ × T) → Option (ℕ × T)
  lower_bound hash [] = none
  lower_bound hash ((k, x) ∷ m) =
      let rest = lower_bound hash m in if leb hash k then some (k, x) else rest

  abbrev pub begin_of : List (ℕ × T) → Option (ℕ × T)
  begin_of [] = none
  begin_of (e ∷ m) = some e

  -- `find`, where `none` is the end of an empty ring.
  unfoldable pub find_on_ring : ℕ → List (ℕ × T) → Option (ℕ × T)
  find_on_ring hash m = elim (lower_bound hash m) [ none ↦ begin_of m | some e ↦ some e ]
