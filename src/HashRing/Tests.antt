-- ===== src/HashRing/Tests.antt =====
-- include/mola/consistent_hashing.hpp at a concrete input.
use elastic_actor.Prelude.{ℕ, ◌≤◌, ◌≡◌, ◌⊎◌, arith, List, [], ◌∷◌, some}
use elastic_actor.HashRing.{insert_node, find_on_ring}
use elastic_actor.HashRing.Successor.{Ascending, NoneBetween, find_on_ring-insert}

abbrev two_nodes : List (ℕ × ℕ)
two_nodes = (10, 1) ∷ (30, 2) ∷ []

find_on_ring-insert_example :
    (15 ≤ 20
      → NoneBetween 15 20 two_nodes
      → find_on_ring 15 (insert_node 20 3 two_nodes) ≡ some (20, 3))
    × ((find_on_ring 15 (insert_node 20 3 two_nodes) ≡ some (20, 3))
        ⊎ (find_on_ring 15 (insert_node 20 3 two_nodes) ≡ find_on_ring 15 two_nodes))
    × Ascending (insert_node 20 3 two_nodes)
find_on_ring-insert_example = find_on_ring-insert 15 20 3 two_nodes ((omega arith, tt), (tt, tt))
