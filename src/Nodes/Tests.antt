-- ===== src/Nodes/Tests.antt =====
-- src/node_manager.cpp at concrete inputs.
use elastic_actor.Prelude.{
  ℕ, ◌+◌, ◌≡◌, refl, arith, Bool, true, false, not, [], ◌∷◌, Option, none, some, ◌==◌, find, inl,
  ◌⊎◌, Map, if◌then◌else◌,
}
use elastic_actor.Nodes.{
  NodeInfo, Cache, Manager, update_cached_node, find_node, cache_get, synced, find_locked,
  run_tasks,
}
use elastic_actor.Nodes.Lookup.{update_cached_node-find, Found, find_node-Found}
use elastic_actor.Nodes.Delay.{run_tasks-stuck}

abbrev old_node : NodeInfo
old_node = record { id = 7; endian = 0; proto = 0; port = 8080; ip = 1; modules = [] }

abbrev moved_node : NodeInfo
moved_node = record { id = 7; endian = 0; proto = 0; port = 9090; ip = 1; modules = [] }

abbrev one_node : Manager
one_node = record { alive = (7, old_node) ∷ []; need_sync = false }

-- The node has moved to another port; the update reports a change, and the old port stays.
update_cached_node-find_example :
    (find 7 (update_cached_node moved_node one_node).1.alive ≡ some old_node)
    × ((update_cached_node moved_node one_node).0 ≡ true)
update_cached_node-find_example = update_cached_node-find moved_node one_node

-- Node 7 is not known yet, and a synchronisation is due that changes nothing.
abbrev nobody : Manager
nobody = record { alive = []; need_sync = true }

abbrev no_cache : Cache
no_cache = record { valid = true; entries = [] }

abbrev nothing_new : Map NodeInfo → Map NodeInfo × Bool
nothing_new alive = (alive, false)

abbrev engine : ℕ → Option NodeInfo
engine id = if id == 7 then some old_node else none

engine-id : (id : ℕ) (n : NodeInfo) → engine id ≡ some n → n.id ≡ id
engine-id id n e = ground (arith, e)

abbrev first : Option NodeInfo × Cache × Manager
first = find_node nothing_new engine 7 no_cache nobody

find_node-Found_example :
    ((first ≡ (some old_node, no_cache, nobody)) × ((cache_get 7 no_cache).0 ≡ some old_node))
    ⊎ Found nothing_new engine engine-id 7 old_node no_cache first.1 first.2
unfolding find_node cache_get find_locked synced
find_node-Found_example =
    find_node-Found nothing_new engine engine-id 7 old_node no_cache nobody refl

-- Task 0 fails always, and the others never.
abbrev call : ℕ → ℕ → Bool × ℕ
call t w = (not (t == 0), w + t)

run_tasks-stuck_example : run_tasks call 100 (0 ∷ 5 ∷ []) 3 ≡ none
run_tasks-stuck_example = run_tasks-stuck call 0 (λ w. refl) 100 (0 ∷ 5 ∷ []) 3 (inl refl)
