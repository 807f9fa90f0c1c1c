-- ===== src/Nodes.antt =====
-- The nodes of a cluster: include/mola/node_manager.hpp and src/node_manager.cpp, the cache that a worker
-- has in include/mola/scheduler.hpp, and the pool of delayed messages. What the engine answers for a node
-- id and for a synchronisation are arguments; a string is a number that stands for it.
pub mod Lookup
pub mod Delay
mod Tests
use elastic_actor.Prelude.{
  ℕ, zero, suc, ◌+◌, Bool, true, false, not, ◌&&◌, List, [], ◌∷◌, ◌++◌, Option, none, some, ◌==◌,
  if◌then◌else◌, Map, find, insert, erase, put, is_some,
}

pub record ModuleInfo : Type 0 where
  pub name : ℕ
  pub id : ℕ
  pub is_public : Bool

pub record NodeInfo : Type 0 where
  pub id : ℕ
  pub endian : ℕ
  pub proto : ℕ
  pub port : ℕ
  pub ip : ℕ
  pub modules : List ModuleInfo

-- `Node::equals`
abbrev pub equals : NodeInfo → NodeInfo → Bool
equals a b =
    a.id == b.id && a.ip == b.ip && a.port == b.port && a.proto == b.proto && a.endian == b.endian

-- `Node::has_module(uint32_t)`
abbrev pub has_module_in : ℕ → List ModuleInfo → Bool
has_module_in id [] = false
has_module_in id (i ∷ is) = if i.id == id then true else has_module_in id is

unfoldable pub add_module : ModuleInfo → NodeInfo → NodeInfo
add_module i n = record n { modules = n.modules ++ (i ∷ []) }

-- `AbsolateWorker::Cache`, where the value of an entry may be null.
pub record Cache : Type 0 where
  pub valid : Bool
  pub entries : Map (Option NodeInfo)

-- `get`: the value, or null, and the cache.
unfoldable pub cache_get : ℕ → Cache → Option NodeInfo × Cache
cache_get key c =
    if c.valid
    then (elim (find key c.entries) [ none ↦ (none, c) | some value ↦ (value, c) ])
    else (none, record { valid = true; entries = [] })

unfoldable pub cache_insert : ℕ → Option NodeInfo → Cache → Cache
cache_insert key value c = record c { entries = insert key value c.entries }

-- `NodeManager`, as far as `find_node` uses it.
pub record Manager : Type 0 where
  pub alive : Map NodeInfo
  pub need_sync : Bool

-- `delete_cached_node`
unfoldable pub delete_cached_node : ℕ → Manager → Bool × Manager
delete_cached_node id m = elim (find id m.alive) [
  | none ↦ (false, m)
  | some _ ↦ (true, record m { alive = erase id m.alive })
]

-- `update_cached_node`
unfoldable pub update_cached_node : NodeInfo → Manager → Bool × Manager
update_cached_node n m =
    let added : Manager = record m { alive = insert n.id n m.alive } in
    elim (find n.id m.alive) [
      | none ↦ (true, added)
      | some o ↦ if equals o n then (false, m) else (true, added)
    ]

-- The worker's cache takes over what was found.
abbrev pub looked_up : ℕ → Cache → Option NodeInfo × Manager → Option NodeInfo × Cache × Manager
looked_up id c (n, m) = (n, cache_insert id n c, m)

-- What the engine's `sync_all_nodes` makes of the table, and whether it calls `invalid_thread_cache`.
module _ (sync_all_nodes : Map NodeInfo → Map NodeInfo × Bool)
    (engine_find : ℕ → Option NodeInfo) where
  -- With the cache of the worker that looks a node up, which `invalid_thread_cache` declares invalid
  -- like every other one.
  unfoldable pub synced : Cache → Manager → Cache × Manager
  synced c m =
      if m.need_sync
      then (let (alive, changed) = sync_all_nodes m.alive in
          (
            record c { valid = if changed then false else c.valid },
            record { alive = alive; need_sync = false },
          ))
      else (c, m)

  -- What `find_node` does under the lock.
  unfoldable pub find_locked : ℕ → Manager → Option NodeInfo × Manager
  find_locked id m = elim (find id m.alive) [
    | some n ↦ (some n, m)
    | none ↦ elim (engine_find id) [
      | none ↦ (none, m)
      | some n ↦ (some n, (update_cached_node n m).1)
    ]
  ]

  -- `find_node`, on a worker.
  unfoldable pub find_node : ℕ → Cache → Manager → Option NodeInfo × Cache × Manager
  find_node id c m =
      let (cached, c') = cache_get id c in
      elim cached [
        | some n ↦ (some n, c', m)
        | none ↦ let (c'', m') = synced c' m in looked_up id c'' (find_locked id m')
      ]

-- A pool of delayed tasks for one event, `DelayMessagePool`, where `run` calls a task: whether it
-- returns 0, and the state that it leaves.
module _ {T W : Type 0} (run : T → W → Bool × W) where
  -- `while (q.size() > 0)`: a task that does not return 0 goes to the end of the queue. `none` is a
  -- loop that has not ended.
  unfoldable pub run_tasks : ℕ → List T → W → Option W
  run_tasks fuel [] w = some w
  run_tasks zero (t ∷ q) w = none
  run_tasks (suc fuel) (t ∷ q) w =
      let q' : List T = if (run t w).0 then q else (q ++ (t ∷ [])) in run_tasks fuel q' (run t w).1
