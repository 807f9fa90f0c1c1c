-- ===== src/Nodes/Lookup.antt =====
-- Looking a node up in src/node_manager.cpp: the worker's cache, the table of alive nodes and the engine
-- behind them.
use elastic_actor.Prelude.{
  ℕ, ◌≡◌, ◌≢◌, ◌∙◌, ◌⊎◌, refl, ap, sym, subst, inl, inr, Bool, true, false, not, Option, none, some,
  arith, Bool-cases, Option-cases, if◌then◌else◌, Map, find, insert, find-insert, insert-present,
  find-erase_self, find-erase_ne,
}
use elastic_actor.Nodes.{
  NodeInfo, equals, Cache, cache_get, cache_insert, Manager, delete_cached_node, update_cached_node,
  synced, find_locked, looked_up, find_node,
}

-- What an id names in the table after an update: the node that was there before, if there was one,
-- even if the update says that it has changed the table, as it does for a node that differs.
pub update_cached_node-find :
    (n : NodeInfo) (m : Manager)
    → (find n.id (update_cached_node n m).1.alive
        ≡ elim (find n.id m.alive) [ none ↦ some n | some o ↦ some o ])
      × ((update_cached_node n m).0
          ≡ elim (find n.id m.alive) [ none ↦ true | some o ↦ not (equals o n) ])
unfolding update_cached_node
update_cached_node-find n m = elim (Option-cases (find n.id m.alive)) [
  | inl e ↦ rw (e, update_cached_node) (find-insert n.id n m.alive e, refl)
  | inr (o, e) ↦ elim (Bool-cases (equals o n)) [
    | inl y ↦ rw (e, update_cached_node, y) (e, refl)
    | inr other ↦ rw (e, update_cached_node, other, insert-present n.id n o m.alive e) (e, refl)
  ]
]

-- A node that is taken out of the table is not found there any more, and the others stay.
pub delete_cached_node-find :
    (id : ℕ) (m : Manager)
    → (find id (delete_cached_node id m).1.alive ≡ none)
      × ((k : ℕ) → id ≢ k → find k (delete_cached_node id m).1.alive ≡ find k m.alive)
unfolding delete_cached_node
delete_cached_node-find id m = elim (Option-cases (find id m.alive)) [
  | inl e ↦ rw (e, delete_cached_node) (e, λ k ne. refl)
  | inr (n, e) ↦
      rw (e, delete_cached_node) (find-erase_self id m.alive, λ k ne. find-erase_ne id k m.alive ne)
]

update_cached_node-new :
    (o : NodeInfo) (id : ℕ) (m : Manager)
    → o.id ≡ id
    → find id m.alive ≡ none
    → (find id (update_cached_node o m).1.alive ≡ some o)
      × ((update_cached_node o m).1.need_sync ≡ m.need_sync)
unfolding update_cached_node
update_cached_node-new o id m key absent =
    let absent' : find o.id m.alive ≡ none = subst (λ k. find k m.alive ≡ none) (sym key) absent in
    rw (absent', update_cached_node)
      (
        subst (λ k. find k (insert o.id o m.alive) ≡ some o) key
            (find-insert o.id o m.alive absent'),
        refl,
      )

module _ (sync_all_nodes : Map NodeInfo → Map NodeInfo × Bool) (engine_find : ℕ → Option NodeInfo)
    (named : (id : ℕ) (n : NodeInfo) → engine_find id ≡ some n → n.id ≡ id) where
  abbrev locked : ℕ → Manager → Option NodeInfo × Manager
  locked id m = find_locked sync_all_nodes engine_find id m

  -- What is found under the lock stands in the table afterwards.
  find_locked_lem :
      (id : ℕ) (n : NodeInfo) (m : Manager)
      → (locked id m).0 ≡ some n
      → (find id (locked id m).1.alive ≡ some n) × ((locked id m).1.need_sync ≡ m.need_sync)
  unfolding find_locked update_cached_node
  find_locked_lem id n m e = elim (Option-cases (find id m.alive)) [
    | inr (o, there) ↦ (ground arith, ground arith)
    | inl absent ↦ elim (Option-cases (engine_find id)) [
      | inl nowhere ↦ absurd (ground arith)
      | inr (o, there) ↦
          let same : o ≡ n = ground arith in
          let key : o.id ≡ id = named id o there in
          let (found, sync) = update_cached_node-new o id m (named id o there) absent in
          rw (absent, find_locked, there) (found ∙ ap some same, sync)
    ]
  ]

  abbrev lookup : ℕ → Cache → Manager → Option NodeInfo × Cache × Manager
  lookup id c m = find_node sync_all_nodes engine_find id c m

  lookup-cached :
      (id : ℕ) (k : NodeInfo) (c : Cache) (m : Manager)
      → (cache_get id c).0 ≡ some k
      → lookup id c m ≡ (some k, (cache_get id c).1, m)
  unfolding find_node
  lookup-cached id k c m e = rw (e, find_node) refl

  lookup-missed :
      (id : ℕ) (c : Cache) (m : Manager)
      → (cache_get id c).0 ≡ none
      → lookup id c m
        ≡ looked_up id
            (synced sync_all_nodes engine_find (cache_get id c).1 m).0
            (locked id (synced sync_all_nodes engine_find (cache_get id c).1 m).1)
  unfolding find_node
  lookup-missed id c m e = rw (e, find_node) refl

  cache_get-hit :
      (id : ℕ) (k : NodeInfo) (c : Cache) → (cache_get id c).0 ≡ some k → (cache_get id c).1 ≡ c
  unfolding cache_get
  cache_get-hit id k c e = ground arith

  -- The entry of a cache after a look-up that it did not answer: an earlier null answer stays.
  abbrev pub entry_after : ℕ → NodeInfo → Cache → Option (Option NodeInfo)
  entry_after id n c =
      if c.valid
      then (elim (find id c.entries) [ none ↦ some (some n) | some earlier ↦ some earlier ])
      else some (some n)

  insert-entry :
      (id : ℕ) (n : NodeInfo) (c : Cache)
      → find id (insert id (some n) (cache_get id c).1.entries) ≡ entry_after id n c
  unfolding cache_get
  insert-entry id n c = elim (Bool-cases c.valid) [
    | inr stale ↦ ground arith
    | inl valid ↦ elim (Option-cases (find id c.entries)) [
      | inl absent ↦ ground arith
      | inr (w, there) ↦ ground arith
    ]
  ]

  synced-cache :
      (c : Cache) (m : Manager) → (synced sync_all_nodes engine_find c m).0.entries ≡ c.entries
  unfolding synced
  synced-cache c m = ground arith

  synced-idle :
      (c : Cache) (m : Manager) → (synced sync_all_nodes engine_find c m).1.need_sync ≡ false
  unfolding synced
  synced-idle c m = ground arith

  -- What a look-up behind the cache leaves.
  pub record Found (id : ℕ) (n : NodeInfo) (c c' : Cache) (m' : Manager) : Type 0 where
    pub missed : (cache_get id c).0 ≡ none
    pub table : find id m'.alive ≡ some n
    pub synchronised : m'.need_sync ≡ false
    pub entry : find id c'.entries ≡ entry_after id n c

  -- A node that is found comes from the worker's cache, and then nothing changes; or it stands in the
  -- table of alive nodes afterwards, no synchronisation is due any more, and the worker's cache has
  -- taken it over, unless an earlier null answer stands in the cache, which is never replaced. The
  -- engine answers for an id only with a node that has it.
  pub find_node-Found :
      (id : ℕ) (n : NodeInfo) (c : Cache) (m : Manager)
      → (find_node sync_all_nodes engine_find id c m).0 ≡ some n
      → ((find_node sync_all_nodes engine_find id c m ≡ (some n, c, m))
          × ((cache_get id c).0 ≡ some n))
        ⊎ Found id n c
            (find_node sync_all_nodes engine_find id c m).1
            (find_node sync_all_nodes engine_find id c m).2
  unfolding cache_insert
  find_node-Found id n c m e = elim (Option-cases (cache_get id c).0) [
    | inr (k, hit) ↦
        let first = lookup-cached id k c m hit in
        let same : k ≡ n = ground (arith, ap (λ r. r.0) first) in
        inl (
          first
              ∙ ap (λ x. (some k, x, m)) (cache_get-hit id k c hit)
              ∙ ap (λ x. (some x, c, m)) same,
          hit ∙ ap some same,
        )
    | inl missed ↦
        let first = lookup-missed id c m missed in
        let s = synced sync_all_nodes engine_find (cache_get id c).1 m in
        let got : (locked id s.1).0 ≡ some n = sym (ap (λ r. r.0) first) ∙ e in
        let (alive, sync) = find_locked_lem id n s.1 got in
        inr (record {
          missed = missed;
          table = ap (λ r. find id r.2.alive) first ∙ alive;
          synchronised = ap (λ r. r.2.need_sync) first ∙ sync ∙ synced-idle (cache_get id c).1 m;
          entry =
              ap (λ r. find id r.1.entries) first
              ∙ ap (λ v. find id (insert id v s.0.entries)) got
              ∙ ap (λ es. find id (insert id (some n) es)) (synced-cache (cache_get id c).1 m)
              ∙ insert-entry id n c;
        })
  ]
