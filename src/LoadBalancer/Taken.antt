-- ===== src/LoadBalancer/Taken.antt =====
-- What `scatter_to_nodes` of include/mola/load_balancer.hpp does with a group, against a
-- description of it: the messages in their order, each with a node of the set.
use elastic_actor.Prelude.{
  ℕ, zero, suc, ◌+◌, ◌%◌, ◌<◌, ◌≤◌, ◌≡◌, Bool, List, [], ◌∷◌, Option, some, ltb, length, inc32, map,
  Bool-cases, inl, inr, arith, ap, ◌∙◌, sym, refl, subst, if◌then◌else◌,
}
use elastic_actor.LoadBalancer.{
  random, at, select_one_node, in_turn, at_random, choose, run_jobs, scatter_to_nodes,
}
use native.Mathlib.Nat.{mod-lt}

module _ {N M S : Type 0} (task : N → M → S → Bool × S) where
  -- The tasks one after the other: how many returned 0, and the state in the end.
  unfoldable pub perform : List (N × M) → S → ℕ × S
  perform [] s = (0, s)
  perform ((n, m) ∷ rest) s =
      let (done, s') = task n m s in
      let (k, s'') = perform rest s' in (if done then suc k else k, s'')

  run_jobs-perform :
      (jobs : List (N × M)) (rc : ℕ) (s : S)
      → run_jobs task (map (λ (n, m). (some n, m)) jobs) rc s
        ≡ some (rc + (perform jobs s).0, (perform jobs s).1)
  unfolding run_jobs perform
  run_jobs-perform [] rc s = ap (λ k. some (k, s)) (omega arith)
  run_jobs-perform ((n, m) ∷ jobs) rc s =
      let done = (task n m s).0 in
      let s' = (task n m s).1 in
      run_jobs-perform jobs (if done then rc + 1 else rc) s'
      ∙ ap (λ k. some (k, (perform jobs s').1)) (ground arith)

  perform-bounded : (jobs : List (N × M)) (s : S) → (perform jobs s).0 ≤ length jobs
  unfolding perform
  perform-bounded [] s = omega arith
  perform-bounded ((n, m) ∷ jobs) s = let rest = perform-bounded jobs (task n m s).1 in ground arith

length-map : {A B : Type 0} (f : A → B) (xs : List A) → length (map f xs) ≡ length xs
length-map f [] = refl
length-map f (x ∷ xs) = ap suc (length-map f xs)

at-found :
    {N : Type 0} (candidates : List N) (i : ℕ)
    → i < length candidates
    → (n : N) × (at candidates i ≡ some n)
at-found [] i small = absurd (omega arith)
at-found (n ∷ candidates) zero small = (n, refl)
at-found (n ∷ candidates) (suc i) small = at-found candidates i (omega arith)

module _ {N M : Type 0} (candidates : List N) where
  -- No read out of bounds, and a node for each message.
  abbrev Assigns : List M → List (Option N × M) → Type 0
  Assigns group chosen =
      (jobs : List (N × M)) × (chosen ≡ map (λ (n, m). (some n, m)) jobs)
      × (map (λ p. p.1) jobs ≡ group)

  one_more :
      (i : ℕ) (m : M) (group : List M) (chosen : List (Option N × M))
      → 0 < length candidates
      → Assigns group chosen
      → Assigns (m ∷ group) ((at candidates (i % length candidates), m) ∷ chosen)
  one_more i m group chosen some_node (jobs, e, e') =
      let (n, found) = at-found candidates (i % length candidates) (mod-lt i some_node) in
      ((n, m) ∷ jobs, cc, cc)

  in_turn-Assigns :
      (r : ℕ) (group : List M) → 0 < length candidates → Assigns group (in_turn candidates r group)
  unfolding in_turn
  in_turn-Assigns r [] some_node = ([], refl, refl)
  in_turn-Assigns r (m ∷ group) some_node =
      one_more r m group (in_turn candidates (inc32 r) group) some_node
        (in_turn-Assigns (inc32 r) group some_node)

  at_random-Assigns :
      (seed : ℕ) (group : List M)
      → 0 < length candidates
      → Assigns group (at_random candidates seed group)
  unfolding at_random select_one_node
  at_random-Assigns seed [] some_node = ([], refl, refl)
  at_random-Assigns seed (m ∷ group) some_node =
      one_more (random seed) m group (at_random candidates (random seed) group) some_node
        (at_random-Assigns (random seed) group some_node)

  choose-Assigns :
      (seed : ℕ) (group : List M)
      → 0 < length candidates
      → Assigns group (choose candidates seed group)
  unfolding choose
  choose-Assigns seed group some_node = elim (Bool-cases (ltb (length candidates) (length group))) [
    | inl large ↦
        let (jobs, e, e') = in_turn-Assigns (random seed) group some_node in
        (jobs, ground (arith, large, e), e')
    | inr small ↦
        let (jobs, e, e') = at_random-Assigns seed group some_node in
        (jobs, ground (arith, small, e), e')
  ]

module _ {N M S : Type 0} (task : N → M → S → Bool × S) where
  scatter_to_nodes-run_jobs :
      (candidates : List N) (seed : ℕ) (group : List M) (s : S)
      → 0 < length candidates
      → scatter_to_nodes task candidates seed group s
        ≡ run_jobs task (choose candidates seed group) 0 s
  unfolding scatter_to_nodes
  scatter_to_nodes-run_jobs candidates seed group s some_node = ground arith

  -- With a set that is not empty, no node is read out of bounds: the tasks run for the messages of
  -- the group in their order, each with the node that was chosen, and the result is the number of
  -- those that returned 0, at most the size of the group.
  pub scatter_to_nodes-perform :
      (candidates : List N) (seed : ℕ) (group : List M) (s : S)
      → 0 < length candidates
      → (jobs : List (N × M)) × (choose candidates seed group ≡ map (λ (n, m). (some n, m)) jobs)
        × (map (λ p. p.1) jobs ≡ group)
        × (scatter_to_nodes task candidates seed group s ≡ some (perform task jobs s))
        × ((perform task jobs s).0 ≤ length group)
  scatter_to_nodes-perform candidates seed group s some_node =
      let (jobs, e, e') = choose-Assigns candidates seed group some_node in
      let same : length jobs ≡ length group =
        sym (length-map (λ p. p.1) jobs) ∙ ap (λ g. length g) e' in
      (
        jobs,
        e,
        e',
        scatter_to_nodes-run_jobs candidates seed group s some_node
            ∙ ap (λ c. run_jobs task c 0 s) e
            ∙ run_jobs-perform task jobs 0 s
            ∙ ap (λ k. some (k, (perform task jobs s).1)) (omega arith),
        subst (λ k. (perform task jobs s).0 ≤ k) same (perform-bounded task jobs s),
      )
