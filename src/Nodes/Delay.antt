-- ===== src/Nodes/Delay.antt =====
-- The loop over the delayed tasks in src/node_manager.cpp: when it ends.
use elastic_actor.Prelude.{
  ℕ, zero, suc, ◌≤◌, ◌≡◌, ◌⊎◌, refl, subst, sym, inl, inr, Bool, true, false, List, [], ◌∷◌, ◌++◌,
  none, some, arith, Bool-cases, length,
}
use elastic_actor.Nodes.{run_tasks}

-- `t` stands in the queue.
abbrev pub Among : {T : Type 0} → T → List T → Type 0
Among t [] = ⊥
Among t (u ∷ q) = (u ≡ t) ⊎ Among t q

Among-append : {T : Type 0} (t : T) (q : List T) → Among t (q ++ (t ∷ []))
Among-append t [] = inl refl
Among-append t (u ∷ q) = inr (Among-append t q)

Among-left : {T : Type 0} (t : T) (q : List T) (u : T) → Among t q → Among t (q ++ (u ∷ []))
Among-left t [] u a = elim a [ ]
Among-left t (v ∷ q) u (inl e) = inl e
Among-left t (v ∷ q) u (inr a) = inr (Among-left t q u a)

module _ {T W : Type 0} (run : T → W → Bool × W) where
  -- With a task that never returns 0 in the queue, the loop does not end, however long it runs.
  pub run_tasks-stuck :
      (t : T)
      → ((w : W) → (run t w).0 ≡ false)
      → (fuel : ℕ) (q : List T) (w : W) → Among t q
      → run_tasks run fuel q w ≡ none
  unfolding run_tasks
  run_tasks-stuck t fails fuel [] w a = elim a [ ]
  run_tasks-stuck t fails zero (u ∷ q) w a = refl
  run_tasks-stuck t fails (suc fuel) (u ∷ q) w (inl e) =
      let again : (run u w).0 ≡ false = rw e (fails w) in
      rw (again, run_tasks)
        (run_tasks-stuck t fails fuel (q ++ (u ∷ [])) (run u w).1
          (subst (λ x. Among t (q ++ (x ∷ []))) (sym e) (Among-append t q)))
  run_tasks-stuck t fails (suc fuel) (u ∷ q) w (inr a) = elim (Bool-cases (run u w).0) [
    | inl over ↦ rw (over, run_tasks) (run_tasks-stuck t fails fuel q (run u w).1 a)
    | inr again ↦
        rw (again, run_tasks)
          (run_tasks-stuck t fails fuel (q ++ (u ∷ [])) (run u w).1 (Among-left t q u a))
  ]

  -- The tasks that return 0 are all run, each once, when the loop may go round as often as there
  -- are tasks.
  pub ran_all : List T → W → W
  ran_all [] w = w
  ran_all (t ∷ q) w = ran_all q (run t w).1

  pub run_tasks-ends :
      (fuel : ℕ) (q : List T) (w : W)
      → ((t : T) → Among t q → (v : W) → (run t v).0 ≡ true)
      → length q ≤ fuel
      → run_tasks run fuel q w ≡ some (ran_all q w)
  unfolding run_tasks ran_all
  run_tasks-ends fuel [] w good few = refl
  run_tasks-ends zero (t ∷ q) w good few = absurd (omega arith)
  run_tasks-ends (suc fuel) (t ∷ q) w good few =
      rw (good t (inl refl) w, run_tasks)
        (run_tasks-ends fuel q (run t w).1 (λ u a v. good u (inr a) v) (omega arith))
