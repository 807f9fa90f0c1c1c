-- ===== src/WorkSteal/Steal.antt =====
-- Stealing in include/mola/work_steal.hpp: what a thief takes, and where it goes.
use elastic_actor.Prelude.{
  ℕ, suc, ◌<◌, subst, ◌+◌, ◌%◌, ◌≤◌, ◌≡◌, ◌∙◌, ◌⊎◌, refl, ap, sym, inl, inr, true, List, [], ◌∷◌,
  ◌++◌, none, some, arith, ltb, ◌==◌, Bool-cases, Option-cases, set, length, inc32, add32, sub32,
  length-append, append_assoc, append-nil,
}
use elastic_actor.WorkSteal.{
  ring_size, LockFreeQue, window, grab_size, grab_try, append_all, split_last, share, Stolen, stole,
  steal_try,
}
use elastic_actor.WorkSteal.Ring.{
  IsValid, count, items, length-items, length-window, items-advance, items-push,
}

-- The larger half of `n` things, at least one.
abbrev pub Half : ℕ → ℕ → Type 0
Half n half = (0 < half) × (n ≤ half + half) × (half + half ≤ n + 1)

module _ {ℓ} {A : Type ℓ} (nil : A) where
  -- A pass of `__grab` that ends: the oldest tasks of the victim, the larger half of them.
  pub grab_try-items :
      (h : ℕ) (v : LockFreeQue A) (xs : List A) (v' : LockFreeQue A)
      → IsValid v
      → grab_try nil h v.tail v ≡ some (xs, v')
      → IsValid v'
        × (items nil v ≡ xs ++ items nil v')
        × (length xs ≤ 2048)
        × (((xs ≡ []) × (v' ≡ v) × (h ≡ v.head → count v ≡ 0)) ⊎ Half (count v) (length xs))
  unfolding grab_try
  grab_try-items h v xs v' valid e = elim (Bool-cases (grab_size (sub32 v.tail h) == 0)) [
    | inl idle ↦
        let nothing : xs ≡ [] = ground arith in
        let kept : v' ≡ v = ground arith in
        (
          rw kept valid,
          rw (nothing, kept),
          rw nothing (omega arith),
          inl (nothing, kept, λ fresh. ground arith),
        )
    | inr some_left ↦
        let now : h ≡ v.head = ground arith in
        let n = grab_size (count v) in
        let moved : v' ≡ record v { head = add32 v.head n } = ground arith in
        let copied : xs ≡ window nil v.content v.head n = ground arith in
        let small : n ≤ 2048 = ground arith in
        let positive : 0 < n = ground (arith, some_left, now) in
        let (split, valid') = items-advance nil v n valid (omega arith) in
        (
          rw moved valid',
          rw (moved, copied) split,
          omega (arith, ap length copied, length-window nil v.content v.head n),
          inr (omega (arith, positive, ap length copied, length-window nil v.content v.head n)),
        )
  ]

  pub append_all-items :
      (xs : List A) (q : LockFreeQue A)
      → IsValid q
      → count q + length xs ≤ 4096
      → (items nil (append_all xs q) ≡ items nil q ++ xs) × IsValid (append_all xs q)
  unfolding append_all
  append_all-items [] q v fits = (sym (append-nil (items nil q)), v)
  append_all-items (x ∷ xs) q v fits =
      let q' = record q { content = set q.content (q.tail % ring_size) x; tail = inc32 q.tail } in
      let (pushed, valid) = items-push nil q x v (omega arith) in
      let size : count q' ≡ count q + 1 = omega (
        arith,
        length-items nil q,
        length-items nil q',
        ap length pushed,
        length-append (items nil q) (x ∷ []),
      ) in
      let (rest, valid') = append_all-items xs q' valid (omega arith) in
      (rest ∙ rw pushed (append_assoc (items nil q) (x ∷ []) xs), valid')

  split_last-append :
      (x : A) (xs : List A) → (split_last x xs).0 ++ ((split_last x xs).1 ∷ []) ≡ x ∷ xs
  split_last-append x [] = refl
  split_last-append x (y ∷ ys) = ap (λ l. x ∷ l) (split_last-append y ys)

  -- What a pass of `__steal` that ends has done with the head `h` that it loaded, by a thief whose own
  -- ring is empty.
  pub data Moved (h : ℕ) (me victim : LockFreeQue A) : Stolen A → Type ℓ where
    left_alone :
        {me' v' : LockFreeQue A}
        → me' ≡ me
        → v' ≡ victim
        → (h ≡ victim.head → count victim ≡ 0)
        → Moved h me victim (stole none me' v')
    moved :
        {t : A} {me' v' : LockFreeQue A}
        → IsValid me'
        → IsValid v'
        → items nil victim ≡ items nil me' ++ (t ∷ items nil v')
        → Half (length (items nil victim)) (length (items nil me') + 1)
        → Moved h me victim (stole (some t) me' v')

  length-split_last : (x : A) (xs : List A) → length (split_last x xs).0 ≡ length xs
  length-split_last x [] = refl
  length-split_last x (y ∷ ys) = ap suc (length-split_last y ys)

  share-Moved :
      (h : ℕ) (xs : List A) (me victim v' : LockFreeQue A)
      → IsValid me
      → count me ≡ 0
      → IsValid v'
      → items nil victim ≡ xs ++ items nil v'
      → length xs ≤ 2048
      → ((xs ≡ []) × (v' ≡ victim) × (h ≡ victim.head → count victim ≡ 0))
        ⊎ Half (length (items nil victim)) (length xs)
      → Moved h me victim (share nil xs me v')
  unfolding share
  share-Moved h [] me victim v' vm none_own vv split few (inl (e, kept, nothing)) =
      left_alone refl kept nothing
  share-Moved h [] me victim v' vm none_own vv split few (inr half) = absurd (omega (arith, half.0))
  share-Moved h (x ∷ xs) me victim v' vm none_own vv split few (inl (e, kept, nothing)) =
      absurd (omega (arith, ap length e))
  share-Moved h (x ∷ []) me victim v' vm none_own vv split few (inr half) =
      moved vm vv (split ∙ rw none_own) (
        subst (λ n. Half (length (items nil victim)) n)
          (omega (arith, length-items nil me, none_own)) half)
  share-Moved h (x ∷ y ∷ ys) me victim v' vm none_own vv split few (inr half) =
      let rest = (split_last x (y ∷ ys)).0 in
      let task = (split_last x (y ∷ ys)).1 in
      let size : length rest ≡ suc (length ys) = length-split_last x (y ∷ ys) in
      let room : ltb (add32 (count me) (length rest)) 4096 ≡ true = ground (arith, size) in
      let (kept, valid) = append_all-items rest me vm (omega (arith, size)) in
      let own : items nil (append_all rest me) ≡ rest = kept ∙ rw none_own in
      rw room (
        moved valid vv
          (split
            ∙ ap (λ l. l ++ items nil v') (sym (split_last-append x (y ∷ ys)))
            ∙ append_assoc rest (task ∷ []) (items nil v')
            ∙ ap (λ l. l ++ (task ∷ items nil v')) (sym own))
          (subst (λ n. Half (length (items nil victim)) n) (omega (arith, size, ap length own))
            half))

  -- A pass by a thief whose ring is empty leaves both rings as they are, which happens, when the
  -- head that it loaded is the present one, only over an empty victim; or it takes the older half
  -- of the victim's tasks, the larger one: read one after the other, its own ring, the task that it
  -- runs and the victim's ring are what the victim had, and the assertion on the thief's ring holds.
  pub steal_try-Moved :
      (h : ℕ) (me victim : LockFreeQue A) (s : Stolen A)
      → IsValid me
      → count me ≡ 0
      → IsValid victim
      → steal_try nil h victim.tail me victim ≡ some s
      → Moved h me victim s
  unfolding steal_try
  steal_try-Moved h me victim s vm none_own vv e =
      elim (Option-cases (grab_try nil h victim.tail victim)) [
        | inl lost ↦ cc
        | inr ((xs, v'), won) ↦
            let (valid, split, few, how) = grab_try-items h victim xs v' vv won in
            let answer : s ≡ share nil xs me v' = cc in
            rw answer (
              share-Moved h xs me victim v' vm none_own valid split few
                (rw (length-items nil victim) how))
      ]
