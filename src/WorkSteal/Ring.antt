-- ===== src/WorkSteal/Ring.antt =====
-- The ring of include/mola/work_steal.hpp as the queue of the tasks in it, oldest first, across the
-- wrap-around of its counters: `__enqueue`, `__dequeue` and the overflow into the global queue.
use elastic_actor.Prelude.{
  ℕ, zero, suc, ◌+◌, ◌/◌, ◌%◌, ◌<◌, ◌≤◌, ◌^◌, ◌≡◌, ◌≢◌, ◌∙◌, ◌⊎◌, refl, ap, sym, inl, inr, List, [],
  ◌∷◌, ◌++◌, Option, none, some, arith, ltb, ◌==◌, Bool-cases, get_or, set, length, u32, inc32,
  add32, sub32, get_or-set_self, get_or-set_ne, length-set, length-append,
}
use elastic_actor.WorkSteal.{ring_size, LockFreeQue, window, dequeue_try, enqueue_try}

pub record IsValid {ℓ} {A : Type ℓ} (q : LockFreeQue A) : Type ℓ where
  pub slots : length q.content ≡ 4096
  pub head_word : q.head < 2 ^ 32
  pub tail_word : q.tail < 2 ^ 32
  pub fits : sub32 q.tail q.head ≤ 4096

abbrev pub count {ℓ} : {A : Type ℓ} → LockFreeQue A → ℕ
count q = sub32 q.tail q.head

module _ {ℓ} {A : Type ℓ} (nil : A) where
  abbrev pub items : LockFreeQue A → List A
  items q = window nil q.content q.head (count q)

  pub length-window : (c : List A) (h n : ℕ) → length (window nil c h n) ≡ n
  length-window c h zero = refl
  length-window c h (suc n) = ap suc (length-window c (inc32 h) n)

  -- A write to the slot behind a window that is not full extends it.
  pub window-set :
      (c : List A) (x : A) (n h j : ℕ)
      → length c ≡ 4096
      → n < 4096
      → j ≡ (h + n) % 4096
      → window nil (set c j x) h (suc n) ≡ window nil c h n ++ (x ∷ [])
  window-set c x zero h j len lt e =
      ap (λ y. y ∷ [])
        (ap (λ k. get_or (set c j x) k nil) (omega arith) ∙ get_or-set_self c j x nil (omega arith))
  window-set c x (suc n) h j len lt e = rw (
    get_or-set_ne c j (h % 4096) x nil (omega arith),
    window-set c x n (inc32 h) j len (omega arith) (omega arith),
  )

  window-u32 : (c : List A) (n h : ℕ) → window nil c (u32 h) n ≡ window nil c h n
  window-u32 c zero h = refl
  window-u32 c (suc n) h =
      let first : u32 h % 4096 ≡ h % 4096 = omega arith in
      let later : inc32 (u32 h) ≡ inc32 h = omega arith in rw (first, later)

  -- A window splits after any number of its tasks.
  pub window-add :
      (c : List A) (a b h : ℕ)
      → window nil c h (a + b) ≡ window nil c h a ++ window nil c (add32 h a) b
  window-add c zero b h =
      let start : add32 h 0 ≡ u32 h = omega arith in
      let size : 0 + b ≡ b = omega arith in rw (start, size) (sym (window-u32 c b h))
  window-add c (suc a) b h =
      let start : add32 h (suc a) ≡ add32 (inc32 h) a = omega arith in
      let size : suc a + b ≡ suc (a + b) = omega arith in
      rw (start, size) (ap (λ w. get_or c (h % 4096) nil ∷ w) (window-add c a b (inc32 h)))

  -- The oldest `n` tasks leave when `head` moves on by `n`.
  pub items-advance :
      (q : LockFreeQue A) (n : ℕ)
      → IsValid q
      → n ≤ count q
      → (items q ≡ window nil q.content q.head n ++ items (record q { head = add32 q.head n }))
        × IsValid (record q { head = add32 q.head n })
  items-advance q n v le =
      let left : count q ≡ n + sub32 q.tail (add32 q.head n) =
        omega (arith, v.head_word, v.tail_word, v.fits) in
      (
        rw left (window-add q.content n (sub32 q.tail (add32 q.head n)) q.head),
        record {
          slots = v.slots;
          head_word = omega arith;
          tail_word = v.tail_word;
          fits = omega (arith, v.fits, left);
        },
      )

  -- A pass of `__dequeue` that ends finds the ring empty, or takes its oldest task.
  pub dequeue_try-items :
      (h : ℕ) (q : LockFreeQue A) (o : Option A) (q' : LockFreeQue A)
      → IsValid q
      → dequeue_try nil h q ≡ some (o, q')
      → ((o ≡ none) × (q' ≡ q) × (h ≡ q.tail))
        ⊎ ((t : A) × (o ≡ some t) × (items q ≡ t ∷ items q') × IsValid q')
  unfolding dequeue_try
  dequeue_try-items h q o q' v e = elim (Bool-cases (h == q.tail)) [
    | inl done ↦ inl (ground arith)
    | inr more ↦
        let now : h ≡ q.head = ground arith in
        let moved : q' ≡ record q { head = add32 q.head 1 } = ground arith in
        let apart : h ≢ q.tail = ground arith in
        let (split, valid) = items-advance q 1 v (omega (arith, v.head_word, v.tail_word)) in
        inr (get_or q.content (q.head % 4096) nil, ground arith, rw moved split, rw moved valid)
  ]

  pub items-push :
      (q : LockFreeQue A) (x : A)
      → IsValid q
      → count q < 4096
      → let q' = record q { content = set q.content (q.tail % ring_size) x; tail = inc32 q.tail } in
        (items q' ≡ items q ++ (x ∷ [])) × IsValid q'
  items-push q x v lt =
      let more : sub32 (inc32 q.tail) q.head ≡ suc (count q) =
        omega (arith, v.head_word, v.tail_word) in
      (
        rw more (
            window-set q.content x (count q) q.head (q.tail % 4096) v.slots lt
              (omega (arith, v.head_word, v.tail_word))),
        record {
          slots = length-set q.content (q.tail % 4096) x ∙ v.slots;
          head_word = v.head_word;
          tail_word = omega arith;
          fits = omega (arith, more);
        },
      )

  -- Where the new task went.
  pub data Placed (q : LockFreeQue A) (x : A) (q' : LockFreeQue A) (spilled : List A) : Type ℓ where
    at_end : count q < 4096 → spilled ≡ [] → items q' ≡ items q ++ (x ∷ []) → Placed q x q' spilled
    overflow :
        (moved : List A)
        → count q ≡ 4096
        → spilled ≡ moved ++ (x ∷ [])
        → length moved ≡ 2048
        → items q ≡ moved ++ items q'
        → Placed q x q' spilled

  pub length-items : (q : LockFreeQue A) → length (items q) ≡ count q
  length-items q = length-window q.content q.head (count q)

  pub count-Placed :
      (q : LockFreeQue A) (x : A) (q' : LockFreeQue A) (spilled : List A)
      → Placed q x q' spilled
      → count q' + length spilled ≡ count q + 1
  count-Placed q x q' spilled (at_end lt none_spilled e) = omega (
    arith,
    length-items q,
    length-items q',
    ap length e,
    ap length none_spilled,
    length-append (items q) (x ∷ []),
  )
  count-Placed q x q' spilled (overflow moved full e half split) = omega (
    arith,
    length-items q,
    length-items q',
    ap length e,
    ap length split,
    length-append moved (x ∷ []),
    length-append moved (items q'),
  )

  -- A pass of `__enqueue` with a current `head` ends, and no task is lost: the ring gets the new
  -- task at its end, or, if it was full, its older half and the new task go to the global queue.
  pub enqueue_try-items :
      (q : LockFreeQue A) (x : A)
      → IsValid q
      → (q' : LockFreeQue A) × (spilled : List A) × (enqueue_try nil q.head q x
          ≡ some (q', spilled))
        × IsValid q'
        × Placed q x q' spilled
  unfolding enqueue_try
  enqueue_try-items q x v = elim (Bool-cases (ltb (count q) 4096)) [
    | inl room ↦
        let (pushed, valid) = items-push q x v (ground arith) in
        (_, [], ground arith, valid, at_end (ground arith) refl pushed)
    | inr full ↦
        let half : count q / 2 ≡ 2048 = ground (arith, v.fits) in
        let (split, valid) = items-advance q (count q / 2) v (omega arith) in
        (
          record q { head = add32 q.head (count q / 2) },
          window nil q.content q.head (count q / 2) ++ (x ∷ []),
          ground arith,
          valid,
          overflow (window nil q.content q.head (count q / 2)) (ground (arith, v.fits)) refl
              (length-window q.content q.head (count q / 2) ∙ half) split,
        )
  ]
