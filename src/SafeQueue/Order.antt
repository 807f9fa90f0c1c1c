-- ===== src/SafeQueue/Order.antt =====
-- The order of the items of include/mola/queue.hpp, and the pointer to the last node.
use elastic_actor.Prelude.{
  ℕ, suc, ◌+◌, ◌<◌, ◌^◌, ◌≡◌, ◌≢◌, ◌∙◌, refl, ap, sym, inl, inr, Bool, true, false, ◌||◌, Option,
  none, some, List, [], ◌∷◌, ◌++◌, arith, map, length, ◌==◌, if◌then◌else◌, List-cases,
  length-append, Bool-cases, ==_refl, subst, map-append,
}
use elastic_actor.SafeQueue.{QueueNode, Queue, no_items, inc64, dec64, append_at, enqueue, dequeue}

some_held : (n k : ℕ) → n ≡ suc k → (n == 0) ≡ false
some_held n k e = ground arith

module _ {ℓ} {T : Type ℓ} where
  abbrev pub items : Queue T → List T
  items q = map (λ n. n.value) q.head

  -- Whether a node of the chain has the address.
  abbrev pub lives : ℕ → List (QueueNode T) → Bool
  lives a [] = false
  lives a (x ∷ xs) = (x.addr == a) || lives a xs

  -- The address is that of the last node, and of no other.
  unfoldable pub Ends : ℕ → List (QueueNode T) → Type 0
  Ends t [] = t ≢ t
  Ends t (x ∷ []) = (x.addr == t) ≡ true
  Ends t (x ∷ y ∷ xs) = ((x.addr == t) ≡ false) × Ends t (y ∷ xs)

  -- The null pointer for an empty chain.
  unfoldable pub Points : Option ℕ → List (QueueNode T) → Type 0
  unfolding Ends
  Points p [] = p ≡ none
  Points p (x ∷ xs) = (t : ℕ) × (p ≡ some t) × Ends t (x ∷ xs)

  abbrev pub to_list : Option T → List T
  to_list none = []
  to_list (some x) = x ∷ []

  pub record IsValid (q : Queue T) : Type ℓ where
    pub counted : q.num ≡ length q.head
    pub room : length q.head < 2 ^ 64
    pub last : Points q.tail q.head

  pub no_items-IsValid : IsValid (no_items {T = T})
  unfolding Points
  no_items-IsValid = record { counted = refl; room = omega arith; last = refl }

  append_at-Ends :
      (t : ℕ) (n : QueueNode T) (xs : List (QueueNode T))
      → Ends t xs
      → append_at t n xs ≡ some (xs ++ (n ∷ []))
  unfolding append_at Ends
  append_at-Ends t n [] e = absurd (e refl)
  append_at-Ends t n (x ∷ []) e = rw e refl
  append_at-Ends t n (x ∷ y ∷ xs) e =
      rw (e.0, append_at) (rw (append_at-Ends t n (y ∷ xs) e.1) refl)

  append-Ends :
      (n : QueueNode T) (xs : List (QueueNode T))
      → lives n.addr xs ≡ false
      → Ends n.addr (xs ++ (n ∷ []))
  unfolding Ends
  append-Ends n [] fresh = ==_refl n.addr
  append-Ends n (x ∷ []) fresh = elim (Bool-cases (x.addr == n.addr)) [
    | inl same ↦ absurd (ground arith)
    | inr other ↦ (other, ==_refl n.addr)
  ]
  append-Ends n (x ∷ y ∷ xs) fresh = elim (Bool-cases (x.addr == n.addr)) [
    | inl same ↦ absurd (ground arith)
    | inr other ↦ (other, append-Ends n (y ∷ xs) (rw other at fresh))
  ]

  Points-end : (p : ℕ) (xs ys : List (QueueNode T)) → Ends p xs → xs ≡ ys → Points (some p) ys
  unfolding Points Ends
  Points-end p [] ys e same = absurd (e refl)
  Points-end p (x ∷ xs) ys e same = subst (Points (some p)) same (p, refl, e)

  Points-tail :
      (p : Option ℕ) (x : QueueNode T) (xs : List (QueueNode T)) (k : ℕ)
      → k ≡ length xs
      → Points p (x ∷ xs)
      → Points (if k == 0 then none else p) xs
  unfolding Points Ends
  Points-tail p x [] k e last = rw e refl
  Points-tail p x (y ∷ ys) k e (t, pointer, ends) =
      (t, rw (some_held k (length ys) e) pointer, ends.1)

  -- On a valid queue that has room, a node with an address of its own is enqueued without a fault:
  -- its item comes last, and the queue stays valid, with the count of its nodes and a pointer to the
  -- last node, which is that of no other node.
  pub enqueue-last :
      (n : QueueNode T) (q : Queue T)
      → IsValid q
      → lives n.addr q.head ≡ false
      → length q.head + 1 < 2 ^ 64
      → (q' : Queue T) × (enqueue n q ≡ some q')
        × (items q' ≡ items q ++ (n.value ∷ []))
        × IsValid q'
  unfolding enqueue Points
  enqueue-last n q v fresh few = elim (List-cases q.head) [
    | inl empty ↦
        let none_yet : q.num ≡ 0 = v.counted ∙ ap length empty in
        (
          record { head = n ∷ []; tail = some n.addr; num = inc64 q.num },
          rw none_yet refl,
          rw empty refl,
          record {
            counted = rw none_yet refl;
            room = omega arith;
            last = (n.addr, refl, ==_refl n.addr);
          },
        )
    | inr (x, xs, some_there) ↦
        let (t, pointer, e) : Points q.tail (x ∷ xs) = subst (Points q.tail) some_there v.last in
        let ends : Ends t q.head = subst (Ends t) (sym some_there) e in
        let held : (q.num == 0) ≡ false =
          some_held q.num (length xs) (v.counted ∙ ap length some_there) in
        (
          record { head = q.head ++ (n ∷ []); tail = some n.addr; num = inc64 q.num },
          rw (held, pointer) (rw (append_at-Ends t n q.head ends) refl),
          map-append (λ m. m.value) q.head (n ∷ []),
          record {
            counted = omega (arith, v.counted, length-append q.head (n ∷ []));
            room = omega (arith, length-append q.head (n ∷ []));
            last =
                Points-end n.addr (q.head ++ (n ∷ [])) (q.head ++ (n ∷ []))
                  (append-Ends n q.head fresh) refl;
          },
        )
  ]

  -- On a valid queue, `dequeue` does not fault: it takes the first item, if any, and the queue stays
  -- valid.
  pub dequeue-first :
      (q : Queue T)
      → IsValid q
      → (r : Option T) × (q' : Queue T) × (dequeue q ≡ some (r, q'))
        × (items q ≡ to_list r ++ items q')
        × IsValid q'
  unfolding dequeue
  dequeue-first q v = elim (List-cases q.head) [
    | inl empty ↦
        let none_left : q.num ≡ 0 = v.counted ∙ ap length empty in
        (none, q, rw none_left refl, refl, v)
    | inr (x, xs, some_there) ↦
        let held : (q.num == 0) ≡ false =
          some_held q.num (length xs) (v.counted ∙ ap length some_there) in
        let fewer : dec64 q.num ≡ length xs =
          omega (arith, v.counted, v.room, ap length some_there) in
        let tail = if dec64 q.num == 0 then none else q.tail in
        (
          some x.value,
          record { head = xs; tail = tail; num = dec64 q.num },
          rw (held, some_there) refl,
          rw some_there refl,
          record {
            counted = fewer;
            room = omega (arith, v.room, ap length some_there);
            last =
                Points-tail q.tail x xs (dec64 q.num) fewer
                  (subst (Points q.tail) some_there v.last);
          },
        )
  ]
