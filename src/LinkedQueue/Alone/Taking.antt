-- ===== src/LinkedQueue/Alone/Taking.antt =====
-- A `dequeue` of the ConcurrentLinkedQueue in include/mola/queue.hpp that nobody disturbs.
use elastic_actor.Prelude.{
  ℕ, suc, ◌<◌, ◌≤◌, ◌≡◌, List, [], ◌∷◌, Option, none, some, length, get_elem?, arith, refl, ◌∙◌,
  sym, subst, ap, inl, inr, Bool-cases, true, false, ◌==◌, ==_refl, ltb, ltb→lt, lt→ltb,
}
use elastic_actor.LinkedQueue.{
  taking, dequeued, head_loop, head_tail, head_next, head_check, head_help, claim, read_item,
  reset_item, step, access, cas_tail, at_same, inside, claimed, got_item,
}
use elastic_actor.LinkedQueue.System.{Shared, turn, sends, takes, noted}
use elastic_actor.LinkedQueue.Invariant.{Good, item_at, next_at}
use elastic_actor.LinkedQueue.Writing.{tail_moved, tail_moved-Good, reset}
use elastic_actor.LinkedQueue.Claiming.{head_moved, waiting-next}
use elastic_actor.LinkedQueue.Alone.{run, run-step, run-Fine}

module _ {A : Type 0} where
  head_loop-check :
      (n : ℕ) (w : Shared A)
      → Good w
      → run (suc (suc (suc n))) (head_loop taking, w)
        ≡ run n (head_check taking w.queue.head w.queue.tail (next_at w w.queue.head), w)
  unfolding turn step sends takes access
  head_loop-check n w g =
      let h = w.queue.head in
      let t = w.queue.tail in
      run-step (suc (suc n)) (head_loop taking) w (head_tail taking h, w) refl
      ∙ run-step (suc n) (head_tail taking h) w (head_next taking h t, w) refl
      ∙ run-step n (head_next taking h t) w (head_check taking h t (next_at w h), w)
          (rw (lt→ltb h w.queue.count (omega (arith, g.head_tail, g.tail_in))) refl)

  -- The queue is empty.
  dequeue-empty :
      (w : Shared A)
      → Good w
      → suc w.queue.head ≡ w.queue.count
      → run 4 (head_loop taking, w) ≡ (dequeued none, w)
  unfolding run turn step sends takes at_same
  dequeue-empty w g last =
      let h = w.queue.head in
      let same : (h == w.queue.tail) ≡ true = ground (arith, last, g.head_tail, g.tail_in) in
      head_loop-check 1 w g
      ∙ ap (λ s. run 1 (head_check taking h w.queue.tail s, w)) (g.last h last)
      ∙ rw (==_refl h, same) refl

  -- The tail still stands at the head.
  dequeue-help :
      (n : ℕ) (w : Shared A)
      → Good w
      → w.queue.head ≡ w.queue.tail
      → suc w.queue.tail < w.queue.count
      → run (suc (suc (suc (suc (suc n))))) (head_loop taking, w)
        ≡ run n (head_loop taking, tail_moved (suc w.queue.tail) w)
  unfolding turn step sends takes at_same cas_tail
  dequeue-help n w g e more =
      let t = w.queue.tail in
      let h = w.queue.head in
      let same : (h == t) ≡ true = ground (arith, e) in
      head_loop-check (suc (suc n)) w g
      ∙ ap (λ s. run (suc (suc n)) (head_check taking h t s, w))
          (g.inner h (omega (arith, e, more)) ∙ ap some (omega (arith, e)))
      ∙ run-step (suc n) (head_check taking h t (some (suc t))) w (head_help taking t (suc t), w)
          (rw (==_refl h, same) refl)
      ∙ run-step n (head_help taking t (suc t)) w (head_loop taking, tail_moved (suc t) w)
          (rw (==_refl t) refl)

  dequeue-item :
      (x : A) (w : Shared A)
      → Good w
      → w.queue.head < w.queue.tail
      → item_at w (suc w.queue.head) ≡ some x
      → run 7 (head_loop taking, w)
        ≡ (dequeued (some x), reset (suc w.queue.head) (head_moved x (suc w.queue.head) w))
  unfolding run turn step sends takes at_same inside claimed got_item access
  dequeue-item x w g before i =
      let h = w.queue.head in
      let differs : (h == w.queue.tail) ≡ false = ground (arith, before) in
      let small : suc h < w.queue.count = omega (arith, before, g.tail_in) in
      head_loop-check 4 w g
      ∙ ap (λ s. run 4 (head_check taking h w.queue.tail s, w)) (g.inner h small)
      ∙ run-step 3 (head_check taking h w.queue.tail (some (suc h))) w (claim h (some (suc h)), w)
          (rw (==_refl h, differs) refl)
      ∙ run-step 2 (claim h (some (suc h))) w (read_item (suc h), head_moved x (suc h) w)
          (rw (==_refl h, i) refl)
      ∙ run-step 1 (read_item (suc h)) (head_moved x (suc h) w)
          (reset_item (suc h) x, head_moved x (suc h) w)
          (rw (lt→ltb (suc h) w.queue.count small, i) refl)
      ∙ rw (lt→ltb (suc h) w.queue.count small) refl

  get_elem?-end : (xs : List A) → get_elem? xs (length xs) ≡ none
  get_elem?-end [] = refl
  get_elem?-end (x ∷ xs) = get_elem?-end xs

  -- The oldest item that waits.
  abbrev pub oldest : Shared A → Option A
  oldest w = get_elem? w.sent w.queue.head

  -- A dequeue alone has returned within `n` accesses, with the oldest item if there is one.
  abbrev pub Returns : ℕ → Shared A → Type 0
  Returns n w =
      (w' : Shared A) × (run n (head_loop taking, w) ≡ (dequeued (oldest w), w'))
      × Good w'
      × (w'.taken ≡ noted (oldest w) w.taken)
      × (w'.sent ≡ w.sent)

  dequeue-behind : (w : Shared A) → Good w → w.queue.head < w.queue.tail → Returns 7 w
  dequeue-behind w g before =
      let h = w.queue.head in
      let (x, rest, i, more) = waiting-next h w g refl before in
      let next : oldest w ≡ some x =
        sym (g.items h (omega arith) (omega (arith, before, g.tail_in))) ∙ i in
      let e = dequeue-item x w g before i in
      (
        reset (suc h) (head_moved x (suc h) w),
        e ∙ ap (λ o. (dequeued o, reset (suc h) (head_moved x (suc h) w))) (sym next),
        subst (λ r. Good r.1) e (run-Fine 7 (head_loop taking) w g tt).0,
        ap (λ o. noted o w.taken) (sym next),
        refl,
      )

  dequeue-none : (w : Shared A) → Good w → suc w.queue.head ≡ w.queue.count → Returns 4 w
  dequeue-none w g last =
      let none_left : oldest w ≡ none =
        ap (get_elem? w.sent) (omega (arith, last, g.sent_count)) ∙ get_elem?-end w.sent in
      (
        w,
        dequeue-empty w g last ∙ ap (λ o. (dequeued o, w)) (sym none_left),
        g,
        ap (λ o. noted o w.taken) (sym none_left),
        refl,
      )

  -- A dequeue alone ends within twelve accesses. It returns the oldest item that waits and takes it,
  -- or nothing when every item that was sent has been taken.
  pub dequeue-ends : (w : Shared A) → Good w → (n : ℕ) × (n ≤ 12) × Returns n w
  dequeue-ends w g = elim (Bool-cases (ltb w.queue.head w.queue.tail)) [
    | inl before ↦ (7, omega arith, dequeue-behind w g (ltb→lt _ _ before))
    | inr at_same ↦
        let e : w.queue.head ≡ w.queue.tail = ground (arith, at_same, g.head_tail) in
        elim (Bool-cases (ltb (suc w.queue.tail) w.queue.count)) [
          | inl more ↦
              let small = ltb→lt (suc w.queue.tail) w.queue.count more in
              let moved = tail_moved (suc w.queue.tail) w in
              let (w', e', g', t, s) =
                dequeue-behind moved (tail_moved-Good w.queue.tail w refl small g)
                  (omega (arith, e)) in
              (12, omega arith, (w', dequeue-help 7 w g e small ∙ e', g', t, s))
          | inr last ↦ (4, omega arith, dequeue-none w g (ground (arith, last, e, g.tail_in)))
        ]
  ]
