-- ===== src/LinkedQueue/Alone.antt =====
-- An operation of the ConcurrentLinkedQueue in include/mola/queue.hpp that nobody disturbs.
pub mod Taking
use elastic_actor.Prelude.{
  ℕ, suc, zero, ◌+◌, ◌*◌, ◌-◌, ◌<◌, ◌≤◌, ◌≡◌, ◌≢◌, ◌⊎◌, List, [], ◌∷◌, ◌++◌, Option, none, some,
  length, get_elem?, arith, refl, ◌∙◌, sym, subst, ap, inl, inr, Bool-cases, true, false, ◌==◌,
  ==_refl, if◌then◌else◌, Option-cases, ltb, ltb→lt, lt→ltb,
}
use elastic_actor.LinkedQueue.{
  Cell, Queue, Purpose, taking, Thread, enqueued, dequeued, enqueue_again, enqueue_next,
  enqueue_check, enqueue_link, enqueue_help, enqueue_move, head_loop, head_tail, head_next,
  head_check, head_help, claim, read_item, reset_item, step, access, cas_next, cas_tail, at_tail,
  at_same, inside, claimed, got_item, link,
}
use elastic_actor.LinkedQueue.System.{Shared, turn, sends, takes, noted}
use elastic_actor.LinkedQueue.Invariant.{Good, Knows, item_at, next_at}
use elastic_actor.LinkedQueue.Order.{turn-Fine}
use elastic_actor.LinkedQueue.Writing.{tail_moved, tail_moved-Good, reset}
use elastic_actor.LinkedQueue.Claiming.{head_moved, waiting-next}

module _ {A : Type 0} where
  -- The accesses of one thread, with nothing in between.
  unfoldable pub run : ℕ → Thread A × Shared A → Thread A × Shared A
  unfolding turn
  run zero r = r
  run (suc n) (th, w) = run n (turn th w)

  pub run-step :
      (n : ℕ) (th : Thread A) (w : Shared A) (r : Thread A × Shared A)
      → turn th w ≡ r
      → run (suc n) (th, w) ≡ run n r
  unfolding run
  run-step n th w r e = ap (run n) e

  -- What a thread knows and the invariant hold after its accesses.
  pub run-Fine :
      (n : ℕ) (th : Thread A) (w : Shared A)
      → Good w
      → Knows w th
      → Good (run n (th, w)).1 × Knows (run n (th, w)).1 (run n (th, w)).0
  unfolding run
  run-Fine zero th w g k = (g, k)
  run-Fine (suc n) th w g k =
      let f = turn-Fine th w g k in run-Fine n (turn th w).0 (turn th w).1 f.good f.knows

  enqueue_again-check :
      (n : ℕ) (x : A) (w : Shared A)
      → Good w
      → run (suc (suc (suc n))) (enqueue_again x, w)
        ≡ run n (at_tail x w.queue.tail (next_at w w.queue.tail), w)
  unfolding turn step sends takes access
  enqueue_again-check n x w g =
      let t = w.queue.tail in
      run-step (suc (suc n)) (enqueue_again x) w (enqueue_next x t, w) refl
      ∙ run-step (suc n) (enqueue_next x t) w (enqueue_check x t (next_at w t), w)
          (rw (lt→ltb t w.queue.count g.tail_in) refl)
      ∙ run-step n (enqueue_check x t (next_at w t)) w (at_tail x t (next_at w t), w)
          (rw (==_refl t) refl)

  -- A tail that lags behind is moved first.
  enqueue-help :
      (n : ℕ) (x : A) (w : Shared A)
      → Good w
      → suc w.queue.tail < w.queue.count
      → run (suc (suc (suc (suc n)))) (enqueue_again x, w)
        ≡ run n (enqueue_again x, tail_moved (suc w.queue.tail) w)
  unfolding turn step sends takes at_tail cas_tail
  enqueue-help n x w g more =
      let t = w.queue.tail in
      enqueue_again-check (suc n) x w g
      ∙ ap (λ s. run (suc n) (at_tail x t s, w)) (g.inner t more)
      ∙ run-step n (enqueue_help x t (suc t)) w (enqueue_again x, tail_moved (suc t) w)
          (rw (==_refl t) refl)

  enqueue-last :
      (x : A) (w : Shared A)
      → Good w
      → suc w.queue.tail ≡ w.queue.count
      → run 5 (enqueue_again x, w) ≡ (
        enqueued true,
        record {
          queue = record (link x w.queue.tail w.queue) { tail = w.queue.count };
          sent = w.sent ++ (x ∷ []);
          taken = w.taken;
        },
      )
  unfolding run turn step sends takes at_tail cas_tail access cas_next link
  enqueue-last x w g last =
      let t = w.queue.tail in
      enqueue_again-check 2 x w g
      ∙ ap (λ s. run 2 (at_tail x t s, w)) (g.last t last)
      ∙ run-step 1 (enqueue_link x t) w
          (
            enqueue_move t w.queue.count,
            record { queue = link x t w.queue; sent = w.sent ++ (x ∷ []); taken = w.taken },
          )
          (rw (lt→ltb t w.queue.count g.tail_in, sends, g.last t last) refl)
      ∙ rw (==_refl t) refl

  -- An enqueue alone ends, after four accesses for each node by which the tail lags behind and five
  -- more, and has added its item behind the others.
  pub enqueue-ends :
      (left : ℕ) (x : A) (w : Shared A)
      → Good w
      → w.queue.count ≡ suc (w.queue.tail + left)
      → (w' : Shared A) × (run (5 + 4 * left) (enqueue_again x, w) ≡ (enqueued true, w'))
        × Good w'
        × (w'.sent ≡ w.sent ++ (x ∷ []))
        × (w'.taken ≡ w.taken)
  enqueue-ends zero x w g last =
      let e = enqueue-last x w g (omega (arith, last)) in
      (
        record {
          queue = record (link x w.queue.tail w.queue) { tail = w.queue.count };
          sent = w.sent ++ (x ∷ []);
          taken = w.taken;
        },
        e,
        subst (λ r. Good r.1) e (run-Fine 5 (enqueue_again x) w g tt).0,
        refl,
        refl,
      )
  enqueue-ends (suc left) x w g behind =
      let more : suc w.queue.tail < w.queue.count = omega (arith, behind) in
      let fuel : 5 + 4 * suc left ≡ suc (suc (suc (suc (5 + 4 * left)))) = omega arith in
      let (w', e, g', s, t) =
        enqueue-ends left x (tail_moved (suc w.queue.tail) w)
          (tail_moved-Good w.queue.tail w refl more g) (omega (arith, behind)) in
      (
        w',
        ap (λ k. run k (enqueue_again x, w)) fuel ∙ enqueue-help (5 + 4 * left) x w g more ∙ e,
        g',
        s,
        t,
      )
