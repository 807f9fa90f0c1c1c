-- ===== src/LinkedQueue/Order.antt =====
-- Every interleaving of the threads that use the ConcurrentLinkedQueue in include/mola/queue.hpp.
use elastic_actor.Prelude.{
  ℕ, ◌-◌, ◌<◌, ◌≤◌, ◌≡◌, ◌≢◌, ◌⊎◌, List, [], ◌++◌, none, some, length, get_elem?, arith, refl, ◌∙◌,
  sym, subst, ap, inl, inr, Bool-cases, true, false, ◌==◌,
}
use elastic_actor.LinkedQueue.{
  taking, looking, Thread, idle, enqueued, dequeued, looked, crashed, enqueue_again, enqueue_next,
  enqueue_check, enqueue_link, enqueue_help, enqueue_move, head_loop, head_tail, head_next,
  head_check, head_help, claim, read_item, reset_item, look_item, skip, step, start_enqueue,
  start_head, empty_queue, access, cas_next, at_tail, at_same, inside, claimed, got_item, saw_item,
}
use elastic_actor.LinkedQueue.System.{
  Shared, System, Step, calls_enqueue, calls, accesses, Reach, here, next, turn, sends, takes,
  placed, start,
}
use elastic_actor.LinkedQueue.Invariant.{Good, Knows, Knows-Later, Later, claims}
use elastic_actor.LinkedQueue.Reading.{
  Fine, goes, Later-refl, enqueue_next-Fine, enqueue_check-Fine, head_next-Fine, head_check-Fine,
  read_item-Fine, look_item-Fine,
}
use elastic_actor.LinkedQueue.Writing.{
  enqueue_help-Fine, enqueue_move-Fine, head_help-Fine, skip-Fine, reset_item-Fine,
}
use elastic_actor.LinkedQueue.Claiming.{claim-Fine}
use elastic_actor.LinkedQueue.Linking.{enqueue_link-Fine}

module _ {A : Type 0} where
  pub turn-Fine : (th : Thread A) (w : Shared A) → Good w → Knows w th → Fine th w (turn th w)
  unfolding turn step sends takes
  turn-Fine crashed w g k = elim k [ ]
  turn-Fine (enqueue_next x t) w g k = enqueue_next-Fine x t w g k
  turn-Fine (enqueue_check x t s) w g k = enqueue_check-Fine x t s w g k
  turn-Fine (enqueue_link x t) w g k = enqueue_link-Fine x t w g k
  turn-Fine (enqueue_help x t s) w g k = enqueue_help-Fine x t s w g k
  turn-Fine (enqueue_move t n) w g k = enqueue_move-Fine t n w g k
  turn-Fine (head_next o h t) w g k = head_next-Fine o h t w g k
  turn-Fine (head_check o h t f) w g k = head_check-Fine o h t f w g k
  turn-Fine (head_help o t f) w g k = head_help-Fine o t f w g k
  turn-Fine (claim h f) w g k = claim-Fine h f w g k
  turn-Fine (read_item f) w g k = read_item-Fine f w g k
  turn-Fine (reset_item f x) w g k = reset_item-Fine f x w g k
  turn-Fine (look_item h f) w g k = look_item-Fine h f w g k
  turn-Fine (skip h f) w g k = skip-Fine h f w g k
  turn-Fine (enqueue_again x) w g k =
      goes (enqueue_again x) (enqueue_next x w.queue.tail) w refl g (omega arith)
  turn-Fine (head_loop o) w g k =
      goes (head_loop o) (head_tail o w.queue.head) w refl g (omega arith)
  turn-Fine (head_tail o h) w g k =
      goes (head_tail o h) (head_next o h w.queue.tail) w refl g
        (k, omega (arith, k, g.head_tail), omega arith)
  turn-Fine idle w g k = goes idle idle w refl g tt
  turn-Fine (enqueued b) w g k = goes (enqueued b) (enqueued b) w refl g tt
  turn-Fine (dequeued x) w g k = goes (dequeued x) (dequeued x) w refl g tt
  turn-Fine (looked f) w g k = goes (looked f) (looked f) w refl g tt

  -- A claim is an old one of the same thread or of the node behind the old head.
  turn-claims :
      (th : Thread A) (w : Shared A) (a : ℕ)
      → Knows w th
      → claims (turn th w).0 ≡ some a
      → (claims th ≡ some a) ⊎ (w.queue.head < a)
  unfolding turn step sends takes access cas_next at_tail at_same inside claimed got_item saw_item
  turn-claims crashed w a k e = elim k [ ]
  turn-claims (enqueue_next x t) w a k e = ground (arith, e)
  turn-claims (enqueue_check x t none) w a k e = ground (arith, e)
  turn-claims (enqueue_check x t (some s)) w a k e = ground (arith, e)
  turn-claims (enqueue_link x t) w a k e = ground (arith, e)
  turn-claims (enqueue_help x t s) w a k e = ground (arith, e)
  turn-claims (enqueue_move t n) w a k e = ground (arith, e)
  turn-claims (head_next o h t) w a k e = ground (arith, e)
  turn-claims (head_check taking h t none) w a k e = ground (arith, e)
  turn-claims (head_check looking h t none) w a k e = ground (arith, e)
  turn-claims (head_check taking h t (some f)) w a k e = ground (arith, e)
  turn-claims (head_check looking h t (some f)) w a k e = ground (arith, e)
  turn-claims (head_help o t f) w a k e = ground (arith, e)
  turn-claims (claim h none) w a k e = ground (arith, e)
  turn-claims (claim h (some f)) w a (k, p) e = ground (arith, k, e)
  turn-claims (read_item f) w a k e = ground (arith, e)
  turn-claims (reset_item f x) w a k e = ground (arith, e)
  turn-claims (look_item h none) w a k e = ground (arith, e)
  turn-claims (look_item h (some f)) w a k e = ground (arith, e)
  turn-claims (skip h f) w a k e = ground (arith, e)
  turn-claims (enqueue_again x) w a k e = ground (arith, e)
  turn-claims (head_loop o) w a k e = ground (arith, e)
  turn-claims (head_tail o h) w a k e = ground (arith, e)
  turn-claims idle w a k e = ground (arith, e)
  turn-claims (enqueued b) w a k e = ground (arith, e)
  turn-claims (dequeued x) w a k e = ground (arith, e)
  turn-claims (looked f) w a k e = ground (arith, e)

  claims-head :
      (th : Thread A) (w : Shared A) (a : ℕ) → Knows w th → claims th ≡ some a → a ≤ w.queue.head
  claims-head (read_item f) w a (x, (k, e, p, i, t)) c = ground (arith, e, p, c)
  claims-head (reset_item f x) w a (k, e, p, i, t) c = ground (arith, e, p, c)
  claims-head th w a k c = absurd (ground (arith, c))

  -- The shared part is good, every thread knows where it stands, and no two have taken one node.
  record Safe (s : System A) : Type 0 where
    good : Good s.shared
    all_know : (i : ℕ) → Knows s.shared (s.thread i)
    alone : (i j a : ℕ) → claims (s.thread i) ≡ some a → claims (s.thread j) ≡ some a → i ≡ j

  placed-at :
      (i j : ℕ) (th : Thread A) (ths : ℕ → Thread A) → (j == i) ≡ true → placed i th ths j ≡ th
  placed-at i j th ths e = rw (e, placed) refl

  placed-other :
      (i j : ℕ) (th : Thread A) (ths : ℕ → Thread A) → (j == i) ≡ false → placed i th ths j ≡ ths j
  placed-other i j th ths e = rw (e, placed) refl

  -- A thread is put where it stands next, and the others keep what they know.
  placed-Safe :
      (i : ℕ) (th : Thread A) (w : Shared A) (s : System A)
      → Safe s
      → Good w
      → Knows w th
      → Later (claims (s.thread i)) s.shared w
      → ((a : ℕ) → claims th ≡ some a → (claims (s.thread i) ≡ some a) ⊎ (s.shared.queue.head < a))
      → Safe (record { shared = w; thread = placed i th s.thread })
  placed-Safe i th w s v g k l fresh = record { good = g; all_know = know; alone = apart }
    where
      know : (j : ℕ) → Knows w (placed i th s.thread j)
      know j = elim (Bool-cases (j == i)) [
        | inl same ↦ subst (Knows w) (sym (placed-at i j th s.thread same)) k
        | inr differs ↦ subst (Knows w) (sym (placed-other i j th s.thread differs)) (
            Knows-Later (s.thread j) l
              (λ a c mine. absurd (ground (arith, differs, v.alone i j a mine c))) (v.all_know j))
      ]

      meets : (j a : ℕ) → claims th ≡ some a → claims (s.thread j) ≡ some a → i ≡ j
      meets j a c d = elim (fresh a c) [
        | inl old ↦ v.alone i j a old d
        | inr new ↦
            absurd (omega (arith, new, claims-head (s.thread j) s.shared a (v.all_know j) d))
      ]

      apart :
          (j m a : ℕ)
          → claims (placed i th s.thread j) ≡ some a
          → claims (placed i th s.thread m) ≡ some a
          → j ≡ m
      apart j m a c d = elim (Bool-cases (j == i)) [
        | inl same ↦
            let c' = sym (ap claims (placed-at i j th s.thread same)) ∙ c in
            elim (Bool-cases (m == i)) [
              | inl same' ↦ ground (arith, same, same')
              | inr other ↦
                  let d' = sym (ap claims (placed-other i m th s.thread other)) ∙ d in
                  ground (arith, same, meets m a c' d')
            ]
        | inr differs ↦
            let c' = sym (ap claims (placed-other i j th s.thread differs)) ∙ c in
            elim (Bool-cases (m == i)) [
              | inl same' ↦
                  let d' = sym (ap claims (placed-at i m th s.thread same')) ∙ d in
                  ground (arith, same', meets j a d' c')
              | inr other ↦
                  v.alone j m a c' (sym (ap claims (placed-other i m th s.thread other)) ∙ d)
            ]
      ]

  Step-Safe : {s s' : System A} → Step s s' → Safe s → Safe s'
  unfolding start_enqueue start_head
  Step-Safe {s = s} (calls_enqueue i none free) v =
      placed-Safe i (enqueued false) s.shared s v v.good tt (Later-refl s.shared)
        (λ a c. absurd (ground (arith, c)))
  Step-Safe {s = s} (calls_enqueue i (some x) free) v =
      placed-Safe i (enqueue_again x) s.shared s v v.good tt (Later-refl s.shared)
        (λ a c. absurd (ground (arith, c)))
  Step-Safe {s = s} (calls i o free) v =
      placed-Safe i (head_loop o) s.shared s v v.good tt (Later-refl s.shared)
        (λ a c. absurd (ground (arith, c)))
  Step-Safe {s = s} (accesses i) v =
      let r = turn-Fine (s.thread i) s.shared v.good (v.all_know i) in
      placed-Safe i (turn (s.thread i) s.shared).0 (turn (s.thread i) s.shared).1 s v r.good r.knows
        r.later (λ a c. turn-claims (s.thread i) s.shared a (v.all_know i) c)

  pub start-Good : Good {A = A} start.shared
  unfolding empty_queue
  start-Good = record {
    head_tail = omega arith;
    tail_in = omega arith;
    sent_count = refl;
    inner = λ a p. absurd (omega (arith, p));
    last = λ a p. refl;
    items = λ a p q. absurd (omega (arith, q));
    waiting = [];
    in_order = refl;
    taken_count = refl;
  }

  start-Safe : Safe start
  start-Safe = record {
    good = start-Good;
    all_know = λ i. tt;
    alone = λ i j a c d. absurd (ground (arith, c));
  }

  Reach-Safe : {s : System A} → Reach s → Safe s
  Reach-Safe here = start-Safe
  Reach-Safe (next r s) = Step-Safe s (Reach-Safe r)

  -- In every interleaving of any number of threads no access goes through a null pointer, the items
  -- that were linked are those over which the head has moved, in the same order, and then those that
  -- wait, and the item that a dequeue is about to return is the one recorded when it moved the head
  -- to its node, which no other thread has taken.
  pub Reach-taken_in_order :
      {s : System A}
      → Reach s
      → ((i : ℕ) → s.thread i ≢ crashed)
        × ((waiting : List A) × (s.shared.sent ≡ s.shared.taken ++ waiting)
            × (length s.shared.taken ≡ s.shared.queue.head))
        × ((i f : ℕ) (x : A)
            → s.thread i ≡ reset_item f x
            → get_elem? s.shared.taken (f - 1) ≡ some x)
        × ((i j a : ℕ) → claims (s.thread i) ≡ some a → claims (s.thread j) ≡ some a → i ≡ j)
  Reach-taken_in_order {s = s} r =
      let v = Reach-Safe r in
      (
        λ i crash. elim (subst (Knows s.shared) crash (v.all_know i)) [ ],
        (v.good.waiting, v.good.in_order, v.good.taken_count),
        λ i f x e.
            let (k, behind, p, found, t) = subst (Knows s.shared) e (v.all_know i) in
            ap (get_elem? s.shared.taken) (omega (arith, behind)) ∙ t,
        v.alone,
      )
