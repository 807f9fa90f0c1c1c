-- ===== src/LinkedQueue/Writing.antt =====
-- The accesses of the ConcurrentLinkedQueue in include/mola/queue.hpp that write keep its invariant.
use elastic_actor.Prelude.{
  ℕ, suc, ◌<◌, ◌≡◌, ◌≢◌, none, some, arith, refl, ◌∙◌, sym, ap, inl, inr, Bool-cases, lt→ltb, true,
  false, ◌==◌,
}
use elastic_actor.LinkedQueue.{
  Cell, Queue, Purpose, looking, Thread, dequeued, enqueued, enqueue_again, enqueue_help,
  enqueue_move, head_loop, head_help, reset_item, skip, step, access, cas_tail, set_node,
}
use elastic_actor.LinkedQueue.System.{Shared, turn, sends, takes}
use elastic_actor.LinkedQueue.Invariant.{Good, Knows, item_at, next_at}
use elastic_actor.LinkedQueue.Reading.{Fine, goes, lands}

module _ {A : Type 0} where
  -- The tail moves from a node to the next one in the chain.
  abbrev pub tail_moved : ℕ → Shared A → Shared A
  tail_moved s w = record w { queue = record w.queue { tail = s } }

  pub tail_moved-Good :
      (t : ℕ) (w : Shared A)
      → w.queue.tail ≡ t
      → suc t < w.queue.count
      → Good w
      → Good (tail_moved (suc t) w)
  tail_moved-Good t w same small g = record {
    head_tail = omega (arith, g.head_tail, same);
    tail_in = small;
    sent_count = g.sent_count;
    inner = g.inner;
    last = g.last;
    items = g.items;
    waiting = g.waiting;
    in_order = g.in_order;
    taken_count = g.taken_count;
  }

  tail_moved-Fine :
      (th th' : Thread A) (t : ℕ) (w : Shared A)
      → turn th w ≡ (th', tail_moved (suc t) w)
      → w.queue.tail ≡ t
      → suc t < w.queue.count
      → ((w' : Shared A) → Knows w' th')
      → Good w
      → Fine th w (turn th w)
  tail_moved-Fine th th' t w e same small k g =
      lands th th' w (tail_moved (suc t) w) e (tail_moved-Good t w same small g)
        (k (tail_moved (suc t) w))
        (record {
          heads = omega arith;
          tails = omega (arith, same);
          counts = omega arith;
          still_taken = λ i x e. e;
          same_items = λ a other p. refl;
        })

  -- Both threads that have linked a node and threads that find one behind the tail turn the tail.
  cas_tail-Fine :
      (th th' : Thread A) (t s : ℕ) (w : Shared A)
      → turn th w ≡ (th', record w { queue = cas_tail t s w.queue })
      → s ≡ suc t
      → suc t < w.queue.count
      → ((w' : Shared A) → Knows w' th')
      → Good w
      → Fine th w (turn th w)
  unfolding cas_tail
  cas_tail-Fine th th' t s w e behind small k g = elim (Bool-cases (w.queue.tail == t)) [
    | inl same ↦
        tail_moved-Fine th th' t w (e ∙ rw (same, behind) refl) (ground (arith, same)) small k g
    | inr differs ↦ goes th th' w (e ∙ rw differs refl) g (k w)
  ]

  pub enqueue_help-Fine :
      (x : A) (t s : ℕ) (w : Shared A)
      → Good w
      → Knows w (enqueue_help x t s)
      → Fine (enqueue_help x t s) w (turn (enqueue_help x t s) w)
  unfolding turn step sends takes
  enqueue_help-Fine x t s w g (e, p) =
      cas_tail-Fine (enqueue_help x t s) (enqueue_again x) t s w refl e p (λ w'. tt) g

  pub enqueue_move-Fine :
      (t n : ℕ) (w : Shared A)
      → Good w
      → Knows w (enqueue_move t n)
      → Fine (enqueue_move t n) w (turn (enqueue_move t n) w)
  unfolding turn step sends takes
  enqueue_move-Fine t n w g (e, p) =
      cas_tail-Fine (enqueue_move t n) (enqueued true) t n w refl e p (λ w'. tt) g

  pub head_help-Fine :
      (o : Purpose) (t f : ℕ) (w : Shared A)
      → Good w
      → Knows w (head_help o t f)
      → Fine (head_help o t f) w (turn (head_help o t f) w)
  unfolding turn step sends takes
  head_help-Fine o t f w g (e, p) =
      cas_tail-Fine (head_help o t f) (head_loop o) t f w refl e p (λ w'. tt) g

  pub skip-Fine :
      (h f : ℕ) (w : Shared A) → Good w → Knows w (skip h f) → Fine (skip h f) w (turn (skip h f) w)
  unfolding turn step sends takes
  skip-Fine h f w g (e, p) =
      goes (skip h f) (head_loop looking) w
        (let passed : (w.queue.head == h) ≡ false = ground (arith, p) in rw passed refl) g tt

  -- The item of a node that this thread has taken is reset.
  abbrev pub reset : ℕ → Shared A → Shared A
  reset f w = record w { queue = set_node f (record (w.queue.node f) { item = none }) w.queue }

  pub set_node_self : (a b : ℕ) (n : Cell A) (q : Queue A) → b ≡ a → (set_node a n q).node b ≡ n
  unfolding set_node
  set_node_self a b n q e = let same : (b == a) ≡ true = ground (arith, e) in rw same refl

  pub set_node_other :
      (a b : ℕ) (n : Cell A) (q : Queue A) → b ≢ a → (set_node a n q).node b ≡ q.node b
  unfolding set_node
  set_node_other a b n q e = let other : (b == a) ≡ false = ground (arith, e) in rw other refl

  reset-next : (f a : ℕ) (w : Shared A) → next_at (reset f w) a ≡ next_at w a
  reset-next f a w = elim (Bool-cases (a == f)) [
    | inl same ↦
        let e : a ≡ f = ground (arith, same) in
        ap (λ n. n.next) (set_node_self f a (record (w.queue.node f) { item = none }) w.queue e)
        ∙ ap (λ b. next_at w b) (sym e)
    | inr differs ↦
        ap (λ n. n.next)
          (set_node_other f a (record (w.queue.node f) { item = none }) w.queue
            (ground (arith, differs)))
  ]

  reset-item : (f a : ℕ) (w : Shared A) → a ≢ f → item_at (reset f w) a ≡ item_at w a
  reset-item f a w other =
      ap (λ n. n.item) (set_node_other f a (record (w.queue.node f) { item = none }) w.queue other)

  pub reset_item-Fine :
      (f : ℕ) (x : A) (w : Shared A)
      → Good w
      → Knows w (reset_item f x)
      → Fine (reset_item f x) w (turn (reset_item f x) w)
  unfolding turn step sends takes access
  reset_item-Fine f x w g (k, e, p, i, t) =
      let small : f < w.queue.count = omega (arith, e, p, g.head_tail, g.tail_in) in
      lands (reset_item f x) (dequeued (some x)) w (reset f w)
        (rw (lt→ltb f w.queue.count small) refl)
        (record {
          head_tail = g.head_tail;
          tail_in = g.tail_in;
          sent_count = g.sent_count;
          inner = λ a q. reset-next f a w ∙ g.inner a q;
          last = λ a q. reset-next f a w ∙ g.last a q;
          items = λ a q r. reset-item f (suc a) w (omega (arith, e, p, q)) ∙ g.items a q r;
          waiting = g.waiting;
          in_order = g.in_order;
          taken_count = g.taken_count;
        })
        tt
        (record {
          heads = omega arith;
          tails = omega arith;
          counts = omega arith;
          still_taken = λ i x e. e;
          same_items = λ a other q. reset-item f a w (λ h. other (ap some (sym h)));
        })
