-- ===== src/LinkedQueue/Linking.antt =====
-- Linking a node to the ConcurrentLinkedQueue in include/mola/queue.hpp keeps its invariant.
use elastic_actor.Prelude.{
  ℕ, suc, ◌+◌, ◌<◌, ◌≤◌, ◌≡◌, ◌≢◌, [], ◌∷◌, ◌++◌, none, some, length, get_elem?, arith, refl, ◌∙◌,
  sym, ap, inl, inr, Bool-cases, ltb, ltb→lt, lt→ltb, ◌==◌, Option-cases, get_elem?-some,
  get_elem?-append, get_elem?-append_end, length-append, append_assoc,
}
use elastic_actor.LinkedQueue.{
  Queue, enqueue_again, enqueue_link, enqueue_move, step, access, cas_next, set_node, link,
}
use elastic_actor.LinkedQueue.System.{Shared, turn, sends, takes}
use elastic_actor.LinkedQueue.Invariant.{Good, Knows, item_at, next_at}
use elastic_actor.LinkedQueue.Reading.{Fine, goes, lands}
use elastic_actor.LinkedQueue.Writing.{set_node_self, set_node_other}

module _ {A : Type 0} (x : A) (t : ℕ) (w : Shared A) where
  abbrev linked : Shared A
  linked = record w { queue = link x t w.queue; sent = w.sent ++ (x ∷ []) }

  -- The queue with the new link, before the new node has its place.
  abbrev before_node : Queue A
  before_node = set_node t (record (w.queue.node t) { next = some w.queue.count }) w.queue

  linked-new : linked.queue.node w.queue.count ≡ record { item = some x; next = none }
  unfolding link
  linked-new =
      set_node_self w.queue.count w.queue.count (record { item = some x; next = none }) before_node
        refl

  linked-old : (a : ℕ) → a ≢ w.queue.count → linked.queue.node a ≡ before_node.node a
  unfolding link
  linked-old a other =
      set_node_other w.queue.count a (record { item = some x; next = none }) before_node other

  linked-item : (a : ℕ) → a ≢ w.queue.count → item_at linked a ≡ item_at w a
  linked-item a other = ap (λ n. n.item) (linked-old a other) ∙ elim (Bool-cases (a == t)) [
    | inl same ↦
        let e : a ≡ t = ground (arith, same) in
        ap (λ n. n.item)
          (set_node_self t a (record (w.queue.node t) { next = some w.queue.count }) w.queue e)
        ∙ ap (item_at w) (sym e)
    | inr differs ↦
        ap (λ n. n.item)
          (set_node_other t a (record (w.queue.node t) { next = some w.queue.count }) w.queue
            (ground (arith, differs)))
  ]

  linked-next_at : t ≢ w.queue.count → next_at linked t ≡ some w.queue.count
  linked-next_at other =
      ap (λ n. n.next) (linked-old t other)
      ∙ ap (λ n. n.next)
          (set_node_self t t (record (w.queue.node t) { next = some w.queue.count }) w.queue refl)

  linked-next_other : (a : ℕ) → a ≢ t → a ≢ w.queue.count → next_at linked a ≡ next_at w a
  linked-next_other a other old =
      ap (λ n. n.next) (linked-old a old)
      ∙ ap (λ n. n.next)
          (set_node_other t a (record (w.queue.node t) { next = some w.queue.count }) w.queue other)

  module _ (g : Good w) (last : suc t ≡ w.queue.count) where
    linked-inner : (a : ℕ) → suc a < w.queue.count + 1 → next_at linked a ≡ some (suc a)
    linked-inner a q = elim (Bool-cases (a == t)) [
      | inl same ↦
          let e : a ≡ t = ground (arith, same) in
          ap (next_at linked) e
          ∙ linked-next_at (omega (arith, last))
          ∙ ap some (omega (arith, last, e))
      | inr differs ↦
          let other : a ≢ t = ground (arith, differs) in
          linked-next_other a other (omega (arith, q)) ∙ g.inner a (omega (arith, q, other, last))
    ]

    linked-items :
        (a : ℕ)
        → w.queue.head ≤ a
        → suc a < w.queue.count + 1
        → item_at linked (suc a) ≡ get_elem? (w.sent ++ (x ∷ [])) a
    linked-items a q r = elim (Bool-cases (ltb (suc a) w.queue.count)) [
      | inl old ↦
          let small = ltb→lt _ _ old in
          let (y, e) = get_elem?-some w.sent a (omega (arith, small, g.sent_count)) in
          linked-item (suc a) (omega (arith, small))
          ∙ g.items a q small
          ∙ e
          ∙ sym (get_elem?-append w.sent (x ∷ []) a y e)
      | inr new ↦
          let e : a ≡ length w.sent = ground (arith, new, r, g.sent_count) in
          let e' : suc a ≡ w.queue.count = omega (arith, e, g.sent_count) in
          ap (item_at linked) e'
          ∙ ap (λ n. n.item) linked-new
          ∙ sym (ap (get_elem? (w.sent ++ (x ∷ []))) e ∙ get_elem?-append_end w.sent (x ∷ []))
    ]

    linked-Good : Good linked
    unfolding link
    linked-Good = record {
      head_tail = g.head_tail;
      tail_in = omega (arith, g.tail_in);
      sent_count = omega (arith, g.sent_count, length-append w.sent (x ∷ []));
      inner = linked-inner;
      last = λ a q. ap (next_at linked) (omega (arith, q)) ∙ ap (λ n. n.next) linked-new;
      items = linked-items;
      waiting = g.waiting ++ (x ∷ []);
      in_order = ap (λ xs. xs ++ (x ∷ [])) g.in_order ∙ append_assoc w.taken g.waiting (x ∷ []);
      taken_count = g.taken_count;
    }

    linking-Fine : next_at w t ≡ none → Fine (enqueue_link x t) w (turn (enqueue_link x t) w)
    unfolding turn step sends takes access cas_next link
    linking-Fine free =
        lands (enqueue_link x t) (enqueue_move t w.queue.count) w linked
          (rw (lt→ltb t w.queue.count (omega (arith, last)), sends, free) refl) linked-Good
          (sym last, omega (arith, last))
          (record {
            heads = omega arith;
            tails = omega arith;
            counts = omega arith;
            still_taken = λ i y e. e;
            same_items = λ a other q. linked-item a (omega (arith, q, g.head_tail, g.tail_in));
          })

module _ {A : Type 0} where
  pub enqueue_link-Fine :
      (x : A) (t : ℕ) (w : Shared A)
      → Good w
      → Knows w (enqueue_link x t)
      → Fine (enqueue_link x t) w (turn (enqueue_link x t) w)
  unfolding turn step sends takes access cas_next
  enqueue_link-Fine x t w g k =
      let small : t < w.queue.count = omega (arith, k, g.tail_in) in
      elim (Option-cases (next_at w t)) [
        | inl free ↦ linking-Fine x t w g (last free small) free
        | inr (s, taken) ↦
            goes (enqueue_link x t) (enqueue_again x) w
              (rw (lt→ltb t w.queue.count small, sends, taken) refl) g tt
      ]
    where
      last : next_at w t ≡ none → t < w.queue.count → suc t ≡ w.queue.count
      last free small = elim (Bool-cases (ltb (suc t) w.queue.count)) [
        | inl more ↦ absurd (ground (arith, sym free ∙ g.inner t (ltb→lt _ _ more)))
        | inr end ↦ ground (arith, end, small)
      ]
