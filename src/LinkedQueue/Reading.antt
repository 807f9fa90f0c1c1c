-- ===== src/LinkedQueue/Reading.antt =====
-- The accesses of the ConcurrentLinkedQueue in include/mola/queue.hpp that leave the nodes as they
-- are keep its invariant.
use elastic_actor.Prelude.{
  ℕ, suc, ◌<◌, ◌≡◌, Option, none, some, get_elem?-some, arith, refl, ◌∙◌, sym, subst, ap, inl, inr,
  Bool-cases, ltb, ltb→lt, lt→ltb, ◌==◌, Option-cases,
}
use elastic_actor.LinkedQueue.{
  Purpose, taking, looking, Thread, looked, enqueue_again, enqueue_next, enqueue_check, head_loop,
  head_next, head_check, read_item, reset_item, look_item, skip, step, access, at_tail, at_same,
  inside, got_item, saw_item,
}
use elastic_actor.LinkedQueue.System.{Shared, turn, sends, takes}
use elastic_actor.LinkedQueue.Invariant.{Good, Knows, Later, IsLink, claims, item_at, next_at}

module _ {A : Type 0} where
  -- A step of a thread keeps the invariant and what others know, and the thread knows where it is.
  pub record Fine (th : Thread A) (w : Shared A) (r : Thread A × Shared A) : Type 0 where
    pub good : Good r.1
    pub knows : Knows r.1 r.0
    pub later : Later (claims th) w r.1

  pub Later-refl : {mine : Option ℕ} (w : Shared A) → Later mine w w
  Later-refl w = record {
    heads = omega arith;
    tails = omega arith;
    counts = omega arith;
    still_taken = λ i x e. e;
    same_items = λ a other p. refl;
  }

  pub lands :
      (th th' : Thread A) (w w' : Shared A)
      → turn th w ≡ (th', w')
      → Good w'
      → Knows w' th'
      → Later (claims th) w w'
      → Fine th w (turn th w)
  lands th th' w w' e g k l = subst (Fine th w) (sym e) (record { good = g; knows = k; later = l })

  pub goes :
      (th th' : Thread A) (w : Shared A)
      → turn th w ≡ (th', w)
      → Good w
      → Knows w th'
      → Fine th w (turn th w)
  goes th th' w e g k = lands th th' w w e g k (Later-refl w)

  -- A link that is read says whether there is a next node.
  next-IsLink : (w : Shared A) (a : ℕ) → Good w → a < w.queue.count → IsLink w a (next_at w a)
  next-IsLink w a g small = elim (Bool-cases (ltb (suc a) w.queue.count)) [
    | inl more ↦ subst (IsLink w a) (sym (g.inner a (ltb→lt _ _ more))) (refl, ltb→lt _ _ more)
    | inr end ↦ subst (IsLink w a) (sym (g.last a (ground (arith, end, small)))) tt
  ]

  pub enqueue_next-Fine :
      (x : A) (t : ℕ) (w : Shared A)
      → Good w
      → Knows w (enqueue_next x t)
      → Fine (enqueue_next x t) w (turn (enqueue_next x t) w)
  unfolding turn step sends takes access
  enqueue_next-Fine x t w g k =
      let small : t < w.queue.count = omega (arith, g.tail_in, k) in
      goes (enqueue_next x t) (enqueue_check x t (next_at w t)) w
        (rw (lt→ltb t w.queue.count small) refl) g (k, next-IsLink w t g small)

  pub enqueue_check-Fine :
      (x : A) (t : ℕ) (s : Option ℕ) (w : Shared A)
      → Good w
      → Knows w (enqueue_check x t s)
      → Fine (enqueue_check x t s) w (turn (enqueue_check x t s) w)
  unfolding turn step sends takes at_tail
  enqueue_check-Fine x t s w g (k, m) = elim (Bool-cases (w.queue.tail == t)) [
    | inl same ↦ goes (enqueue_check x t s) (at_tail x t s) w (rw same refl) g (at_tail-Knows s m)
    | inr differs ↦ goes (enqueue_check x t s) (enqueue_again x) w (rw differs refl) g tt
  ]
    where
      at_tail-Knows : (s : Option ℕ) → IsLink w t s → Knows w (at_tail x t s)
      at_tail-Knows none m = k
      at_tail-Knows (some s) m = m

  pub head_next-Fine :
      (o : Purpose) (h t : ℕ) (w : Shared A)
      → Good w
      → Knows w (head_next o h t)
      → Fine (head_next o h t) w (turn (head_next o h t) w)
  unfolding turn step sends takes access
  head_next-Fine o h t w g (k, m, n) =
      let small : h < w.queue.count = omega (arith, g.tail_in, m, n) in
      goes (head_next o h t) (head_check o h t (next_at w h)) w
        (rw (lt→ltb h w.queue.count small) refl) g
        (k, m, n, next-IsLink w h g small, λ p. g.inner h (omega (arith, g.tail_in, p, n)))

  pub head_check-Fine :
      (o : Purpose) (h t : ℕ) (f : Option ℕ) (w : Shared A)
      → Good w
      → Knows w (head_check o h t f)
      → Fine (head_check o h t f) w (turn (head_check o h t f) w)
  unfolding turn step sends takes at_same inside
  head_check-Fine o h t f w g (k, m, n, link, inner) = elim (Bool-cases (w.queue.head == h)) [
    | inl same ↦ elim (Bool-cases (h == t)) [
      | inl ends ↦
          goes (head_check o h t f) (at_same o t f) w (rw (same, ends) refl) g
            (at_same-Knows o f (subst (λ a. IsLink w a f) (ground (arith, ends)) link))
      | inr more ↦
          let before : h < t = ground (arith, more, m) in
          goes (head_check o h t f) (inside o h f) w (rw (same, more) refl) g
            (inside-Knows o (inner before) (omega (arith, before, n)))
    ]
    | inr differs ↦ goes (head_check o h t f) (head_loop o) w (rw differs refl) g tt
  ]
    where
      at_same-Knows : (o : Purpose) (f : Option ℕ) → IsLink w t f → Knows w (at_same o t f)
      at_same-Knows taking none l = tt
      at_same-Knows looking none l = tt
      at_same-Knows taking (some f) l = l
      at_same-Knows looking (some f) l = l

      inside-Knows : (o : Purpose) → f ≡ some (suc h) → h < w.queue.tail → Knows w (inside o h f)
      inside-Knows taking e p = (e, p)
      inside-Knows looking e p = (e, omega (arith, g.tail_in, p))

  pub read_item-Fine :
      (f : ℕ) (w : Shared A)
      → Good w
      → Knows w (read_item f)
      → Fine (read_item f) w (turn (read_item f) w)
  unfolding turn step sends takes access got_item
  read_item-Fine f w g (x, (k, e, p, i, t)) =
      let small : f < w.queue.count = omega (arith, e, p, g.head_tail, g.tail_in) in
      goes (read_item f) (reset_item f x) w (rw (lt→ltb f w.queue.count small, i) refl) g
        (k, e, p, i, t)

  -- A node that is linked and empty has been taken.
  empty-taken :
      (h : ℕ) (w : Shared A)
      → Good w
      → suc h < w.queue.count
      → item_at w (suc h) ≡ none
      → h < w.queue.head
  empty-taken h w g small empty = elim (Bool-cases (ltb h w.queue.head)) [
    | inl before ↦ ltb→lt _ _ before
    | inr behind ↦
        let (x, found) = get_elem?-some w.sent h (omega (arith, small, g.sent_count)) in
        let e = g.items h (ground (arith, behind)) small in
        absurd (ground (arith, sym empty ∙ e ∙ found))
  ]

  pub look_item-Fine :
      (h : ℕ) (f : Option ℕ) (w : Shared A)
      → Good w
      → Knows w (look_item h f)
      → Fine (look_item h f) w (turn (look_item h f) w)
  unfolding turn step sends takes access saw_item
  look_item-Fine h none w g (e, p) = absurd (ground (arith, e))
  look_item-Fine h (some f) w g (e, p) =
      let behind : f ≡ suc h = ground (arith, e) in
      let small : f < w.queue.count = omega (arith, behind, p) in
      elim (Option-cases (item_at w f)) [
        | inl empty ↦
            goes (look_item h (some f)) (skip h f) w (rw (lt→ltb f w.queue.count small, empty) refl)
              g (behind, empty-taken h w g p (ap (item_at w) (sym behind) ∙ empty))
        | inr (x, i) ↦
            goes (look_item h (some f)) (looked (some f)) w
              (rw (lt→ltb f w.queue.count small, i) refl) g tt
      ]
