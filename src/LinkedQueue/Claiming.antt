-- ===== src/LinkedQueue/Claiming.antt =====
-- Moving the head of the ConcurrentLinkedQueue in include/mola/queue.hpp over a node keeps its
-- invariant.
use elastic_actor.Prelude.{
  ℕ, suc, ◌<◌, ◌≡◌, List, [], ◌∷◌, ◌++◌, Option, none, some, length, get_elem?, arith, refl, ◌∙◌,
  sym, subst, ap, inl, inr, Bool-cases, true, ◌==◌, List-cases, get_elem?-append,
  get_elem?-append_end, length-append, append_assoc,
}
use elastic_actor.LinkedQueue.{taking, head_loop, claim, read_item, step, claimed}
use elastic_actor.LinkedQueue.System.{Shared, turn, sends, takes}
use elastic_actor.LinkedQueue.Invariant.{Good, Knows, item_at}
use elastic_actor.LinkedQueue.Reading.{Fine, goes, lands}

module _ {A : Type 0} where
  -- The head moves over the next node, whose item is taken.
  abbrev pub head_moved : A → ℕ → Shared A → Shared A
  head_moved x f w = record w { queue = record w.queue { head = f }; taken = w.taken ++ (x ∷ []) }

  -- Behind a head that is not the tail there is a node, and its item is the next one that was sent.
  pub waiting-next :
      (h : ℕ) (w : Shared A) (g : Good w)
      → w.queue.head ≡ h
      → h < w.queue.tail
      → (x : A) × (rest : List A) × (item_at w (suc h) ≡ some x) × (g.waiting ≡ x ∷ rest)
  waiting-next h w g e p = elim (List-cases g.waiting) [
    | inl empty ↦ absurd (
        omega (
          arith,
          ap length g.in_order,
          length-append w.taken g.waiting,
          ap length empty,
          g.taken_count,
          g.sent_count,
          g.tail_in,
          p,
          e,
        ))
    | inr (x, rest, more) ↦ (
      x,
      rest,
      g.items h (omega (arith, e)) (omega (arith, p, g.tail_in))
          ∙ ap (get_elem? w.sent) (sym e ∙ sym g.taken_count)
          ∙ ap (λ xs. get_elem? xs (length w.taken)) g.in_order
          ∙ get_elem?-append_end w.taken g.waiting
          ∙ ap (λ xs. get_elem? xs 0) more,
      more,
    )
  ]

  claim-Good :
      (h : ℕ) (x : A) (rest : List A) (w : Shared A) (g : Good w)
      → w.queue.head ≡ h
      → h < w.queue.tail
      → g.waiting ≡ x ∷ rest
      → Good (head_moved x (suc h) w)
  claim-Good h x rest w g e p more = record {
    head_tail = p;
    tail_in = g.tail_in;
    sent_count = g.sent_count;
    inner = g.inner;
    last = g.last;
    items = λ a q r. g.items a (omega (arith, e, q)) r;
    waiting = rest;
    in_order =
        g.in_order ∙ ap (λ xs. w.taken ++ xs) more ∙ sym (append_assoc w.taken (x ∷ []) rest);
    taken_count = omega (arith, length-append w.taken (x ∷ []), g.taken_count, e);
  }

  claimed-Fine :
      (h : ℕ) (w : Shared A)
      → Good w
      → w.queue.head ≡ h
      → h < w.queue.tail
      → Fine (claim h (some (suc h))) w (turn (claim h (some (suc h))) w)
  unfolding turn step sends takes claimed
  claimed-Fine h w g e p =
      let (x, rest, i, more) = waiting-next h w g e p in
      let same : (w.queue.head == h) ≡ true = ground (arith, e) in
      lands (claim h (some (suc h))) (read_item (suc h)) w (head_moved x (suc h) w)
        (rw (same, i) refl) (claim-Good h x rest w g e p more)
        (
          x,
          (
            h,
            refl,
            omega arith,
            i,
            ap (get_elem? (w.taken ++ (x ∷ []))) (sym e ∙ sym g.taken_count)
                ∙ get_elem?-append_end w.taken (x ∷ []),
          ),
        )
        (record {
          heads = omega (arith, e);
          tails = omega arith;
          counts = omega arith;
          still_taken = get_elem?-append w.taken (x ∷ []);
          same_items = λ a other q. refl;
        })

  pub claim-Fine :
      (h : ℕ) (f : Option ℕ) (w : Shared A)
      → Good w
      → Knows w (claim h f)
      → Fine (claim h f) w (turn (claim h f) w)
  unfolding turn step sends takes
  claim-Fine h none w g (e, p) = absurd (ground (arith, e))
  claim-Fine h (some f) w g (e, p) = elim (Bool-cases (w.queue.head == h)) [
    | inl same ↦
        subst (λ s. Fine (claim h s) w (turn (claim h s) w)) (sym e)
          (claimed-Fine h w g (ground (arith, same)) p)
    | inr differs ↦ goes (claim h (some f)) (head_loop taking) w (rw differs refl) g tt
  ]
