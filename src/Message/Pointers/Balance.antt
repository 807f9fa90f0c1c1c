-- ===== src/Message/Pointers/Balance.antt =====
-- The reference counts of include/mola/message.hpp against the number of pointers, one operation at
-- a time.
use elastic_actor.Prelude.{
  ℕ, zero, suc, ◌+◌, ◌<◌, ◌≤◌, ◌^◌, ◌≡◌, refl, ap, inl, inr, List, [], ◌∷◌, ◌++◌, Option, none,
  some, arith, ◌==◌, if◌then◌else◌, Option-cases, List-cases, get_or, set, length, length-set,
  length-append,
}
use elastic_actor.Message.Pointers.{
  Heap, handle, wrap, copy, move, drop_ref, pass, share_from, take_from, wrap_into, adopt,
}

abbrev pub points : ℕ → Option ℕ → ℕ
points p none = 0
points p (some q) = if q == p then 1 else 0

-- The pointers to `p` in a list of them.
abbrev pub refs : ℕ → List (Option ℕ) → ℕ
refs p [] = 0
refs p (o ∷ os) = points p o + refs p os

abbrev pub raw_refs : ℕ → List ℕ → ℕ
raw_refs p [] = 0
raw_refs p (q ∷ qs) = points p (some q) + raw_refs p qs

points-le : (p : ℕ) (o : Option ℕ) → points p o ≤ 1
points-le p none = omega arith
points-le p (some q) = ground arith

refs-le : (p : ℕ) (os : List (Option ℕ)) → refs p os ≤ length os
refs-le p [] = omega arith
refs-le p (o ∷ os) = omega (arith, points-le p o, refs-le p os)

raw_refs-le : (p : ℕ) (qs : List ℕ) → raw_refs p qs ≤ length qs
raw_refs-le p [] = omega arith
raw_refs-le p (q ∷ qs) = omega (arith, points-le p (some q), raw_refs-le p qs)

refs-append :
    (p : ℕ) (os : List (Option ℕ)) (o : Option ℕ) → refs p (os ++ (o ∷ [])) ≡ refs p os + points p o
refs-append p [] o = omega arith
refs-append p (x ∷ os) o = omega (arith, refs-append p os o)

refs-set :
    (p : ℕ) (os : List (Option ℕ)) (i : ℕ) (o : Option ℕ)
    → i < length os
    → refs p (set os i o) + points p (get_or os i none) ≡ refs p os + points p o
refs-set p [] i o h = absurd (omega arith)
refs-set p (x ∷ os) zero o h = omega arith
refs-set p (x ∷ os) (suc i) o h = omega (arith, refs-set p os i o (omega arith))

-- The count of every wrapper is the number of pointers to it; no pointer is to an address that is
-- not in use yet, and there are too few of them for a counter to wrap.
pub record Balanced (h : Heap) : Type 0 where
  pub counted : (p : ℕ) → h.counts p ≡ refs p h.handles + raw_refs p h.raw
  pub unused : (p : ℕ) → h.next ≤ p → h.counts p ≡ 0
  pub few : length h.handles + length h.raw + 1 < 2 ^ 32

points_self : (p : ℕ) (o : Option ℕ) → o ≡ some p → points p o ≡ 1
points_self p o e = rw e (ground arith)

get_or-some-lt : (os : List (Option ℕ)) (i p : ℕ) → get_or os i none ≡ some p → i < length os
get_or-some-lt [] i p e = grind arith
get_or-some-lt (o ∷ os) zero p e = omega arith
get_or-some-lt (o ∷ os) (suc i) p e = omega (arith, get_or-some-lt os i p e)

gone-set :
    (os : List (Option ℕ)) (i j : ℕ)
    → get_or os i none ≡ none
    → get_or (set os j none) i none ≡ none
gone-set [] i j e = e
gone-set (o ∷ os) zero zero e = refl
gone-set (o ∷ os) zero (suc j) e = e
gone-set (o ∷ os) (suc i) zero e = e
gone-set (o ∷ os) (suc i) (suc j) e = gone-set os i j e

pub gone-drop : (os : List (Option ℕ)) (i : ℕ) → get_or (set os i none) i none ≡ none
gone-drop [] i = refl
gone-drop (o ∷ os) zero = refl
gone-drop (o ∷ os) (suc i) = gone-drop os i

module _ (h : Heap) (b : Balanced h) where
  -- No live pointer dangles: the wrapper that it points to has a positive count.
  pub handle-counted : (i p : ℕ) → handle h i ≡ some p → 0 < h.counts p
  handle-counted i p e = omega (
    arith,
    b.counted p,
    refs-set p h.handles i none (get_or-some-lt h.handles i p e),
    points_self p (handle h i) e,
  )

  pub wrap-Balanced : length h.handles + length h.raw + 2 < 2 ^ 32 → Balanced (wrap h)
  unfolding wrap
  wrap-Balanced few = record {
    counted = λ p.
        ground (
          arith,
          b.counted p,
          b.unused h.next (omega arith),
          refs-append p h.handles (some h.next),
        );
    unused = λ p le. ground (arith, b.unused p (omega arith));
    few = omega (arith, length-append h.handles (some h.next ∷ []));
  }

  pub copy-Balanced : (i : ℕ) → length h.handles + length h.raw + 2 < 2 ^ 32 → Balanced (copy i h)
  unfolding copy
  copy-Balanced i few = elim (Option-cases (handle h i)) [
    | inl e ↦
        rw (e, copy)
          (record {
            counted = λ p. omega (arith, b.counted p, refs-append p h.handles none);
            unused = λ p le. omega (arith, b.unused p (omega arith));
            few = omega (arith, length-append h.handles (none ∷ []));
          })
    | inr (q, e) ↦
        rw (e, copy)
          (record {
            counted = λ p. ground (
              arith,
              b.counted p,
              refs-append p h.handles (some q),
              refs-le p h.handles,
              raw_refs-le p h.raw,
              b.few,
            );
            unused = λ p le. ground (arith, b.unused p (omega arith), handle-counted i q e);
            few = omega (arith, length-append h.handles (some q ∷ []));
          })
  ]

  pub move-Balanced :
      (i : ℕ)
      → i < length h.handles
      → length h.handles + length h.raw + 2 < 2 ^ 32
      → Balanced (move i h)
  unfolding move
  move-Balanced i lt few = record {
    counted = λ p. omega (
      arith,
      b.counted p,
      refs-set p h.handles i none lt,
      refs-append p (set h.handles i none) (handle h i),
    );
    unused = λ p le. omega (arith, b.unused p (omega arith));
    few = omega (
      arith,
      length-append (set h.handles i none) (handle h i ∷ []),
      length-set h.handles i none,
    );
  }

  pub drop_ref-Balanced : (i : ℕ) → Balanced (drop_ref i h)
  unfolding drop_ref
  drop_ref-Balanced i = elim (Option-cases (handle h i)) [
    | inl e ↦ rw (e, drop_ref) b
    | inr (q, e) ↦
        let lt = get_or-some-lt h.handles i q e in
        rw (e, drop_ref)
          (record {
            counted = λ p. ground (
              arith,
              b.counted p,
              handle-counted i q e,
              refs-set p h.handles i none lt,
              ap (points p) e,
              refs-le p h.handles,
              raw_refs-le p h.raw,
              b.few,
            );
            unused = λ p le. ground (arith, b.unused p (omega arith), handle-counted i q e);
            few = omega (arith, b.few, length-set h.handles i none);
          })
  ]

  pub pass-Balanced : (i : ℕ) → length h.handles + length h.raw + 2 < 2 ^ 32 → Balanced (pass i h)
  unfolding pass
  pass-Balanced i few = elim (Option-cases (handle h i)) [
    | inl e ↦ rw (e, pass) b
    | inr (q, e) ↦
        let lt = get_or-some-lt h.handles i q e in
        rw (e, pass)
          (record {
            counted =
                λ p. ground (arith, b.counted p, refs-set p h.handles i none lt, ap (points p) e);
            unused = λ p le. omega (arith, b.unused p (omega arith));
            few = omega (arith, few, length-set h.handles i none);
          })
  ]

  pub share_from-Balanced :
      (i j : ℕ) → i < length h.handles → handle h i ≡ none → Balanced (share_from i j h)
  unfolding share_from
  share_from-Balanced i j lt gone = elim (Option-cases (handle h j)) [
    | inl e ↦ rw (e, share_from) b
    | inr (q, e) ↦
        rw (e, share_from)
          (record {
            counted = λ p. ground (
              arith,
              b.counted p,
              refs-set p h.handles i (some q) lt,
              ap (points p) gone,
              refs-le p h.handles,
              raw_refs-le p h.raw,
              b.few,
            );
            unused = λ p le. ground (arith, b.unused p (omega arith), handle-counted j q e);
            few = omega (arith, b.few, length-set h.handles i (some q));
          })
  ]

  pub take_from-Balanced :
      (i j : ℕ)
      → i < length h.handles
      → j < length h.handles
      → handle h i ≡ none
      → Balanced (take_from i j h)
  unfolding take_from
  take_from-Balanced i j lt lt' gone = record {
    counted = λ p. omega (
      arith,
      b.counted p,
      refs-set p h.handles j none lt',
      refs-set p (set h.handles j none) i (handle h j) (omega (arith, length-set h.handles j none)),
      ap (points p) (gone-set h.handles i j gone),
    );
    unused = λ p le. omega (arith, b.unused p (omega arith));
    few = omega (
      arith,
      b.few,
      length-set h.handles j none,
      length-set (set h.handles j none) i (handle h j),
    );
  }

  pub wrap_into-Balanced :
      (i : ℕ) → i < length h.handles → handle h i ≡ none → Balanced (wrap_into i h)
  unfolding wrap_into
  wrap_into-Balanced i lt gone = record {
    counted = λ p. ground (
      arith,
      b.counted p,
      b.unused h.next (omega arith),
      refs-set p h.handles i (some h.next) lt,
      ap (points p) gone,
    );
    unused = λ p le. ground (arith, b.unused p (omega arith));
    few = omega (arith, b.few, length-set h.handles i (some h.next));
  }

  pub adopt-Balanced : Balanced (adopt h)
  unfolding adopt
  adopt-Balanced = elim (List-cases h.raw) [
    | inl e ↦ rw (e, adopt) b
    | inr (q, qs, e) ↦
        rw (e, adopt)
          (record {
            counted = λ p.
                omega (arith, b.counted p, ap (raw_refs p) e, refs-append p h.handles (some q));
            unused = λ p le. omega (arith, b.unused p (omega arith));
            few = omega (arith, b.few, ap length e, length-append h.handles (some q ∷ []));
          })
  ]
