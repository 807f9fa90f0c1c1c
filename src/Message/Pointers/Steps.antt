-- ===== src/Message/Pointers/Steps.antt =====
-- Sequences of the pointer operations of include/mola/message.hpp, and what an assignment leaves in
-- the pointer.
use elastic_actor.Prelude.{
  ℕ, ◌+◌, ◌<◌, ◌≤◌, ◌^◌, ◌≡◌, subst, ◌≢◌, ◌∙◌, refl, ap, inl, inr, [], ◌∷◌, none, some, arith, ◌==◌,
  if◌then◌else◌, Bool-cases, Option-cases, List-cases, set, length, get_or-set_self, get_or-set_ne,
  length-set, length-append,
}
use elastic_actor.Message.Pointers.{
  Heap, handle, wrap, copy, move, drop_ref, pass, share_from, assign, take_from, assign_move,
  wrap_into, assign_raw, adopt,
}
use elastic_actor.Message.Pointers.Balance.{
  refs, raw_refs, Balanced, gone-drop, wrap-Balanced, copy-Balanced, move-Balanced,
  drop_ref-Balanced, pass-Balanced, share_from-Balanced, take_from-Balanced, wrap_into-Balanced,
  adopt-Balanced,
}

-- The length of `handles` and what is empty after the `drop` at the head of an assignment.
drop_ref-handle :
    (h : Heap) (i : ℕ)
    → (handle (drop_ref i h) i ≡ none) × (length (drop_ref i h).handles ≡ length h.handles)
unfolding drop_ref
drop_ref-handle h i = elim (Option-cases (handle h i)) [
  | inl e ↦ rw (e, drop_ref) (e, refl)
  | inr (p, e) ↦ rw (e, drop_ref) (gone-drop h.handles i, length-set h.handles i none)
]

drop_ref-size :
    (h : Heap) (i : ℕ)
    → length (drop_ref i h).handles + length (drop_ref i h).raw ≡ length h.handles + length h.raw
unfolding drop_ref
drop_ref-size h i = elim (Option-cases (handle h i)) [
  | inl e ↦ rw (e, drop_ref) refl
  | inr (p, e) ↦ rw (e, drop_ref) (omega (arith, length-set h.handles i none))
]

share_from-size :
    (h : Heap) (i j : ℕ)
    → length (share_from i j h).handles + length (share_from i j h).raw
      ≡ length h.handles + length h.raw
unfolding share_from
share_from-size h i j = elim (Option-cases (handle h j)) [
  | inl e ↦ rw (e, share_from) refl
  | inr (p, e) ↦ rw (e, share_from) (omega (arith, length-set h.handles i (some p)))
]

-- One operation of the program on its pointers.
pub data Step (h : Heap) : Heap → Type 0 where
  wrapped : Step h (wrap h)
  copied : (i : ℕ) → Step h (copy i h)
  moved : (i : ℕ) → i < length h.handles → Step h (move i h)
  dropped : (i : ℕ) → Step h (drop_ref i h)
  passed : (i : ℕ) → Step h (pass i h)
  adopted : Step h (adopt h)
  assigned : (i j : ℕ) → i < length h.handles → Step h (assign i j h)
  assigned_move :
      (i j : ℕ) → i < length h.handles → j < length h.handles → Step h (assign_move i j h)
  assigned_raw : (i : ℕ) → i < length h.handles → Step h (assign_raw i h)

pub data Steps : ℕ → Heap → Type 0 where
  start : (h : Heap) → h.handles ≡ [] → h.raw ≡ [] → ((p : ℕ) → h.counts p ≡ 0) → Steps 0 h
  step : {n : ℕ} {h h' : Heap} → Steps n h → Step h h' → Steps (n + 1) h'

Step-Balanced :
    {h h' : Heap}
    → Step h h'
    → Balanced h
    → length h.handles + length h.raw + 2 < 2 ^ 32
    → Balanced h'
unfolding assign assign_move assign_raw
Step-Balanced {h = h} wrapped b few = wrap-Balanced h b few
Step-Balanced {h = h} (copied i) b few = copy-Balanced h b i few
Step-Balanced {h = h} (moved i lt) b few = move-Balanced h b i lt few
Step-Balanced {h = h} (dropped i) b few = drop_ref-Balanced h b i
Step-Balanced {h = h} (passed i) b few = pass-Balanced h b i few
Step-Balanced {h = h} adopted b few = adopt-Balanced h b
Step-Balanced {h = h} (assigned i j lt) b few =
    let (gone, size) = drop_ref-handle h i in
    share_from-Balanced (drop_ref i h) (drop_ref-Balanced h b i) i j (omega arith) gone
Step-Balanced {h = h} (assigned_move i j lt lt') b few =
    let (gone, size) = drop_ref-handle h i in
    take_from-Balanced (drop_ref i h) (drop_ref-Balanced h b i) i j (omega arith) (omega arith) gone
Step-Balanced {h = h} (assigned_raw i lt) b few =
    let (gone, size) = drop_ref-handle h i in
    wrap_into-Balanced (drop_ref i h) (drop_ref-Balanced h b i) i (omega arith) gone

Step-size :
    {h h' : Heap}
    → Step h h'
    → length h'.handles + length h'.raw ≤ length h.handles + length h.raw + 1
unfolding wrap copy move drop_ref pass adopt assign assign_move assign_raw share_from take_from
    wrap_into
Step-size {h = h} wrapped = omega (arith, length-append h.handles (some h.next ∷ []))
Step-size {h = h} (copied i) = elim (Option-cases (handle h i)) [
  | inl e ↦ rw (e, copy) (omega (arith, length-append h.handles (none ∷ [])))
  | inr (p, e) ↦ rw (e, copy) (omega (arith, length-append h.handles (some p ∷ [])))
]
Step-size {h = h} (moved i lt) =
    omega
      (arith, length-append (set h.handles i none) (handle h i ∷ []), length-set h.handles i none)
Step-size {h = h} (dropped i) = omega (arith, drop_ref-size h i)
Step-size {h = h} (passed i) = elim (Option-cases (handle h i)) [
  | inl e ↦ rw (e, pass) (omega arith)
  | inr (p, e) ↦ rw (e, pass) (omega (arith, length-set h.handles i none))
]
Step-size {h = h} adopted = elim (List-cases h.raw) [
  | inl e ↦ rw (e, adopt) (omega (arith, ap length e))
  | inr (p, ps, e) ↦
      rw (e, adopt) (omega (arith, ap length e, length-append h.handles (some p ∷ [])))
]
Step-size {h = h} (assigned i j lt) =
    omega (arith, share_from-size (drop_ref i h) i j, drop_ref-size h i)
Step-size {h = h} (assigned_move i j lt lt') = omega (
  arith,
  drop_ref-size h i,
  length-set (drop_ref i h).handles j none,
  length-set (set (drop_ref i h).handles j none) i (handle (drop_ref i h) j),
)
Step-size {h = h} (assigned_raw i lt) =
    omega (arith, drop_ref-size h i, length-set (drop_ref i h).handles i (some (drop_ref i h).next))

-- After at most n operations on the pointers of a program, where n + 2 < 2^32, the count of every
-- wrapper is the number of the live and the handed-out pointers to it.
pub Steps-Balanced :
    {n : ℕ} {h : Heap}
    → Steps n h
    → n + 2 < 2 ^ 32
    → Balanced h × (length h.handles + length h.raw ≤ n)
Steps-Balanced (start h e r z) few = (
  record {
    counted = λ p. omega (arith, z p, ap (refs p) e, ap (raw_refs p) r);
    unused = λ p le. z p;
    few = omega (arith, ap length e, ap length r);
  },
  omega (arith, ap length e, ap length r),
)
Steps-Balanced (step s o) few =
    let (b, size) = Steps-Balanced s (omega arith) in
    (Step-Balanced o b (omega arith), omega (arith, Step-size o))

drop_ref-other : (h : Heap) (i j : ℕ) → i ≢ j → handle (drop_ref i h) j ≡ handle h j
unfolding drop_ref
drop_ref-other h i j ne = elim (Option-cases (handle h i)) [
  | inl e ↦ rw (e, drop_ref) refl
  | inr (p, e) ↦ rw (e, drop_ref) (get_or-set_ne h.handles i j none none ne)
]

share_from-handle :
    (h : Heap) (i j : ℕ)
    → i < length h.handles
    → handle h i ≡ none
    → handle (share_from i j h) i ≡ handle h j
unfolding share_from
share_from-handle h i j lt gone = elim (Option-cases (handle h j)) [
  | inl e ↦ rw (e, share_from) gone
  | inr (p, e) ↦ rw (e, share_from) (get_or-set_self h.handles i (some p) none lt)
]

-- An assignment leaves the pointer with what the other one holds, but a pointer that is assigned to
-- itself is left empty: its `drop` comes first.
pub assign-handle :
    (h : Heap) (i j : ℕ)
    → i < length h.handles
    → handle (assign i j h) i ≡ (if i == j then none else handle h j)
unfolding assign
assign-handle h i j lt =
    let (gone, size) = drop_ref-handle h i in
    let shared = share_from-handle (drop_ref i h) i j (omega arith) gone in
    elim (Bool-cases (i == j)) [
      | inl y ↦ shared ∙ rw y (subst (λ k. handle (drop_ref i h) k ≡ none) (ground arith) gone)
      | inr n ↦ shared ∙ rw n (drop_ref-other h i j (λ e. ground arith))
    ]
