-- ===== src/Mailbox/Drain.antt =====
-- What moving the shared stack into the private queues of include/mola/mailbox.hpp does to each
-- queue, to the number of queued items and to the counter.
use elastic_actor.Prelude.{
  ℕ, zero, suc, ◌+◌, ◌<◌, ◌^◌, ◌≡◌, ◌∙◌, refl, sym, inl, inr, Bool, List, [], ◌∷◌, ◌++◌, reverse,
  arith, length, get_or, set, select, ◌==◌, Bool-cases, ==_iff, get_or-set_self, get_or-set_ne,
  length-set, select-append, reverse-cons, append_assoc, inc32,
}
use elastic_actor.Mailbox.{Item, drain}

-- The items in all private queues.
abbrev pub total {ℓ} : {A : Type ℓ} → List (List A) → ℕ
total [] = 0
total (q ∷ qs) = length q + total qs

module _ {ℓ} {A : Type ℓ} where
  pub get_or-le-total : (hs : List (List A)) (p : ℕ) → total hs ≡ 0 → get_or hs p [] ≡ []
  get_or-le-total [] p h = refl
  get_or-le-total ([] ∷ hs) zero h = refl
  get_or-le-total ([] ∷ hs) (suc p) h = get_or-le-total hs p (omega arith)
  get_or-le-total ((x ∷ q) ∷ hs) p h = absurd (omega arith)

  pub total-set :
      (hs : List (List A)) (p : ℕ) (q : List A)
      → p < length hs
      → total (set hs p q) + length (get_or hs p []) ≡ total hs + length q
  total-set [] p q h = absurd (omega arith)
  total-set (r ∷ hs) zero q h = omega arith
  total-set (r ∷ hs) (suc p) q h = omega (arith, total-set hs p q (omega arith))

module _ {ℓ} {A : Type ℓ} ⦃i : Item A⦄ where
  -- Every item's priority names one of the `np` queues.
  abbrev pub InRange : ℕ → List A → Type 0
  InRange np [] = Unit {0}
  InRange np (x ∷ xs) = (i.priority x < np) × InRange np xs

  abbrev pub at_level : ℕ → A → Bool
  at_level p x = i.priority x == p

  push_level : ℕ → A → List (List A) → List (List A)
  push_level p x hs = set hs (i.priority x) (x ∷ get_or hs (i.priority x) [])

  get_or-push_level :
      (p : ℕ) (x : A) (hs : List (List A))
      → i.priority x < length hs
      → get_or (set hs (i.priority x) (x ∷ get_or hs (i.priority x) [])) p []
        ≡ select (at_level p) (x ∷ []) ++ get_or hs p []
  get_or-push_level p x hs h = elim (Bool-cases (at_level p x)) [
    | inl e ↦
        rw (e, ← (==_iff (i.priority x) p).0 e)
          (get_or-set_self hs (i.priority x) (x ∷ get_or hs (i.priority x) []) [] h)
    | inr e ↦ rw e (get_or-set_ne hs (i.priority x) p _ [] (ground arith))
  ]

  pub length-drain :
      (xs : List A) (hs : List (List A)) (n : ℕ) → length (drain xs hs n).0 ≡ length hs
  unfolding drain
  length-drain [] hs n = refl
  length-drain (x ∷ xs) hs n =
      length-drain xs (set hs (i.priority x) (x ∷ get_or hs (i.priority x) [])) (inc32 n)
      ∙ length-set hs (i.priority x) (x ∷ get_or hs (i.priority x) [])

  -- Each private queue keeps its items, and the taken ones follow, oldest first.
  pub get_or-drain :
      (xs : List A) (hs : List (List A)) (n p : ℕ)
      → InRange (length hs) xs
      → get_or (drain xs hs n).0 p [] ≡ select (at_level p) (reverse xs) ++ get_or hs p []
  unfolding drain
  get_or-drain [] hs n p h = refl
  get_or-drain (x ∷ xs) hs n p h =
      let hs' = set hs (i.priority x) (x ∷ get_or hs (i.priority x) []) in
      get_or-drain xs hs' (inc32 n) p
        (rw (length-set hs (i.priority x) (x ∷ get_or hs (i.priority x) [])) h.1)
      ∙ rw
          (
            get_or-push_level p x hs h.0,
            reverse-cons x xs,
            select-append (at_level p) (reverse xs) (x ∷ []),
          )
          (sym (append_assoc (select (at_level p) (reverse xs)) _ _))

  pub total-drain :
      (xs : List A) (hs : List (List A)) (n : ℕ)
      → InRange (length hs) xs
      → total (drain xs hs n).0 ≡ total hs + length xs
  unfolding drain
  total-drain [] hs n h = omega arith
  total-drain (x ∷ xs) hs n h =
      let q = x ∷ get_or hs (i.priority x) [] in
      omega (
        arith,
        total-drain xs (set hs (i.priority x) q) (inc32 n)
            (rw (length-set hs (i.priority x) q) h.1),
        total-set hs (i.priority x) q h.0,
      )

  pub count-drain :
      (xs : List A) (hs : List (List A)) (n : ℕ)
      → n + length xs < 2 ^ 32
      → (drain xs hs n).1 ≡ n + length xs
  unfolding drain
  count-drain [] hs n h = omega arith
  count-drain (x ∷ xs) hs n h = omega (
    arith,
    count-drain xs (set hs (i.priority x) (x ∷ get_or hs (i.priority x) [])) (inc32 n)
        (omega arith),
  )
