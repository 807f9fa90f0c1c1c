-- ===== src/Mailbox/Close.antt =====
-- `close` of include/mola/mailbox.hpp: what it frees, and what it does with the shared nodes.
use elastic_actor.Prelude.{
  ℕ, zero, suc, ◌+◌, ◌-◌, ◌<◌, ◌≤◌, ◌==◌, ◌≡◌, ==_refl, ap, List-cases, Bool-cases, length-append,
  inl, inr, ◌↔◌, refl, Bool, true, false, List, [], ◌∷◌, ◌++◌, Option, none, some, arith, length,
  get_or, set, ltb, if◌then◌else◌,
}
use elastic_actor.Mailbox.{
  failure, empty, blocked, closed, Stack, dummy, chain, Ptr, mark, same, links, Item, Mailbox, top,
  cas, enqueue,
}

-- What the cleaning up of `close` has freed, and whether it then read a node that it had freed.
pub record Cleaned {ℓ} (A : Type ℓ) : Type ℓ where
  pub freed : List A
  pub headers : List (List A)
  pub read_freed : Bool

module _ {ℓ} {A : Type ℓ} where
  -- `for (; m_lastp < NP; ++m_lastp)`: one node of each private queue, the first.
  pub free_private : ℕ → ℕ → List (List A) → List A × List (List A)
  free_private zero lastp hs = ([], hs)
  free_private (suc k) lastp hs = elim (get_or hs lastp []) [
    | [] ↦ free_private k (lastp + 1) hs
    | x ∷ rest ↦
        let (freed, hs') = free_private k (lastp + 1) (set hs lastp rest) in (x ∷ freed, hs')
  ]

module _ {ℓ} {A : Type ℓ} ⦃i : Item A⦄ where
  unfoldable pub is_freed : ℕ → List A → Bool
  is_freed a [] = false
  is_freed a (x ∷ freed) = let rest = is_freed a freed in if i.addr x == a then true else rest

  -- `while (e->next != nullptr) { cur = e; e = cur->next; delete e; }` at the node `e`, with the nodes
  -- behind it and those that the loop has deleted: the nodes deleted in the end, and whether a test
  -- has read the link of a deleted node, where the behaviour is undefined and the loop is left.
  unfoldable pub free_loop : A → List A → List A → List A × Bool
  unfolding is_freed
  free_loop e [] freed = (freed, is_freed (i.addr e) freed)
  free_loop e (y ∷ ys) freed =
      let rest = free_loop y ys (y ∷ freed) in
      if is_freed (i.addr e) freed then (freed, true) else rest

  unfoldable pub free_shared : Stack A → List A × Bool
  unfolding free_loop
  free_shared (dummy d) = ([], false)
  free_shared (chain x xs) = free_loop x xs []

  -- The part of `close` behind the exchange, with the stack that the exchange took.
  pub clean : ℕ → Stack A → Mailbox A → Cleaned A
  unfolding free_private free_shared
  clean np st m =
      let (private_freed, hs) =
        if ltb 0 m.num_inque
        then free_private (np - m.lastp) m.lastp m.headers
        else ([], m.headers) in
      let (shared_freed, bad) = free_shared st in
      record { freed = private_freed ++ shared_freed; headers = hs; read_freed = bad }

  -- One iteration of the loop of `close` with the loaded pointer `e`; `none` loads again.
  pub close_try : ℕ → Ptr → Mailbox A → Option (Mailbox A × Cleaned A)
  unfolding clean
  close_try np e m =
      if same e (mark closed)
      then some (m, clean np (dummy closed) m)
      else elim (cas m e (dummy closed)) [ none ↦ none | some m' ↦ some (m', clean np m.stack m') ]

  -- The loop when no other thread runs between the load and the exchange.
  unfoldable pub close : ℕ → Mailbox A → Option (Mailbox A × Cleaned A)
  unfolding close_try
  close np m = close_try np (top m.stack) m

  -- On a closed mailbox `enqueue` answers MAILBOX_FAILURE at once and leaves it as it is.
  pub enqueue-closed :
      (x : A) (m : Mailbox A) → m.stack ≡ dummy closed → enqueue x m ≡ some (failure, m)
  unfolding enqueue
  enqueue-closed x m h = ground arith

  close-shuts :
      (np : ℕ) (m : Mailbox A) (st : Stack A)
      → m.stack ≡ st
      → close np m ≡ some (record m { stack = dummy closed }, clean np m.stack m)
  unfolding close
  close-shuts np m (dummy empty) q = ground arith
  close-shuts np m (dummy blocked) q = ground arith
  close-shuts np m (dummy closed) q = ground arith
  close-shuts np m (chain x xs) q = ground arith

  pub close-ends :
      (np : ℕ) (m : Mailbox A)
      → close np m ≡ some (record m { stack = dummy closed }, clean np m.stack m)
  close-ends np m = close-shuts np m m.stack refl

  is_freed-first : (x : A) (freed : List A) → is_freed (i.addr x) (x ∷ freed) ≡ true
  unfolding is_freed
  is_freed-first x freed = rw (==_refl (i.addr x)) refl

  -- A loop that stands at a node that it has deleted reads it.
  free_loop-reads : (y : A) (ys : List A) → free_loop y ys (y ∷ []) ≡ (y ∷ [], true)
  unfolding free_loop
  free_loop-reads y [] = ap (λ b. (y ∷ [], b)) (is_freed-first y [])
  free_loop-reads y (z ∷ zs) = rw (is_freed-first y []) refl

  free_shared-two : (x y : A) (ys : List A) → free_shared (chain x (y ∷ ys)) ≡ (y ∷ [], true)
  unfolding free_shared free_loop is_freed
  free_shared-two x y ys = free_loop-reads y ys

  pub free_shared-reads : (st : Stack A) → ((free_shared st).1 ≡ true) ↔ (1 < length (links st))
  unfolding free_shared free_loop is_freed
  free_shared-reads (dummy d) = ground arith
  free_shared-reads (chain x []) = ground arith
  free_shared-reads (chain x (y ∷ ys)) =
      (λ e. omega arith, λ two. ap (λ r. r.1) (free_shared-two x y ys))

  free_shared-none : (st : Stack A) → (free_shared st).1 ≡ false → (free_shared st).0 ≡ []
  unfolding free_shared free_loop is_freed
  free_shared-none (dummy d) e = refl
  free_shared-none (chain x []) e = refl
  free_shared-none (chain x (y ∷ ys)) e =
      absurd (ground (arith, e, ap (λ r. r.1) (free_shared-two x y ys)))

  free_private-few : (k lastp : ℕ) (hs : List (List A)) → length (free_private k lastp hs).0 ≤ k
  unfolding free_private
  free_private-few zero lastp hs = omega arith
  free_private-few (suc k) lastp hs = elim (List-cases (get_or hs lastp [])) [
    | inl e ↦ rw (e, free_private) (omega (arith, free_private-few k (lastp + 1) hs))
    | inr (x, rest, e) ↦
        rw (e, free_private) (omega (arith, free_private-few k (lastp + 1) (set hs lastp rest)))
  ]

  clean-few :
      (np : ℕ) (m : Mailbox A)
      → (clean np m.stack m).read_freed ≡ false
      → length (clean np m.stack m).freed ≤ np - m.lastp
  unfolding clean
  clean-few np m e = rw (free_shared-none m.stack e) (elim (Bool-cases (ltb 0 m.num_inque)) [
    | inl some_left ↦
        let p = (free_private (np - m.lastp) m.lastp m.headers).0 in
        rw some_left
          (omega (arith, length-append p [], free_private-few (np - m.lastp) m.lastp m.headers))
    | inr none_left ↦ rw none_left (omega arith)
  ])

  -- `close` ends in one pass and closes the mailbox, and it reads a node that it has deleted exactly
  -- if two nodes or more are in the shared stack; otherwise it deletes at most one node for each
  -- priority from the last one served on, however many wait.
  pub close-read_freed :
      (np : ℕ) (m : Mailbox A)
      → (c : Cleaned A) × (close np m ≡ some (record m { stack = dummy closed }, c))
        × ((c.read_freed ≡ true) ↔ (1 < length (links m.stack)))
        × (c.read_freed ≡ false → length c.freed ≤ np - m.lastp)
  unfolding clean
  close-read_freed np m =
      (clean np m.stack m, close-shuts np m m.stack refl, free_shared-reads m.stack, clean-few np m)

-- A stack that does not make `close` read a freed node holds one node at most.
pub not_two : (n : ℕ) → ¬ (1 < n) → n ≤ 1
not_two n small = grind arith
