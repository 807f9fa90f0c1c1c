-- ===== src/HashRing/Successor.antt =====
-- Which node of include/mola/consistent_hashing.hpp a hash belongs to, and what a new node changes.
use elastic_actor.Prelude.{
  ℕ, ◌<◌, ◌≤◌, ◌≡◌, ◌∙◌, ◌⊎◌, refl, sym, ap, inl, inr, List, [], ◌∷◌, some, false, true, arith, ltb,
  leb, ◌==◌, if◌then◌else◌, Bool-cases, Option-cases,
}
use elastic_actor.HashRing.{insert_node, lower_bound, begin_of, find_on_ring}

module _ {T : Type 0} where
  -- Every hash is above `k`.
  abbrev pub Above : ℕ → List (ℕ × T) → Type 0
  Above k [] = Unit {0}
  Above k ((j, x) ∷ m) = (k < j) × Above k m

  abbrev pub Ascending : List (ℕ × T) → Type 0
  Ascending [] = Unit {0}
  Ascending ((k, x) ∷ m) = Above k m × Ascending m

  Above-insert :
      (k h : ℕ) (t : T) (m : List (ℕ × T)) → k < h → Above k m → Above k (insert_node h t m)
  unfolding insert_node
  Above-insert k h t [] lt a = (lt, tt)
  Above-insert k h t ((j, x) ∷ m) lt (b, a) = elim (Bool-cases (ltb h j)) [
    | inl before ↦ rw before (lt, (b, a))
    | inr other ↦ elim (Bool-cases (h == j)) [
      | inl there ↦ rw (other, there) (b, a)
      | inr after ↦ rw (other, after) (b, Above-insert k h t m lt a)
    ]
  ]

  Above-lt : (k h : ℕ) (m : List (ℕ × T)) → h ≤ k → Above k m → Above h m
  Above-lt k h [] le a = tt
  Above-lt k h ((j, x) ∷ m) le (b, a) = (omega arith, Above-lt k h m le a)

  insert_node-Ascending :
      (h : ℕ) (t : T) (m : List (ℕ × T)) → Ascending m → Ascending (insert_node h t m)
  unfolding insert_node
  insert_node-Ascending h t [] a = (tt, tt)
  insert_node-Ascending h t ((k, x) ∷ m) (above, a) = elim (Bool-cases (ltb h k)) [
    | inl before ↦ rw before ((ground arith, Above-lt k h m (ground arith) above), (above, a))
    | inr other ↦ elim (Bool-cases (h == k)) [
      | inl there ↦ rw (other, there) (above, a)
      | inr after ↦
          rw (other, after)
            (Above-insert k h t m (ground arith) above, insert_node-Ascending h t m a)
    ]
  ]

  lower_bound-insert :
      (hash h : ℕ) (t : T) (m : List (ℕ × T))
      → (lower_bound hash (insert_node h t m) ≡ some (h, t))
        ⊎ (lower_bound hash (insert_node h t m) ≡ lower_bound hash m)
  unfolding lower_bound insert_node
  lower_bound-insert hash h t [] = elim (Bool-cases (leb hash h)) [
    | inl y ↦ inl (rw y refl)
    | inr n ↦ inr (rw n refl)
  ]
  lower_bound-insert hash h t ((k, x) ∷ m) = elim (Bool-cases (ltb h k)) [
    | inl before ↦ elim (Bool-cases (leb hash h)) [
      | inl y ↦ inl (rw (before, y) refl)
      | inr n ↦ inr (rw (before, n) refl)
    ]
    | inr other ↦ elim (Bool-cases (h == k)) [
      | inl there ↦ inr (rw (other, there) refl)
      | inr after ↦ elim (lower_bound-insert hash h t m) [
        | inl new ↦ elim (Bool-cases (leb hash k)) [
          | inl y ↦ inr (rw (other, after, y) refl)
          | inr n ↦ inl (rw (other, after, n) new)
        ]
        | inr old ↦ inr (rw (other, after) (ap (λ r. if leb hash k then some (k, x) else r) old))
      ]
    ]
  ]

  begin_of-insert :
      (h : ℕ) (t : T) (m : List (ℕ × T))
      → (begin_of (insert_node h t m) ≡ some (h, t)) ⊎ (begin_of (insert_node h t m) ≡ begin_of m)
  unfolding insert_node
  begin_of-insert h t [] = inl refl
  begin_of-insert h t ((k, x) ∷ m) = elim (Bool-cases (ltb h k)) [
    | inl before ↦ inl (rw before refl)
    | inr other ↦ elim (Bool-cases (h == k)) [
      | inl there ↦ inr (rw (other, there) refl)
      | inr after ↦ inr (rw (other, after) refl)
    ]
  ]

  find_on_ring-at :
      (hash : ℕ) (e : ℕ × T) (m : List (ℕ × T))
      → lower_bound hash m ≡ some e
      → find_on_ring hash m ≡ some e
  unfolding find_on_ring
  find_on_ring-at hash e m there = rw (there, find_on_ring) refl

  -- No node of the ring has a hash from `hash` to `h`.
  abbrev pub NoneBetween : ℕ → ℕ → List (ℕ × T) → Type 0
  NoneBetween hash h [] = Unit {0}
  NoneBetween hash h ((k, x) ∷ m) = ((k < hash) ⊎ (h < k)) × NoneBetween hash h m

  lower_bound-new :
      (hash h : ℕ) (t : T) (m : List (ℕ × T))
      → hash ≤ h
      → NoneBetween hash h m
      → lower_bound hash (insert_node h t m) ≡ some (h, t)
  unfolding lower_bound insert_node
  lower_bound-new hash h t [] le n = ground arith
  lower_bound-new hash h t ((k, x) ∷ m) le (inl below, n) =
      let other : ltb h k ≡ false = ground (arith, below) in
      let after : (h == k) ≡ false = ground (arith, below) in
      let passed : leb hash k ≡ false = ground (arith, below) in
      rw (other, after, passed) (lower_bound-new hash h t m le n)
  lower_bound-new hash h t ((k, x) ∷ m) le (inr above, n) =
      let before : ltb h k ≡ true = ground (arith, above) in
      let here : leb hash h ≡ true = ground (arith, le) in rw (before, here) refl

  -- A node that joins an ascending ring takes over each hash up to its own from which on no other node
  -- comes before it; every hash that it does not take stays with the node that had it, and the ring
  -- stays ascending.
  pub find_on_ring-insert :
      (hash h : ℕ) (t : T) (m : List (ℕ × T))
      → Ascending m
      → (hash ≤ h → NoneBetween hash h m → find_on_ring hash (insert_node h t m) ≡ some (h, t))
        × ((find_on_ring hash (insert_node h t m) ≡ some (h, t))
            ⊎ (find_on_ring hash (insert_node h t m) ≡ find_on_ring hash m))
        × Ascending (insert_node h t m)
  unfolding find_on_ring
  find_on_ring-insert hash h t m a = (
    λ le n. find_on_ring-at hash (h, t) (insert_node h t m) (lower_bound-new hash h t m le n),
    elim (lower_bound-insert hash h t m) [
      | inl new ↦ inl (find_on_ring-at hash (h, t) (insert_node h t m) new)
      | inr old ↦ elim (Option-cases (lower_bound hash m)) [
        | inr (e, there) ↦ inr (
            find_on_ring-at hash e (insert_node h t m) (old ∙ there)
            ∙ sym (find_on_ring-at hash e m there))
        | inl none_above ↦
            let wraps : find_on_ring hash m ≡ begin_of m = rw (none_above, find_on_ring) refl in
            let still : find_on_ring hash (insert_node h t m) ≡ begin_of (insert_node h t m) =
              rw (old ∙ none_above, find_on_ring) refl in
            elim (begin_of-insert h t m) [
              | inl new ↦ inl (still ∙ new)
              | inr same ↦ inr (still ∙ same ∙ sym wraps)
            ]
      ]
    ],
    insert_node-Ascending h t m a,
  )
