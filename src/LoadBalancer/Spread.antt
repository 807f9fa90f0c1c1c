-- ===== src/LoadBalancer/Spread.antt =====
-- How `scatter_to_nodes` of include/mola/load_balancer.hpp spreads a group that is larger than the
-- set of candidates.
use elastic_actor.Prelude.{
  ℕ, zero, suc, ◌+◌, ◌*◌, ◌/◌, ◌%◌, ◌^◌, ◌<◌, ◌≤◌, ◌≡◌, ◌≢◌, List, [], ◌∷◌, Option, some, length,
  get_elem?, inc32, Bool-cases, leb, leb→le, inl, inr, false, arith, ap, ◌∙◌, sym, ◌-◌,
}
use elastic_actor.LoadBalancer.{random, at, in_turn, choose}
use native.Mathlib.Nat.{div-add-mod, mul-le-mul_left, mod-lt}

not_after : (size q q' r k : ℕ) → 0 < k → k < size → (size * q + r) + k ≢ size * q' + r
not_after size q q' r k some_apart near same = elim (Bool-cases (leb q' q)) [
  | inl before ↦ let p = mul-le-mul_left size (leb→le q' q before) in omega arith
  | inr after ↦ let p = mul-le-mul_left size (later after) in omega arith
]
  where
    later : leb q' q ≡ false → suc q ≤ q'
    later h = ground arith

-- Numbers that are less than `size` apart have different remainders.
near_differ : (size x k : ℕ) → 0 < k → k < size → x % size ≢ (x + k) % size
near_differ size x k some_apart near same =
    let e = div-add-mod x size in
    let e' = div-add-mod (x + k) size in
    not_after size (x / size) ((x + k) / size) (x % size) k some_apart near (omega arith)

module _ {N M : Type 0} (candidates : List N) where
  -- The node of the message `i`, when the counter does not wrap around.
  in_turn-at :
      (r : ℕ) (group : List M) (i : ℕ) (o : Option N) (m : M)
      → r + length group ≤ 2 ^ 32
      → get_elem? (in_turn candidates r group) i ≡ some (o, m)
      → o ≡ at candidates ((r + i) % length candidates)
  unfolding in_turn
  in_turn-at r [] i o m fits found = absurd (ground arith)
  in_turn-at r (m' ∷ group) zero o m fits found = ground arith
  in_turn-at r (m' ∷ []) (suc i) o m fits found = absurd (ground arith)
  in_turn-at r (m' ∷ m'' ∷ group) (suc i) o m fits found =
      let next : inc32 r ≡ r + 1 = omega arith in
      in_turn-at (inc32 r) (m'' ∷ group) i o m (omega arith) found
      ∙ ap (λ x. at candidates (x % length candidates)) (omega arith)

  -- Of as many messages in a row as there are candidates no two go to the same one, when a group is
  -- larger than the set and the counter that starts at the random number does not wrap around.
  pub choose-apart :
      (seed : ℕ) (group : List M) (i j : ℕ) (o o' : Option N) (m m' : M)
      → ((a b : ℕ)
          → a < length candidates
          → b < length candidates
          → at candidates a ≡ at candidates b
          → a ≡ b)
      → length candidates < length group
      → random seed + length group ≤ 2 ^ 32
      → i < j
      → j < i + length candidates
      → get_elem? (choose candidates seed group) i ≡ some (o, m)
      → get_elem? (choose candidates seed group) j ≡ some (o', m')
      → o ≢ o'
  unfolding choose
  choose-apart seed group i j o o' m m' distinct large fits before near found found' same =
      let r = random seed in
      let size = length candidates in
      let turns : choose candidates seed group ≡ in_turn candidates r group = ground arith in
      let at_i = in_turn-at r group i o m fits (ap (λ g. get_elem? g i) (sym turns) ∙ found) in
      let at_j = in_turn-at r group j o' m' fits (ap (λ g. get_elem? g j) (sym turns) ∙ found') in
      let e : ((r + i) + (j - i)) ≡ r + j = omega arith in
      near_differ size (r + i) (j - i) (omega arith) (omega arith) (
        distinct ((r + i) % size) ((r + j) % size) (mod-lt (r + i) (omega arith))
          (mod-lt (r + j) (omega arith)) (sym at_i ∙ same ∙ at_j)
        ∙ ap (λ x. x % size) (sym e))
