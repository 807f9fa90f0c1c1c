-- ===== src/KvStore/Table.antt =====
-- The store of KV-Store/app/HashTable/HashTable.c as a map: what a request reads after a request that wrote,
-- key by key, in the vector of the key.
use elastic_actor.Prelude.{
  ℕ, suc, ◌≡◌, ◌∙◌, refl, ap, sym, subst, inl, inr, Bool, true, false, ◌&&◌, List, [], ◌∷◌, Option,
  none, some, arith, ◌==◌, Bool-cases, length, take,
}
use elastic_actor.KvStore.{Bucket, same_bytes, memcmp_0, has_key, find_bucket, next_bucket, replace}

-- The two keys are the same bytes.
abbrev pub same_key : List ℕ → ℕ → List ℕ → ℕ → Bool
same_key k n k' n' = n == n' && memcmp_0 n' k k'

same_bytes-eq : (a b : List ℕ) → same_bytes a b ≡ true → a ≡ b
same_bytes-eq [] [] e = refl
same_bytes-eq [] (y ∷ b) e = ground arith
same_bytes-eq (x ∷ a) [] e = ground arith
same_bytes-eq (x ∷ a) (y ∷ b) e = ground (arith, same_bytes-eq a b)

pub same_bytes_refl : (a : List ℕ) → same_bytes a a ≡ true
same_bytes_refl [] = refl
same_bytes_refl (x ∷ a) = ground (arith, same_bytes_refl a)

-- A bucket with one key has another only if they are the same.
pub has_key-other :
    (k : List ℕ) (n : ℕ) (k' : List ℕ) (n' : ℕ) (b : Bucket)
    → has_key k n b ≡ true
    → same_key k n k' n' ≡ false
    → has_key k' n' b ≡ false
has_key-other k n k' n' b h d = elim (Bool-cases (has_key k' n' b)) [
  | inr other ↦ other
  | inl same ↦
      let same_size : n ≡ n' = ground arith in
      let left : take n b.key ≡ take n k = same_bytes-eq (take n b.key) (take n k) (ground arith) in
      let right : take n' b.key ≡ take n' k' =
        same_bytes-eq (take n' b.key) (take n' k') (ground arith) in
      let both : take n' k ≡ take n' k' =
        subst (λ j. take j k ≡ take n' k') same_size
          (sym left ∙ subst (λ j. take j b.key ≡ take n' k') (sym same_size) right) in
      let equal : memcmp_0 n' k k' ≡ true = rw both (same_bytes_refl (take n' k')) in
      ground (arith, equal, same_size)
]

module _ (k : List ℕ) (n v m : ℕ) where
  -- The loop of a request that writes: it finds no bucket with the key, or it leaves one with the new
  -- value, and no other key's bucket is touched.
  pub data Replaced (bs : List Bucket) : Option (ℕ × List Bucket) → Type 0 where
    absent : find_bucket k n bs ≡ none → Replaced bs none
    found :
        {old : ℕ} {bs' : List Bucket} (b : Bucket)
        → find_bucket k n bs' ≡ some b
        → b.value ≡ v
        → b.vsize ≡ m
        → ((k' : List ℕ) (n' : ℕ)
            → same_key k n k' n' ≡ false
            → find_bucket k' n' bs' ≡ find_bucket k' n' bs)
        → length bs' ≡ length bs
        → Replaced bs (some (old, bs'))

  Replaced-next :
      (b : Bucket) (bs : List Bucket) (r : Option (ℕ × List Bucket))
      → has_key k n b ≡ false
      → Replaced bs r
      → Replaced (b ∷ bs) (next_bucket b r)
  unfolding find_bucket
  Replaced-next b bs none other (absent e) = absent (rw other e)
  Replaced-next b bs (some (old, bs')) other (found b' e value size same count) =
      found b' (rw other e) value size (λ k' n' d. rw (same k' n' d) refl) (ap suc count)

  pub replace-Replaced : (bs : List Bucket) → Replaced bs (replace k n v m bs)
  unfolding replace find_bucket
  replace-Replaced [] = absent refl
  replace-Replaced (b ∷ bs) = elim (Bool-cases (has_key k n b)) [
    | inl y ↦
        rw (y, replace)
          (found (record b { vsize = m; value = v }) (rw y refl) refl refl
            (λ k' n' d. rw (has_key-other k n k' n' b y d) refl) refl)
    | inr other ↦
        rw (other, replace) (Replaced-next b bs (replace k n v m bs) other (replace-Replaced bs))
  ]
