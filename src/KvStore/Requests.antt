-- ===== src/KvStore/Requests.antt =====
-- The requests of KV-Store/app/HashTable/HashTable.c on the whole table.
use elastic_actor.Prelude.{
  ℕ, zero, suc, ◌<◌, ◌≤◌, ◌≡◌, ◌∙◌, refl, ap, sym, inl, inr, true, false, List, [], ◌∷◌, ◌++◌,
  Option, none, some, arith, ◌==◌, Bool-cases, length, get_or, set, take, length-append, length-set,
  get_or-set_self,
}
use elastic_actor.KvStore.{
  Bucket, Vector, Table, empty_vector, init_table, index, has_key, find_bucket, get, replace, grow,
  set_vector, set_request,
}
use elastic_actor.KvStore.Table.{
  same_key, same_bytes_refl, has_key-other, Replaced, absent, found, replace-Replaced,
}

find_bucket-append :
    (k : List ℕ) (n : ℕ) (bs : List Bucket) (b : Bucket)
    → find_bucket k n bs ≡ none
    → has_key k n b ≡ true
    → find_bucket k n (bs ++ (b ∷ [])) ≡ some b
unfolding find_bucket
find_bucket-append k n [] b e h = rw h refl
find_bucket-append k n (c ∷ bs) b e h = elim (Bool-cases (has_key k n c)) [
  | inl y ↦ ground arith
  | inr other ↦ rw other (find_bucket-append k n bs b (ground arith) h)
]

find_bucket-append_other :
    (k : List ℕ) (n : ℕ) (bs : List Bucket) (b : Bucket)
    → has_key k n b ≡ false
    → find_bucket k n (bs ++ (b ∷ [])) ≡ find_bucket k n bs
unfolding find_bucket
find_bucket-append_other k n [] b h = rw h refl
find_bucket-append_other k n (c ∷ bs) b h = rw (find_bucket-append_other k n bs b h) refl

no_buckets : (bs : List Bucket) → length bs ≡ 0 → bs ≡ []
no_buckets [] e = refl
no_buckets (b ∷ bs) e = ground arith

-- A vector without an array is empty, and an array has room for its buckets.
pub record Sound (v : Vector) : Type 0 where
  pub null_empty : v.is_null ≡ true → v.bk ≡ []
  pub in_array : v.is_null ≡ false → (length v.bk ≤ v.cap) × (0 < v.cap)

-- `grow` keeps the buckets and makes room for one more.
record Grown (v w : Vector) : Type 0 where
  kept : w.bk ≡ v.bk
  room : length w.bk < w.cap
  made : w.is_null ≡ false

grow-Grown : (v : Vector) → Sound v → Grown v (grow v)
unfolding grow
grow-Grown v s = elim (Bool-cases v.is_null) [
  | inl y ↦ rw y (record { kept = sym (s.null_empty y); room = omega arith; made = refl })
  | inr n ↦ elim (Bool-cases (length v.bk == v.cap)) [
    | inl full ↦
        rw (n, full) (record { kept = refl; room = omega (arith, s.in_array n); made = refl })
    | inr free ↦
        rw (n, free) (record { kept = refl; room = ground (arith, s.in_array n); made = refl })
  ]
]

-- What a request that writes does to the vector of its key: the key has the new value, no other key
-- is touched, and the vector is still within its array.
pub record Wrote (k : List ℕ) (n v m : ℕ) (before after : Vector) : Type 0 where
  pub bucket : Bucket
  pub found : find_bucket k n after.bk ≡ some bucket
  pub value : bucket.value ≡ v
  pub size : bucket.vsize ≡ m
  pub others :
      (k' : List ℕ) (n' : ℕ)
      → same_key k n k' n' ≡ false
      → find_bucket k' n' after.bk ≡ find_bucket k' n' before.bk
  pub sound : Sound after

module _ (k : List ℕ) (n v m : ℕ) (vec : Vector) (s : Sound vec) where
  new_bucket : Bucket
  new_bucket = record { key = k; value = v; ksize = n; vsize = m }

  has_new : has_key k n new_bucket ≡ true
  unfolding new_bucket
  has_new = ground (arith, same_bytes_refl (take n k))

  Replaced-Wrote :
      (r : Option (ℕ × List Bucket))
      → replace k n v m vec.bk ≡ r
      → Replaced k n v m vec.bk r
      → Wrote k n v m vec (set_vector k n v m vec).1
  unfolding set_vector new_bucket
  Replaced-Wrote (some (old, bs)) e (found b here value size others count) =
      rw (e, set_vector)
        (record {
          bucket = b;
          found = here;
          value = value;
          size = size;
          others = others;
          sound = record {
            null_empty = λ y. no_buckets bs (omega (arith, count, ap length (s.null_empty y)));
            in_array = λ no. (omega (arith, count, s.in_array no), (s.in_array no).1);
          };
        })
  Replaced-Wrote none e (absent none_here) =
      let g = grow-Grown vec s in
      rw (e, set_vector)
        (record {
          bucket = new_bucket;
          found = rw g.kept (find_bucket-append k n vec.bk new_bucket none_here has_new);
          value = refl;
          size = refl;
          others = λ k' n' d. rw g.kept (
              find_bucket-append_other k' n' vec.bk new_bucket
                (has_key-other k n k' n' new_bucket has_new d));
          sound = record {
            null_empty = λ y. absurd (ground (arith, g.made));
            in_array = λ no. omega (arith, g.room, length-append (grow vec).bk (new_bucket ∷ []));
          };
        })

  set_vector-Wrote : Wrote k n v m vec (set_vector k n v m vec).1
  set_vector-Wrote = Replaced-Wrote (replace k n v m vec.bk) refl (replace-Replaced k n v m vec.bk)

-- The table has a vector for every index that a hash key can have.
pub record IsStore (t : Table) : Type 0 where
  pub size : length t ≡ 1
  pub sound : (i : ℕ) → Sound (get_or t i empty_vector)

empty-Sound : Sound empty_vector
empty-Sound = record { null_empty = λ y. refl; in_array = λ no. absurd (ground arith) }

pub init_table-IsStore : IsStore init_table
unfolding init_table
init_table-IsStore = record { size = refl; sound = all_sound }
  where
    all_sound : (i : ℕ) → Sound (get_or init_table i empty_vector)
    all_sound zero = empty-Sound
    all_sound (suc i) = empty-Sound

index-lt : (hash : ℕ) → index hash ≡ 0
unfolding index
index-lt hash = omega arith

set-Sound :
    (t : Table) (i : ℕ) (w : Vector)
    → Sound w
    → ((j : ℕ) → Sound (get_or t j empty_vector))
    → (j : ℕ) → Sound (get_or (set t i w) j empty_vector)
set-Sound [] i w sw st j = st j
set-Sound (x ∷ t) zero w sw st zero = sw
set-Sound (x ∷ t) zero w sw st (suc j) = st (suc j)
set-Sound (x ∷ t) (suc i) w sw st zero = st zero
set-Sound (x ∷ t) (suc i) w sw st (suc j) = set-Sound t i w sw (λ k. st (suc k)) j

-- After a request that writes a value under a key, a request for that key and hash key reads it with
-- its size; what a request for another key reads is as before, and the table stays sound.
pub set_request-get :
    (k : List ℕ) (n v m hash : ℕ) (t : Table)
    → IsStore t
    → ((b : Bucket) × (get k n hash (set_request k n v m hash t).1 ≡ some b)
        × (b.value ≡ v)
        × (b.vsize ≡ m))
      × ((k' : List ℕ) (n' hash' : ℕ)
          → same_key k n k' n' ≡ false
          → get k' n' hash' (set_request k n v m hash t).1 ≡ get k' n' hash' t)
      × IsStore (set_request k n v m hash t).1
unfolding get set_request
set_request-get k n v m hash t s =
    let vec = get_or t (index hash) empty_vector in
    let w = set_vector-Wrote k n v m vec (s.sound (index hash)) in
    let new = (set_vector k n v m vec).1 in
    let there : get_or (set t (index hash) new) (index hash) empty_vector ≡ new =
      get_or-set_self t (index hash) new empty_vector (omega (arith, index-lt hash, s.size)) in
    (
      (w.bucket, rw there w.found, w.value, w.size),
      λ k' n' hash' d.
          let same_index : index hash' ≡ index hash = index-lt hash' ∙ sym (index-lt hash) in
          rw (same_index, there) (w.others k' n' d),
      record {
        size = length-set t (index hash) new ∙ s.size;
        sound = set-Sound t (index hash) new w.sound s.sound;
      },
    )
