-- ===== src/KvStore.antt =====
-- KV-Store/app/HashTable/HashTable.c: the store of one instance of the module, a table of vectors of
-- buckets. A value is the address of its bytes, and 0 is NULL; the bytes of a key are a list. The mask
-- `& (2^16 - 1)` is written as a remainder, and `malloc` and `realloc` do not fail.
pub mod Table
pub mod Requests
mod Tests
use elastic_actor.Prelude.{
  ℕ, zero, suc, ◌+◌, ◌-◌, ◌*◌, ◌/◌, ◌%◌, ◌^◌, Bool, true, false, ◌&&◌, List, [], ◌∷◌, ◌++◌, Option,
  none, some, ◌==◌, if◌then◌else◌, length, get_or, set, take, replicate,
}

-- `N_ACTOR_POWER`, `N_INSTANCE_POWER` and `VECTOR_CAP`
abbrev pub n_actor_power : ℕ
n_actor_power = 16

abbrev pub n_instance_power : ℕ
n_instance_power = 16

abbrev pub vector_cap : ℕ
vector_cap = 4

pub record Bucket : Type 0 where
  pub key : List ℕ
  pub value : ℕ
  pub ksize : ℕ
  pub vsize : ℕ

-- `bk` is the first `size` buckets of the array, and `is_null` tells that there is no array.
pub record Vector : Type 0 where
  pub is_null : Bool
  pub bk : List Bucket
  pub cap : ℕ

abbrev pub Table : Type 0
Table = List Vector

abbrev pub empty_vector : Vector
empty_vector = record { is_null = true; bk = []; cap = 0 }

-- `HashTable_init`
unfoldable pub init_table : Table
init_table = replicate (2 ^ (n_actor_power - n_instance_power)) empty_vector

-- The index of a hash key in `vec`.
unfoldable pub index : ℕ → ℕ
index hash = hash % 2 ^ n_actor_power / 2 ^ n_instance_power

-- `memcmp(a, b, n) == 0`
abbrev pub same_bytes : List ℕ → List ℕ → Bool
same_bytes [] [] = true
same_bytes (x ∷ xs) (y ∷ ys) = x == y && same_bytes xs ys
same_bytes _ _ = false

abbrev pub memcmp_0 : ℕ → List ℕ → List ℕ → Bool
memcmp_0 n a b = same_bytes (take n a) (take n b)

-- The test of both loops on a bucket.
abbrev pub has_key : List ℕ → ℕ → Bucket → Bool
has_key key ksize b = b.ksize == ksize && memcmp_0 ksize b.key key

-- The loop of `OnGetReq`.
unfoldable pub find_bucket : List ℕ → ℕ → List Bucket → Option Bucket
find_bucket key ksize [] = none
find_bucket key ksize (b ∷ bs) = if has_key key ksize b then some b else find_bucket key ksize bs

-- `OnGetReq`: the bucket that the reply is filled from, or the reply with two NULLs.
unfoldable pub get : List ℕ → ℕ → ℕ → Table → Option Bucket
get key ksize hash vec = find_bucket key ksize (get_or vec (index hash) empty_vector).bk

abbrev pub next_bucket : Bucket → Option (ℕ × List Bucket) → Option (ℕ × List Bucket)
next_bucket b none = none
next_bucket b (some (old, bs)) = some (old, b ∷ bs)

-- The loop of `OnSetReq`: the vector with the value replaced and the value that is freed.
unfoldable pub replace : List ℕ → ℕ → ℕ → ℕ → List Bucket → Option (ℕ × List Bucket)
replace key ksize value vsize [] = none
replace key ksize value vsize (b ∷ bs) =
    let rest = replace key ksize value vsize bs in
    if has_key key ksize b
    then some (b.value, record b { vsize = vsize; value = value } ∷ bs)
    else next_bucket b rest

-- What `OnSetReq` does for a key that is not there: the array is made, or made larger.
unfoldable pub grow : Vector → Vector
grow v =
    let v' : Vector =
      if v.is_null then record { is_null = false; bk = []; cap = vector_cap } else v in
    if length v'.bk == v'.cap then record v' { cap = v'.cap * 2 } else v'

unfoldable pub set_vector : List ℕ → ℕ → ℕ → ℕ → Vector → ℕ × Vector
set_vector key ksize value vsize v = elim (replace key ksize value vsize v.bk) [
  | some (old, bs) ↦ (old, record v { bk = bs })
  | none ↦
      let v' = grow v in
      (
        0,
        record v' {
          bk = v'.bk ++ (record { key = key; value = value; ksize = ksize; vsize = vsize } ∷ []);
        },
      )
]

-- `OnSetReq`: the address that is freed, if it is not NULL, and the table.
unfoldable pub set_request : List ℕ → ℕ → ℕ → ℕ → ℕ → Table → ℕ × Table
set_request key ksize value vsize hash vec =
    let (old, v) = set_vector key ksize value vsize (get_or vec (index hash) empty_vector) in
    (old, set vec (index hash) v)
