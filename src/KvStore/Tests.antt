-- ===== src/KvStore/Tests.antt =====
-- KV-Store/app/HashTable/HashTable.c at concrete inputs.
use elastic_actor.Prelude.{ℕ, ◌≡◌, false, List, [], ◌∷◌, some}
use elastic_actor.KvStore.{Bucket, init_table, get, set_request}
use elastic_actor.KvStore.Table.{same_key}
use elastic_actor.KvStore.Requests.{IsStore, init_table-IsStore, set_request-get}

abbrev name : List ℕ
name = 97 ∷ 98 ∷ []

set_request-get_example :
    ((b : Bucket) × (get name 2 70000 (set_request name 2 640 5 70000 init_table).1 ≡ some b)
      × (b.value ≡ 640)
      × (b.vsize ≡ 5))
    × ((k' : List ℕ) (n' hash' : ℕ)
        → same_key name 2 k' n' ≡ false
        → get k' n' hash' (set_request name 2 640 5 70000 init_table).1
          ≡ get k' n' hash' init_table)
    × IsStore (set_request name 2 640 5 70000 init_table).1
set_request-get_example = set_request-get name 2 640 5 70000 init_table init_table-IsStore
