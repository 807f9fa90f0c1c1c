-- ===== src/Hash/Tests.antt =====
-- KV-Store/app/Hash/Hash.c at concrete inputs.
use elastic_actor.Prelude.{ℕ, ◌<◌, ◌≡◌, refl, arith, zero, suc, List, [], ◌∷◌, ◌++◌, some, get_or}
use elastic_actor.Hash.{final, mix, jenkins_hash}
use elastic_actor.Hash.Branches.{SameKey, jenkins_hash-same}
use elastic_actor.Hash.Blocks.{IsBytes}
use elastic_actor.Hash.Command.{set_req, get_req, sent, parse}
use elastic_actor.Hash.Requests.{set_text, get_text, parse-set-get}
use elastic_actor.KvStore.{Bucket, init_table, get, set_request}
use elastic_actor.KvStore.Requests.{init_table-IsStore}

-- "Four score and seven years ago", the driver's vector of the hash's author, at an odd address.
abbrev phrase : List ℕ
phrase =
    70 ∷ 111 ∷ 117 ∷ 114 ∷ 32 ∷ 115 ∷ 99 ∷ 111 ∷ 114 ∷ 101 ∷ 32 ∷ 97 ∷ 110 ∷ 100 ∷ 32 ∷ 115 ∷ 101
    ∷ 118 ∷ 101 ∷ 110 ∷ 32 ∷ 121 ∷ 101 ∷ 97 ∷ 114 ∷ 115 ∷ 32 ∷ 97 ∷ 103 ∷ 111 ∷ []

phrase_hash : jenkins_hash (λ i. get_or phrase i 0) 0 30 ≡ 0x17770551
unfolding jenkins_hash final mix
phrase_hash = refl

abbrev AllBytes : List ℕ → Type 0
AllBytes [] = Unit
AllBytes (x ∷ l) = (x < 256) × AllBytes l

bytes_of : (l : List ℕ) → AllBytes l → IsBytes (λ i. get_or l i 0)
bytes_of [] h i = omega arith
bytes_of (x ∷ l) h zero = h.0
bytes_of (x ∷ l) h (suc i) = bytes_of l h.1 i

-- "abc" at an aligned address and at an odd one, with other bytes behind it.
abbrev aligned : List ℕ
aligned = 97 ∷ 98 ∷ 99 ∷ 0 ∷ []

abbrev odd : List ℕ
odd = 5 ∷ 97 ∷ 98 ∷ 99 ∷ 7 ∷ []

same_key : SameKey (λ i. get_or aligned i 0) (λ i. get_or odd i 0) 0 1 3
same_key zero h = refl
same_key (suc zero) h = refl
same_key (suc (suc zero)) h = refl
same_key (suc (suc (suc i))) h = absurd (omega arith)

jenkins_hash-same_example :
    jenkins_hash (λ i. get_or aligned i 0) 0 3 ≡ jenkins_hash (λ i. get_or odd i 0) 1 3
jenkins_hash-same_example =
    jenkins_hash-same (λ i. get_or aligned i 0) (λ i. get_or odd i 0) 0 1 3
      (bytes_of aligned (omega arith)) (bytes_of odd (omega arith)) same_key

abbrev name : List ℕ
name = 97 ∷ 98 ∷ []

abbrev text : List ℕ
text = 120 ∷ 121 ∷ 122 ∷ []

parse-set-get_example :
    (id hv : ℕ) × (parse (some (set_text name 48 32 48 32 3 13 10 (text ++ (13 ∷ 10 ∷ []))))
      ≡ sent (set_req id name text 2 3 hv))
    × (parse (some (get_text name (10 ∷ []))) ≡ sent (get_req id name 2 hv))
    × ((b : Bucket) × (get name 2 hv (set_request name 2 640 3 hv init_table).1 ≡ some b)
        × (b.value ≡ 640)
        × (b.vsize ≡ 3))
parse-set-get_example =
    parse-set-get name 48 32 48 32 13 10 text (13 ∷ 10 ∷ []) (10 ∷ []) 640 init_table (omega arith)
      (omega arith) refl init_table-IsStore
