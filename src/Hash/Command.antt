-- ===== src/Hash/Command.antt =====
-- `parseAndProcRecvCmd` of KV-Store/app/Hash/Hash.c: the commands of a client. The text is the list of
-- the bytes from `recv_buf` on; a read behind them is a fault.
use elastic_actor.Prelude.{
  ℕ, zero, suc, ◌+◌, ◌-◌, ◌*◌, ◌%◌, ◌^◌, Bool, false, ◌&&◌, List, [], ◌∷◌, Option, none, some, ltb,
  leb, ◌==◌, if◌then◌else◌, length, get_or, take,
}
use elastic_actor.Hash.{jenkins_hash}
use elastic_actor.KvStore.{n_instance_power}

-- `SetReq` and `GetReq`, with the instance that `SendMsgToInst` sends them to; a key and a value are
-- the bytes that `malloc` and `memcpy` make a copy of.
pub data Request : Type 0 where
  set_req : (id : ℕ) (key value : List ℕ) (ksize vsize hash_key : ℕ) → Request
  get_req : (id : ℕ) (key : List ℕ) (ksize hash_key : ℕ) → Request

pub data Parsed : Type 0 where
  sent : Request → Parsed
  null_buffer ignored exited fault : Parsed

-- `0 == strncmp(p, "xyz", 3)` at a text that ends with a NUL.
abbrev pub starts_with : ℕ → ℕ → ℕ → List ℕ → Bool
starts_with a b c (x ∷ y ∷ z ∷ l) = x == a && y == b && z == c
starts_with a b c _ = false

-- `p + n`
abbrev pub advance : ℕ → List ℕ → Option (List ℕ)
advance zero l = some l
advance (suc n) [] = none
advance (suc n) (x ∷ l) = advance n l

-- `strlen`, and the distance to the byte that `strchr` finds: `some none` is NULL.
unfoldable pub strlen : List ℕ → Option ℕ
strlen [] = none
strlen (x ∷ l) =
    let rest = strlen l in
    if x == 0 then some 0 else elim rest [ none ↦ none | some n ↦ some (suc n) ]

abbrev farther : Option (Option ℕ) → Option (Option ℕ)
farther none = none
farther (some none) = some none
farther (some (some n)) = some (some (suc n))

unfoldable pub strchr : ℕ → List ℕ → Option (Option ℕ)
strchr c [] = none
strchr c (x ∷ l) =
    let rest = strchr c l in
    if x == c then some (some 0) else if x == 0 then some none else farther rest

abbrev pub is_digit : ℕ → Bool
is_digit x = leb 48 x && leb x 57

-- `atoi` at digits, which stops at the first other byte.
unfoldable pub atoi : ℕ → List ℕ → ℕ
atoi acc [] = acc
atoi acc (x ∷ l) = let rest = atoi (acc * 10 + (x - 48)) l in if is_digit x then rest else acc

-- The hash of a copy of the key, and the instance: `(node_id<<16) | (hv & KEY_RANGE_MASK)` for node 0.
unfoldable pub hash_of : List ℕ → ℕ
hash_of key = jenkins_hash (λ i. get_or key i 0) 0 (length key)

unfoldable pub instance_of : ℕ → ℕ
instance_of hv = hv % 2 ^ n_instance_power

-- The branch for `set`, from behind "set ".
unfoldable pub parse_set : List ℕ → Parsed
unfolding strlen atoi
parse_set p = elim (strlen p) [
  | none ↦ fault
  | some ksize ↦ elim (advance (ksize + 5) p) [
    | none ↦ fault
    | some q ↦
        let vsize = atoi 0 q in
        let key = take ksize p in
        let hv = hash_of key in
        elim (advance 3 q) [
          | none ↦ fault
          | some r ↦
              if ltb (length r) vsize
              then fault
              else sent (set_req (instance_of hv) key (take vsize r) ksize vsize hv)
        ]
  ]
]

-- The branch for `get`, from behind "get ".
unfoldable pub parse_get : List ℕ → Parsed
unfolding strchr
parse_get p = elim (strchr 13 p) [
  | none ↦ fault
  | some none ↦ exited
  | some (some ksize) ↦
      let key = take ksize p in let hv = hash_of key in sent (get_req (instance_of hv) key ksize hv)
]

-- `parseAndProcRecvCmd`
unfoldable pub parse : Option (List ℕ) → Parsed
unfolding parse_set parse_get
parse none = null_buffer
parse (some l) =
    if starts_with b's' b'e' b't' l
    then elim (advance 4 l) [ none ↦ fault | some p ↦ parse_set p ]
    else if starts_with b'g' b'e' b't' l
    then elim (advance 4 l) [ none ↦ fault | some p ↦ parse_get p ]
    else ignored
