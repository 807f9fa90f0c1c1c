-- ===== src/Hash/Requests.antt =====
-- From the text of a command, KV-Store/app/Hash/Hash.c, to the table of an instance,
-- KV-Store/app/HashTable/HashTable.c.
use elastic_actor.Prelude.{
  ℕ, suc, ◌+◌, ◌<◌, ◌≡◌, ◌≢◌, refl, ap, false, List, [], ◌∷◌, ◌++◌, some, arith, ltb, length, take,
  length-append,
}
use elastic_actor.Hash.Command.{
  set_req, get_req, sent, advance, strlen, strchr, is_digit, atoi, hash_of, instance_of, parse_set,
  parse_get, parse,
}
use elastic_actor.KvStore.{Bucket, Table, get, set_request}
use elastic_actor.KvStore.Requests.{IsStore, set_request-get}

-- A key holds no NUL and no carriage return.
abbrev pub IsKey : List ℕ → Type 0
IsKey [] = Unit
IsKey (x ∷ l) = (x ≢ 0) × (x ≢ 13) × IsKey l

take-append : (xs ys : List ℕ) → take (length xs) (xs ++ ys) ≡ xs
take-append [] ys = refl
take-append (x ∷ xs) ys = ap (λ l. x ∷ l) (take-append xs ys)

advance-append :
    (xs ys : List ℕ) (m n : ℕ) → m ≡ length xs + n → advance m (xs ++ ys) ≡ advance n ys
advance-append [] ys m n e = let e' : m ≡ n = omega arith in ap (λ k. advance k ys) e'
advance-append (x ∷ xs) ys m n e =
    let e' : m ≡ suc (length xs + n) = omega arith in
    rw e' (advance-append xs ys (length xs + n) n refl)

strlen-key : (key rest : List ℕ) → IsKey key → strlen (key ++ (0 ∷ rest)) ≡ some (length key)
unfolding strlen
strlen-key [] rest k = refl
strlen-key (x ∷ key) rest k = ground (arith, strlen-key key rest k.2)

strchr-key :
    (key rest : List ℕ) → IsKey key → strchr 13 (key ++ (13 ∷ rest)) ≡ some (some (length key))
unfolding strchr
strchr-key [] rest k = refl
strchr-key (x ∷ key) rest k = ground (arith, strchr-key key rest k.2)

-- "set ", the key and a NUL, four bytes that are skipped, one digit and two bytes that are skipped,
-- and the value.
abbrev pub set_text : List ℕ → ℕ → ℕ → ℕ → ℕ → ℕ → ℕ → ℕ → List ℕ → List ℕ
set_text key g1 g2 g3 g4 digit c1 c2 value =
    b's' ∷ b'e' ∷ b't' ∷ b' ' ∷ (key ++ (0 ∷ g1 ∷ g2 ∷ g3 ∷ g4 ∷ (48 + digit) ∷ c1 ∷ c2 ∷ value))

-- "get ", the key and a carriage return.
abbrev pub get_text : List ℕ → List ℕ → List ℕ
get_text key rest = b'g' ∷ b'e' ∷ b't' ∷ b' ' ∷ (key ++ (13 ∷ rest))

one_digit : (d c1 : ℕ) (l : List ℕ) → d < 10 → is_digit c1 ≡ false → atoi 0 ((48 + d) ∷ c1 ∷ l) ≡ d
unfolding atoi
one_digit d c1 l h other = ground arith

parse_get-text :
    (key rest : List ℕ)
    → IsKey key
    → parse (some (get_text key rest))
      ≡ sent (get_req (instance_of (hash_of key)) key (length key) (hash_of key))
unfolding parse parse_get
parse_get-text key rest k =
    rw (strchr-key key rest k, parse, parse_get, take-append key (13 ∷ rest)) refl

parse_set-text :
    (key : List ℕ) (g1 g2 g3 g4 c1 c2 : ℕ) (value rest : List ℕ)
    → IsKey key
    → length value < 10
    → is_digit c1 ≡ false
    → parse (some (set_text key g1 g2 g3 g4 (length value) c1 c2 (value ++ rest)))
      ≡ sent
          (set_req (instance_of (hash_of key)) key value (length key) (length value) (hash_of key))
unfolding parse parse_set
parse_set-text key g1 g2 g3 g4 c1 c2 value rest k few other =
    let tail = 0 ∷ g1 ∷ g2 ∷ g3 ∷ g4 ∷ (48 + length value) ∷ c1 ∷ c2 ∷ (value ++ rest) in
    let fits : ltb (length (value ++ rest)) (length value) ≡ false =
      ground (arith, length-append value rest) in
    rw
      (
        strlen-key key (g1 ∷ g2 ∷ g3 ∷ g4 ∷ (48 + length value) ∷ c1 ∷ c2 ∷ (value ++ rest)) k,
        parse,
        parse_set,
        advance-append key tail (length key + 5) 5 refl,
        one_digit (length value) c1 (c2 ∷ (value ++ rest)) few other,
        take-append key tail,
        take-append value rest,
        fits,
      )
      refl

-- A command that sets the value of a key and one that gets the key are sent to the same instance with
-- the same hash key; and in the table of that instance the second finds the value's address, as the
-- first one left it, with the length of the value. The value has fewer than ten bytes.
pub parse-set-get :
    (key : List ℕ) (g1 g2 g3 g4 c1 c2 : ℕ) (value rest rest' : List ℕ) (address : ℕ) (t : Table)
    → IsKey key
    → length value < 10
    → is_digit c1 ≡ false
    → IsStore t
    → (id hv : ℕ) × (parse (some (set_text key g1 g2 g3 g4 (length value) c1 c2 (value ++ rest)))
        ≡ sent (set_req id key value (length key) (length value) hv))
      × (parse (some (get_text key rest')) ≡ sent (get_req id key (length key) hv))
      × ((b : Bucket) × (get key
              (length key)
              hv
              (set_request key (length key) address (length value) hv t).1
            ≡ some b)
          × (b.value ≡ address)
          × (b.vsize ≡ length value))
parse-set-get key g1 g2 g3 g4 c1 c2 value rest rest' address t k few other store =
    let hv = hash_of key in
    (
      instance_of hv,
      hv,
      parse_set-text key g1 g2 g3 g4 c1 c2 value rest k few other,
      parse_get-text key rest' k,
      (set_request-get key (length key) address (length value) hv t store).0,
    )
