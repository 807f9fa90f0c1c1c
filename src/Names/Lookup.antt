-- ===== src/Names/Lookup.antt =====
-- From module names to ids and back, include/mola/singleton.hpp.
use elastic_actor.Prelude.{
  ℕ, zero, suc, ◌+◌, ◌%◌, ◌^◌, ◌<◌, ◌≡◌, refl, inl, inr, true, List, [], ◌∷◌, ◌++◌, some, arith,
  ◌==◌, Bool-cases, Option-cases, length, get_elem?,
}
use elastic_actor.Names.{invalid_id, position, get_module_id, get_module_name}

-- A position from `i` on is that of the name.
position-get :
    (name i p : ℕ) (ms : List ℕ)
    → position name i ms ≡ some p
    → (k : ℕ) × (p ≡ i + k) × (k < length ms) × (get_elem? ms k ≡ some name)
unfolding position
position-get name i p [] e = absurd (ground arith)
position-get name i p (m ∷ ms) e = elim (Bool-cases (m == name)) [
  | inl y ↦ (0, ground arith, omega arith, ground arith)
  | inr other ↦
      let (k, place, lt, here) = position-get name (i + 1) p ms (ground arith) in
      (suc k, omega arith, omega arith, here)
]

get_elem?-append : (ms : List ℕ) (name : ℕ) → get_elem? (ms ++ (name ∷ [])) (length ms) ≡ some name
get_elem?-append [] name = refl
get_elem?-append (m ∷ ms) name = get_elem?-append ms name

get_elem?-left :
    (ms : List ℕ) (name k x : ℕ)
    → get_elem? ms k ≡ some x
    → get_elem? (ms ++ (name ∷ [])) k ≡ some x
get_elem?-left [] name k x e = absurd (ground arith)
get_elem?-left (m ∷ ms) name zero x e = e
get_elem?-left (m ∷ ms) name (suc k) x e = get_elem?-left ms name k x e

-- With fewer than 0xffff names, the id that a name gets, new or not, leads back to it, it is not the
-- invalid id, and the ids given out before lead where they led.
pub get_module_id-name :
    (name : ℕ) (modules : List ℕ)
    → length modules < 0xffff
    → (get_module_name (get_module_id name true modules).0 (get_module_id name true modules).1
        ≡ some name)
      × ((get_module_id name true modules).0 < invalid_id)
      × ((id x : ℕ)
          → get_module_name id modules ≡ some x
          → get_module_name id (get_module_id name true modules).1 ≡ some x)
unfolding get_module_id get_module_name
get_module_id-name name modules few = elim (Option-cases (position name 0 modules)) [
  | inl absent ↦
      let fits : length modules % 2 ^ 16 ≡ length modules = omega arith in
      rw (absent, get_module_id, fits)
        (get_elem?-append modules name, few, λ id x e. get_elem?-left modules name id x e)
  | inr (p, there) ↦
      let (k, place, lt, here) = position-get name 0 p modules there in
      let fits : p % 2 ^ 16 ≡ k = omega arith in
      rw (there, get_module_id, fits) (here, omega arith, λ id x e. e)
]
