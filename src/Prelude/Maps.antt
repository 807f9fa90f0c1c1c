-- ===== src/Prelude/Maps.antt =====
-- `std::map` as a list of pairs: `insert` and `emplace` leave a key that is present as it is.
use Prim.Native.Nat.{ℕ, ◌+◌, ◌≤◌, ◌<◌}
use mathlib.Core.Path.{◌≡◌, refl}
use mathlib.Core.Logic.{◌≢◌, inl, inr}
use mathlib.Core.Bool.{Bool, true, false}
use mathlib.Core.Option.{Option, none, some}
use mathlib.Core.List.{List, [], ◌∷◌}
use native.Mathlib.Omega.{arith}
use elastic_actor.Prelude.Tests.{◌==◌, if◌then◌else◌, Bool-cases, Option-cases}

abbrev pub Map {ℓ} : Type ℓ → Type ℓ
Map A = List (ℕ × A)

abbrev pub find {ℓ} : {A : Type ℓ} → ℕ → Map A → Option A
find k [] = none
find k ((j, a) ∷ m) = if j == k then some a else find k m

abbrev pub erase {ℓ} : {A : Type ℓ} → ℕ → Map A → Map A
erase k [] = []
erase k ((j, a) ∷ m) = let rest = erase k m in if j == k then rest else ((j, a) ∷ rest)

abbrev pub insert {ℓ} : {A : Type ℓ} → ℕ → A → Map A → Map A
insert k a m = elim (find k m) [ none ↦ (k, a) ∷ m | some _ ↦ m ]

-- `m[k] = a`
abbrev pub put {ℓ} : {A : Type ℓ} → ℕ → A → Map A → Map A
put k a m = (k, a) ∷ erase k m

abbrev pub is_some {ℓ} : {A : Type ℓ} → Option A → Bool
is_some none = false
is_some (some a) = true

-- How often a number stands in a list of keys.
abbrev pub occurs : ℕ → List ℕ → ℕ
occurs k [] = 0
occurs k (j ∷ js) = (if j == k then 1 else 0) + occurs k js

abbrev pub keys {ℓ} : {A : Type ℓ} → Map A → List ℕ
keys [] = []
keys ((j, a) ∷ m) = j ∷ keys m

module _ {ℓ} {A : Type ℓ} where
  pub find-erase_self : (k : ℕ) (m : Map A) → find k (erase k m) ≡ none
  find-erase_self k [] = refl
  find-erase_self k ((j, a) ∷ m) = ground (arith, find-erase_self k m)

  pub find-erase_ne : (k l : ℕ) (m : Map A) → k ≢ l → find l (erase k m) ≡ find l m
  find-erase_ne k l [] ne = refl
  find-erase_ne k l ((j, a) ∷ m) ne = ground (arith, find-erase_ne k l m ne, ne)

  pub find-insert : (k : ℕ) (a : A) (m : Map A) → find k m ≡ none → find k (insert k a m) ≡ some a
  find-insert k a m e = ground arith

  pub find-insert_ne : (k l : ℕ) (a : A) (m : Map A) → k ≢ l → find l (insert k a m) ≡ find l m
  find-insert_ne k l a m ne = elim (Option-cases (find k m)) [
    | inl e ↦ ground (arith, ne)
    | inr (b, e) ↦ ground arith
  ]

  pub find-put : (k : ℕ) (a : A) (m : Map A) → find k (put k a m) ≡ some a
  find-put k a m = ground arith

  pub find-put_ne : (k l : ℕ) (a : A) (m : Map A) → k ≢ l → find l (put k a m) ≡ find l m
  find-put_ne k l a m ne = ground (arith, find-erase_ne k l m ne, ne)

  pub find-none-occurs : (k : ℕ) (m : Map A) → find k m ≡ none → occurs k (keys m) ≡ 0
  find-none-occurs k [] e = refl
  find-none-occurs k ((j, a) ∷ m) e = elim (Bool-cases (j == k)) [
    | inl y ↦ ground arith
    | inr n ↦ ground (arith, find-none-occurs k m (ground arith))
  ]

  pub occurs-find-none : (k : ℕ) (m : Map A) → occurs k (keys m) ≡ 0 → find k m ≡ none
  occurs-find-none k [] e = refl
  occurs-find-none k ((j, a) ∷ m) e = elim (Bool-cases (j == k)) [
    | inl y ↦ ground arith
    | inr n ↦ ground (arith, occurs-find-none k m (ground arith))
  ]

  pub occurs-erase_self : (k : ℕ) (m : Map A) → occurs k (keys (erase k m)) ≡ 0
  occurs-erase_self k [] = refl
  occurs-erase_self k ((j, a) ∷ m) = ground (arith, occurs-erase_self k m)

  pub occurs-erase_le : (k l : ℕ) (m : Map A) → occurs l (keys (erase k m)) ≤ occurs l (keys m)
  occurs-erase_le k l [] = omega arith
  occurs-erase_le k l ((j, a) ∷ m) = ground (arith, occurs-erase_le k l m)

  pub find-some-occurs : (k : ℕ) (a : A) (m : Map A) → find k m ≡ some a → 0 < occurs k (keys m)
  find-some-occurs k a [] e = ground arith
  find-some-occurs k a ((j, b) ∷ m) e = elim (Bool-cases (j == k)) [
    | inl y ↦ ground arith
    | inr n ↦ ground (arith, find-some-occurs k a m (ground arith))
  ]

  pub find-erase-some :
      (j k : ℕ) (a : A) (m : Map A) → find k (erase j m) ≡ some a → find k m ≡ some a
  find-erase-some j k a [] e = e
  find-erase-some j k a ((i, b) ∷ m) e = elim (Bool-cases (i == j)) [
    | inl y ↦ ground (arith, find-erase-some j k a m (ground arith), find-erase_self j m)
    | inr n ↦ elim (Bool-cases (i == k)) [
      | inl y ↦ ground arith
      | inr n' ↦ ground (arith, find-erase-some j k a m (ground arith))
    ]
  ]

  pub insert-present : (k : ℕ) (a b : A) (m : Map A) → find k m ≡ some b → insert k a m ≡ m
  insert-present k a b m e = ground arith
