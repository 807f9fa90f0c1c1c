-- ===== src/Names.antt =====
-- The module names of the engine for a single node, include/mola/singleton.hpp. A name is a number that
-- stands for its string.
pub mod Lookup
mod Tests
use elastic_actor.Prelude.{
  ℕ, ◌+◌, ◌%◌, ◌^◌, Bool, List, [], ◌∷◌, ◌++◌, Option, none, some, ◌==◌, if◌then◌else◌, length,
  get_elem?,
}

-- `Module::invalid_id`
abbrev pub invalid_id : ℕ
invalid_id = 0xffff

-- The loop over `m_modules` from index `i` on.
unfoldable pub position : ℕ → ℕ → List ℕ → Option ℕ
position name i [] = none
position name i (m ∷ ms) = let rest = position name (i + 1) ms in if m == name then some i else rest

-- `get_module_id`, whose result is a 16-bit number.
unfoldable pub get_module_id : ℕ → Bool → List ℕ → ℕ × List ℕ
get_module_id name create modules = elim (position name 0 modules) [
  | some i ↦ (i % 2 ^ 16, modules)
  | none ↦
      if create then (length modules % 2 ^ 16, modules ++ (name ∷ [])) else (invalid_id, modules)
]

-- `get_module_name`, where `none` is the empty string.
unfoldable pub get_module_name : ℕ → List ℕ → Option ℕ
get_module_name id modules = get_elem? modules id
