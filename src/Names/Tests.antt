-- ===== src/Names/Tests.antt =====
-- include/mola/singleton.hpp at a concrete input.
use elastic_actor.Prelude.{ℕ, ◌≡◌, refl, true, false, List, [], ◌∷◌, none}
use elastic_actor.Names.{get_module_id, get_module_name, invalid_id, position}

abbrev two_modules : List ℕ
two_modules = 40 ∷ 50 ∷ []

-- A new name, an old one, and one that is only asked for.
id_new : get_module_id 60 true two_modules ≡ (2, 40 ∷ 50 ∷ 60 ∷ [])
unfolding get_module_id position
id_new = refl

id_old : get_module_id 50 true two_modules ≡ (1, two_modules)
unfolding get_module_id position
id_old = refl

id_unknown : get_module_id 60 false two_modules ≡ (invalid_id, two_modules)
unfolding get_module_id position
id_unknown = refl

name_unknown : get_module_name invalid_id two_modules ≡ none
unfolding get_module_name
name_unknown = refl
