-- ===== src/Future/Tests.antt =====
-- A future that replies, at a concrete value; the world is the list of the replies.
use elastic_actor.Prelude.{ℕ, ◌+◌, ◌≡◌, List, [], ◌∷◌, Option, none, some, refl}
use elastic_actor.Future.{
  ℤ, pos, return_value, return_callback, return_future_create, future_release,
}
use elastic_actor.Future.Once.{Op, get, put, fulfil, called, references, run}
use elastic_actor.Future.Replies.{life, return_future-replies}

abbrev save : List ℕ → ℕ × List ℕ
save w = (7, w)

abbrev answer : ℕ → ℕ → List ℕ → ℤ × List ℕ
answer state v w = (pos 0, v ∷ state ∷ w)

abbrev call : ℕ → Option ℕ → List ℕ → ℕ × List ℕ
call u none w = (u, w)
call u (some arg) w = (u + arg, w)

-- A second holder does the future between the two puts, and once more.
abbrev shared : List (Op ℕ)
shared = get ∷ put ∷ fulfil (some 5) ∷ fulfil (some 6) ∷ put ∷ []

dropped : life save answer call return_value 9 (put ∷ []) [] ≡ some (none, 9 ∷ 7 ∷ [])
unfolding life run future_release
dropped = refl

bad_type : return_future_create answer call save 0 (some 9) [] ≡ none
unfolding return_future_create
bad_type = refl

return_future-replies_example :
    (arg : Option ℕ) × (called 1 shared ≡ some arg)
    × (life save answer call return_value 9 shared [] ≡ some (none, 9 ∷ 7 ∷ []))
    × (life save answer call return_callback 9 shared []
        ≡ (let (rt, v) = call 9 arg [] in some (none, (answer 7 rt v).1)))
unfolding references
return_future-replies_example = return_future-replies save answer call 9 shared [] refl

shared-called : called 1 shared ≡ some (some 5)
unfolding called
shared-called = refl
