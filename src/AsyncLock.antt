-- ===== src/AsyncLock.antt =====
-- `AsyncLock` of include/mola/spinlock.hpp: a lock whose callers leave a callback. Each call takes effect
-- under the spin lock, so calls are steps; what `release` does outside it, to call `acquire` for the
-- caller that it took from the queue, is a step of its own, and other callers may come first.
pub mod Exclusion
mod Tests
use elastic_actor.Prelude.{
  ℕ, ◌+◌, ◌-◌, Bool, true, false, List, [], ◌∷◌, ◌++◌, Option, none, some, if◌then◌else◌,
}

pub record Lock (C : Type 0) : Type 0 where
  pub acquired : Bool
  pub wait_que : List C

module _ {C : Type 0} where
  abbrev pub unlocked : Lock C
  unlocked = record { acquired = false; wait_que = [] }

  -- `acquire`: whether the callback is called.
  unfoldable pub acquire : C → Lock C → Bool × Lock C
  acquire c l =
      if l.acquired
      then (false, record l { wait_que = l.wait_que ++ (c ∷ []) })
      else (true, record l { acquired = true })

  -- `release`: the caller to call `acquire` for, once the spin lock is free.
  unfoldable pub release : Lock C → Option C × Lock C
  release l = elim l.wait_que [
    | [] ↦ (none, record { acquired = false; wait_que = [] })
    | c ∷ cs ↦ (some c, record { acquired = false; wait_que = cs })
  ]
