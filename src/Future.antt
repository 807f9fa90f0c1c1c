-- ===== src/Future.antt =====
-- include/mola/c/mola_refcnt.h and include/mola/c/mola_future.h: reference counts, and futures, with
-- the builtin one that replies later. A failed assertion is `none`; `ReplyMsg`, `SaveReturnState_` and
-- the function behind a pointer are arguments.
pub mod Once
pub mod Replies
mod Tests
use elastic_actor.Prelude.{
  ℕ, zero, suc, ◌+◌, ◌<◌, Bool, true, false, ◌||◌, List, [], ◌∷◌, Option, none, some, ◌==◌,
  if◌then◌else◌, inc32, dec32,
}

-- The return codes of the C interface.
pub data ℤ : Type 0 where
  pos : ℕ → ℤ
  negsuc : ℕ → ℤ

-- `MOLA_FUTURE_OK`, `MOLA_FUTURE_DONE`, `MOLA_FUTURE_ERROR`
pub data FutureStatus : Type 0 where
  ok : FutureStatus
  done : FutureStatus
  error : FutureStatus

-- `MOLA_FUTURE_TYPE_RETURN_VALUE`, `MOLA_FUTURE_TYPE_RETURN_CALLBACK`
abbrev pub return_value : ℕ
return_value = 1

abbrev pub return_callback : ℕ
return_callback = 2

-- An object behind a `mola_refcnt_t`.
pub record Refcnt (A : Type 0) : Type 0 where
  pub count : ℕ
  pub object : A

module _ {A : Type 0} where
  -- `mola_refcnt_init`
  unfoldable pub refcnt_init : A → Refcnt A
  refcnt_init a = record { count = 1; object = a }

  -- `mola_refcnt_get` and `mola_refcnt_put` of a pointer that may be null. The second says whether
  -- it has freed the object, which is then no longer there.
  unfoldable pub refcnt_get : Option (Refcnt A) → Option (Option (Refcnt A))
  refcnt_get none = some none
  refcnt_get (some r) =
      if r.count == 0 then none else some (some (record r { count = inc32 r.count }))

  unfoldable pub refcnt_put :
      {W : Type 0}
      → Option (A → W → W)
      → Option (Refcnt A)
      → W
      → Option (Bool × Option (Refcnt A) × W)
  refcnt_put dtor none w = some (false, none, w)
  refcnt_put dtor (some r) w =
      if r.count == 0
      then none
      else if dec32 r.count == 0
      then some (true, none, elim dtor [ none ↦ w | some d ↦ d r.object w ])
      else some (false, some (record r { count = dec32 r.count }), w)

  -- `mola_refcnt_unique`
  unfoldable pub refcnt_unique : Option (Refcnt A) → Option Bool
  refcnt_unique none = some false
  refcnt_unique (some r) = if r.count == 0 then none else some (r.count == 1)

-- `mola_future`; the callback takes an argument that may be null.
pub record Future (V W : Type 0) : Type 0 where
  pub type : ℕ
  pub status : FutureStatus
  pub callback : Option V → W → ℤ × W

abbrev pub is_pending : FutureStatus → Bool
is_pending ok = true
is_pending done = false
is_pending error = false

-- The status that a callback leaves, by its return code.
abbrev pub status_of : ℤ → FutureStatus
status_of (pos zero) = done
status_of (pos (suc n)) = error
status_of (negsuc n) = error

module _ {V W : Type 0} where
  -- `mola_future_do`
  unfoldable pub future_do : Future V W → Option V → W → ℤ × Future V W × W
  future_do f arg w =
      if is_pending f.status
      then (let (rc, w') = f.callback arg w in (rc, record f { status = status_of rc }, w'))
      else (negsuc 10, f, w)

  -- `mola_future_release`
  unfoldable pub future_release : Future V W → W → W
  unfolding future_do
  future_release f w = if is_pending f.status then (future_do f none w).2 else w

  -- `mola_future_init`
  unfoldable pub future_init : ℕ → (Option V → W → ℤ × W) → Refcnt (Future V W)
  unfolding refcnt_init
  future_init type callback = refcnt_init (record { type = type; status = ok; callback = callback })

module _ {V S W : Type 0} (reply : S → V → W → ℤ × W) (call : V → Option V → W → V × W) where
  -- `mola_return_future_callback`, of a future that is not done.
  unfoldable pub return_future_callback : ℕ → S → V → Option V → W → ℤ × W
  return_future_callback type state u arg w =
      if type == return_value
      then reply state u w
      else if type == return_callback
      then (let (rt, w') = call u arg w in reply state rt w')
      else (negsuc 10, w)

  -- `mola_return_future_create`
  unfoldable pub return_future_create :
      (W → S × W) → ℕ → Option V → W → Option (Refcnt (Future V W) × W)
  unfolding future_init return_future_callback
  return_future_create save type none w = none
  return_future_create save type (some rv) w =
      if (type == return_value) || (type == return_callback)
      then (let (state, w') = save w in
          some (future_init type (return_future_callback type state rv), w'))
      else none
