-- ===== src/Future/Replies.antt =====
-- The builtin future of include/mola/c/mola_future.h that replies, over its life.
use elastic_actor.Prelude.{
  ℕ, zero, suc, ◌^◌, ◌<◌, ◌≡◌, List, [], ◌∷◌, Option, none, some, ltb, arith, refl, ◌∙◌, ap, inl,
  inr, Bool-cases,
}
use elastic_actor.Future.{
  ℤ, ok, return_value, return_callback, Refcnt, Future, future_init, refcnt_init,
  return_future_callback, return_future_create,
}
use elastic_actor.Future.Once.{
  Op, get, put, fulfil, run, references, called, after, ok-Ends, IsLeft,
}

-- A future that is freed has been done.
released-called :
    {V : Type 0} (os : List (Op V)) (n : ℕ)
    → 0 < n
    → references n os ≡ some 0
    → (arg : Option V) × (called n os ≡ some arg)
unfolding references called
released-called [] n p r = absurd (ground (arith, r, p))
released-called (o ∷ os) zero p r = absurd (omega (arith, p))
released-called (get ∷ os) (suc n) p r = elim (Bool-cases (ltb (suc (suc n)) (2 ^ 32))) [
  | inl small ↦ released-called os (suc (suc n)) (omega arith) (rw small at r)
  | inr large ↦ absurd (ground (arith, rw large at r))
]
released-called (put ∷ os) (suc zero) p r = (none, refl)
released-called (put ∷ os) (suc (suc n)) p r = released-called os (suc n) (omega arith) r
released-called (fulfil arg ∷ os) (suc n) p r = (arg, refl)

freed :
    {V W : Type 0} (type : ℕ) (callback : Option V → W → ℤ × W) (os : List (Op V)) (w : W)
    → references 1 os ≡ some 0
    → (arg : Option V) → called 1 os ≡ some arg
    → run os (some (future_init type callback)) w ≡ some (none, (callback arg w).1)
unfolding future_init refcnt_init
freed {V = V} {W = W} type callback os w r arg once =
    let (h, e, left) =
      ok-Ends os 1 0 (record { type = type; status = ok; callback = callback }) w (omega arith)
        (omega arith) refl r in
    e
    ∙ ap (λ o. some (h, after callback o w)) once
    ∙ ap (λ h'. some (h', (callback arg w).1)) (gone h left)
  where
    gone : (h : Option (Refcnt (Future V W))) → IsLeft 0 h → h ≡ none
    gone none l = refl
    gone (some x) (e, p) = absurd (omega (arith, p))

module _ {V S W : Type 0} (save : W → S × W) (reply : S → V → W → ℤ × W)
    (call : V → Option V → W → V × W) where
  -- A future that replies, from its creation on through the operations on it.
  unfoldable pub life : ℕ → V → List (Op V) → W → Option (Option (Refcnt (Future V W)) × W)
  unfolding return_future_create
  life type rv os w = elim (return_future_create reply call save type (some rv) w) [
    | none ↦ none
    | some (r, w') ↦ run os (some r) w'
  ]

  life-value :
      (rv : V) (os : List (Op V)) (w : W)
      → life return_value rv os w
        ≡ run os
            (some (
              future_init return_value
                (return_future_callback reply call return_value (save w).0 rv)))
            (save w).1
  unfolding life
  life-value rv os w = refl

  life-callback :
      (rv : V) (os : List (Op V)) (w : W)
      → life return_callback rv os w
        ≡ run os
            (some (
              future_init return_callback
                (return_future_callback reply call return_callback (save w).0 rv)))
            (save w).1
  unfolding life
  life-callback rv os w = refl

  -- A future that replies later, with a value or with what a function makes, replies exactly once by
  -- the time it is freed, in whatever order those who hold it get and put references and do it: with
  -- the value, or with what the function makes of the argument of the first who did it, of null if
  -- nobody did.
  pub return_future-replies :
      (rv : V) (os : List (Op V)) (w : W)
      → references 1 os ≡ some 0
      → (arg : Option V) × (called 1 os ≡ some arg)
        × (life return_value rv os w ≡ some (none, (reply (save w).0 rv (save w).1).1))
        × (life return_callback rv os w
            ≡ (let (rt, v) = call rv arg (save w).1 in some (none, (reply (save w).0 rt v).1)))
  unfolding return_future_callback
  return_future-replies rv os w r =
      let (arg, once) = released-called os 1 (omega arith) r in
      (
        arg,
        once,
        life-value rv os w
            ∙ freed return_value (return_future_callback reply call return_value (save w).0 rv) os
                (save w).1 r arg once,
        life-callback rv os w
            ∙ freed return_callback
                (return_future_callback reply call return_callback (save w).0 rv) os (save w).1 r
                arg once,
      )
