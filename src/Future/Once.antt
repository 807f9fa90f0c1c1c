-- ===== src/Future/Once.antt =====
-- Sequences of operations on a future of include/mola/c/mola_future.h: those who hold it get and put
-- references and may do it, and the last put releases it.
use elastic_actor.Prelude.{
  ℕ, zero, suc, ◌^◌, ◌<◌, ◌≡◌, true, false, List, [], ◌∷◌, Option, none, some, if◌then◌else◌, ltb,
  ltb→lt, arith, refl, ◌∙◌, inl, inr, Bool-cases,
}
use elastic_actor.Future.{
  ℤ, pos, negsuc, is_pending, status_of, Refcnt, Future, refcnt_get, refcnt_put, future_do,
  future_release,
}

pub data Op (V : Type 0) : Type 0 where
  get : Op V
  put : Op V
  fulfil : Option V → Op V

module _ {V W : Type 0} where
  -- An operation of a holder; `none` is a failed assertion, and a future that is freed is not there.
  unfoldable pub apply : Op V → Refcnt (Future V W) → W → Option (Option (Refcnt (Future V W)) × W)
  unfolding refcnt_get refcnt_put future_do
  apply get r w = elim (refcnt_get (some r)) [ none ↦ none | some h ↦ some (h, w) ]
  apply put r w = elim (refcnt_put (some future_release) (some r) w) [
    | none ↦ none
    | some (freed, h, w') ↦ some (h, w')
  ]
  apply (fulfil arg) r w =
      let (rc, f, w') = future_do r.object arg w in some (some (record r { object = f }), w')

  -- The operations in their order; one on a freed future is `none`.
  unfoldable pub run :
      List (Op V) → Option (Refcnt (Future V W)) → W → Option (Option (Refcnt (Future V W)) × W)
  unfolding apply
  run [] h w = some (h, w)
  run (o ∷ os) none w = none
  run (o ∷ os) (some r) w = elim (apply o r w) [ none ↦ none | some (h, w') ↦ run os h w' ]

-- How many references are held in the end, from `n` on, if none is used after the last put and they
-- are fewer than 2^32.
unfoldable pub references : {V : Type 0} → ℕ → List (Op V) → Option ℕ
references n [] = some n
references zero (o ∷ os) = none
references (suc n) (get ∷ os) =
    let rest = references (suc (suc n)) os in if ltb (suc (suc n)) (2 ^ 32) then rest else none
references (suc n) (put ∷ os) = references n os
references (suc n) (fulfil arg ∷ os) = references (suc n) os

-- The argument that the callback of a future gets, if it is called: that of the first who does it, and
-- null if it is released before.
unfoldable pub called : {V : Type 0} → ℕ → List (Op V) → Option (Option V)
called n [] = none
called n (get ∷ os) = called (suc n) os
called n (put ∷ os) = elim n [
  | zero ↦ some none
  | suc zero ↦ some none
  | suc (suc m) ↦ called (suc m) os
]
called n (fulfil arg ∷ os) = some arg

references-get :
    {V : Type 0} (os : List (Op V)) (n k : ℕ)
    → references (suc n) (get ∷ os) ≡ some k
    → (suc (suc n) < 2 ^ 32) × (references (suc (suc n)) os ≡ some k)
unfolding references
references-get os n k r = elim (Bool-cases (ltb (suc (suc n)) (2 ^ 32))) [
  | inl small ↦ (ltb→lt _ _ small, rw small at r)
  | inr large ↦ absurd (ground (arith, rw large at r))
]

status_of-done : (rc : ℤ) → is_pending (status_of rc) ≡ false
status_of-done (pos zero) = refl
status_of-done (pos (suc n)) = refl
status_of-done (negsuc n) = refl

module _ {V W : Type 0} where
  -- What is left in the end: nothing, or a future with as many references as are held.
  abbrev pub IsLeft : ℕ → Option (Refcnt (Future V W)) → Type 0
  IsLeft k none = k ≡ 0
  IsLeft k (some r) = (r.count ≡ k) × (0 < k)

  run_one :
      (o : Op V) (os : List (Op V)) (r : Refcnt (Future V W)) (h : Option (Refcnt (Future V W)))
      (w w' : W)
      → apply o r w ≡ some (h, w')
      → run (o ∷ os) (some r) w ≡ run os h w'
  unfolding run
  run_one o os r h w w' e = rw (e, run) refl

  apply-get :
      (n : ℕ) (f : Future V W) (w : W)
      → suc (suc n) < 2 ^ 32
      → apply get (record { count = suc n; object = f }) w
        ≡ some (some (record { count = suc (suc n); object = f }), w)
  unfolding apply refcnt_get
  apply-get n f w small = ground (arith, small)

  apply-put :
      (n : ℕ) (f : Future V W) (w : W)
      → suc (suc n) < 2 ^ 32
      → apply put (record { count = suc (suc n); object = f }) w
        ≡ some (some (record { count = suc n; object = f }), w)
  unfolding apply refcnt_put
  apply-put n f w small = ground (arith, small)

  run-get :
      (os : List (Op V)) (n : ℕ) (f : Future V W) (w : W)
      → suc (suc n) < 2 ^ 32
      → run (get ∷ os) (some (record { count = suc n; object = f })) w
        ≡ run os (some (record { count = suc (suc n); object = f })) w
  run-get os n f w small =
      run_one get os (record { count = suc n; object = f })
        (some (record { count = suc (suc n); object = f })) w w (apply-get n f w small)

  run-put :
      (os : List (Op V)) (n : ℕ) (f : Future V W) (w : W)
      → suc (suc n) < 2 ^ 32
      → run (put ∷ os) (some (record { count = suc (suc n); object = f })) w
        ≡ run os (some (record { count = suc n; object = f })) w
  run-put os n f w small =
      run_one put os (record { count = suc (suc n); object = f })
        (some (record { count = suc n; object = f })) w w (apply-put n f w small)

  run_last :
      (os : List (Op V)) (f : Future V W) (w : W)
      → run (put ∷ os) (some (record { count = 1; object = f })) w
        ≡ run os none (future_release f w)
  unfolding run apply refcnt_put
  run_last os f w = refl

  run_fulfil_done :
      (os : List (Op V)) (arg : Option V) (n : ℕ) (f : Future V W) (w : W)
      → is_pending f.status ≡ false
      → run (fulfil arg ∷ os) (some (record { count = n; object = f })) w
        ≡ run os (some (record { count = n; object = f })) w
  unfolding run apply future_do
  run_fulfil_done os arg n f w e = rw e refl

  run_fulfil :
      (os : List (Op V)) (arg : Option V) (n : ℕ) (f : Future V W) (w : W)
      → is_pending f.status ≡ true
      → run (fulfil arg ∷ os) (some (record { count = n; object = f })) w
        ≡ run os
            (some
              (record { count = n; object = record f { status = status_of (f.callback arg w).0 } }))
            (f.callback arg w).1
  unfolding run apply future_do
  run_fulfil os arg n f w e = rw e refl

  -- After the last put there are no operations.
  abbrev pub Ends : ℕ → Option (Option (Refcnt (Future V W)) × W) → W → Type 0
  Ends k result w = (h : Option (Refcnt (Future V W))) × (result ≡ some (h, w)) × IsLeft k h

  none-Ends :
      (os : List (Op V)) (k : ℕ) (w : W) → references 0 os ≡ some k → Ends k (run os none w) w
  unfolding run references
  none-Ends [] k w r = (none, refl, ground (arith, r))
  none-Ends (o ∷ os) k w r = absurd (ground (arith, r))

  some-Ends :
      (n k : ℕ) (f : Future V W) (w : W)
      → 0 < n
      → references {V = V} n [] ≡ some k
      → Ends k (run [] (some (record { count = n; object = f })) w) w
  unfolding run references
  some-Ends n k f w p r =
      (some (record { count = n; object = f }), refl, (ground (arith, r), ground (arith, r, p)))

  before :
      {k : ℕ} {x y : Option (Option (Refcnt (Future V W)) × W)} {v : W}
      → x ≡ y
      → Ends k y v
      → Ends k x v
  before e (h, f, left) = (h, e ∙ f, left)

  -- A future that has been done leaves the world as it is.
  done-Ends :
      (os : List (Op V)) (n k : ℕ) (f : Future V W) (w : W)
      → 0 < n
      → n < 2 ^ 32
      → is_pending f.status ≡ false
      → references n os ≡ some k
      → Ends k (run os (some (record { count = n; object = f })) w) w
  unfolding references future_release
  done-Ends [] n k f w p q e r = some-Ends n k f w p r
  done-Ends (o ∷ os) zero k f w p q e r = absurd (omega (arith, p))
  done-Ends (get ∷ os) (suc n) k f w p q e r =
      let (small, r') = references-get os n k r in
      before (run-get os n f w small) (done-Ends os (suc (suc n)) k f w (omega arith) small e r')
  done-Ends (put ∷ os) (suc zero) k f w p q e r =
      before (run_last os f w ∙ rw e refl) (none-Ends os k w r)
  done-Ends (put ∷ os) (suc (suc n)) k f w p q e r =
      before (run-put os n f w q) (done-Ends os (suc n) k f w (omega arith) (omega (arith, q)) e r)
  done-Ends (fulfil arg ∷ os) (suc n) k f w p q e r =
      before (run_fulfil_done os arg (suc n) f w e) (done-Ends os (suc n) k f w p q e r)

  -- What the callback makes of the world, if it is called.
  abbrev pub after : (Option V → W → ℤ × W) → Option (Option V) → W → W
  after callback none w = w
  after callback (some arg) w = (callback arg w).1

  pub ok-Ends :
      (os : List (Op V)) (n k : ℕ) (f : Future V W) (w : W)
      → 0 < n
      → n < 2 ^ 32
      → is_pending f.status ≡ true
      → references n os ≡ some k
      → Ends k
          (run os (some (record { count = n; object = f })) w)
          (after f.callback (called n os) w)
  unfolding references called future_release future_do
  ok-Ends [] n k f w p q e r = some-Ends n k f w p r
  ok-Ends (o ∷ os) zero k f w p q e r = absurd (omega (arith, p))
  ok-Ends (get ∷ os) (suc n) k f w p q e r =
      let (small, r') = references-get os n k r in
      before (run-get os n f w small) (ok-Ends os (suc (suc n)) k f w (omega arith) small e r')
  ok-Ends (put ∷ os) (suc zero) k f w p q e r =
      before (run_last os f w ∙ rw e refl) (none-Ends os k (f.callback none w).1 r)
  ok-Ends (put ∷ os) (suc (suc n)) k f w p q e r =
      before (run-put os n f w q) (ok-Ends os (suc n) k f w (omega arith) (omega (arith, q)) e r)
  ok-Ends (fulfil arg ∷ os) (suc n) k f w p q e r = before (run_fulfil os arg (suc n) f w e) (
      done-Ends os (suc n) k (record f { status = status_of (f.callback arg w).0 })
        (f.callback arg w).1 p q (status_of-done (f.callback arg w).0) r)
