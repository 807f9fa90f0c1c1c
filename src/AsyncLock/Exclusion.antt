-- ===== src/AsyncLock/Exclusion.antt =====
-- All sequences of calls of `AsyncLock` in include/mola/spinlock.hpp.
use elastic_actor.Prelude.{
  ℕ, ◌+◌, ◌<◌, ◌≡◌, refl, ap, sym, subst, inl, inr, Bool, true, false, List, [], ◌∷◌, ◌++◌, Option,
  none, some, arith, Bool-cases, List-cases, length, length-append, if◌then◌else◌,
}
use elastic_actor.AsyncLock.{Lock, unlocked, acquire, release}

-- The lock, how many callbacks have been called and not yet released, the callers that `release` has
-- taken from the queue but not served, and how often `acquire` was called and a lock was granted.
pub record World (C : Type 0) : Type 0 where
  pub lock : Lock C
  pub holders : ℕ
  pub taken : List C
  pub asked : ℕ
  pub granted : ℕ

module _ {C : Type 0} where
  abbrev pub start : World C
  start = record { lock = unlocked; holders = 0; taken = []; asked = 0; granted = 0 }

  abbrev served : Bool → Lock C → World C → World C
  served b l w = record w {
    lock = l;
    holders = (if b then 1 else 0) + w.holders;
    granted = (if b then 1 else 0) + w.granted;
  }

  abbrev after_acquire : Bool × Lock C → World C → World C
  after_acquire (b, l) w = served b l w

  abbrev after_release : Option C × Lock C → World C → ℕ → World C
  after_release (none, l) w holders = record w { lock = l; holders = holders }
  after_release (some c, l) w holders = record w {
    lock = l;
    holders = holders;
    taken = w.taken ++ (c ∷ []);
  }

  -- A caller asks; a holder releases; a caller that was taken from the queue asks again.
  pub data Step (w : World C) : World C → Type 0 where
    asks : (c : C) → Step w (after_acquire (acquire c w.lock) (record w { asked = w.asked + 1 }))
    releases : (n : ℕ) → w.holders ≡ n + 1 → Step w (after_release (release w.lock) w n)
    retries :
        (c : C) (before after : List C)
        → w.taken ≡ before ++ (c ∷ after)
        → Step w (after_acquire (acquire c w.lock) (record w { taken = before ++ after }))

  pub data Reach : World C → Type 0 where
    here : Reach start
    step : {w w' : World C} → Reach w → Step w w' → Reach w'

  -- Exactly the holder of an acquired lock holds it; every caller has been served, waits, or is about
  -- to ask again; and a free lock with callers in its queue has one that is about to ask again.
  pub record Inv (w : World C) : Type 0 where
    pub exclusive : w.holders ≡ (if w.lock.acquired then 1 else 0)
    pub none_lost : w.asked ≡ w.granted + length w.lock.wait_que + length w.taken
    pub awake : w.lock.acquired ≡ false → 0 < length w.lock.wait_que → 0 < length w.taken

  acquire-Inv :
      (c : C) (w : World C)
      → w.holders ≡ (if w.lock.acquired then 1 else 0)
      → w.asked ≡ w.granted + length w.lock.wait_que + length w.taken + 1
      → Inv (after_acquire (acquire c w.lock) w)
  unfolding acquire
  acquire-Inv c w exclusive count = elim (Bool-cases w.lock.acquired) [
    | inl held ↦
        let queued : acquire c w.lock
            ≡ (false, record w.lock { wait_que = w.lock.wait_que ++ (c ∷ []) }) =
          rw held refl in
        subst (λ r. Inv (after_acquire r w)) (sym queued)
          (record {
            exclusive = ground (arith, exclusive);
            none_lost = omega (arith, count, length-append w.lock.wait_que (c ∷ []));
            awake = λ f p. absurd (ground (arith, held, f));
          })
    | inr free ↦
        let granted : acquire c w.lock ≡ (true, record w.lock { acquired = true }) = rw free refl in
        subst (λ r. Inv (after_acquire r w)) (sym granted)
          (record {
            exclusive = ground (arith, exclusive, free);
            none_lost = omega (arith, count);
            awake = λ f p. absurd (ground (arith, f));
          })
  ]

  release-Inv :
      (w : World C) (n : ℕ) → w.holders ≡ n + 1 → Inv w → Inv (after_release (release w.lock) w n)
  unfolding release
  release-Inv w n h v = elim (List-cases w.lock.wait_que) [
    | inl e ↦
        let idle : release w.lock ≡ (none, record { acquired = false; wait_que = [] }) =
          rw (e, release) refl in
        subst (λ r. Inv (after_release r w n)) (sym idle)
          (record {
            exclusive = ground (arith, v.exclusive, h);
            none_lost = omega (arith, v.none_lost, ap length e);
            awake = λ f p. absurd (omega (arith, p));
          })
    | inr (c, cs, e) ↦
        let next : release w.lock ≡ (some c, record { acquired = false; wait_que = cs }) =
          rw (e, release) refl in
        subst (λ r. Inv (after_release r w n)) (sym next)
          (record {
            exclusive = ground (arith, v.exclusive, h);
            none_lost = omega (arith, v.none_lost, ap length e, length-append w.taken (c ∷ []));
            awake = λ f p. omega (arith, length-append w.taken (c ∷ []));
          })
  ]

  Step-Inv : {w w' : World C} → Step w w' → Inv w → Inv w'
  Step-Inv {w = w} (asks c) v =
      acquire-Inv c (record w { asked = w.asked + 1 }) v.exclusive (omega (arith, v.none_lost))
  Step-Inv {w = w} (releases n h) v = release-Inv w n h v
  Step-Inv {w = w} (retries c before after h) v =
      acquire-Inv c (record w { taken = before ++ after }) v.exclusive
        (omega (
          arith,
          v.none_lost,
          ap length h,
          length-append before (c ∷ after),
          length-append before after,
        ))

  -- After any sequence of calls, by any number of callers of which only one that holds the lock
  -- releases it, at most one holds the lock, no caller is lost, and a free lock with callers in its
  -- queue is about to serve one.
  pub Reach-Inv : {w : World C} → Reach w → Inv w
  Reach-Inv here = record {
    exclusive = refl;
    none_lost = refl;
    awake = λ f p. absurd (omega arith);
  }
  Reach-Inv (step r s) = Step-Inv s (Reach-Inv r)
