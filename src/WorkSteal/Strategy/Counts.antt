-- ===== src/WorkSteal/Strategy/Counts.antt =====
-- The counters `m_total_jobs` and `m_global_jobs` of include/mola/work_steal.hpp against the tasks in
-- the queues.
use elastic_actor.Prelude.{
  ℕ, zero, suc, ◌+◌, ◌<◌, ◌^◌, ◌≡◌, ◌∙◌, ◌⊎◌, refl, ap, inl, inr, Bool, true, false, List, [], ◌∷◌,
  Option, none, some, arith, ◌==◌, List-cases, Option-cases, get_or, set, length, dec32,
  length-append, length-set,
}
use elastic_actor.WorkSteal.{LockFreeQue, dequeue_try}
use elastic_actor.WorkSteal.Ring.{
  IsValid, count, length-items, count-Placed, dequeue_try-items, enqueue_try-items,
}
use elastic_actor.WorkSteal.Strategy.{
  Pool, wakeup, global_append, global_enqueue, pop_global, global_dequeue, fresh_ring, ring,
  enqueue_at, dequeue_at,
}

module _ {ℓ} {A : Type ℓ} where
  abbrev pub in_rings : List (LockFreeQue A) → ℕ
  in_rings [] = 0
  in_rings (q ∷ qs) = count q + in_rings qs

  abbrev pub AllValid : List (LockFreeQue A) → Type ℓ
  AllValid [] = Unit
  AllValid (q ∷ qs) = IsValid q × AllValid qs

  in_rings-set :
      (qs : List (LockFreeQue A)) (n : ℕ) (q : LockFreeQue A)
      → n < length qs
      → in_rings (set qs n q) + count (get_or qs n fresh_ring) ≡ in_rings qs + count q
  in_rings-set [] n q h = absurd (omega arith)
  in_rings-set (r ∷ qs) zero q h = omega arith
  in_rings-set (r ∷ qs) (suc n) q h = omega (arith, in_rings-set qs n q (omega arith))

  AllValid-set :
      (qs : List (LockFreeQue A)) (n : ℕ) (q : LockFreeQue A)
      → AllValid qs
      → IsValid q
      → AllValid (set qs n q)
  AllValid-set [] n q h v = tt
  AllValid-set (r ∷ qs) zero q h v = (v, h.1)
  AllValid-set (r ∷ qs) (suc n) q h v = (h.0, AllValid-set qs n q h.1 v)

  AllValid-get :
      (qs : List (LockFreeQue A)) (n : ℕ)
      → AllValid qs
      → n < length qs
      → IsValid (get_or qs n fresh_ring)
  AllValid-get [] n h lt = absurd (omega arith)
  AllValid-get (r ∷ qs) zero h lt = h.0
  AllValid-get (r ∷ qs) (suc n) h lt = AllValid-get qs n h.1 (omega arith)

  -- The tasks in all queues.
  abbrev pub size : Pool A → ℕ
  size p = in_rings p.queues + length p.global

  pub record Counted (p : Pool A) : Type ℓ where
    pub valid : AllValid p.queues
    pub jobs : p.total_jobs ≡ size p
    pub globals : p.global_num ≡ length p.global
    pub threads : length p.queues ≡ p.total_thr_num

  -- `global_enqueue` keeps the counts.
  pub global_enqueue-Counted :
      (task : A) (p : Pool A)
      → Counted p
      → size p + 1 < 2 ^ 32
      → let p' = (global_enqueue task p).0 in Counted p' × (size p' ≡ size p + 1)
  unfolding global_enqueue
  global_enqueue-Counted task p c few =
      let longer = length-append p.global (task ∷ []) in
      (
        record {
          valid = c.valid;
          jobs = omega (arith, longer, c.jobs);
          globals = omega (arith, longer, c.globals);
          threads = c.threads;
        },
        omega (arith, longer),
      )

  pop_global-Counted :
      (p : Pool A) (g : List A)
      → p.global ≡ g
      → Counted p
      → size p < 2 ^ 32
      → (((pop_global g p).0 ≡ none) × (p.global ≡ []) × ((pop_global g p).1 ≡ p))
        ⊎ ((task : A) × ((pop_global g p).0 ≡ some task)
            × Counted (record (pop_global g p).1 { total_jobs = dec32 p.total_jobs })
            × (size (pop_global g p).1 + 1 ≡ size p)
            × (p.global ≡ task ∷ (pop_global g p).1.global))
  unfolding pop_global
  pop_global-Counted p [] e c few = inl (refl, e, refl)
  pop_global-Counted p (task ∷ rest) e c few =
      let longer : length p.global ≡ suc (length rest) = ap length e in
      inr (
        task,
        refl,
        record {
          valid = c.valid;
          jobs = omega (arith, longer, c.jobs);
          globals = omega (arith, longer, c.globals);
          threads = c.threads;
        },
        omega (arith, longer),
        e,
      )

  -- `global_dequeue` takes the first task of the global queue, and its test of the counter misses
  -- none: it answers null only if that queue is empty. The counts hold again behind
  -- `m_total_jobs--`.
  pub global_dequeue-Counted :
      (p : Pool A)
      → Counted p
      → size p < 2 ^ 32
      → (((global_dequeue p).0 ≡ none) × (p.global ≡ []) × ((global_dequeue p).1 ≡ p))
        ⊎ ((task : A) × ((global_dequeue p).0 ≡ some task)
            × Counted (record (global_dequeue p).1 { total_jobs = dec32 p.total_jobs })
            × (size (global_dequeue p).1 + 1 ≡ size p)
            × (p.global ≡ task ∷ (global_dequeue p).1.global))
  unfolding global_dequeue
  global_dequeue-Counted p c few = elim (List-cases p.global) [
    | inl e ↦
        let none_left : (p.global_num == 0) ≡ true = ground (arith, c.globals, ap length e) in
        rw none_left (inl (refl, e, refl))
    | inr (task, rest, e) ↦
        let some_left : (p.global_num == 0) ≡ false = ground (arith, c.globals, ap length e) in
        rw some_left (pop_global-Counted p p.global refl c few)
  ]

module _ {ℓ} {A : Type ℓ} (nil : A) where
  -- A task that a thread of the pool enqueues is counted once, also where the ring overflows into
  -- the global queue.
  pub enqueue_at-Counted :
      (id : ℕ) (task : A) (p : Pool A)
      → Counted p
      → id < length p.queues
      → size p + 1 < 2 ^ 32
      → (p' : Pool A) × (notified : Bool) × (enqueue_at nil id task p ≡ some (p', notified))
        × Counted p'
        × (size p' ≡ size p + 1)
  unfolding enqueue_at
  enqueue_at-Counted id task p c thread few =
      let q = ring p id in
      let (q', spilled, e, valid, place) =
        enqueue_try-items nil q task (AllValid-get p.queues id c.valid thread) in
      let p' = (wakeup (global_append spilled (record p { queues = set p.queues id q' }))).0 in
      let rings = in_rings-set p.queues id q' thread in
      let longer = length-append p.global spilled in
      let grown : size p' ≡ size p + 1 =
        omega (arith, rings, longer, count-Placed nil q task q' spilled place) in
      (
        p',
        (wakeup (global_append spilled (record p { queues = set p.queues id q' }))).1,
        rw (e, enqueue_at),
        record {
          valid = AllValid-set p.queues id q' c.valid valid;
          jobs = omega (arith, grown, c.jobs);
          globals = omega (arith, longer, c.globals, grown);
          threads = length-set p.queues id q' ∙ c.threads;
        },
        grown,
      )

  -- A worker that takes a task from its own ring leaves the counts right behind `m_total_jobs--`.
  pub dequeue_at-Counted :
      (id : ℕ) (p : Pool A) (task : A) (p' : Pool A)
      → Counted p
      → id < length p.queues
      → size p < 2 ^ 32
      → dequeue_at nil id p ≡ some (some task, p')
      → Counted (record p' { total_jobs = dec32 p'.total_jobs }) × (size p' + 1 ≡ size p)
  unfolding dequeue_at
  dequeue_at-Counted id p task p' c thread few e =
      elim (Option-cases (dequeue_try nil (ring p id).head (ring p id))) [
        | inl lost ↦ cc
        | inr ((o, q'), won) ↦
            let answer : o ≡ some task = ground (arith, won) in
            let stored : p' ≡ record p { queues = set p.queues id q' } = ground (arith, won) in
            took_one o q' won answer stored
      ]
    where
      took_one :
          (o : Option A) (q' : LockFreeQue A)
          → dequeue_try nil (ring p id).head (ring p id) ≡ some (o, q')
          → o ≡ some task
          → p' ≡ record p { queues = set p.queues id q' }
          → Counted (record p' { total_jobs = dec32 p'.total_jobs }) × (size p' + 1 ≡ size p)
      took_one o q' won answer stored =
          elim (dequeue_try-items nil (ring p id).head (ring p id) o q'
            (AllValid-get p.queues id c.valid thread) won) [
              | inl (nothing, _, _) ↦ cc
              | inr (t, _, split, valid) ↦
                  let fewer : count (ring p id) ≡ suc (count q') =
                    omega
                      (arith, length-items nil (ring p id), length-items nil q', ap length split) in
                  let rings = in_rings-set p.queues id q' thread in
                  rw stored (
                    record {
                      valid = AllValid-set p.queues id q' c.valid valid;
                      jobs = omega (arith, rings, fewer, c.jobs);
                      globals = c.globals;
                      threads = length-set p.queues id q' ∙ c.threads;
                    },
                    omega (arith, rings, fewer),
                  )
            ]
