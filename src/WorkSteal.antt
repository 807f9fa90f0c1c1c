-- ===== src/WorkSteal.antt =====
-- include/mola/work_steal.hpp: the ready tasks of a worker in a ring of `N` slots whose `head` and
-- `tail` are 32-bit counters that wrap, the global queue behind it (the version without
-- ENABLE_LOCKFREE_GLOBAL_QUEUE), and the counters of `WorkStealStrategy`. `N` is 4096, the size that
-- src/scheduler.cpp instantiates. The loops load `head` before they exchange it, so a pass of a
-- loop is a function of the value `h` that it loaded, and `none` is a pass that goes round again.
pub mod Ring
pub mod Steal
pub mod Strategy
mod Tests
use elastic_actor.Prelude.{
  ℕ, zero, suc, ◌+◌, ◌-◌, ◌/◌, ◌%◌, Bool, true, false, List, [], ◌∷◌, ◌++◌, Option, none, some, ltb,
  ◌==◌, if◌then◌else◌, get_or, set, length, u32, inc32, add32, sub32,
}

abbrev pub ring_size : ℕ
ring_size = 4096

pub record LockFreeQue {ℓ} (A : Type ℓ) : Type ℓ where
  pub head : ℕ
  pub tail : ℕ
  pub content : List A

-- What `__steal` leaves: the task, the thief's queue and the victim's; or its assertion fails.
pub data Stolen {ℓ} (A : Type ℓ) : Type ℓ where
  stole : Option A → LockFreeQue A → LockFreeQue A → Stolen A
  assert_failed : Stolen A

-- How many of `n` tasks a thief takes: the larger half.
abbrev pub grab_size : ℕ → ℕ
grab_size n = n - n / 2

module _ {ℓ} {A : Type ℓ} where
  -- `for (i = 0; i < n; i++, tail++) q.content[tail % N] = temp[i]`
  pub append_all : List A → LockFreeQue A → LockFreeQue A
  append_all [] q = q
  append_all (x ∷ xs) q =
      append_all xs
        (record q { content = set q.content (q.tail % ring_size) x; tail = inc32 q.tail })

  -- The newest of what was grabbed, and the rest in order.
  abbrev pub split_last : A → List A → List A × A
  split_last x [] = ([], x)
  split_last x (y ∷ ys) = let (rest, z) = split_last y ys in (x ∷ rest, z)

module _ {ℓ} {A : Type ℓ} (nil : A) where
  -- `for (i = 0; i < n; ++i) temp[i] = q.content[(head + i) % N]`, which every operation on more
  -- than one task runs.
  abbrev pub window : List A → ℕ → ℕ → List A
  window content h zero = []
  window content h (suc n) = get_or content (h % ring_size) nil ∷ window content (inc32 h) n

  -- `q.head.compare_exchange_strong(h, h + n)`
  abbrev pub cas_head : LockFreeQue A → ℕ → ℕ → Option (LockFreeQue A)
  cas_head q h n = if q.head == h then some (record q { head = add32 h n }) else none

  -- `__dequeue`: the answer is null, or the task with the queue behind it.
  pub dequeue_try : ℕ → LockFreeQue A → Option (Option A × LockFreeQue A)
  dequeue_try h q = if h == q.tail then some (none, q) else elim (cas_head q h 1) [
    | none ↦ none
    | some q' ↦ some (some (get_or q.content (h % ring_size) nil), q')
  ]

  -- `__enqueue(q, task, head, tail)`: the older half of a full ring and the task, for the global
  -- queue.
  pub spill_try : ℕ → LockFreeQue A → A → Option (LockFreeQue A × List A)
  spill_try h q task =
      let n = sub32 q.tail h / 2 in
      elim (cas_head q h n) [
        | none ↦ none
        | some q' ↦ some (q', window q.content h n ++ (task ∷ []))
      ]

  -- `__enqueue(q, task)`: the queue afterwards, and what went to the global queue.
  pub enqueue_try : ℕ → LockFreeQue A → A → Option (LockFreeQue A × List A)
  unfolding spill_try
  enqueue_try h q task =
      if ltb (sub32 q.tail h) ring_size
      then some
          (record q { content = set q.content (q.tail % ring_size) task; tail = inc32 q.tail }, [])
      else spill_try h q task

  -- `__grab` with the loaded `h` and `t`: the tasks that it copied out, and the victim's queue.
  pub grab_try : ℕ → ℕ → LockFreeQue A → Option (List A × LockFreeQue A)
  grab_try h t q =
      let n = grab_size (sub32 t h) in
      if n == 0
      then some ([], q)
      else if ltb (ring_size / 2) n
      then none
      else elim (cas_head q h n) [ none ↦ none | some q' ↦ some (window q.content h n, q') ]

  -- What `__steal` does with the tasks that it grabbed: it runs the last, and queues the others.
  pub share : List A → LockFreeQue A → LockFreeQue A → Stolen A
  unfolding append_all
  share [] me v = stole none me v
  share (x ∷ []) me v = stole (some x) me v
  share (x ∷ y ∷ ys) me v =
      let (rest, task) = split_last x (y ∷ ys) in
      let room = ltb (add32 (sub32 me.tail me.head) (length rest)) ring_size in
      if room then stole (some task) (append_all rest me) v else assert_failed

  -- `__steal` with the values `h` and `t` that `__grab` loads in its last round.
  pub steal_try : ℕ → ℕ → LockFreeQue A → LockFreeQue A → Option (Stolen A)
  unfolding grab_try share
  steal_try h t me victim = elim (grab_try h t victim) [
    | none ↦ none
    | some (xs, v) ↦ some (share xs me v)
  ]
