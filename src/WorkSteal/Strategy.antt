-- ===== src/WorkSteal/Strategy.antt =====
-- `WorkStealStrategy` and `LockFreeStrategy` of include/mola/work_steal.hpp: the rings of all threads,
-- the global queue, and the counters by which workers decide whether to look for work. The threads
-- take turns: a call runs with the `head` that it loads.
pub mod Counts
use elastic_actor.Prelude.{
  ℕ, zero, suc, ◌+◌, ◌-◌, ◌*◌, ◌%◌, ◌^◌, Bool, true, false, ◌&&◌, List, [], ◌∷◌, ◌++◌, Option, none,
  some, ltb, ◌==◌, if◌then◌else◌, get_or, set, length, inc32, dec32, sub32,
}
use elastic_actor.WorkSteal.{LockFreeQue, dequeue_try, enqueue_try, steal_try, stole, assert_failed}

pub record Pool {ℓ} (A : Type ℓ) : Type ℓ where
  pub queues : List (LockFreeQue A)
  pub global : List A
  pub global_num : ℕ
  pub workers_num : ℕ
  pub total_thr_num : ℕ
  pub total_jobs : ℕ
  pub sleep_num : ℕ

-- `WAKEUP_FACTOR(N)` is 1.
abbrev pub factor : ℕ
factor = 1

-- Where one round of the loop of `dequeue` leaves its worker.
pub data Round {ℓ} (A : Type ℓ) : Type ℓ where
  found : A → Pool A → Round A
  again : Pool A → Round A
  wait : Pool A → Round A
  wait_10ms : Pool A → Round A

module _ {ℓ} {A : Type ℓ} where
  -- The flag says whether a sleeping worker is notified.
  pub wakeup : Pool A → Pool A × Bool
  wakeup p =
      let jobs = inc32 p.total_jobs in
      let busy = sub32 p.workers_num p.sleep_num in
      (record p { total_jobs = jobs }, ltb busy p.workers_num && ltb (factor * busy) jobs)

  -- `__global_enqueue`
  pub global_append : List A → Pool A → Pool A
  global_append tasks p = record p {
    global = p.global ++ tasks;
    global_num = (p.global_num + length tasks) % 2 ^ 64;
  }

  pub global_enqueue : A → Pool A → Pool A × Bool
  unfolding global_append wakeup
  global_enqueue task p = wakeup (global_append (task ∷ []) p)

  -- `m_global_queue.front()` behind both tests for an empty queue.
  pub pop_global : List A → Pool A → Option A × Pool A
  pop_global [] p = (none, p)
  pop_global (task ∷ rest) p =
      (some task, record p { global = rest; global_num = (p.global_num + 2 ^ 64 - 1) % 2 ^ 64 })

  pub global_dequeue : Pool A → Option A × Pool A
  unfolding pop_global
  global_dequeue p = if p.global_num == 0 then (none, p) else pop_global p.global p

  abbrev pub fresh_ring : LockFreeQue A
  fresh_ring = record { head = 0; tail = 0; content = [] }

  abbrev pub ring : Pool A → ℕ → LockFreeQue A
  ring p id = get_or p.queues id fresh_ring

module _ {ℓ} {A : Type ℓ} (nil : A) where
  -- `enqueue(int id, WorkItem *task)`
  pub enqueue_at : ℕ → A → Pool A → Option (Pool A × Bool)
  unfolding global_append wakeup
  enqueue_at id task p = elim (enqueue_try nil (ring p id).head (ring p id) task) [
    | none ↦ none
    | some (q, spilled) ↦
        some (wakeup (global_append spilled (record p { queues = set p.queues id q })))
  ]

  -- `enqueue(AbsolateWorker *worker, WorkItem *task)`: a thread that is no worker has no ring.
  pub enqueue : Option ℕ → A → Pool A → Option (Pool A × Bool)
  unfolding enqueue_at global_enqueue
  enqueue none task p = some (global_enqueue task p)
  enqueue (some id) task p = enqueue_at id task p

  -- `dequeue(int id)`
  unfoldable pub dequeue_at : ℕ → Pool A → Option (Option A × Pool A)
  dequeue_at id p = elim (dequeue_try nil (ring p id).head (ring p id)) [
    | none ↦ none
    | some (task, q) ↦ some (task, record p { queues = set p.queues id q })
  ]

  -- `steal(int id, int victim)`; the assertion of `__steal` ends the program.
  pub steal : ℕ → ℕ → Pool A → Option (Option A × Pool A)
  steal me victim p =
      let v = ring p victim in
      elim (steal_try nil v.head v.tail (ring p me) v) [
        | none ↦ none
        | some assert_failed ↦ none
        | some (stole task me' v') ↦
            some (task, record p { queues = set (set p.queues me me') victim v' })
      ]

  -- `victim = random() % total; while (victim == id) …`: the first drawn victim that is not `id`, and
  -- the draws behind it.
  pub pick_victim : ℕ → ℕ → List ℕ → Option (ℕ × List ℕ)
  pick_victim id total [] = none
  pick_victim id total (r ∷ rs) =
      if r % total == id then pick_victim id total rs else some (r % total, rs)

  -- `for (i = 0; i < m_total_thr_num-1; ++i)` over the draws of `worker->random()`.
  pub try_victims : ℕ → ℕ → List ℕ → Pool A → Option A × Pool A
  unfolding pick_victim steal
  try_victims zero id rs p = (none, p)
  try_victims (suc k) id rs p = elim (pick_victim id p.total_thr_num rs) [
    | none ↦ (none, p)
    | some (victim, rest) ↦ elim (steal id victim p) [
      | none ↦ (none, p)
      | some (none, p') ↦ try_victims k id rest p'
      | some (some task, p') ↦ (some task, p')
    ]
  ]

  -- Behind `__exit`.
  abbrev pub finish : A → Pool A → Round A
  finish task p = found task (record p { total_jobs = dec32 p.total_jobs })

  -- The tests by which a worker that found nothing tries again or goes to sleep.
  pub before_sleep : Pool A → Round A
  before_sleep p =
      let busy = sub32 p.workers_num p.sleep_num in
      let sleepers = inc32 p.sleep_num in
      if ltb (factor * busy) p.total_jobs
      then again p
      else if ltb sleepers p.workers_num
      then wait (record p { sleep_num = sleepers })
      else if p.total_jobs == 0
      then wait_10ms (record p { sleep_num = sleepers })
      else again p

  -- The round behind the attempts to steal.
  pub after_victims : Option A × Pool A → Round A
  unfolding before_sleep
  after_victims (some task, p) = finish task p
  after_victims (none, p) = before_sleep p

  -- The round behind the look at the global queue.
  pub after_global : ℕ → List ℕ → Option A × Pool A → Round A
  unfolding try_victims after_victims
  after_global id rs (some task, p) = finish task p
  after_global id rs (none, p) =
      if p.total_thr_num == 1
      then again p
      else after_victims (try_victims (p.total_thr_num - 1) id rs p)

  -- One round of `while (1)` in `dequeue(Worker*)`.
  pub round : ℕ → List ℕ → Pool A → Round A
  unfolding global_dequeue after_global
  round id rs p =
      if ltb 0 p.total_jobs then after_global id rs (global_dequeue p) else before_sleep p
