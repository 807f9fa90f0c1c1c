-- ===== src/LinkedQueue.antt =====
-- include/mola/queue.hpp: `ConcurrentLinkedQueue`, the lock-free queue of the global work. A step is
-- one access to shared memory by one thread. A node becomes visible to others when it is linked: it
-- gets its address then, the number of the nodes linked before it, and until then its thread holds
-- its item. No node is deleted before the queue. A crash is an access through a null pointer.
pub mod System
pub mod Invariant
pub mod Reading
pub mod Writing
pub mod Claiming
pub mod Linking
pub mod Order
pub mod Alone
mod Tests
use elastic_actor.Prelude.{ℕ, ◌+◌, Bool, true, false, Option, some, none, ltb, ◌==◌, if◌then◌else◌}

pub record Cell {ℓ} (A : Type ℓ) : Type ℓ where
  pub item : Option A
  pub next : Option ℕ

pub record Queue {ℓ} (A : Type ℓ) : Type ℓ where
  pub head : ℕ
  pub tail : ℕ
  pub count : ℕ
  pub node : ℕ → Cell A

-- `dequeue` and `first` start with the same accesses.
pub data Purpose : Type 0 where
  taking : Purpose
  looking : Purpose

-- Where a thread stands, with its local variables: `t` and `h` are the tail and the head that it has
-- read, `s` and `f` their next nodes.
pub data Thread {ℓ} (A : Type ℓ) : Type ℓ where
  idle : Thread A
  enqueued : Bool → Thread A
  dequeued : Option A → Thread A
  looked : Option ℕ → Thread A
  crashed : Thread A
  enqueue_again : A → Thread A
  enqueue_next : A → ℕ → Thread A
  enqueue_check : A → ℕ → Option ℕ → Thread A
  enqueue_link : A → ℕ → Thread A
  enqueue_help : A → ℕ → ℕ → Thread A
  enqueue_move : ℕ → ℕ → Thread A
  head_loop : Purpose → Thread A
  head_tail : Purpose → ℕ → Thread A
  head_next : Purpose → ℕ → ℕ → Thread A
  head_check : Purpose → ℕ → ℕ → Option ℕ → Thread A
  head_help : Purpose → ℕ → ℕ → Thread A
  claim : ℕ → Option ℕ → Thread A
  read_item : ℕ → Thread A
  reset_item : ℕ → A → Thread A
  look_item : ℕ → Option ℕ → Thread A
  skip : ℕ → ℕ → Thread A

module _ {ℓ} {A : Type ℓ} where
  unfoldable pub empty_queue : Queue A
  empty_queue = record {
    head = 0;
    tail = 0;
    count = 1;
    node = λ i. record { item = none; next = none };
  }

  -- The calls; an item may be a null pointer.
  unfoldable pub start_enqueue : Option A → Thread A
  start_enqueue none = enqueued false
  start_enqueue (some x) = enqueue_again x

  unfoldable pub start_head : Purpose → Thread A
  start_head o = head_loop o

  unfoldable pub set_node : ℕ → Cell A → Queue A → Queue A
  set_node a n q = record q { node = λ i. if i == a then n else q.node i }

  -- `m_tail.compare_exchange_strong(t, s)` and the same for `m_head`.
  unfoldable pub cas_tail : ℕ → ℕ → Queue A → Queue A
  cas_tail t s q = if q.tail == t then record q { tail = s } else q

  -- A new node with the item, behind `t`.
  unfoldable pub link : A → ℕ → Queue A → Queue A
  unfolding set_node
  link x t q =
      let linked = set_node t (record (q.node t) { next = some q.count }) q in
      record (set_node q.count (record { item = some x; next = none }) linked) {
        count = q.count + 1;
      }

  -- An access to the node `a`, which crashes when there is none.
  unfoldable pub access : ℕ → Queue A → (Cell A → Thread A × Queue A) → Thread A × Queue A
  access a q f = if ltb a q.count then f (q.node a) else (crashed, q)

  unfoldable pub cas_next : A → ℕ → Queue A → Cell A → Thread A × Queue A
  unfolding link
  cas_next x t q n = elim n.next [
    | none ↦ (enqueue_move t q.count, link x t q)
    | some s ↦ (enqueue_again x, q)
  ]

  -- After `if (t == m_tail.load())`.
  unfoldable pub at_tail : A → ℕ → Option ℕ → Thread A
  at_tail x t none = enqueue_link x t
  at_tail x t (some s) = enqueue_help x t s

  -- After `if (h == m_head.load())`, for a queue that looks empty, and for another one.
  unfoldable pub at_same : Purpose → ℕ → Option ℕ → Thread A
  at_same taking t none = dequeued none
  at_same looking t none = looked none
  at_same o t (some f) = head_help o t f

  unfoldable pub inside : Purpose → ℕ → Option ℕ → Thread A
  inside taking h f = claim h f
  inside looking h f = look_item h f

  unfoldable pub claimed : Option ℕ → Queue A → Thread A × Queue A
  claimed none q = (crashed, q)
  claimed (some f) q = (read_item f, record q { head = f })

  unfoldable pub got_item : ℕ → Option A → Thread A
  got_item f none = head_loop taking
  got_item f (some x) = reset_item f x

  unfoldable pub saw_item : ℕ → ℕ → Option A → Thread A
  saw_item h f none = skip h f
  saw_item h f (some x) = looked (some f)

  -- One access of a thread.
  unfoldable pub step : Thread A → Queue A → Thread A × Queue A
  unfolding cas_tail access cas_next at_tail at_same inside claimed got_item saw_item set_node
  step (enqueue_again x) q = (enqueue_next x q.tail, q)
  step (enqueue_next x t) q = access t q (λ n. (enqueue_check x t n.next, q))
  step (enqueue_check x t s) q = (if q.tail == t then at_tail x t s else enqueue_again x, q)
  step (enqueue_link x t) q = access t q (cas_next x t q)
  step (enqueue_help x t s) q = (enqueue_again x, cas_tail t s q)
  step (enqueue_move t n) q = (enqueued true, cas_tail t n q)
  step (head_loop o) q = (head_tail o q.head, q)
  step (head_tail o h) q = (head_next o h q.tail, q)
  step (head_next o h t) q = access h q (λ n. (head_check o h t n.next, q))
  step (head_check o h t f) q =
      (if q.head == h then (if h == t then at_same o t f else inside o h f) else head_loop o, q)
  step (head_help o t f) q = (head_loop o, cas_tail t f q)
  step (claim h f) q = if q.head == h then claimed f q else (head_loop taking, q)
  step (read_item f) q = access f q (λ n. (got_item f n.item, q))
  step (reset_item f x) q =
      access f q (λ n. (dequeued (some x), set_node f (record n { item = none }) q))
  step (look_item h none) q = (crashed, q)
  step (look_item h (some f)) q = access f q (λ n. (saw_item h f n.item, q))
  step (skip h f) q = (head_loop looking, if q.head == h then record q { head = f } else q)
  step thread q = (thread, q)
