-- ===== src/SafeQueue.antt =====
-- include/mola/queue.hpp: `ThreadSafeQueue`. Its operations hold the lock throughout, so that each is
-- one step; the check that `dequeue` makes before it takes the lock has the outcome of the one under
-- the lock. `m_head` owns the chain of nodes, which is a list, and `m_tail` is the address of one.
pub mod Order
pub mod Runs
mod Tests
use elastic_actor.Prelude.{
  ℕ, ◌+◌, ◌-◌, ◌%◌, ◌^◌, Option, none, some, List, [], ◌∷◌, ◌==◌, if◌then◌else◌,
}

-- `m_num`, a `size_t` of 64 bits.
abbrev pub inc64 : ℕ → ℕ
inc64 n = (n + 1) % 2 ^ 64

abbrev pub dec64 : ℕ → ℕ
dec64 n = (n + 2 ^ 64 - 1) % 2 ^ 64

-- `node`, with its address; `next` is the rest of the list.
pub record QueueNode {ℓ} (T : Type ℓ) : Type ℓ where
  pub addr : ℕ
  pub value : T

-- `ThreadSafeQueue`
pub record Queue {ℓ} (T : Type ℓ) : Type ℓ where
  pub head : List (QueueNode T)
  pub tail : Option ℕ
  pub num : ℕ

module _ {ℓ} {T : Type ℓ} where
  abbrev pub no_items : Queue T
  no_items = record { head = []; tail = none; num = 0 }

  -- `m_tail->next = ptr`, which frees what the node at `t` had behind it; `none` is a pointer to no
  -- node of the chain.
  unfoldable pub append_at : ℕ → QueueNode T → List (QueueNode T) → Option (List (QueueNode T))
  append_at t n [] = none
  append_at t n (x ∷ xs) =
      let rest = append_at t n xs in
      if x.addr == t then some (x ∷ n ∷ []) else elim rest [ none ↦ none | some ys ↦ some (x ∷ ys) ]

  -- `enqueue`, with the node that it allocates; `none` is a fault.
  unfoldable pub enqueue : QueueNode T → Queue T → Option (Queue T)
  enqueue n q =
      if q.num == 0
      then some (record { head = n ∷ []; tail = some n.addr; num = inc64 q.num })
      else elim q.tail [
        | none ↦ none
        | some t ↦ elim (append_at t n q.head) [
          | none ↦ none
          | some h ↦ some (record { head = h; tail = some n.addr; num = inc64 q.num })
        ]
      ]

  -- `dequeue`, where `some (none, q)` is the null pointer and `none` a fault.
  unfoldable pub dequeue : Queue T → Option (Option T × Queue T)
  dequeue q = if q.num == 0 then some (none, q) else elim q.head [
    | [] ↦ none
    | x ∷ rest ↦ some (
      some x.value,
      record { head = rest; tail = if dec64 q.num == 0 then none else q.tail; num = dec64 q.num },
    )
  ]
