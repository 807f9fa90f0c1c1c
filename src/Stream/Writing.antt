-- ===== src/Stream/Writing.antt =====
-- include/mola/event_handler.hpp: how a `StreamHandler` writes what `async_write` puts into its mailbox.
-- A buffer carries the bytes of the buffers that are linked to it. The socket is a list of answers,
-- one for each `::write`; behind the last one it takes nothing more for now.
use elastic_actor.Prelude.{
  ℕ, ◌+◌, ◌-◌, Bool, true, false, List, [], ◌∷◌, ◌++◌, Option, none, some, ltb, ◌==◌, if◌then◌else◌,
  length, take, drop,
}
use elastic_actor.Mailbox.{
  Item, Mailbox, Dequeued, dequeue, is_blocked, try_block, enqueue, failure, unblocked, success,
}
use elastic_actor.Mailbox.Close.{close}

-- `StreamBuffer`, with the contents of the chain of `m_link`.
pub record OutBuffer : Type 0 where
  pub addr : ℕ
  pub bytes : List ℕ
  pub link : List (List ℕ)

-- `SinglePriority`
instance abbrev pub OutBuffer-Item : Item OutBuffer
OutBuffer-Item = record { addr = λ b. b.addr; priority = λ b. 0 }

-- The writing half of `StreamHandler`: `m_wr_buf` with what is linked to it, and what the socket got.
pub record Writer : Type 0 where
  pub mbox : Mailbox OutBuffer
  pub wr_buf : Option (List ℕ × List (List ℕ))
  pub written : ℕ
  pub wire : List ℕ

-- The socket has room for some bytes, or answers with EAGAIN or another error.
pub data WriteResult : Type 0 where
  room : ℕ → WriteResult
  again write_error : WriteResult

-- `while (m_wr_buf.get() == nullptr)`: a buffer, an empty mailbox, or another round of the loop.
pub data Fetched : Type 0 where
  buffer : List ℕ → List (List ℕ) → Writer → Fetched
  nothing_left : Writer → Fetched
  spins fault : Fetched

unfoldable pub fetch : Writer → Fetched
fetch w = elim w.wr_buf [
  | some (b, l) ↦ buffer b l w
  | none ↦ elim (dequeue 1 w.mbox) [
    | some (Dequeued.item x m) ↦
        buffer x.bytes x.link (record w { mbox = m; wr_buf = some (x.bytes, x.link) })
    | some (Dequeued.nothing m) ↦
        if is_blocked m then nothing_left (record w { mbox = m }) else elim (try_block m) [
          | some (true, m') ↦ nothing_left (record w { mbox = m' })
          | some (false, m') ↦ spins
          | none ↦ fault
        ]
    | _ ↦ fault
  ]
]

-- `m_wr_buf->get_link()`
abbrev pub next_link : List (List ℕ) → Option (List ℕ × List (List ℕ))
next_link [] = none
next_link (b ∷ l) = some (b, l)

-- What `::write` takes of the bytes that are left.
abbrev pub taken : ℕ → ℕ → ℕ
taken n left = if ltb n left then n else left

-- `handle_event(WRITE)` returns false; after an error the handler is taken out of the multiplexer and
-- its mailbox is closed; `undefined` is a `close` that has read a freed node.
pub data Written : Type 0 where
  idle : Writer → Written
  lost : Writer → Written
  undefined loops crashed : Written

-- The state after `::write` has taken `n` bytes of `b`, before the next buffer is looked for.
abbrev pub wrote : ℕ → List ℕ → Writer → Writer
wrote n b w = record w { written = w.written + n; wire = w.wire ++ take n (drop w.written b) }

-- `write_loop`
abbrev pub write_loop : List (List ℕ) → Writer → Writer
write_loop l w = record w { written = 0; wr_buf = next_link l }

-- The case WRITE of `handle_event`, under its lock.
unfoldable pub handle_write : List WriteResult → Writer → Written
unfolding fetch
handle_write [] w = elim (fetch w) [
  | buffer b l w' ↦ idle w'
  | nothing_left w' ↦ idle w'
  | spins ↦ loops
  | fault ↦ crashed
]
handle_write (r ∷ rs) w = elim (fetch w) [
  | buffer b l w' ↦ elim r [
    | room k ↦
        let n = taken k (length b - w'.written) in
        let again_round = handle_write rs (write_loop l (wrote n b w')) in
        if ltb 0 n
        then if w'.written + n == length b then again_round else idle (wrote n b w')
        else idle w'
    | again ↦ idle w'
    | write_error ↦ elim (close 1 w'.mbox) [
      | some (m, c) ↦ if c.read_freed then undefined else lost (record w' { mbox = m })
      | none ↦ crashed
    ]
  ]
  | nothing_left w' ↦ idle w'
  | spins ↦ loops
  | fault ↦ crashed
]

-- `async_write`, when it finds the mailbox blocked: `while (handle_event(Operation::WRITE));`. A buffer
-- that a closed mailbox refuses is deleted.
unfoldable pub async_write : List WriteResult → OutBuffer → Writer → Option (Bool × Written)
unfolding handle_write
async_write rs b w = elim (enqueue b w.mbox) [
  | none ↦ none
  | some (failure, m) ↦ some (false, idle (record w { mbox = m }))
  | some (unblocked, m) ↦ some (true, handle_write rs (record w { mbox = m }))
  | some (success, m) ↦ some (true, idle (record w { mbox = m }))
]
