-- ===== src/Stream/Sending.antt =====
-- What reaches the socket from the mailbox of a `StreamHandler`, include/mola/event_handler.hpp.
use elastic_actor.Prelude.{
  ℕ, ◌+◌, ◌-◌, ◌≤◌, ◌≡◌, true, false, List, [], ◌∷◌, none, some, ltb, arith, if◌then◌else◌,
}
use elastic_actor.Mailbox.Close.{close}
use elastic_actor.Stream.Writing.{
  OutBuffer-Item, Writer, WriteResult, Written, lost, undefined, crashed, room, again, write_error,
  buffer, fetch, taken, idle, handle_write,
}
use elastic_actor.Stream.Pending.{IsReady}

-- A write of `n` bytes of the buffer at hand.
module _ (w : Writer) (r : IsReady w) (b : List ℕ) (l : List (List ℕ)) (e : w.wr_buf ≡ some (b, l))
    (n : ℕ) where
  abbrev after : ℕ
  after = w.written + n

taken-le : (n left : ℕ) → taken n left ≤ left
taken-le n left = ground arith

-- `close` after an error of the socket.
abbrev closing : Writer → Written
closing w = elim (close 1 w.mbox) [
  | some (m, c) ↦ if c.read_freed then undefined else lost (record w { mbox = m })
  | none ↦ crashed
]

fetch-linked :
    (w : Writer) (b : List ℕ) (l : List (List ℕ)) → w.wr_buf ≡ some (b, l) → fetch w ≡ buffer b l w
unfolding fetch
fetch-linked w b l e = ground arith

-- No answer is an error other than EAGAIN.
abbrev pub NoError : List WriteResult → Type 0
NoError [] = Unit
NoError (write_error ∷ rs) = true ≡ false
NoError (_ ∷ rs) = NoError rs

-- A buffer of size 0 is never passed: while it is at hand, a write event leaves everything as it is,
-- however much room the socket has and whatever waits behind it.
pub handle_write-stuck :
    (rs : List WriteResult) (w : Writer) (l : List (List ℕ))
    → w.wr_buf ≡ some ([], l)
    → NoError rs
    → handle_write rs w ≡ idle w
unfolding handle_write
handle_write-stuck [] w l e ok = simp (fetch-linked w [] l e, handle_write)
handle_write-stuck (again ∷ rs) w l e ok = simp (fetch-linked w [] l e, handle_write)
handle_write-stuck (write_error ∷ rs) w l e ok = absurd (ground arith)
handle_write-stuck (room k ∷ rs) w l e ok =
    let nothing_taken : ltb 0 (taken k (0 - w.written)) ≡ false =
      ground (arith, taken-le k (0 - w.written)) in
    simp (fetch-linked w [] l e, handle_write, nothing_taken)
