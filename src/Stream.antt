-- ===== src/Stream.antt =====
-- include/mola/event_handler.hpp: how a `StreamHandler` reads. What a `StreamManager` does with a full
-- buffer, and the size of the next one, are the interface that a receiver fills.
pub mod Reading
pub mod Packages
pub mod RoundTrip
pub mod Writing
pub mod Pending
pub mod Sending
pub mod Gateway
pub mod Messages
mod Tests
use elastic_actor.Prelude.{
  ℕ, zero, suc, ◌-◌, Bool, true, false, List, [], ◌∷◌, ◌++◌, Option, none, some, ◌==◌,
  if◌then◌else◌, length,
}

-- `StreamManager`, with the state of the receiver; `none` is a failed assertion, or no buffer.
pub record StreamManager (S : Type 0) : Type 0 where
  pub get_buffer : S → Option (ℕ × S)
  pub consume : List ℕ → S → Option S
  pub io_failure : S → S

-- The reading half of `StreamHandler`: `m_reader`, the size of `m_rd_buf` and its first `m_collected`
-- bytes.
pub record Handler (S : Type 0) : Type 0 where
  pub reader : S
  pub size : ℕ
  pub collected : List ℕ

-- What `::read` answers: bytes, 0 at the end of the stream, EAGAIN or another error.
pub data ReadResult : Type 0 where
  got : List ℕ → ReadResult
  end_of_stream again read_error : ReadResult

-- What `handle_event(READ)` leaves: it returns true, or false, and the handler may be taken out of its
-- multiplexer.
pub data Handled (S : Type 0) : Type 0 where
  goes_on : Handler S → Handled S
  waits : Handler S → Handled S
  removed : Handler S → Handled S
  crashed : Handled S

module _ {S : Type 0} (m : StreamManager S) where
  -- `start`, and `read_loop`
  unfoldable pub read_loop : S → Option (Handler S)
  read_loop s = elim (m.get_buffer s) [
    | none ↦ none
    | some (n, s') ↦ some (record { reader = s'; size = n; collected = [] })
  ]

  -- The bytes that were read.
  unfoldable pub collect : List ℕ → Handler S → Option (Handler S)
  unfolding read_loop
  collect bytes h =
      let all = h.collected ++ bytes in
      if length all == h.size
      then elim (m.consume all h.reader) [ none ↦ none | some s ↦ read_loop s ]
      else some (record h { collected = all })

  -- The case READ of `handle_event`.
  unfoldable pub handle_read : ReadResult → Handler S → Handled S
  unfolding collect
  handle_read (got []) h = removed (record h { reader = m.io_failure h.reader })
  handle_read (got (x ∷ xs)) h = elim (collect (x ∷ xs) h) [ none ↦ crashed | some h' ↦ goes_on h' ]
  handle_read end_of_stream h = removed (record h { reader = m.io_failure h.reader })
  handle_read read_error h = removed (record h { reader = m.io_failure h.reader })
  handle_read again h = waits h

  -- One event after the other, as long as bytes arrive; an event that finds none changes nothing.
  unfoldable pub handle_all : List ReadResult → Handler S → Handled S
  unfolding handle_read
  handle_all [] h = waits h
  handle_all (r ∷ rs) h = elim (handle_read r h) [
    | goes_on h' ↦ handle_all rs h'
    | waits h' ↦ handle_all rs h'
    | removed h' ↦ removed h'
    | crashed ↦ crashed
  ]
