-- ===== src/Stream/Packages.antt =====
-- src/network.cpp: `BuiltinReceiver`, which reads packages, a header and a body by turns, and the
-- default protocol `_mola_default_proto`. A delivered package is what the task that is put into the
-- workers' queue carries; whether the client is disabled does not change meanwhile.
use elastic_actor.Prelude.{
  ℕ, zero, suc, ◌+◌, ◌*◌, ◌/◌, ◌%◌, Bool, false, List, [], ◌∷◌, ◌++◌, Option, none, some, ltb, ◌==◌,
  if◌then◌else◌, length,
}
use elastic_actor.Stream.{StreamManager}

-- `mola_proto_t`, without its context.
pub record Proto : Type 0 where
  pub header_size : ℕ
  pub body_size : List ℕ → Option ℕ
  pub make_buffer : List ℕ → List ℕ

pub data ReceiverState : Type 0 where
  get_len get_buf : ReceiverState

-- `BuiltinReceiver`, with what it has delivered.
pub record Receiver : Type 0 where
  pub state : ReceiverState
  pub len : ℕ
  pub disabled : Bool
  pub delivered : List (List ℕ)

-- `BuiltinReceiver::BuiltinReceiver`
abbrev pub new_receiver : Receiver
new_receiver = record { state = get_len; len = 0; disabled = false; delivered = [] }

module _ (p : Proto) where
  -- The `switch` of `consume`, behind its assertion; `none` is a failed assertion of the protocol.
  unfoldable pub consume_in : ReceiverState → List ℕ → Receiver → Option Receiver
  consume_in get_len buf r = elim (p.body_size buf) [
    | none ↦ none
    | some n ↦ some (record r { len = n; state = if ltb 0 n then get_buf else get_len })
  ]
  consume_in get_buf buf r = some (record r {
    state = get_len;
    delivered = if r.disabled then r.delivered else r.delivered ++ (buf ∷ []);
  })

  -- `BuiltinReceiver::consume`
  unfoldable pub consume : List ℕ → Receiver → Option Receiver
  unfolding consume_in
  consume buf r = if r.len == length buf then consume_in r.state buf r else none

  unfoldable pub buffer_in : ReceiverState → Receiver → Option (ℕ × Receiver)
  buffer_in get_len r =
      if ltb 0 p.header_size then some (p.header_size, record r { len = p.header_size }) else none
  buffer_in get_buf r = if ltb 0 r.len then some (r.len, r) else none

  -- `BuiltinReceiver::get_buffer`
  unfoldable pub get_buffer : Receiver → Option (ℕ × Receiver)
  unfolding buffer_in
  get_buffer r = buffer_in r.state r

  abbrev pub builtin_receiver : StreamManager Receiver
  builtin_receiver = record { get_buffer = get_buffer; consume = consume; io_failure = λ r. r }

-- A `size_t` as a little-endian machine lays it out, and back.
abbrev pub word_bytes : ℕ → ℕ → List ℕ
word_bytes zero x = []
word_bytes (suc n) x = x % 256 ∷ word_bytes n (x / 256)

abbrev pub word_of : List ℕ → ℕ
word_of [] = 0
word_of (b ∷ bs) = b + 256 * word_of bs

-- `_simple_get_body_size` asserts the size of the header.
unfoldable pub simple_body_size : List ℕ → Option ℕ
simple_body_size header = if length header == 8 then some (word_of header) else none

-- `_simple_make_buffer`
unfoldable pub simple_make_buffer : List ℕ → List ℕ
simple_make_buffer body = word_bytes 8 (length body) ++ body

-- `_mola_default_proto`
abbrev pub default_proto : Proto
default_proto = record {
  header_size = 8;
  body_size = simple_body_size;
  make_buffer = simple_make_buffer;
}
