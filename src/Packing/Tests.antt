-- ===== src/Packing/Tests.antt =====
-- User messages at concrete contents: a type that packs a list of bytes behind its length.
use elastic_actor.Prelude.{
  ℕ, ◌+◌, ◌≡◌, ◌≢◌, true, false, List, [], ◌∷◌, ◌++◌, take, ap, Option, none, some, ◌==◌,
  if◌then◌else◌, length, arith, refl, replicate, length-replicate,
}
use elastic_actor.ActorId.{ActorId}
use elastic_actor.Future.{Refcnt}
use elastic_actor.Message.{Metadata, type_stream, type_user_normal}
use elastic_actor.Packing.{
  Vtab, UserHeap, Wrapper, nothing, message, stream, packed, alloc, copy_of, message_cow, serialize,
  deserialize, pack_into,
}
use elastic_actor.Packing.Delivery.{Packed, one_packed, none_packed, Unpacks, contents-arrive}
use elastic_actor.ActorId.{is_local}
use elastic_actor.Message.{metatole}
use elastic_actor.Message.Endian.{image, read_le}
use elastic_actor.Stream.{ReadResult, got, again, waits, collect, handle_all, read_loop}
use elastic_actor.Stream.Reading.{IsOpen}
use elastic_actor.Stream.Gateway.{gateway, outgoing, consume_in, buffer_in}
use elastic_actor.Stream.Messages.{Sent, at_head, htonl, accepted}
use elastic_actor.Packing.Copying.{content, message_cow-private}
use elastic_actor.Packing.Wire.{serialize-deserialize}

-- The length in front, and room for one byte more than is needed.
abbrev pack_counted : List ℕ → List ℕ
pack_counted d = length d ∷ d

abbrev unpack_counted : List ℕ → Option (List ℕ)
unpack_counted [] = none
unpack_counted (n ∷ xs) = some (take n xs)

take-counted : (d behind : List ℕ) → take (length d) (d ++ behind) ≡ d
take-counted [] behind = refl
take-counted (x ∷ d) behind = ap (λ l. x ∷ l) (take-counted d behind)

unpack-counted : (d behind : List ℕ) → unpack_counted (pack_counted d ++ behind) ≡ some d
unpack-counted d behind = ap some (take-counted d behind)

abbrev counted : Vtab (List ℕ)
counted = record {
  copy_content = none;
  pack_size = λ d. length d + 2;
  pack = pack_counted;
  unpack = some unpack_counted;
}

abbrev zeros : ℕ → List ℕ
zeros n = replicate n 0

abbrev text : Refcnt (List ℕ)
text = record { count = 2; object = 1 ∷ 2 ∷ [] }

abbrev memory : UserHeap (List ℕ)
memory = record { at = λ b. if b == 3 then some text else none; fresh = 4 }

abbrev nowhere : ActorId
nowhere = record { node_id = 0; module_id = 0; intf_id = 0; inst_id = 0 }

abbrev header : Metadata
header = record {
  type = 1;
  data_type = type_user_normal;
  size = 0;
  sender = nowhere;
  target = nowhere;
  reqid = 0;
}

message_cow-private_example :
    (a' : ℕ) × (h' : UserHeap (List ℕ)) × (message_cow counted 3 memory ≡ some (a', h'))
    × (h'.at a' ≡ some (record { count = 1; object = 1 ∷ 2 ∷ [] }))
    × ((b : ℕ) → b ≢ a' → content h' b ≡ content memory b)
unfolding copy_of
message_cow-private_example =
    message_cow-private counted 3 text memory refl (omega arith) (omega arith) refl

serialize-deserialize_example :
    (bytes : List ℕ) × (sent : Wrapper (List ℕ)) × (h' : UserHeap (List ℕ)) × (serialize zeros
        counted false
        (record { meta = header; held = message 3 })
        memory
      ≡ some ((true, packed bytes, 4), sent, h'))
    × (length bytes ≡ 4)
    × (sent.held ≡ nothing)
    × ((arrived : Metadata) (g : UserHeap (List ℕ))
        → arrived.data_type ≡ type_stream
        → arrived.size ≡ 4
        → deserialize counted (record { meta = arrived; held = stream (packed bytes) }) g
          ≡ some (
            g.fresh,
            record { meta = record arrived { data_type = type_user_normal }; held = nothing },
            (alloc (1 ∷ 2 ∷ []) g).1,
          ))
serialize-deserialize_example =
    serialize-deserialize zeros counted unpack_counted false header 3 text memory
      (λ n. length-replicate n 0) refl (λ d. omega arith) unpack-counted refl refl (omega arith)

-- A message of node 3 to node 9; the reads cut its header.
abbrev one_message : List (Metadata × List ℕ)
one_message = (header, 104 ∷ 105 ∷ []) ∷ []

abbrev one_sent : List Sent
one_sent = (header, 2 ∷ 104 ∷ 105 ∷ 0 ∷ []) ∷ []

one_sent-Packed : Packed zeros counted one_message one_sent
unfolding pack_into
one_sent-Packed = one_packed header (104 ∷ 105 ∷ []) (2 ∷ 104 ∷ 105 ∷ 0 ∷ []) [] [] refl none_packed

abbrev session : List ReadResult
session =
    got (htonl 3)
    ∷ got (1 ∷ 0 ∷ [])
    ∷ again
    ∷ got (
        3 ∷ 0 ∷ 4 ∷ 0 ∷ 0 ∷ 0 ∷ 3 ∷ 0 ∷ 0 ∷ 0 ∷ 0 ∷ 0 ∷ 0 ∷ 0 ∷ 0 ∷ 0 ∷ 0 ∷ 0 ∷ 9 ∷ 0 ∷ 0 ∷ 0 ∷ 0
        ∷ 0 ∷ 0 ∷ 0 ∷ 0 ∷ 0 ∷ 0 ∷ 0 ∷ 0 ∷ 0 ∷ 0 ∷ 0 ∷ [])
    ∷ got (2 ∷ 104 ∷ 105 ∷ 0 ∷ [])
    ∷ []

session-IsOpen : IsOpen (gateway 9) session (accepted 4294967295)
unfolding IsOpen collect read_loop consume_in buffer_in read_le is_local
session-IsOpen = omega arith

contents-arrive_example :
    (delivered : List Sent) × (handle_all (gateway 9) session (accepted 4294967295)
      ≡ waits (at_head 3 9 3 delivered))
    × Unpacks counted one_message delivered
unfolding outgoing image metatole
contents-arrive_example =
    contents-arrive zeros counted unpack_counted 3 9 4294967295 one_message one_sent session refl
      (λ d. omega arith) unpack-counted (omega arith) (omega arith) one_sent-Packed (omega arith)
      session-IsOpen refl
