-- ===== src/Stream/Tests.antt =====
-- Reads of include/mola/event_handler.hpp and packages of src/network.cpp at concrete inputs.
use elastic_actor.Prelude.{none, map, ℕ, ◌≡◌, refl, arith, List, [], ◌∷◌, some}
use elastic_actor.Stream.{ReadResult, got, again, Handler, waits, collect, handle_all, read_loop}
use elastic_actor.ActorId.{ActorId, is_local}
use elastic_actor.Message.{Metadata, metatole}
use elastic_actor.Message.Endian.{image, read_le}
use elastic_actor.Stream.Gateway.{gateway, consume_in, buffer_in, outgoing}
use elastic_actor.Stream.Messages.{Sent, arrived, at_head, accepted, htonl, messages-arrive}
use elastic_actor.Mailbox.{chain}
use elastic_actor.Stream.Writing.{OutBuffer, OutBuffer-Item, Writer, room, idle, handle_write}
use elastic_actor.Stream.Sending.{handle_write-stuck}
use elastic_actor.Stream.Reading.{IsOpen}
use elastic_actor.Stream.Packages.{
  Receiver, builtin_receiver, consume, get_buffer, simple_body_size, simple_make_buffer,
  default_proto, new_receiver,
}
use elastic_actor.Stream.RoundTrip.{between, default_proto-IsProto, packages-arrive}

-- The packages "hi" and "x", in three reads with an event that finds nothing.
abbrev two_bodies : List (List ℕ)
two_bodies = (104 ∷ 105 ∷ []) ∷ (120 ∷ []) ∷ []

abbrev cut_up : List ReadResult
cut_up =
    got (2 ∷ 0 ∷ 0 ∷ [])
    ∷ again
    ∷ got (0 ∷ 0 ∷ 0 ∷ 0 ∷ 0 ∷ [])
    ∷ got (104 ∷ 105 ∷ [])
    ∷ got (1 ∷ 0 ∷ 0 ∷ 0 ∷ 0 ∷ 0 ∷ 0 ∷ 0 ∷ [])
    ∷ got (120 ∷ [])
    ∷ []

abbrev begun : Handler Receiver
begun = between default_proto default_proto-IsProto []

begun-IsOpen : IsOpen (builtin_receiver default_proto) cut_up begun
unfolding IsOpen collect read_loop consume get_buffer simple_body_size
begun-IsOpen = omega arith

packages-arrive_example :
    handle_all (builtin_receiver default_proto) cut_up begun
    ≡ waits (between default_proto default_proto-IsProto two_bodies)
unfolding simple_make_buffer
packages-arrive_example =
    packages-arrive default_proto default_proto-IsProto two_bodies [] cut_up (omega arith)
      begun-IsOpen refl

-- A server's first read starts at the same place.
begins : read_loop (builtin_receiver default_proto) new_receiver ≡ some begun
unfolding read_loop get_buffer
begins = refl

-- A message of node 3 to node 9 with two bytes, and one without; the reads cut a header.
abbrev someone : ActorId
someone = record { node_id = 0; module_id = 5; intf_id = 1; inst_id = 2 }

abbrev header : Metadata
header = record { type = 1; data_type = 3; size = 0; sender = someone; target = someone; reqid = 7 }

abbrev two_messages : List Sent
two_messages = (header, 104 ∷ 105 ∷ []) ∷ (header, 106 ∷ []) ∷ []

abbrev session : List ReadResult
session =
    got (htonl 3)
    ∷ got (1 ∷ 0 ∷ [])
    ∷ again
    ∷ got (
        3 ∷ 0 ∷ 2 ∷ 0 ∷ 0 ∷ 0 ∷ 3 ∷ 0 ∷ 0 ∷ 0 ∷ 5 ∷ 0 ∷ 1 ∷ 0 ∷ 2 ∷ 0 ∷ 0 ∷ 0 ∷ 9 ∷ 0 ∷ 0 ∷ 0 ∷ 5
        ∷ 0 ∷ 1 ∷ 0 ∷ 2 ∷ 0 ∷ 0 ∷ 0 ∷ 7 ∷ 0 ∷ 0 ∷ 0 ∷ [])
    ∷ got (104 ∷ 105 ∷ [])
    ∷ got (
        1 ∷ 0 ∷ 3 ∷ 0 ∷ 1 ∷ 0 ∷ 0 ∷ 0 ∷ 3 ∷ 0 ∷ 0 ∷ 0 ∷ 5 ∷ 0 ∷ 1 ∷ 0 ∷ 2 ∷ 0 ∷ 0 ∷ 0 ∷ 9 ∷ 0 ∷ 0
        ∷ 0 ∷ 5 ∷ 0 ∷ 1 ∷ 0 ∷ 2 ∷ 0 ∷ 0 ∷ 0 ∷ 7 ∷ 0 ∷ 0 ∷ 0 ∷ [])
    ∷ got (106 ∷ [])
    ∷ []

session-IsOpen : IsOpen (gateway 9) session (accepted 4294967295)
unfolding IsOpen collect read_loop consume_in buffer_in read_le is_local
session-IsOpen = omega arith

messages-arrive_example :
    handle_all (gateway 9) session (accepted 4294967295)
    ≡ waits (at_head 3 9 3 (map (arrived 3 9 3) two_messages))
unfolding outgoing image metatole
messages-arrive_example =
    messages-arrive 3 9 4294967295 two_messages session (omega arith) (omega arith) (omega arith)
      session-IsOpen refl

-- "ab" with "c" linked to it, and "d" behind; the socket takes a byte, then two, then none for now.
abbrev abc : OutBuffer
abc = record { addr = 32; bytes = 97 ∷ 98 ∷ []; link = (99 ∷ []) ∷ [] }

abbrev just_d : OutBuffer
just_d = record { addr = 64; bytes = 100 ∷ []; link = [] }

abbrev two_buffers : Writer
two_buffers = record {
  mbox = record { stack = chain just_d (abc ∷ []); headers = [] ∷ []; num_inque = 0; lastp = 0 };
  wr_buf = none;
  written = 0;
  wire = [];
}

-- The header of a message without a body was written, and its body is at hand.
abbrev no_body : Writer
no_body = record two_buffers { wr_buf = some ([], []) }

handle_write-stuck_example : handle_write (room 9 ∷ room 9 ∷ []) no_body ≡ idle no_body
handle_write-stuck_example = handle_write-stuck (room 9 ∷ room 9 ∷ []) no_body [] refl tt
