-- ===== src/Stream/Messages.antt =====
-- Messages between two nodes: what `Node::deliver_message` of src/node_manager.cpp writes and the
-- receiver of include/mola/gateway.hpp reads, through the reads of include/mola/event_handler.hpp.
use elastic_actor.Prelude.{
  ℕ, ◌/◌, ◌%◌, ◌^◌, ◌<◌, ◌≡◌, ◌∙◌, refl, ap, sym, true, false, List, [], ◌∷◌, ◌++◌, none, some,
  ◌==◌, u32, length, append_assoc, append-nil, map, arith,
}
use elastic_actor.ActorId.{is_local, set_node_id}
use elastic_actor.Message.{type_stream, Metadata, metatole}
use elastic_actor.Message.Endian.{image, read_le-image, length-image, Fits}
use elastic_actor.Stream.{Handler, ReadResult, waits, collect, handle_all, read_loop}
use elastic_actor.Stream.Reading.{
  feed, feed-after, collect-feed, IsOpen, bytes_of, handle_all-feed, read_to_end,
}
use elastic_actor.Stream.Gateway.{
  metadata_size, get_head, get_body, wait_handshake, Gateway, no_header, gateway, consume_in,
  buffer_in, outgoing,
}

-- A message to the node `there`, with the bytes of its body.
abbrev pub Sent : Type 0
Sent = Metadata × List ℕ

-- What the writer gets out of a queue of buffers: it does not get past one that is empty.
abbrev pub passed : List (List ℕ) → List ℕ
passed [] = []
passed ([] ∷ bs) = []
passed ((x ∷ xs) ∷ bs) = (x ∷ xs) ++ passed bs

passed-cons : (b : List ℕ) (bs : List (List ℕ)) → 0 < length b → passed (b ∷ bs) ≡ b ++ passed bs
passed-cons [] bs some_there = absurd (omega arith)
passed-cons (x ∷ xs) bs some_there = refl

module _ (here there nid : ℕ) where
  -- The header as it is written, and as it is delivered.
  abbrev pub written : Sent → Metadata
  written (meta, body) = record meta {
    sender = set_node_id here meta.sender;
    target = set_node_id there meta.target;
    size = length body;
  }

  abbrev pub arrived : Sent → Sent
  arrived s = (record (written s) { data_type = type_stream }, s.1)

  -- Between two messages.
  abbrev pub at_head : List Sent → Handler Gateway
  at_head ds = record {
    reader = record {
      state = get_head;
      nid = nid;
      raw = some no_header;
      delivered = ds;
      lost = false;
    };
    size = metadata_size;
    collected = [];
  }

  abbrev at_body : Metadata → List Sent → Handler Gateway
  at_body meta ds = record {
    reader = record { state = get_body; nid = nid; raw = some meta; delivered = ds; lost = false };
    size = meta.size;
    collected = [];
  }

  -- The fields of the header that is written fit their widths, and the body is not empty.
  abbrev pub CanSend : Sent → Type 0
  CanSend s = Fits (written s) × (0 < length s.1)

  is_local-there : (s : Sent) → there < 2 ^ 32 → is_local there (written s).target ≡ true
  unfolding is_local
  is_local-there s id =
      let same : (u32 there == there) ≡ true = ground arith in ground (arith, same)

  collect_head :
      (s : Sent) (ds : List Sent)
      → there < 2 ^ 32
      → CanSend s
      → collect (gateway there) (image (metatole (written s))) (at_head ds)
        ≡ some (at_body (arrived s).0 ds)
  unfolding collect read_loop consume_in buffer_in
  collect_head s ds id (fits, some_there) =
      ground (arith, read_le-image (written s) fits, length-image (written s))

  collect_body :
      (s : Sent) (ds : List Sent)
      → there < 2 ^ 32
      → CanSend s
      → collect (gateway there) s.1 (at_body (arrived s).0 ds)
        ≡ some (at_head (ds ++ (arrived s ∷ [])))
  unfolding collect read_loop consume_in buffer_in
  collect_body s ds id fits = ground (arith, is_local-there s id)

  -- The buffers of the messages, one behind the other, and the bytes that are written of them.
  abbrev pub buffers : List Sent → List (List ℕ)
  buffers [] = []
  buffers (s ∷ ss) = outgoing here there s.0 s.1 ++ buffers ss

  abbrev pub wire : List Sent → List ℕ
  wire ss = passed (buffers ss)

  abbrev pub AllCanSend : List Sent → Type 0
  AllCanSend [] = Unit
  AllCanSend (s ∷ ss) = CanSend s × AllCanSend ss

  feed-head :
      (meta : Metadata) (body : List ℕ) (ds : List Sent) (h : Handler Gateway)
      → collect (gateway there) (image (metatole (written (meta, body)))) (at_head ds) ≡ some h
      → feed (gateway there) (image (metatole (written (meta, body)))) (at_head ds) ≡ some h
  feed-head meta body ds h e =
      let header = image (metatole (written (meta, body))) in
      let size = length-image (written (meta, body)) in
      sym (
        collect-feed (gateway there) header (at_head ds) (omega (arith, size))
          (omega (arith, size)))
      ∙ e

  feed-message :
      (s : Sent) (rest : List (List ℕ)) (ds : List Sent)
      → there < 2 ^ 32
      → CanSend s
      → feed (gateway there) (passed (outgoing here there s.0 s.1 ++ rest)) (at_head ds)
        ≡ feed (gateway there) (passed rest) (at_head (ds ++ (arrived s ∷ [])))
  unfolding outgoing
  feed-message (meta, []) rest ds id (fits, some_there) = absurd (omega arith)
  feed-message (meta, x ∷ xs) rest ds id fits =
      let s : Sent = (meta, x ∷ xs) in
      let header = image (metatole (written s)) in
      let next = at_body (arrived s).0 ds in
      let last = at_head (ds ++ (arrived s ∷ [])) in
      ap (λ l. feed (gateway there) l (at_head ds))
        (passed-cons header ((x ∷ xs) ∷ rest) (omega (arith, length-image (written s))))
      ∙ feed-after (gateway there) header ((x ∷ xs) ++ passed rest) (at_head ds) next
          (feed-head meta (x ∷ xs) ds next (collect_head s ds id fits))
      ∙ feed-after (gateway there) (x ∷ xs) (passed rest) next last (
          sym (collect-feed (gateway there) (x ∷ xs) next (omega arith) (omega arith))
          ∙ collect_body s ds id fits)

  feed-wire :
      (ss ds : List Sent)
      → there < 2 ^ 32
      → AllCanSend ss
      → feed (gateway there) (wire ss) (at_head ds) ≡ some (at_head (ds ++ map arrived ss))
  unfolding feed
  feed-wire [] ds id fits = ap (λ l. some (at_head l)) (sym (append-nil ds))
  feed-wire (s ∷ ss) ds id (fits, more) =
      feed-message s (buffers ss) ds id fits
      ∙ feed-wire ss (ds ++ (arrived s ∷ [])) id more
      ∙ ap (λ l. some (at_head l)) (append_assoc ds (arrived s ∷ []) (map arrived ss))

-- What a node that connects writes first, `htonl(local_node_id())`.
abbrev pub htonl : ℕ → List ℕ
htonl n = n / 16777216 % 256 ∷ n / 65536 % 256 ∷ n / 256 % 256 ∷ n % 256 ∷ []

-- A node that was connected to, before the handshake.
abbrev pub accepted : ℕ → Handler Gateway
accepted invalid = record {
  reader = record {
    state = wait_handshake;
    nid = invalid;
    raw = none;
    delivered = [];
    lost = false;
  };
  size = 4;
  collected = [];
}

collect_handshake :
    (here there invalid : ℕ)
    → here < 2 ^ 32
    → collect (gateway there) (htonl here) (accepted invalid) ≡ some (at_head here there here [])
unfolding collect read_loop consume_in buffer_in
collect_handshake here there invalid id = ground arith

feed-session :
    (here there invalid : ℕ) (ss : List Sent)
    → here < 2 ^ 32
    → there < 2 ^ 32
    → AllCanSend here there here ss
    → feed (gateway there) (htonl here ++ wire here there here ss) (accepted invalid)
      ≡ some (at_head here there here (map (arrived here there here) ss))
feed-session here there invalid ss id id' fits =
    feed-after (gateway there) (htonl here) (wire here there here ss) (accepted invalid)
      (at_head here there here [])
      (sym
          (collect-feed (gateway there) (htonl here) (accepted invalid) (omega arith) (omega arith))
        ∙ collect_handshake here there invalid id)
    ∙ feed-wire here there here ss [] id' fits

-- After the handshake of node `here` its messages to node `there`, whose headers fit their fields and
-- whose packed bodies are not empty, arrive in order, with their bodies, as stream messages that name `here` as the node of the sender,
-- however the stream is cut into reads; and the receiver knows the node by its id.
pub messages-arrive :
    (here there invalid : ℕ) (ss : List Sent) (rs : List ReadResult)
    → here < 2 ^ 32
    → there < 2 ^ 32
    → AllCanSend here there here ss
    → IsOpen (gateway there) rs (accepted invalid)
    → bytes_of (gateway there) rs ≡ htonl here ++ wire here there here ss
    → handle_all (gateway there) rs (accepted invalid)
      ≡ waits (at_head here there here (map (arrived here there here) ss))
messages-arrive here there invalid ss rs id id' fits open_stream whole =
    handle_all-feed (gateway there) rs (accepted invalid) open_stream
    ∙ ap (λ l. read_to_end (gateway there) (feed (gateway there) l (accepted invalid))) whole
    ∙ ap (read_to_end (gateway there)) (feed-session here there invalid ss id id' fits)
