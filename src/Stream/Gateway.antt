-- ===== src/Stream/Gateway.antt =====
-- include/mola/gateway.hpp and src/gateway.cpp: `GatewayReceiver`, which reads the messages of another
-- node, a header and a body by turns, after the handshake; and what `Node::deliver_message` of
-- src/node_manager.cpp writes. Both machines are little-endian. A message that is delivered is what the
-- task for `Dispatcher::dispatch` carries.
use elastic_actor.Prelude.{
  ℕ, ◌+◌, ◌*◌, Bool, true, List, [], ◌∷◌, ◌++◌, Option, none, some, ltb, ◌==◌, if◌then◌else◌,
  length,
}
use elastic_actor.ActorId.{ActorId, is_local, set_node_id}
use elastic_actor.Message.{Metadata, metatole, type_stream}
use elastic_actor.Message.Endian.{image, read_le}
use elastic_actor.Stream.{StreamManager}

-- `sizeof(mola_message_metadata_t)`
abbrev pub metadata_size : ℕ
metadata_size = 36

pub data GatewayState : Type 0 where
  handshake wait_handshake get_head get_body : GatewayState

-- `GatewayReceiver`: of the message at `m_raw`, if there is one, its header.
pub record Gateway : Type 0 where
  pub state : GatewayState
  pub nid : ℕ
  pub raw : Option Metadata
  pub delivered : List (Metadata × List ℕ)
  pub lost : Bool

abbrev pub no_header : Metadata
no_header =
    let no_one : ActorId = record { node_id = 0; module_id = 0; intf_id = 0; inst_id = 0 } in
    record {
      type = 0;
      data_type = type_stream;
      size = 0;
      sender = no_one;
      target = no_one;
      reqid = 0;
    }

-- `ntohl`
abbrev ntohl : List ℕ → ℕ
ntohl (a ∷ b ∷ c ∷ d ∷ _) = ((a * 256 + b) * 256 + c) * 256 + d
ntohl _ = 0

module _ (here : ℕ) where
  -- `GatewayReceiver::deliver_message`, which ends the program for the message of another node.
  unfoldable pub deliver : List ℕ → Gateway → Option Gateway
  deliver body g = elim g.raw [
    | none ↦ none
    | some meta ↦
        if is_local here meta.target
        then some (record g { raw = none; delivered = g.delivered ++ ((meta, body) ∷ []) })
        else none
  ]

  -- A header, in the buffer that is `m_raw`'s.
  unfoldable pub on_head : List ℕ → Gateway → Option Gateway
  unfolding deliver
  on_head buf g =
      if length buf == metadata_size
      then elim g.raw [
        | none ↦ none
        | some _ ↦ elim (read_le buf) [
          | none ↦ none
          | some (read, _) ↦
              let meta = record read { data_type = type_stream } in
              if ltb 0 meta.size
              then some (record g { raw = some meta; state = get_body })
              else deliver [] (record g { raw = some meta })
        ]
      ]
      else none

  unfoldable pub on_body : List ℕ → Gateway → Option Gateway
  unfolding deliver
  on_body buf g = elim g.raw [
    | none ↦ none
    | some meta ↦
        if meta.size == length buf
        then elim (deliver buf g) [ none ↦ none | some g' ↦ some (record g' { state = get_head }) ]
        else none
  ]

  -- `consume`, in each state.
  unfoldable pub consume_in : GatewayState → List ℕ → Gateway → Option Gateway
  unfolding on_head on_body
  consume_in wait_handshake buf g = some (record g { nid = ntohl buf; state = get_head })
  consume_in handshake buf g = on_head buf (record g { state = get_head })
  consume_in get_head buf g = on_head buf g
  consume_in get_body buf g = on_body buf g

  -- `get_buffer`, in each state.
  unfoldable pub buffer_in : GatewayState → Gateway → Option (ℕ × Gateway)
  buffer_in wait_handshake g = some (4, g)
  buffer_in handshake g = some (metadata_size, record g { state = get_head; raw = some no_header })
  buffer_in get_head g = some (metadata_size, record g { raw = some no_header })
  buffer_in get_body g = elim g.raw [ none ↦ none | some meta ↦ some (meta.size, g) ]

  -- `GatewayReceiver`, whose `io_failure` deletes the node.
  abbrev pub gateway : StreamManager Gateway
  gateway = record {
    get_buffer = λ g. buffer_in g.state g;
    consume = λ buf g. consume_in g.state buf g;
    io_failure = λ g. record g { lost = true };
  }

-- The two buffers that are queued for a message to node `there`: the header, with the ids of both
-- nodes and the size of the packed body, and the body.
unfoldable pub outgoing : ℕ → ℕ → Metadata → List ℕ → List (List ℕ)
outgoing here there meta body =
    image (
      metatole (record meta {
        sender = set_node_id here meta.sender;
        target = set_node_id there meta.target;
        size = length body;
      }))
    ∷ body
    ∷ []
