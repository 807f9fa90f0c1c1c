-- ===== src/Message.antt =====
-- include/mola/c/mola_message.h and the metadata part of include/mola/message.hpp: the header that
-- travels ahead of a message, its kinds, and its conversion for a peer of the other byte order.
pub mod Kinds
pub mod Endian
pub mod Pointers
mod Tests
use Prim.Native.Nat.{bit_and}
use elastic_actor.Prelude.{
  ℕ, ◌+◌, ◌*◌, ◌/◌, ◌%◌, ◌^◌, Bool, true, false, not, ◌&&◌, ◌==◌, u32, Option, none, some,
}
use elastic_actor.ActorId.{ActorId, set_node_id, set_module_id, set_intf_id, set_inst_id}

pub record Metadata : Type 0 where
  pub type : ℕ
  pub data_type : ℕ
  pub size : ℕ
  pub sender : ActorId
  pub target : ActorId
  pub reqid : ℕ

-- `MOLA_MESSAGE_TYPE_*`
pub data Kind : Type 0 where
  request response scatter gather error : Kind

abbrev pub bit : Kind → ℕ
bit request = 1
bit response = 2
bit scatter = 4
bit gather = 8
bit error = 0x8000

-- `MOLA_IS_REQUEST` and the others
unfoldable pub is_kind : Kind → Metadata → Bool
is_kind k meta = not (bit_and meta.type (bit k) == 0)

unfoldable pub is_oneway : Metadata → Bool
unfolding is_kind
is_oneway meta = not (is_kind request meta) && not (is_kind gather meta)

-- `MOLA_SET_METATYPE`, behind `set_request`, `set_response`, `set_scatter`, `set_gather`, `set_error`
unfoldable pub set_kind : Kind → Metadata → Metadata
set_kind k meta = record meta { type = bit k }

abbrev pub set_reqid : ℕ → Metadata → Metadata
set_reqid r meta = record meta { reqid = u32 r }

abbrev pub set_sender : ActorId → Metadata → Metadata
set_sender id meta = record meta { sender = id }

abbrev pub set_target : ActorId → Metadata → Metadata
set_target id meta = record meta { target = id }

-- `set_target(node_id, module_id, intf_id, inst_id)`, the same for the sender.
abbrev pub with_ids : ℕ → ℕ → ℕ → ℕ → ActorId → ActorId
with_ids n m f i id = set_inst_id i (set_intf_id f (set_module_id m (set_node_id n id)))

-- htobe16 and htobe32 on a little-endian host
abbrev pub swap16 : ℕ → ℕ
swap16 x = x % 256 * 256 + x / 256 % 256

abbrev pub swap32 : ℕ → ℕ
swap32 x = swap16 (x % 2 ^ 16) * 2 ^ 16 + swap16 (x / 2 ^ 16)

swap_id : ActorId → ActorId
swap_id id = record {
  node_id = swap32 id.node_id;
  module_id = swap16 id.module_id;
  intf_id = swap16 id.intf_id;
  inst_id = swap32 id.inst_id;
}

-- With __LITTLE_ENDIAN__, which src/CMakeLists.txt defines on such a host.
pub metatobe : Metadata → Metadata
unfolding swap_id
metatobe meta = record {
  type = swap16 meta.type;
  data_type = swap16 meta.data_type;
  size = swap32 meta.size;
  sender = swap_id meta.sender;
  target = swap_id meta.target;
  reqid = swap32 meta.reqid;
}

unfoldable pub metatole : Metadata → Metadata
metatole meta = meta

-- `TYPE_STREAM`, `TYPE_USER_LITTLE`, `TYPE_USER_NORMAL`
abbrev pub type_stream : ℕ
type_stream = 1

abbrev pub type_user_little : ℕ
type_user_little = 2

abbrev pub type_user_normal : ℕ
type_user_normal = 3

-- A message as the runtime passes it on: the header, and what `m_data` points to.
pub record Message : Type 0 where
  pub meta : Metadata
  pub payload : ℕ
