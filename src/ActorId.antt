-- ===== src/ActorId.antt =====
-- include/mola/actor_id.hpp and src/actor_id.cpp: the identity of an actor, whose module and
-- interface are 16-bit fields, and the address of an actor.
use Prim.Native.Nat.{bit_or}
use elastic_actor.Prelude.{ℕ, ◌*◌, ◌%◌, ◌^◌, Bool, ◌&&◌, ◌||◌, ◌==◌, u32}

pub record ActorId : Type 0 where
  pub node_id : ℕ
  pub module_id : ℕ
  pub intf_id : ℕ
  pub inst_id : ℕ

abbrev pub any : ℕ
any = 0xffff

abbrev pub local : ℕ
local = 0

abbrev pub client : ℕ
client = 0xffff_ffff

abbrev pub u16 : ℕ → ℕ
u16 n = n % 2 ^ 16

-- The constructor `ActorID(nid, mid, iid, ifid)`: the instance comes before the interface.
unfoldable pub actor_id : ℕ → ℕ → ℕ → ℕ → ActorId
actor_id nid mid iid ifid = record {
  node_id = u32 nid;
  module_id = u16 mid;
  intf_id = u16 ifid;
  inst_id = u32 iid;
}

abbrev pub set_module_id : ℕ → ActorId → ActorId
set_module_id m id = record id { module_id = u16 m }

abbrev pub set_inst_id : ℕ → ActorId → ActorId
set_inst_id i id = record id { inst_id = u32 i }

abbrev pub set_node_id : ℕ → ActorId → ActorId
set_node_id n id = record id { node_id = u32 n }

abbrev pub set_intf_id : ℕ → ActorId → ActorId
set_intf_id f id = record id { intf_id = u16 f }

unfoldable pub hash_key : ActorId → ℕ
hash_key id = bit_or (u32 (id.module_id * 2 ^ 16)) id.inst_id

-- `is_local`, with the id of the local node.
unfoldable pub is_local : ℕ → ActorId → Bool
is_local here id = id.node_id == local || id.node_id == here

pub record ActorAddr : Type 0 where
  pub node_id : ℕ
  pub station_id : ℕ
  pub offset : ℕ

-- `ActorAddr::operator ==`
abbrev pub same_addr : ActorAddr → ActorAddr → Bool
same_addr a b = a.station_id == b.station_id && a.node_id == b.node_id && a.offset == b.offset
