-- ===== src/Actor/ReqCtx.antt =====
-- The requests of an actor in include/mola/actor.hpp, with the contexts of include/mola/message.hpp:
-- the ids of requests that wait for an answer, and what is kept for each of them. The back of the
-- vector `m_reqid_recycle` is the head of `recycle`; a pointer to a context is its key in the map.
pub mod Ids
use elastic_actor.Prelude.{
  ℕ, Bool, true, List, [], ◌∷◌, length, Option, none, some, if◌then◌else◌, ◌==◌, inc32, Map, find,
  insert, erase,
}
use elastic_actor.Message.{Message}

-- The part of `GatherGroup` that `RequestContext` does not have.
pub record Gather : Type 0 where
  pub is_done : Bool
  pub size : ℕ
  pub messages : List Message

pub record Ctx : Type 0 where
  pub reqid : ℕ
  pub initiator : Option Message
  pub saved : ℕ
  pub gather : Option Gather

-- `done()`, which `GatherGroup` overrides.
abbrev pub ctx_done : Ctx → Bool
ctx_done c = elim c.gather [ none ↦ true | some g ↦ g.is_done ]

-- `ready()`
unfoldable pub ready : Gather → Bool
ready g = length g.messages == g.size

pub record Requests : Type 0 where
  pub recycle : List ℕ
  pub generator : ℕ
  pub contexts : Map Ctx

unfoldable pub new_reqid : Requests → ℕ × Requests
new_reqid r = elim r.recycle [
  | [] ↦ (inc32 r.generator, record r { generator = inc32 r.generator })
  | id ∷ ids ↦ (id, record r { recycle = ids })
]

unfoldable pub release_reqid : ℕ → Requests → Requests
release_reqid id r = record r { recycle = id ∷ r.recycle }

abbrev pub find_req_ctx : ℕ → Requests → Option Ctx
find_req_ctx id r = find id r.contexts

-- `none` is the assertion that fails.
unfoldable pub insert_req_ctx : Ctx → Requests → Option Requests
insert_req_ctx c r = elim (find_req_ctx c.reqid r) [
  | none ↦ some (record r { contexts = insert c.reqid c r.contexts })
  | some _ ↦ none
]

unfoldable pub delete_req_ctx : Ctx → Requests → Requests
unfolding release_reqid
delete_req_ctx c r =
    if ctx_done c
    then (record (release_reqid c.reqid r) { contexts = erase c.reqid r.contexts })
    else r

unfoldable pub delete_reqid : ℕ → Requests → Requests
unfolding delete_req_ctx
delete_reqid id r = elim (find_req_ctx id r) [ none ↦ r | some c ↦ delete_req_ctx c r ]
