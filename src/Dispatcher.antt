-- ===== src/Dispatcher.antt =====
-- src/dispatcher.cpp: where a message goes, and what an actor keeps for a message that it sends. The
-- module table and the node manager are arguments: whether a module is loaded on this node, and the
-- node that `find_node` answers for an id.
pub mod Request
pub mod Routing
pub mod Gathering
pub mod Scattering
mod Tests
use elastic_actor.Prelude.{
  ℕ, ◌+◌, Bool, true, false, not, ◌||◌, Option, none, some, if◌then◌else◌, ltb, ◌==◌, List, [], ◌∷◌,
  ◌++◌, map, length,
}
use elastic_actor.ActorId.{ActorId, any, local, is_local, set_intf_id, set_node_id}
use elastic_actor.Message.{
  Message, Metadata, Kind, request, response, scatter, gather, error, is_kind, set_kind, set_reqid,
  set_sender, set_target, with_ids,
}
use elastic_actor.Actor.{Actor}
use elastic_actor.Module.{reply}
use elastic_actor.Actor.ReqCtx.{
  Gather, ready, find_req_ctx, new_reqid, release_reqid, insert_req_ctx,
}

-- The return codes of the C interface.
pub data Ret : Type 0 where
  ret_ok unreachable no_node no_messages scatter_error : Ret

abbrev pub is_ok : Ret → Bool
is_ok ret_ok = true
is_ok _ = false

-- What `dispatch(message)` does with it.
pub data Route : Type 0 where
  -- `mgr->delete_node` for an error message
  drop_node : ℕ → Route
  -- `module->dispatch`
  to_module : Message → Route
  -- `mgr->add_delay_task`
  delayed : Message → Route
  -- `node->deliver_message`
  to_node : ℕ → Message → Route
  refused : Ret → Route
  asserted : Route

-- A node, as far as the dispatcher looks at it.
pub record Node : Type 0 where
  pub id : ℕ
  pub invalid : Bool

abbrev meta_of : (Metadata → Metadata) → Message → Message
meta_of f msg = record msg { meta = f msg.meta }

-- The message for a module that this node does not have, turned back to its sender.
unfoldable pub bounce : Message → Message
bounce msg =
    let meta = set_kind error msg.meta in
    record msg {
      meta = record meta {
        target = set_node_id meta.sender.node_id meta.target;
        sender = set_node_id local meta.sender;
      };
    }

module _ (here : ℕ) (loaded : ℕ → Bool) (find_node : ℕ → Option Node) (in_worker : Bool) where
  -- The part of `dispatch` for a node, this one or another.
  unfoldable pub forward : Message → Route
  forward msg = elim (find_node msg.meta.target.node_id) [
    | none ↦ if in_worker then delayed msg else refused no_node
    | some n ↦ if n.invalid then refused unreachable else to_node n.id msg
  ]

  -- `Dispatcher::dispatch(message)`, without the assertion on the module of the sender.
  unfoldable pub route : Message → Route
  route msg =
      if is_local here msg.meta.target
      then (if is_kind error msg.meta
          then elim (find_node msg.meta.sender.node_id) [
            | none ↦ asserted
            | some n ↦ drop_node msg.meta.sender.node_id
          ]
          else if loaded msg.meta.target.module_id
          then to_module msg
          else forward (bounce msg))
      else forward msg

-- What `Node::deliver_message` of src/node_manager.cpp writes into a message for another node, with
-- the id of this node and that of the other.
unfoldable pub stamp : ℕ → ℕ → Message → Message
stamp here n msg = record msg {
  meta = record msg.meta {
    sender = set_node_id here msg.meta.sender;
    target = set_node_id n msg.meta.target;
  };
}

-- The message of a request as it is sent, with the id that it has.
unfoldable pub asking : ActorId → ActorId → ℕ → Message → Message
asking target self return_intf msg = record msg {
  meta = set_kind request (
      set_sender (if return_intf == any then self else set_intf_id return_intf self)
        (set_target target msg.meta));
}

module _ {D : Type 0} where
  -- The message at hand when an actor sends, or the one behind the request that is answered.
  unfoldable pub initiator : Actor D → Option Message
  initiator a = elim a.current_ctx [
    | none ↦ a.current_message
    | some id ↦ elim (find_req_ctx id a.requests) [ none ↦ none | some c ↦ c.initiator ]
  ]

  -- `on_async_send_done` and `on_scatter_done`; `none` is the assertion on a context with that id.
  unfoldable pub keep : ℕ → Option Gather → ℕ → Actor D → Option (Actor D)
  keep reqid group saved a =
      elim (insert_req_ctx
        (record { reqid = reqid; initiator = initiator a; saved = saved; gather = group })
        a.requests) [ none ↦ none | some r ↦ some (record a { requests = r }) ]

  -- A request with a new id, by the return code of `dispatch(message)` and the caller's pointer after
  -- it: `node->deliver_message` takes the pointer by reference and leaves it null, and what follows
  -- reads the id through it; `none` is the dereference of a null pointer.
  abbrev pub sent : Ret × Option Message → Message → ℕ → Actor D → Option (Ret × Message × Actor D)
  sent (r, none) msg saved a = none
  sent (r, some left) msg saved a =
      if is_ok r
      then elim (keep left.meta.reqid none saved a) [ none ↦ none | some b ↦ some (r, msg, b) ]
      else some (r, msg, record a { requests = release_reqid left.meta.reqid a.requests })

  -- What follows for such a message: an id of its own, the context, or the id given back.
  unfoldable pub post :
      (Message → Ret × Option Message)
      → ℕ
      → Message
      → ℕ
      → Actor D
      → Option (Ret × Message × Actor D)
  post send return_intf m saved a =
      if return_intf == any
      then some ((send m).0, m, a)
      else if m.meta.reqid == 0
      then (let (id, r) = new_reqid a.requests in
          let m' = record m { meta = set_reqid id m.meta } in
          sent (send m') m' saved (record a { requests = r }))
      else some ((send m).0, m, a)

  -- `dispatch(target, message, return_intf, ctx)`, with what `dispatch(message)` returns and the
  -- pointer that it leaves: the result has the message as it was passed on.
  unfoldable pub request_to :
      (Message → Ret × Option Message)
      → ActorId
      → Message
      → ℕ
      → ℕ
      → Actor D
      → Option (Ret × Message × Actor D)
  request_to send target msg return_intf saved a =
      post send return_intf (asking target a.id return_intf msg) saved a

-- A message of a scatter operation as it is sent.
unfoldable pub scattering : ActorId → ℕ → ℕ → Message → Message
scattering self gather_intf reqid msg = record msg {
  meta = set_sender (set_intf_id gather_intf self) (set_reqid reqid (set_kind scatter msg.meta));
}

pub count_ok : (Message → Ret) → List Message → ℕ
count_ok send [] = 0
count_ok send (m ∷ ms) = (if is_ok (send m) then 1 else 0) + count_ok send ms

-- The targets of a group: a module, an interface, and for each message a node and an instance.
abbrev pub aim : ℕ → ℕ → List (ℕ × ℕ) → List Message → List Message
aim mid intf ((node, inst) ∷ dests) (m ∷ ms) =
    record m { meta = set_target (with_ids node mid intf inst m.meta.target) m.meta }
    ∷ aim mid intf dests ms
aim mid intf _ ms = ms

module _ {D : Type 0} where
  -- `ScatterToIntf` to given targets (whose request ids are 0), with the group that is left without
  -- the null messages. The id of an operation that fails is not given back.
  unfoldable pub scatter_to :
      (Message → Ret)
      → ℕ
      → ℕ
      → ℕ
      → List (ℕ × ℕ)
      → List Message
      → ℕ
      → ℕ
      → Actor D
      → Option (Ret × List Message × Actor D)
  scatter_to send mid intf size dests group gather_intf saved a =
      if size == 0
      then some (no_messages, [], a)
      else (let (id, r) = new_reqid a.requests in
          let ms = map (scattering a.id gather_intf id) (aim mid intf dests group) in
          let b = record a { requests = r } in
          if not (length group == size)
          then some (scatter_error, [], b)
          else if count_ok send ms == length ms
          then elim (keep id (some (record { is_done = false; size = length ms; messages = [] }))
              saved b) [ none ↦ none | some c ↦ some (ret_ok, ms, c) ]
          else some (scatter_error, ms, b))

-- `InsertToGatherCtx`
unfoldable pub insert_gather : Message → Gather → Gather
insert_gather msg g = record g { messages = g.messages ++ (msg ∷ []) }

-- What `SwitchToGatherCtx` does with a group: the reply, if the callback has one for the messages of
-- a group that is complete, and the group; `none` is a reply without an initiator.
unfoldable pub switch_gather :
    (List Message → Option Message)
    → ActorId
    → Option Message
    → Gather
    → Option (Option Message × Gather)
switch_gather callback self from g =
    if ready g
    then elim (callback g.messages) [
      | none ↦ some (none, record g { is_done = true })
      | some res ↦ elim from [
        | none ↦ none
        | some to ↦ some (some (reply self to res), record g { is_done = true })
      ]
    ]
    else some (none, g)

-- `InsertToGatherCtx`, then `SwitchToGatherCtx`, for one message of a group.
unfoldable pub gather_one :
    (List Message → Option Message)
    → ActorId
    → Option Message
    → Message
    → Gather
    → Option (Option Message × Gather)
gather_one callback self from msg g = switch_gather callback self from (insert_gather msg g)
