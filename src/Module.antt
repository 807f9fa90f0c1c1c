-- ===== src/Module.antt =====
-- include/mola/module.hpp and src/module.cpp: the instances of a module, and the call of an interface
-- with the reply that follows. A module and its actors are one state: an actor is known by its
-- address, and the callbacks of the loaded library are arguments.
pub mod Instances
pub mod Reply
mod Tests
use elastic_actor.Prelude.{
  ℕ, ◌+◌, Bool, true, false, not, ◌||◌, Option, none, some, if◌then◌else◌, ltb, ◌==◌, Map, find,
  insert, put, erase, is_some, replicate, [],
}
use elastic_actor.ActorId.{ActorId, actor_id, any, set_intf_id}
use elastic_actor.Message.{
  Message, Metadata, Kind, request, response, scatter, gather, is_kind, set_kind, set_reqid,
  set_sender, set_target,
}
use elastic_actor.Mailbox.{init}
use elastic_actor.Actor.{LinkNode, LinkNode-Item, State, Actor, deliver_message}
use elastic_actor.Actor.ReqCtx.{Ctx, Gather, find_req_ctx}

pub record Module (D : Type 0) : Type 0 where
  pub id : ℕ
  pub node_id : ℕ
  -- `m_inst_map`, from instance ids to addresses
  pub instances : Map ℕ
  pub actors : Map (Actor D)
  pub next : ℕ

-- `MODULE_OK` and `MODULE_DISPACH_ERR`, and a failed assertion.
pub data Code : Type 0 where
  ok dispatch_err assert_failed : Code

module _ {D : Type 0} where
  -- The constructor of `Actor`, with the private data that `calloc` returns.
  abbrev pub infant : ℕ → D → ActorId → Actor D
  infant garbage blank new_id = record {
    id = new_id;
    state = State.startup;
    mailbox = init 2 garbage;
    current_ctx = none;
    requests = record { recycle = []; generator = 0; contexts = [] };
    current_message = none;
    data_ptr = blank;
  }

  module _ (garbage : ℕ) (blank : D) where
    -- `create_instance(uint32_t)`: `ActorID new_id(node_id, m_id, ActorID::ANY, inst_id)`, where the
    -- third argument of that constructor is the instance and the fourth the interface.
    unfoldable pub create_instance : ℕ → Module D → ℕ × Module D
    create_instance inst m =
        let new_id = actor_id m.node_id m.id any inst in
        (
          m.next,
          record m {
            instances = insert new_id.inst_id m.next m.instances;
            actors = put m.next (infant garbage blank new_id) m.actors;
            next = m.next + 1;
          },
        )

    -- `select_or_create_actor_instance`
    unfoldable pub select_or_create : ℕ → Module D → ℕ × Module D
    select_or_create inst m = elim (find inst m.instances) [
      | some p ↦ (p, m)
      | none ↦ create_instance inst m
    ]

    -- `dispatch(inst_id, intf_id, message, worker)`: the code, the address of the actor that has to
    -- be put into a task queue, and the module.
    unfoldable pub dispatch_to : ℕ → ℕ → LinkNode → Module D → Code × Option ℕ × Module D
    dispatch_to inst intf n m =
        let (p, m') = select_or_create inst m in
        elim (find p m'.actors) [
          | none ↦ (assert_failed, none, m')
          | some a ↦
              let n' = record n {
                value = record n.value { meta = set_target (set_intf_id intf a.id) n.value.meta };
              } in
              elim (deliver_message n' a) [
                | none ↦ (assert_failed, none, m')
                | some (false, _, b) ↦
                    (dispatch_err, none, record m' { actors = put p b m'.actors })
                | some (true, true, b) ↦ (ok, some p, record m' { actors = put p b m'.actors })
                | some (true, false, b) ↦ (ok, none, record m' { actors = put p b m'.actors })
              ]
        ]

-- How `invoke_message` ends.
pub data Invoked (D : Type 0) : Type 0 where
  asserted : Invoked D
  thrown : Actor D → Invoked D
  done : Actor D → Option Message → Invoked D

-- `dynamic_cast<GatherGroup*>(req_ctx)`
abbrev pub gather_group : Option Ctx → Option Gather
gather_group none = none
gather_group (some c) = c.gather

abbrev pub kind_is : Kind → Message → Bool
kind_is k msg = is_kind k msg.meta

-- An answer in a gather context that came back as a plain response counts as a gather message.
unfoldable pub fix_kind : Option Gather → Message → Message
fix_kind none msg = msg
fix_kind (some g) msg =
    if kind_is response msg then record msg { meta = set_kind gather msg.meta } else msg

-- The reply of `actor` to the message `to`.
unfoldable pub reply : ActorId → Message → Message → Message
reply self to res = record res {
  meta = set_target to.meta.sender (
      set_sender self (
        set_reqid to.meta.reqid
          (set_kind (if kind_is scatter to then gather else response) res.meta)));
}

-- The message that a reply answers: the one at hand, or the one that the request context was
-- opened for; `none` is the failed assertion, or a context without an initiator.
unfoldable pub answered : Option Ctx → Message → Option Message
answered ctx msg =
    if kind_is response msg then elim ctx [ none ↦ none | some c ↦ c.initiator ] else some msg

module _ {D : Type 0} where
  abbrev pub current_ctx : Actor D → Option Ctx
  current_ctx a = elim a.current_ctx [ none ↦ none | some id ↦ find_req_ctx id a.requests ]

  abbrev after_call :
      ActorId → Option Ctx → Message → Option (Actor D × Option Message) → Actor D → Invoked D
  after_call self ctx msg none a = thrown a
  after_call self ctx msg (some (b, none)) a = done b none
  after_call self ctx msg (some (b, some res)) a = elim (answered ctx msg) [
    | none ↦ asserted
    | some to ↦ done b (some (reply self to res))
  ]

module _ {D : Type 0} (intf_num : ℕ) (has_callback : ℕ → Bool)
    (callback : ℕ → Message → Option Gather → Actor D → Option (Actor D × Option Message)) where
  -- `invoke_message`; the reply, if there is one, goes to `Dispatcher::dispatch`.
  unfoldable pub invoke_message : Actor D → Message → Invoked D
  invoke_message a msg =
      let ctx = current_ctx a in
      let group = gather_group ctx in
      let intf = msg.meta.target.intf_id in
      let fixed = fix_kind group msg in
      let expected = if is_some group then kind_is gather fixed else not (kind_is gather fixed) in
      if not (ltb intf intf_num) || not (has_callback intf) || not expected
      then asserted
      else after_call a.id ctx fixed (callback intf fixed group a) a
