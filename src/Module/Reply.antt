-- ===== src/Module/Reply.antt =====
-- `invoke_message` of src/module.cpp: every way in which the call of an interface can end.
use elastic_actor.Prelude.{
  ℕ, ◌<◌, ◌≡◌, ◌⊎◌, Bool, true, false, not, Option, none, some, if◌then◌else◌, u32, is_some,
}
use elastic_actor.ActorId.{ActorId}
use elastic_actor.Message.{Message, gather, response, scatter}
use elastic_actor.Actor.{Actor, answers}
use elastic_actor.Actor.ReqCtx.{Ctx, Gather}
use elastic_actor.Module.{
  Invoked, asserted, thrown, done, gather_group, kind_is, fix_kind, current_ctx,
}

-- The reply to `to` that `self` sends.
pub record Replies (self : ActorId) (to r : Message) : Type 0 where
  pub sender : r.meta.sender ≡ self
  pub receiver : r.meta.target ≡ to.meta.sender
  pub reqid : r.meta.reqid ≡ u32 to.meta.reqid
  pub is_answer : answers r ≡ true
  pub kind : kind_is gather r ≡ kind_is scatter to

-- What the callback is handed: the message itself, but a response in a gather context as a gather
-- message that is the same otherwise.
pub record HandedOn (group : Option Gather) (msg m : Message) : Type 0 where
  pub unchanged : (is_some group ≡ false) ⊎ (kind_is response msg ≡ false) → m ≡ msg
  pub taken :
      is_some group ≡ true
      → kind_is response msg ≡ true
      → (kind_is gather m ≡ true)
        × (kind_is response m ≡ false)
        × (m.meta.sender ≡ msg.meta.sender)
        × (m.meta.target ≡ msg.meta.target)
        × (m.meta.reqid ≡ msg.meta.reqid)
        × (m.payload ≡ msg.payload)

module _ {D : Type 0} where
  abbrev pub handled : Actor D → Message → Message
  handled a msg = fix_kind (gather_group (current_ctx a)) msg

  -- The message `to` that a reply answers: the one at hand unless that is a response; the message for
  -- which the context at hand was opened if it is one.
  pub data Behind (a : Actor D) (m to : Message) : Type 0 where
    at_hand : kind_is response m ≡ false → to ≡ m → Behind a m to
    of_context :
        (c : Ctx)
        → kind_is response m ≡ true
        → current_ctx a ≡ some c
        → c.initiator ≡ some to
        → Behind a m to

  -- A response without a context, or with one that has no initiator.
  abbrev pub Lost : Actor D → Message → Type 0
  Lost a m =
      (kind_is response m ≡ true)
      × ((current_ctx a ≡ none) ⊎ ((c : Ctx) × (current_ctx a ≡ some c) × (c.initiator ≡ none)))

  -- How the call ends, by what the callback returned for the message `m` that it was handed.
  pub data Ends (a : Actor D) (m : Message)
      : Option (Actor D × Option Message) → Invoked D → Type 0 where
    no_result : Ends a m none (thrown a)
    no_reply : (b : Actor D) → Ends a m (some (b, none)) (done b none)
    replied :
        (b : Actor D) (res to r : Message)
        → Behind a m to
        → Replies a.id to r
        → Ends a m (some (b, some res)) (done b (some r))
    unanswerable : (b : Actor D) (res : Message) → Lost a m → Ends a m (some (b, some res)) asserted

  -- The assertions at the head of `invoke_message`.
  abbrev pub Allowed : ℕ → (ℕ → Bool) → Actor D → Message → Type 0
  Allowed intf_num has_callback a msg =
      (msg.meta.target.intf_id < intf_num)
      × (has_callback msg.meta.target.intf_id ≡ true)
      × ((if is_some (gather_group (current_ctx a))
            then kind_is gather (handled a msg)
            else not (kind_is gather (handled a msg)))
          ≡ true)
