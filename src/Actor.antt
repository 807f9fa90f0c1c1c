-- ===== src/Actor.antt =====
-- include/mola/actor.hpp: an actor handles the messages of its mailbox when a worker runs it. What
-- the module does with a message, `Module::invoke_message`, and its `init_instance` are arguments.
-- A pointer to a request context is its id; the private data of the actor are of any type.
pub mod ReqCtx
pub mod Waiting
pub mod Execute
pub mod Deliver
pub mod Threshold
mod Tests
use elastic_actor.Prelude.{
  ℕ, zero, suc, ◌+◌, Bool, true, false, ◌||◌, Option, none, some, if◌then◌else◌, is_some, ◌==◌,
}
use elastic_actor.ActorId.{ActorId}
use elastic_actor.Message.{Message, response, gather, is_kind}
use elastic_actor.Mailbox.{
  Item, Mailbox, Dequeued, dequeue, is_blocked, try_block, enqueue, EnqueueStatus, success,
  unblocked, failure,
}
use elastic_actor.Mailbox.Close.{close}
use elastic_actor.Actor.ReqCtx.{Ctx, Gather, Requests, find_req_ctx, insert_req_ctx, delete_reqid}

-- `MsgLinkNode`
pub record LinkNode : Type 0 where
  pub addr : ℕ
  pub value : Message

abbrev pub answers : Message → Bool
answers msg = is_kind response msg.meta || is_kind gather msg.meta

-- `GetMsgPriority`
abbrev pub priority : LinkNode → ℕ
priority n = if answers n.value then 0 else 1

instance pub LinkNode-Item : Item LinkNode
LinkNode-Item = record { addr = λ n. n.addr; priority = priority }

pub data State : Type 0 where
  startup running suspend : State

-- `ExecStatus`, as far as an actor returns it, and what is no return: `close` has read a freed node.
pub data Status : Type 0 where
  resumable blocked exited undefined : Status

pub record Actor (D : Type 0) : Type 0 where
  pub id : ActorId
  pub state : State
  pub mailbox : Mailbox LinkNode
  pub current_ctx : Option ℕ
  pub requests : Requests
  pub current_message : Option Message
  pub data_ptr : D

-- How the loop of `execute` ends: it is through, the callback has thrown, `dequeue` has gone wrong,
-- or the fuel is used up.
pub data Ended (D : Type 0) : Type 0 where
  through : Actor D → Ended D
  threw : Actor D → Ended D
  failed : Ended D
  no_fuel : Ended D

module _ {D : Type 0} where
  -- `get_message`, which leaves the current message as it is when the mailbox answers null.
  unfoldable pub get_message : Actor D → Option (Actor D)
  get_message a = elim (dequeue 2 a.mailbox) [
    | some (Dequeued.nothing m) ↦ some (record a { mailbox = m })
    | some (Dequeued.item x m) ↦ some (record a { mailbox = m; current_message = some x.value })
    | _ ↦ none
  ]

  -- `set_current_ctx(reqid)`
  abbrev pub set_ctx : ℕ → Actor D → Actor D
  set_ctx reqid a = record a {
    current_ctx = if is_some (find_req_ctx reqid a.requests) then some reqid else none;
  }

  -- The context that `execute` sets for a message: none for a message that is no answer, and none
  -- for an answer whose id is 0.
  unfoldable pub enter : Message → Actor D → Actor D
  enter msg a =
      if answers msg
      then (if msg.meta.reqid == 0
          then (record a { current_ctx = none })
          else set_ctx msg.meta.reqid a)
      else record a { current_ctx = none }

  -- What follows the call: the message is dropped, a context that is done is deleted.
  unfoldable pub leave : Actor D → Actor D
  leave a = record a {
    current_message = none;
    requests = elim a.current_ctx [ none ↦ a.requests | some id ↦ delete_reqid id a.requests ];
  }

  -- What follows the loop; a throw closes the mailbox.
  abbrev pub finish : Ended D → Option (Status × Actor D)
  finish (through a) =
      if is_blocked a.mailbox then some (blocked, a) else elim (try_block a.mailbox) [
        | some (true, m) ↦ some (blocked, record a { mailbox = m })
        | some (false, m) ↦ some (resumable, record a { mailbox = m })
        | none ↦ none
      ]
  finish (threw a) = elim (close 2 a.mailbox) [
    | some (m, c) ↦ some (if c.read_freed then undefined else exited, record a { mailbox = m })
    | none ↦ none
  ]
  finish _ = none

  -- The init callback runs when the actor is scheduled for the first time.
  abbrev pub started : (Actor D → Actor D) → Actor D → Actor D
  started init a = elim a.state [ startup ↦ record (init a) { state = running } | _ ↦ a ]

  module _ (init : Actor D → Actor D) (invoke : Actor D → Message → Option (Actor D)) where
    -- The `for` loop, with the number of rounds that are left; an answer does not count.
    unfoldable pub messages : ℕ → ℕ → Actor D → Ended D
    unfolding get_message enter leave
    messages fuel zero a = through a
    messages zero (suc left) a = no_fuel
    messages (suc fuel) (suc left) a = elim (get_message a) [
      | none ↦ failed
      | some b ↦ elim b.current_message [
        | none ↦ through b
        | some msg ↦ elim (invoke (enter msg b) msg) [
          | none ↦ threw (enter msg b)
          | some c ↦ messages fuel (if answers msg then suc left else left) (leave c)
        ]
      ]
    ]

    pub execute : ℕ → ℕ → Actor D → Option (Status × Actor D)
    unfolding messages
    execute fuel threshold a = finish (messages fuel threshold (started init a))

module _ {D : Type 0} where
  -- `deliver_message`: whether it succeeds, and whether the actor has to be put into a task queue.
  unfoldable pub deliver_message : LinkNode → Actor D → Option (Bool × Bool × Actor D)
  deliver_message n a = elim (enqueue n a.mailbox) [
    | none ↦ none
    | some (failure, m) ↦ some (false, false, record a { mailbox = m })
    | some (unblocked, m) ↦ some (true, true, record a { mailbox = m })
    | some (success, m) ↦ some (true, false, record a { mailbox = m })
  ]
