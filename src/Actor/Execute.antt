-- ===== src/Actor/Execute.antt =====
-- Running an actor, include/mola/actor.hpp: the end of `execute`, its status and the mailbox that it leaves.
use elastic_actor.Prelude.{◌+◌, ◌<◌, ◌≤◌, ◌≡◌, true, false, Option, some, length}
use elastic_actor.Message.{Message}
use elastic_actor.Mailbox.{closed, dummy, links, Mailbox, is_blocked}
use elastic_actor.Actor.{
  LinkNode, LinkNode-Item, Status, resumable, exited, undefined, Actor, Ended, through, threw,
  get_message,
}
use elastic_actor.Actor.Waiting.{Open, waiting}

module _ {D : Type 0} where
  -- What `get_message` does with an open mailbox: no message, and none waits; or one message.
  data Got (a : Actor D) : Type 0 where
    got_none : get_message a ≡ some a → waiting a.mailbox ≡ 0 → Got a
    got :
        (x : LinkNode) (m : Mailbox LinkNode)
        → get_message a ≡ some (record a { mailbox = m; current_message = some x.value })
        → Open m
        → waiting a.mailbox ≡ waiting m + 1
        → Got a

  data Runs : Ended D → Type 0 where
    ran : {b : Actor D} → Open b.mailbox → Runs (through b)
    left : {b : Actor D} → Open b.mailbox → Runs (threw b)

  -- What `execute` returns: BLOCKED with a mailbox that is marked as blocked and holds no message,
  -- so that the next message schedules the actor; RESUMABLE with a mailbox that is not marked; EXIT
  -- with a closed mailbox, after a throw that left at most one node in the shared stack; or nothing
  -- defined, after a throw that left more there.
  pub data Finished : Option (Status × Actor D) → Type 0 where
    sleeps :
        {b : Actor D}
        → Open b.mailbox
        → is_blocked b.mailbox ≡ true
        → waiting b.mailbox ≡ 0
        → Finished (some (Status.blocked, b))
    goes_on :
        {b : Actor D}
        → Open b.mailbox
        → is_blocked b.mailbox ≡ false
        → Finished (some (resumable, b))
    gone :
        {b : Actor D} (a : Actor D)
        → b ≡ record a { mailbox = record a.mailbox { stack = dummy closed } }
        → length (links a.mailbox.stack) ≤ 1
        → Finished (some (exited, b))
    trips :
        {b : Actor D} (a : Actor D)
        → b ≡ record a { mailbox = record a.mailbox { stack = dummy closed } }
        → 1 < length (links a.mailbox.stack)
        → Finished (some (undefined, b))
