-- ===== src/Actor/Deliver.antt =====
-- Sending a message to an actor, `deliver_message` of include/mola/actor.hpp.
use elastic_actor.Prelude.{
  ◌+◌, ◌<◌, ◌^◌, ◌≡◌, ◌≢◌, ◌∙◌, refl, ap, sym, inl, inr, true, false, List, [], ◌∷◌, length, some,
  arith, Bool-cases, select, length-append, if◌then◌else◌,
}
use elastic_actor.Mailbox.{
  EnqueueStatus, success, unblocked, empty, blocked, closed, Stack, dummy, chain, Mailbox,
  is_blocked, enqueue, links,
}
use elastic_actor.Mailbox.Drain.{at_level, total}
use elastic_actor.Mailbox.Serve.{queue, Pushed, queue-Pushed, Pushed-IsValid}
use elastic_actor.Actor.{LinkNode, LinkNode-Item, Actor, deliver_message}
use elastic_actor.Actor.Waiting.{Open, waiting, one_level}

enqueue-Pushed :
    (n : LinkNode) (m : Mailbox LinkNode) (st : Stack LinkNode)
    → m.stack ≡ st
    → st ≢ dummy closed
    → (s : EnqueueStatus) × (m' : Mailbox LinkNode) × (enqueue n m ≡ some (s, m'))
      × Pushed n m s m'
      × (s ≡ (if is_blocked m then unblocked else success))
unfolding enqueue is_blocked
enqueue-Pushed n m (dummy empty) q o = (
  success,
  record m { stack = chain n [] },
  ground arith,
  record { result = rw q refl; status = rw q refl; open_box = rw q refl },
  rw q refl,
)
enqueue-Pushed n m (dummy blocked) q o = (
  unblocked,
  record m { stack = chain n [] },
  ground arith,
  record { result = rw q refl; status = rw q refl; open_box = rw q refl },
  rw q refl,
)
enqueue-Pushed n m (dummy closed) q o = absurd (o refl)
enqueue-Pushed n m (chain x xs) q o = (
  success,
  record m { stack = chain n (x ∷ xs) },
  ground arith,
  record { result = rw q refl; status = rw q (ground arith); open_box = rw q refl },
  rw q refl,
)

-- The priority of a message is 0 or 1.
priority-lt : (n : LinkNode) → LinkNode-Item.priority n < 2
unfolding LinkNode-Item
priority-lt n = ground arith

module _ {D : Type 0} where
  -- A message for an actor with an open mailbox that has room for it is accepted, one message more
  -- waits, and the sender puts the actor into a task queue exactly if its mailbox was marked as
  -- blocked, which it is no longer.
  pub deliver_message-wakes :
      (n : LinkNode) (a : Actor D)
      → Open a.mailbox
      → total a.mailbox.headers + length (links a.mailbox.stack) + 1 < 2 ^ 32
      → (b : Actor D) × (deliver_message n a ≡ some (true, is_blocked a.mailbox, b))
        × Open b.mailbox
        × (waiting b.mailbox ≡ waiting a.mailbox + 1)
        × (is_blocked b.mailbox ≡ false)
  unfolding deliver_message is_blocked
  deliver_message-wakes n a o fits =
      let (s, m, e, p, status) = enqueue-Pushed n a.mailbox a.mailbox.stack refl o.open_box in
      (
        record a { mailbox = m },
        answer s m e status,
        record {
          valid = Pushed-IsValid p o.valid (priority-lt n) fits;
          open_box = λ shut. chain-open (sym (ap (λ k. k.stack) p.result) ∙ shut);
          asleep = λ b. absurd (ground (arith, b, chain-awake m p));
        },
        omega (
          arith,
          one_level n,
          ap length (queue-Pushed p 0),
          ap length (queue-Pushed p 1),
          length-append (queue 0 a.mailbox) (select (at_level 0) (n ∷ [])),
          length-append (queue 1 a.mailbox) (select (at_level 1) (n ∷ [])),
        ),
        chain-awake m p,
      )
    where
      chain-open : {x : LinkNode} {xs : List LinkNode} → chain x xs ≢ dummy closed
      chain-open e = ground arith

      chain-awake :
          (m : Mailbox LinkNode) {s : EnqueueStatus} → Pushed n a.mailbox s m → is_blocked m ≡ false
      chain-awake m p = rw p.result refl

      answer :
          (s : EnqueueStatus) (m : Mailbox LinkNode)
          → enqueue n a.mailbox ≡ some (s, m)
          → s ≡ (if is_blocked a.mailbox then unblocked else success)
          → deliver_message n a ≡ some (true, is_blocked a.mailbox, record a { mailbox = m })
      answer s m e status = elim (Bool-cases (is_blocked a.mailbox)) [
        | inl y ↦ let u : s ≡ unblocked = status ∙ rw y refl in rw (e, deliver_message, u, y) refl
        | inr y ↦ let u : s ≡ success = status ∙ rw y refl in rw (e, deliver_message, u, y) refl
      ]
