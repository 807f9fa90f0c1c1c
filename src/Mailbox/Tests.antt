-- ===== src/Mailbox/Tests.antt =====
-- Runs of the mailbox of include/mola/mailbox.hpp with the two priorities of an actor, and the
-- theorems about it at these runs.
use elastic_actor.Prelude.{
  ◌-◌, ◌≤◌, false, length, ℕ, zero, suc, get_or, ◌<◌, ◌≡◌, ◌↔◌, refl, true, [], ◌∷◌, ◌++◌, none,
  some, arith, select,
}
use elastic_actor.Mailbox.{
  success, unblocked, empty, blocked, closed, dummy, chain, mark, node, Item, Mailbox, item, init,
  enqueue_try, enqueue, dequeue_try, dequeue, try_block_try, is_blocked,
}
use elastic_actor.Mailbox.Drain.{at_level}
use elastic_actor.Mailbox.Serve.{queue, IsValid, Outcome}
use elastic_actor.Mailbox.Dequeue.{dequeue_try-Outcome, Answers, dequeue-Answers}
use elastic_actor.Mailbox.Close.{Cleaned, close, close-read_freed}
use elastic_actor.Mailbox.History.{
  World, push, take, Reach, begin, later, due, Reach-in_order, block-all_received,
}

record Msg : Type 0 where
  place : ℕ
  level : ℕ

instance abbrev msg_item : Item Msg
msg_item = record { addr = λ m. m.place; priority = λ m. m.level }

abbrev request : ℕ → Msg
request a = record { place = a; level = 1 }

abbrev response : ℕ → Msg
response a = record { place = a; level = 0 }

abbrev box0 : Mailbox Msg
box0 = record { stack = dummy blocked; headers = [] ∷ [] ∷ []; num_inque = 0; lastp = 9 }

abbrev box1 : Mailbox Msg
box1 = record box0 { stack = chain (request 16) [] }

abbrev box2 : Mailbox Msg
box2 = record box0 { stack = chain (response 32) (request 16 ∷ []) }

abbrev box3 : Mailbox Msg
box3 = record {
  stack = dummy empty;
  headers = [] ∷ (request 16 ∷ []) ∷ [];
  num_inque = 1;
  lastp = 0;
}

abbrev box4 : Mailbox Msg
box4 = record { stack = dummy empty; headers = [] ∷ [] ∷ []; num_inque = 0; lastp = 1 }

enqueue_wakes : enqueue (request 16) box0 ≡ some (unblocked, box1)
unfolding enqueue
enqueue_wakes = refl

-- A producer with a stale pointer goes round again.
enqueue_stale : enqueue_try (response 32) (mark blocked) box1 ≡ none
unfolding enqueue_try
enqueue_stale = refl

-- The response overtakes the request, which was sent before it.
dequeue-response : dequeue 2 box2 ≡ some (item (response 32) box3)
unfolding dequeue
dequeue-response = refl

dequeue-request : dequeue 2 box3 ≡ some (item (request 16) box4)
unfolding dequeue
dequeue-request = refl

box2-sorted : (p : ℕ) → select (at_level p) (get_or box2.headers p []) ≡ get_or box2.headers p []
box2-sorted zero = refl
box2-sorted (suc zero) = refl
box2-sorted (suc (suc p)) = refl

box2-IsValid : IsValid 2 box2
box2-IsValid = record {
  levels = refl;
  counted = refl;
  room = omega arith;
  served = refl;
  bounded = λ h. absurd (omega arith);
  sorted = box2-sorted;
  ranked = omega arith;
}

dequeue_try-Outcome_example : Outcome 2 (node 32) box2 (item (response 32) box3)
unfolding dequeue_try
dequeue_try-Outcome_example = dequeue_try-Outcome 2 (node 32) box2 _ box2-IsValid refl

dequeue-Answers_example : Answers 2 box2
dequeue-Answers_example = dequeue-Answers 2 box2 box2-IsValid (λ e. cc)

close-read_freed_example :
    (c : Cleaned Msg) × (close 2 box2 ≡ some (record box2 { stack = dummy closed }, c))
    × ((c.read_freed ≡ true) ↔ (1 < 2))
    × (c.read_freed ≡ false → length c.freed ≤ 2 - box2.lastp)
close-read_freed_example = close-read_freed 2 box2

-- Two producers, then the owner takes both items and falls asleep.
abbrev world4 : World Msg
world4 = record {
  box = box4;
  sent = request 16 ∷ response 32 ∷ [];
  got = response 32 ∷ request 16 ∷ [];
  owners = 1;
}

world4-Reach : Reach 2 9 world4
unfolding init enqueue_try dequeue_try
world4-Reach =
    later
      (later
        (later
          (later begin (
            push (request 16) (mark blocked) {s = unblocked} {m = box1} (omega arith) (omega arith)
              refl (λ e. cc)))
          (push (response 32) (node 16) {s = success} {m = box2} (omega arith) (omega arith) refl
            (λ e. cc)))
        (take (node 32) {x = response 32} {m = box3} (omega arith) refl))
      (take (mark empty) {x = request 16} {m = box4} (omega arith) refl)

Reach-in_order_example :
    ((p : ℕ)
      → select (at_level p) world4.sent ≡ select (at_level p) world4.got ++ queue p world4.box)
    × (world4.owners ≡ due (is_blocked world4.box))
Reach-in_order_example = Reach-in_order world4-Reach

block-all_received_example : select (at_level 1) world4.got ≡ select (at_level 1) world4.sent
unfolding try_block_try
block-all_received_example =
    block-all_received (mark empty) (record box4 { stack = dummy blocked }) world4-Reach refl 1
