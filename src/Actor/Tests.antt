-- ===== src/Actor/Tests.antt =====
-- Actors of include/mola/actor.hpp at concrete inputs.
use elastic_actor.Prelude.{
  ℕ, ◌+◌, ◌≤◌, if◌then◌else◌, ◌≡◌, refl, arith, true, false, List, [], ◌∷◌, Option, none, some,
  select, get_or, zero, suc,
}
use elastic_actor.ActorId.{ActorId}
use elastic_actor.Message.{Message, Metadata, is_kind}
use elastic_actor.Mailbox.{Mailbox, chain, is_blocked, dequeue}
use elastic_actor.Mailbox.Drain.{at_level}
use elastic_actor.Actor.{
  LinkNode, LinkNode-Item, State, Actor, through, answers, messages, deliver_message,
}
use elastic_actor.Actor.Threshold.{messages-bounded}
use elastic_actor.Actor.ReqCtx.{Ctx, Requests, new_reqid, find_req_ctx}
use elastic_actor.Actor.ReqCtx.Ids.{Consistent, Fresh, new_reqid-Fresh}
use elastic_actor.Actor.Waiting.{Open, waiting}
use elastic_actor.Actor.Deliver.{deliver_message-wakes}

abbrev here : ActorId
here = record { node_id = 0; module_id = 9; intf_id = 1; inst_id = 258 }

abbrev question : Metadata
question = record { type = 1; data_type = 3; size = 8; sender = here; target = here; reqid = 7 }

abbrev no_requests : Requests
no_requests = record { recycle = []; generator = 0; contexts = [] }

none_held : Consistent no_requests
none_held = record {
  once = λ id. omega arith;
  given = λ id h. absurd (omega arith);
  keyed = λ id c e. absurd (ground arith);
  room = omega arith;
}

new_reqid-Fresh_example :
    Fresh (new_reqid no_requests).0 (new_reqid no_requests).1
    × Consistent (new_reqid no_requests).1
    × ((id : ℕ) → find_req_ctx id (new_reqid no_requests).1 ≡ find_req_ctx id no_requests)
new_reqid-Fresh_example = new_reqid-Fresh no_requests none_held (omega arith)

-- Request 2 is open, and request 1 is over.
abbrev asked : Ctx
asked = record { reqid = 2; initiator = none; saved = 5; gather = none }

abbrev one_asked : Requests
one_asked = record { recycle = 1 ∷ []; generator = 3; contexts = (2, asked) ∷ [] }

abbrev next_asked : Ctx
next_asked = record { reqid = 3; initiator = none; saved = 6; gather = none }

one_held : Consistent one_asked
one_held = record {
  once = λ id. ground arith;
  given = λ id h. ground (arith, h);
  keyed = λ id c e. ground arith;
  room = omega arith;
}

abbrev letter : LinkNode
letter = record { addr = 64; value = record { meta = question; payload = 0 } }

abbrev box : Mailbox LinkNode
box = record { stack = chain letter []; headers = [] ∷ [] ∷ []; num_inque = 0; lastp = 0 }

-- An actor whose data are the payloads of the messages that it has handled.
abbrev worker : Actor (List ℕ)
worker = record {
  id = question.target;
  state = State.startup;
  mailbox = box;
  current_ctx = none;
  requests = no_requests;
  current_message = none;
  data_ptr = [];
}

abbrev handle_one : Actor (List ℕ) → Message → Option (Actor (List ℕ))
handle_one a msg = some (record a { data_ptr = msg.payload ∷ a.data_ptr })

empty_sorted : (p : ℕ) → select (at_level p) (get_or box.headers p []) ≡ get_or box.headers p []
empty_sorted zero = refl
empty_sorted (suc zero) = refl
empty_sorted (suc (suc p)) = refl

box-Open : Open box
unfolding is_blocked LinkNode-Item is_kind
box-Open = record {
  valid = record {
    levels = refl;
    counted = refl;
    room = omega arith;
    served = refl;
    bounded = λ h. omega arith;
    sorted = empty_sorted;
    ranked = (omega arith, tt);
  };
  open_box = λ e. ground arith;
  asleep = λ b. ground arith;
}

deliver_message-wakes_example :
    (b : Actor (List ℕ)) × (deliver_message letter worker ≡ some (true, is_blocked box, b))
    × Open b.mailbox
    × (waiting b.mailbox ≡ waiting box + 1)
    × (is_blocked b.mailbox ≡ false)
deliver_message-wakes_example = deliver_message-wakes letter worker box-Open (omega arith)

-- An actor whose data are the number of messages that it has handled and that are no answers.
abbrev counter : Actor ℕ
counter = record {
  id = question.target;
  state = State.running;
  mailbox = box;
  current_ctx = none;
  requests = no_requests;
  current_message = none;
  data_ptr = 0;
}

abbrev count_one : Actor ℕ → Message → Option (Actor ℕ)
count_one a msg = some (record a { data_ptr = a.data_ptr + (if answers msg then 0 else 1) })

abbrev after_one : Actor ℕ
unfolding messages
after_one = elim (messages (λ a. a) count_one 1 1 counter) [ through b ↦ b | _ ↦ counter ]

messages-bounded_example : after_one.data_ptr ≤ counter.data_ptr + 1
unfolding messages dequeue LinkNode-Item is_kind
messages-bounded_example =
    messages-bounded (λ n. n) (λ a. a) count_one (λ a b msg e. ground arith) 1 1 counter after_one
      refl

counts_one : after_one.data_ptr ≡ 1
unfolding after_one dequeue LinkNode-Item is_kind
counts_one = refl
