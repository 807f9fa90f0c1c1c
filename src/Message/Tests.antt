-- ===== src/Message/Tests.antt =====
-- The message headers and pointers of include/mola/message.hpp at concrete inputs.
use elastic_actor.Prelude.{
  ◌+◌, ◌≤◌, ◌≡◌, refl, arith, [], ◌∷◌, none, some, ◌==◌, if◌then◌else◌, length,
}
use elastic_actor.ActorId.{ActorId}
use elastic_actor.Message.{Metadata, metatobe}
use elastic_actor.Message.Endian.{image, read_be, Fits, read_be-metatobe}
use elastic_actor.Message.Pointers.{Heap, handle, wrap, copy, assign, drop_ref}
use elastic_actor.Message.Pointers.Balance.{Balanced}
use elastic_actor.Message.Pointers.Steps.{
  Steps, start, step, wrapped, copied, dropped, Steps-Balanced, assign-handle,
}

abbrev asker : ActorId
asker = record { node_id = 3; module_id = 7; intf_id = 0xffff; inst_id = 258 }

abbrev question : Metadata
question = record {
  type = 1;
  data_type = 2;
  size = 1000;
  sender = asker;
  target = record { node_id = 4; module_id = 9; intf_id = 1; inst_id = 0xffff };
  reqid = 70000;
}

question-Fits : Fits question
question-Fits = record {
  type = omega arith;
  data_type = omega arith;
  size = omega arith;
  sender = (omega arith, omega arith, omega arith, omega arith);
  target = (omega arith, omega arith, omega arith, omega arith);
  reqid = omega arith;
}

read_be-metatobe_example : read_be (image (metatobe question)) ≡ some (question, [])
read_be-metatobe_example = read_be-metatobe question question-Fits

abbrev no_pointers : Heap
no_pointers = record { counts = λ p. 0; handles = []; raw = []; next = 10 }

abbrev shared : Heap
shared = drop_ref 0 (copy 0 (wrap no_pointers))

shared-Steps : Steps 3 shared
shared-Steps =
    step (step (step (start no_pointers refl refl (λ p. refl)) wrapped) (copied 0)) (dropped 0)

Steps-Balanced_example : Balanced shared × (length shared.handles + length shared.raw ≤ 3)
Steps-Balanced_example = Steps-Balanced shared-Steps (omega arith)

abbrev lone : Heap
lone = record { counts = λ p. if p == 9 then 1 else 0; handles = some 9 ∷ []; raw = []; next = 10 }

assign-handle_example : handle (assign 0 0 lone) 0 ≡ none
assign-handle_example = assign-handle lone 0 0 (omega arith)
