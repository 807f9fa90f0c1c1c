-- ===== src/SafeQueue/Tests.antt =====
-- The queue of include/mola/queue.hpp at concrete inputs.
use elastic_actor.Prelude.{ℕ, refl, arith, some, [], ◌∷◌}
use elastic_actor.SafeQueue.{QueueNode, Queue, append_at, enqueue, dequeue}
use elastic_actor.SafeQueue.Order.{Ends, Points, IsValid}
use elastic_actor.SafeQueue.Runs.{Run, begun, put, get}

abbrev first_node : QueueNode ℕ
first_node = record { addr = 32; value = 7 }

abbrev second_node : QueueNode ℕ
second_node = record { addr = 64; value = 8 }

abbrev two_waiting : Queue ℕ
two_waiting = record { head = first_node ∷ second_node ∷ []; tail = some 64; num = 2 }

two_waiting-IsValid : IsValid two_waiting
unfolding Points Ends
two_waiting-IsValid = record { counted = refl; room = omega arith; last = (64, refl, (refl, refl)) }

abbrev one_waiting : Queue ℕ
one_waiting = record { head = second_node ∷ []; tail = some 64; num = 1 }

two_in_one_out : Run (7 ∷ 8 ∷ []) (7 ∷ []) one_waiting
unfolding enqueue append_at dequeue
two_in_one_out =
    get {r = some 7}
      (put {q' = two_waiting} second_node
        (put {q' = record { head = first_node ∷ []; tail = some 32; num = 1 }} first_node begun refl
          (omega arith) refl)
        refl (omega arith) refl)
      refl
