-- ===== src/LinkedQueue/Tests.antt =====
-- The ConcurrentLinkedQueue at concrete items: two threads that enqueue and one that dequeues.
use elastic_actor.Prelude.{
  ℕ, ◌+◌, ◌*◌, ◌-◌, ◌≤◌, ◌≡◌, ◌≢◌, true, List, [], ◌∷◌, ◌++◌, some, length, refl, get_elem?,
}
use elastic_actor.LinkedQueue.{
  taking, looking, crashed, enqueued, looked, enqueue_again, reset_item, start_enqueue, start_head,
  step, empty_queue,
}
use elastic_actor.LinkedQueue.System.{
  Shared, System, start, moved, placed, turn, calls, calls_enqueue, accesses, Reach, here, next,
}
use elastic_actor.LinkedQueue.Invariant.{Good, claims}
use elastic_actor.LinkedQueue.Order.{start-Good, Reach-taken_in_order}
use elastic_actor.LinkedQueue.Alone.{run, run-Fine, enqueue-ends}
use elastic_actor.LinkedQueue.Alone.Taking.{Returns, dequeue-ends}

accessed : List ℕ → System ℕ → System ℕ
accessed [] s = s
accessed (i ∷ is) s = accessed is (moved i s)

accessed-Reach : (is : List ℕ) (s : System ℕ) → Reach s → Reach (accessed is s)
unfolding accessed
accessed-Reach [] s r = r
accessed-Reach (i ∷ is) s r = accessed-Reach is (moved i s) (next r (accesses i))

abbrev sends_5 : System ℕ
sends_5 = record start { thread = placed 0 (start_enqueue (some 5)) start.thread }

abbrev sends_both : System ℕ
sends_both = record sends_5 { thread = placed 1 (start_enqueue (some 6)) sends_5.thread }

abbrev all_called : System ℕ
all_called = record sends_both { thread = placed 2 (start_head taking) sends_both.thread }

all_called-Reach : Reach all_called
all_called-Reach =
    next (next (next here (calls_enqueue 0 (some 5) refl)) (calls_enqueue 1 (some 6) refl))
      (calls 2 taking refl)

-- Both have read the tail when the first links its node; the other helps with the tail. The
-- dequeue has read the head before.
abbrev schedule : List ℕ
schedule = 0 ∷ 1 ∷ 0 ∷ 1 ∷ 0 ∷ 1 ∷ 2 ∷ 0 ∷ 1 ∷ 1 ∷ 1 ∷ 1 ∷ 1 ∷ 2 ∷ 2 ∷ 2 ∷ 2 ∷ 2 ∷ []

abbrev after : System ℕ
after = accessed schedule all_called

after_sent : after.shared.sent ≡ 5 ∷ []
unfolding accessed turn step empty_queue start_enqueue start_head
after_sent = refl

after_dequeue : after.thread 2 ≡ reset_item 1 5
unfolding accessed turn step empty_queue start_enqueue start_head
after_dequeue = refl

Reach-taken_in_order_example :
    ((i : ℕ) → after.thread i ≢ crashed)
    × ((waiting : List ℕ) × (after.shared.sent ≡ after.shared.taken ++ waiting)
        × (length after.shared.taken ≡ after.shared.queue.head))
    × ((i f : ℕ) (x : ℕ)
        → after.thread i ≡ reset_item f x
        → get_elem? after.shared.taken (f - 1) ≡ some x)
    × ((i j a : ℕ) → claims (after.thread i) ≡ some a → claims (after.thread j) ≡ some a → i ≡ j)
Reach-taken_in_order_example =
    Reach-taken_in_order (accessed-Reach schedule all_called all_called-Reach)

-- A node is linked, and the tail has not been moved to it.
abbrev lags : Shared ℕ
lags = (run 4 (enqueue_again 5, start.shared)).1

lags-Good : Good lags
lags-Good = (run-Fine 4 (enqueue_again 5) start.shared start-Good tt).0

enqueue-ends_example :
    (w' : Shared ℕ) × (run (5 + 4 * 1) (enqueue_again 6, lags) ≡ (enqueued true, w'))
    × Good w'
    × (w'.sent ≡ lags.sent ++ (6 ∷ []))
    × (w'.taken ≡ lags.taken)
unfolding run turn step empty_queue
enqueue-ends_example = enqueue-ends 1 6 lags lags-Good refl

dequeue-ends_example : (n : ℕ) × (n ≤ 12) × Returns n lags
dequeue-ends_example = dequeue-ends lags lags-Good

-- `first` on a queue with one item that the tail has not reached.
first_lags : (run 10 (start_head looking, lags)).0 ≡ looked (some 1)
unfolding run turn step empty_queue start_head
first_lags = refl
