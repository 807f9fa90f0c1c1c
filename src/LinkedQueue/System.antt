-- ===== src/LinkedQueue/System.antt =====
-- Any number of threads that call `enqueue`, `dequeue` and `first` of the ConcurrentLinkedQueue in
-- include/mola/queue.hpp, in any interleaving of their accesses, with the order in which items were
-- linked and in which `m_head` was moved over them.
use elastic_actor.Prelude.{
  ℕ, ◌≡◌, Bool, true, false, List, [], ◌∷◌, ◌++◌, Option, none, some, ◌==◌, if◌then◌else◌,
}
use elastic_actor.LinkedQueue.{
  Queue, Purpose, Thread, idle, enqueued, dequeued, looked, enqueue_link, claim, start_enqueue,
  start_head, step, empty_queue,
}

pub record Shared {ℓ} (A : Type ℓ) : Type ℓ where
  pub queue : Queue A
  pub sent : List A
  pub taken : List A

pub record System {ℓ} (A : Type ℓ) : Type ℓ where
  pub shared : Shared A
  pub thread : ℕ → Thread A

module _ {ℓ} {A : Type ℓ} where
  -- What the next access of a thread adds to the two orders.
  unfoldable pub sends : Thread A → Queue A → Option A
  sends (enqueue_link x t) q = elim (q.node t).next [ none ↦ some x | some s ↦ none ]
  sends th q = none

  unfoldable pub takes : Thread A → Queue A → Option A
  takes (claim h (some f)) q = if q.head == h then (q.node f).item else none
  takes th q = none

  abbrev pub noted : Option A → List A → List A
  noted none xs = xs
  noted (some x) xs = xs ++ (x ∷ [])

  unfoldable pub turn : Thread A → Shared A → Thread A × Shared A
  unfolding step sends takes
  turn th w =
      let (th', q) = step th w.queue in
      (
        th',
        record {
          queue = q;
          sent = noted (sends th w.queue) w.sent;
          taken = noted (takes th w.queue) w.taken;
        },
      )

  -- A thread that has not called, or has its result, may call.
  abbrev pub is_free : Thread A → Bool
  is_free idle = true
  is_free (enqueued b) = true
  is_free (dequeued x) = true
  is_free (looked f) = true
  is_free th = false

  abbrev pub placed : ℕ → Thread A → (ℕ → Thread A) → ℕ → Thread A
  placed i th ths j = if j == i then th else ths j

  abbrev pub start : System A
  start = record {
    shared = record { queue = empty_queue; sent = []; taken = [] };
    thread = λ i. idle;
  }

  abbrev pub moved : ℕ → System A → System A
  moved i s =
      let r = turn (s.thread i) s.shared in record { shared = r.1; thread = placed i r.0 s.thread }

  -- A thread calls an operation whenever it likes, or makes its next access.
  pub data Step (s : System A) : System A → Type ℓ where
    calls_enqueue :
        (i : ℕ) (x : Option A)
        → is_free (s.thread i) ≡ true
        → Step s (record s { thread = placed i (start_enqueue x) s.thread })
    calls :
        (i : ℕ) (o : Purpose)
        → is_free (s.thread i) ≡ true
        → Step s (record s { thread = placed i (start_head o) s.thread })
    accesses : (i : ℕ) → Step s (moved i s)

  pub data Reach : System A → Type ℓ where
    here : Reach start
    next : {s s' : System A} → Reach s → Step s s' → Reach s'
