-- ===== src/Mailbox.antt =====
-- include/mola/mailbox.hpp: the lock-free mailbox of an actor. Producers push onto the shared
-- stack `m_stack` by compare-and-swap; the owner moves the stack into private queues, one for
-- each priority, and serves those. The list below a `chain` is the `next` chain of the top node,
-- newest first. A producer or the owner acts on a pointer `e` that it loaded before and that may
-- be stale, so each iteration of a loop is a function of `e`.
pub mod Drain
pub mod Serve
pub mod Dequeue
pub mod Close
pub mod History
mod Tests
use elastic_actor.Prelude.{
  ℕ, zero, suc, ◌+◌, ◌-◌, Bool, true, false, List, [], ◌∷◌, Option, none, some, ltb, ◌==◌,
  if◌then◌else◌, get_or, set, replicate, inc32, dec32,
}

pub data EnqueueStatus : Type 0 where
  success unblocked failure : EnqueueStatus

pub data Dummy : Type 0 where
  empty blocked closed : Dummy

pub data Stack {ℓ} (A : Type ℓ) : Type ℓ where
  dummy : Dummy → Stack A
  chain : A → List A → Stack A

-- What `m_stack.load()` returns: one of the three small integers, or the address of a node.
pub data Ptr : Type 0 where
  mark : Dummy → Ptr
  node : ℕ → Ptr

-- What the mailbox needs of an item: where it lies, and the callback `GetPriority`.
pub record Item {ℓ} (A : Type ℓ) : Type ℓ where
  pub addr : A → ℕ
  pub priority : A → ℕ

pub record Mailbox {ℓ} (A : Type ℓ) : Type ℓ where
  pub stack : Stack A
  pub headers : List (List A)
  pub num_inque : ℕ
  pub lastp : ℕ

abbrev pub same_dummy : Dummy → Dummy → Bool
same_dummy empty empty = true
same_dummy blocked blocked = true
same_dummy closed closed = true
same_dummy _ _ = false

abbrev pub same : Ptr → Ptr → Bool
same (mark d) (mark e) = same_dummy d e
same (node a) (node b) = a == b
same _ _ = false

abbrev pub links {ℓ} : {A : Type ℓ} → Stack A → List A
links (dummy d) = []
links (chain x xs) = x ∷ xs

abbrev pub is_dummy : Ptr → Bool
is_dummy (mark d) = true
is_dummy (node a) = false

-- `(e == dummy_blocked()) ? MAILBOX_UNBLOCKED : MAILBOX_SUCCESS`
unfoldable pub unblocks : Ptr → EnqueueStatus
unblocks e = if same e (mark blocked) then unblocked else success

-- The constructor sets every header to null and leaves `m_lastp` uninitialised.
pub init {ℓ} : {A : Type ℓ} → ℕ → ℕ → Mailbox A
init np garbage = record {
  stack = dummy blocked;
  headers = replicate np [];
  num_inque = 0;
  lastp = garbage;
}

-- The three outcomes of `dequeue`, and the two ways in which it goes wrong: the assertion that
-- some private queue holds an item, and a read through the `closed` mark.
pub data Dequeued {ℓ} (A : Type ℓ) : Type ℓ where
  nothing : Mailbox A → Dequeued A
  item : A → Mailbox A → Dequeued A
  assert_failed : Dequeued A
  fault : Dequeued A

module _ {ℓ} {A : Type ℓ} ⦃i : Item A⦄ where
  abbrev pub top : Stack A → Ptr
  top (dummy d) = mark d
  top (chain x xs) = node (i.addr x)

  -- `m_stack.compare_exchange_strong(e, new)`
  abbrev pub cas : Mailbox A → Ptr → Stack A → Option (Mailbox A)
  cas m e new = if same (top m.stack) e then some (record m { stack = new }) else none

  -- One iteration of the loop of `enqueue` with the loaded pointer `e`; `none` goes round again.
  unfoldable pub enqueue_try : A → Ptr → Mailbox A → Option (EnqueueStatus × Mailbox A)
  unfolding unblocks
  enqueue_try x e m =
      if same (mark closed) e
      then some (failure, m)
      else elim (cas m e (chain x (if is_dummy e then [] else links m.stack))) [
        | none ↦ none
        | some m' ↦ some (unblocks e, m')
      ]

  -- The loop with the pointers that it loads, one for each iteration.
  unfoldable pub enqueue_loop : A → List Ptr → Mailbox A → Option (EnqueueStatus × Mailbox A)
  unfolding enqueue_try
  enqueue_loop x [] m = none
  enqueue_loop x (e ∷ es) m = elim (enqueue_try x e m) [
    | none ↦ enqueue_loop x es m
    | some r ↦ some r
  ]

  -- The loop when no other thread runs between the load and the exchange.
  unfoldable pub enqueue : A → Mailbox A → Option (EnqueueStatus × Mailbox A)
  unfolding enqueue_loop
  enqueue x m = enqueue_loop x (top m.stack ∷ []) m

  -- `for (; m_lastp < NP; ++m_lastp)` over the private queues, on `NP - m_lastp` rounds.
  pub serve : ℕ → Mailbox A → Dequeued A
  serve zero m = assert_failed
  serve (suc k) m = elim (get_or m.headers m.lastp []) [
    | [] ↦ serve k (record m { lastp = m.lastp + 1 })
    | x ∷ rest ↦
        item x (record m { headers = set m.headers m.lastp rest; num_inque = dec32 m.num_inque })
  ]

  -- `while (e != nullptr)`: the taken chain is turned over into the private queues.
  pub drain : List A → List (List A) → ℕ → List (List A) × ℕ
  drain [] headers n = (headers, n)
  drain (x ∷ xs) headers n =
      drain xs (set headers (i.priority x) (x ∷ get_or headers (i.priority x) [])) (inc32 n)

  -- The exchange of the stack for `empty`, and the move of what was taken.
  pub fetch_try : Ptr → Mailbox A → Option (Mailbox A)
  unfolding drain
  fetch_try e m = elim (cas m e (dummy empty)) [
    | none ↦ none
    | some m' ↦
        let (headers, n) = drain (links m.stack) m.headers m.num_inque in
        some (record m' { headers = headers; num_inque = n; lastp = 0 })
  ]

  -- One pass of `dequeue` below `__begin` with the loaded pointer `e`: `none` loads again.
  pub dequeue_try : ℕ → Ptr → Mailbox A → Option (Dequeued A)
  unfolding serve fetch_try
  dequeue_try np e m =
      if ltb 0 m.num_inque
      then some (serve (np - m.lastp) m)
      else if same e (mark blocked)
      then some (nothing m)
      else if same e (mark empty)
      then some (nothing m)
      else elim (fetch_try e m) [
        | none ↦ none
        | some m' ↦ some (if same e (mark closed) then fault else serve np m')
      ]

  -- `dequeue` when no producer runs between the load and the exchange.
  unfoldable pub dequeue : ℕ → Mailbox A → Option (Dequeued A)
  unfolding dequeue_try
  dequeue np m = dequeue_try np (top m.stack) m

  unfoldable pub is_blocked : Mailbox A → Bool
  is_blocked m = same (top m.stack) (mark blocked)

  -- One iteration of `try_block` with the loaded pointer `e`.
  pub try_block_try : Ptr → Mailbox A → Option (Bool × Mailbox A)
  try_block_try e m =
      if ltb 0 m.num_inque
      then some (false, m)
      else if same e (mark empty)
      then elim (cas m e (dummy blocked)) [ none ↦ none | some m' ↦ some (true, m') ]
      else some (false, m)

  unfoldable pub try_block : Mailbox A → Option (Bool × Mailbox A)
  unfolding try_block_try
  try_block m = try_block_try (top m.stack) m
