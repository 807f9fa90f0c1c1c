-- ===== src/Mailbox/Dequeue.antt =====
-- `dequeue` and `try_block` of include/mola/mailbox.hpp as wholes, for any pointer that the owner
-- may have loaded before.
use elastic_actor.Prelude.{
  ℕ, ◌-◌, ◌<◌, ◌≡◌, ◌≢◌, ◌∙◌, ◌⊎◌, refl, ap, sym, inl, inr, Bool, true, false, List, [], reverse,
  some, arith, length, get_or, select, ltb, if◌then◌else◌, Bool-cases, select-select, append-nil,
}
use elastic_actor.Mailbox.{
  empty, blocked, closed, Stack, dummy, chain, Ptr, mark, node, links, Item, Mailbox, Dequeued,
  nothing, item, top, serve, drain, fetch_try, dequeue_try, dequeue, is_blocked, try_block_try,
  try_block,
}
use elastic_actor.Mailbox.Drain.{
  total, get_or-le-total, InRange, at_level, length-drain, get_or-drain, total-drain, count-drain,
}
use elastic_actor.Mailbox.Serve.{
  serve-Found, queue, IsValid, Outcome, none_private, took, misread, Took, Found, Found-Took,
  served_box,
}

module _ {ℓ} {A : Type ℓ} ⦃i : Item A⦄ where
  -- The mailbox after the exchange of `fetch_try` has succeeded.
  abbrev fetched : Mailbox A → Mailbox A
  fetched m = record {
    stack = dummy empty;
    headers = (drain (links m.stack) m.headers m.num_inque).0;
    num_inque = (drain (links m.stack) m.headers m.num_inque).1;
    lastp = 0;
  }

  module _ (np : ℕ) (m : Mailbox A) (v : IsValid np m) (private_empty : m.num_inque ≡ 0) where
    abbrev taken : List A
    taken = links m.stack

    in_range : InRange (length m.headers) taken
    in_range = rw v.levels v.ranked

    emptied : total m.headers ≡ 0
    emptied = omega (arith, v.counted)

    level-fetched : (p : ℕ) → get_or (fetched m).headers p [] ≡ select (at_level p) (reverse taken)
    level-fetched p =
        get_or-drain taken m.headers m.num_inque p in_range
        ∙ rw (get_or-le-total m.headers p emptied)
            (append-nil (select (at_level p) (reverse taken)))

    -- The move changes no queue.
    queue-fetched : (p : ℕ) → queue p (fetched m) ≡ queue p m
    queue-fetched p = rw (level-fetched p, get_or-le-total m.headers p emptied) (append-nil _)

    fetched-IsValid : IsValid np (fetched m)
    fetched-IsValid = record {
      levels = length-drain taken m.headers m.num_inque ∙ v.levels;
      counted = omega (
        arith,
        count-drain taken m.headers m.num_inque (omega (arith, v.room, v.counted)),
        total-drain taken m.headers m.num_inque in_range,
        v.counted,
      );
      room = omega (arith, total-drain taken m.headers m.num_inque in_range, v.room);
      served = refl;
      bounded = λ _. omega arith;
      sorted = λ p. rw (level-fetched p) (select-select (at_level p) (reverse taken));
      ranked = tt;
    }

    serve-fetched : (e : Ptr) → 0 < length taken → Outcome np e m (serve np (fetched m))
    unfolding is_blocked
    serve-fetched e some_taken = rw f.outcome (
        took (record {
          valid = t.valid;
          oldest = λ p. sym (queue-fetched p) ∙ t.oldest p;
          urgent = t.urgent;
          awake = λ _. t.awake refl;
          shared = elim t.shared [ inl e ↦ inr e | inr e ↦ inr e ];
        }))
      where
        f : Found (fetched m) (serve np (fetched m))
        f =
            serve-Found np (fetched m) (omega (arith, fetched-IsValid.levels))
              (omega (arith, total-drain taken m.headers m.num_inque in_range))

        t : Took np (fetched m) f.head (served_box np (fetched m) fetched-IsValid f)
        t = Found-Took np (fetched m) fetched-IsValid f

  serve-Outcome :
      (np : ℕ) (e : Ptr) (m : Mailbox A)
      → IsValid np m
      → 0 < m.num_inque
      → Outcome np e m (serve (np - m.lastp) m)
  serve-Outcome np e m v some_private = rw f.outcome (took (Found-Took np m v f))
    where
      f : Found m (serve (np - m.lastp) m)
      f =
          serve-Found (np - m.lastp) m (omega (arith, v.bounded, v.levels))
            (omega (arith, v.served, v.counted))

  fetch-Outcome :
      (np : ℕ) (e : Ptr) (m : Mailbox A) (r : Dequeued A) (st : Stack A)
      → IsValid np m
      → m.num_inque ≡ 0
      → m.stack ≡ st
      → dequeue_try np e m ≡ some r
      → Outcome np e m r
  unfolding dequeue_try fetch_try
  fetch-Outcome np (mark empty) m r st v z q h =
      let answer : r ≡ nothing m = ground arith in rw answer (none_private refl z (inr refl))
  fetch-Outcome np (mark blocked) m r st v z q h =
      let answer : r ≡ nothing m = ground arith in rw answer (none_private refl z (inl refl))
  fetch-Outcome np (mark closed) m r (dummy empty) v z q h = absurd (ground arith)
  fetch-Outcome np (mark closed) m r (dummy blocked) v z q h = absurd (ground arith)
  fetch-Outcome np (mark closed) m r (dummy closed) v z q h =
      let answer : r ≡ Dequeued.fault = ground arith in rw answer (misread refl q)
  fetch-Outcome np (mark closed) m r (chain y ys) v z q h = absurd (ground arith)
  fetch-Outcome np (node a) m r (dummy d) v z q h = absurd (ground arith)
  fetch-Outcome np (node a) m r (chain y ys) v z q h =
      let answer : r ≡ serve np (fetched m) = ground arith in
      rw answer (serve-fetched np m v z (node a) (rw q (omega arith)))

  -- Every pass of `dequeue` that ends over a valid mailbox, whatever pointer it loaded: the
  -- assertion is never reached, nothing is answered only with no private item, an item is the oldest
  -- of its priority, and a read through a mark happens only on a closed mailbox.
  pub dequeue_try-Outcome :
      (np : ℕ) (e : Ptr) (m : Mailbox A) (r : Dequeued A)
      → IsValid np m
      → dequeue_try np e m ≡ some r
      → Outcome np e m r
  unfolding dequeue_try
  dequeue_try-Outcome np e m r v h = elim (Bool-cases (ltb 0 m.num_inque)) [
    | inl busy ↦
        let answer : r ≡ serve (np - m.lastp) m = ground arith in
        rw answer (serve-Outcome np e m v (ground arith))
    | inr idle ↦ fetch-Outcome np e m r m.stack v (ground arith) refl h
  ]

  -- A pass of `try_block` that ends: the owner goes to sleep only over an empty mailbox.
  abbrev pub Blocks : Mailbox A → Bool → Mailbox A → Type ℓ
  Blocks m b m' =
      ((b ≡ false) × (m' ≡ m))
      ⊎ ((b ≡ true)
          × (m.num_inque ≡ 0)
          × (m.stack ≡ dummy empty)
          × (m' ≡ record m { stack = dummy blocked }))

  try_block_try-cases :
      (e : Ptr) (m : Mailbox A) (b : Bool) (m' : Mailbox A) (st : Stack A)
      → m.stack ≡ st
      → try_block_try e m ≡ some (b, m')
      → Blocks m b m'
  unfolding try_block_try
  try_block_try-cases (mark empty) m b m' (dummy empty) q h = ground arith
  try_block_try-cases (mark empty) m b m' (dummy d) q h = ground arith
  try_block_try-cases (mark empty) m b m' (chain x xs) q h = ground arith
  try_block_try-cases (mark d) m b m' st q h = ground arith
  try_block_try-cases (node a) m b m' st q h = ground arith

  pub try_block_try-Blocks :
      (e : Ptr) (m : Mailbox A) (b : Bool) (m' : Mailbox A)
      → try_block_try e m ≡ some (b, m')
      → Blocks m b m'
  try_block_try-Blocks e m b m' h = try_block_try-cases e m b m' m.stack refl h

  try_block-cases :
      (m : Mailbox A) (st : Stack A)
      → m.stack ≡ st
      → (b : Bool) × (m' : Mailbox A) × (try_block m ≡ some (b, m'))
  unfolding try_block try_block_try
  try_block-cases m (dummy empty) q = elim (Bool-cases (ltb 0 m.num_inque)) [
    | inl busy ↦ (false, m, ground arith)
    | inr idle ↦ (true, record m { stack = dummy blocked }, ground arith)
  ]
  try_block-cases m (dummy d) q = (false, m, ground arith)
  try_block-cases m (chain y ys) q = (false, m, ground arith)

  -- With no other thread in between, `try_block` ends in one pass.
  pub try_block-ends :
      (m : Mailbox A) → (b : Bool) × (m' : Mailbox A) × (try_block m ≡ some (b, m')) × Blocks m b m'
  unfolding try_block
  try_block-ends m =
      let (b, m', e) = try_block-cases m m.stack refl in
      (b, m', e, try_block_try-Blocks (top m.stack) m b m' e)

  dequeue-ends :
      (np : ℕ) (m : Mailbox A) (st : Stack A)
      → m.stack ≡ st
      → (r : Dequeued A) × (dequeue np m ≡ some r)
  unfolding dequeue fetch_try
  dequeue-ends np m (dummy empty) q =
      (if ltb 0 m.num_inque then serve (np - m.lastp) m else nothing m, ground arith)
  dequeue-ends np m (dummy blocked) q =
      (if ltb 0 m.num_inque then serve (np - m.lastp) m else nothing m, ground arith)
  dequeue-ends np m (dummy closed) q =
      (if ltb 0 m.num_inque then serve (np - m.lastp) m else Dequeued.fault, ground arith)
  dequeue-ends np m (chain y ys) q =
      (if ltb 0 m.num_inque then serve (np - m.lastp) m else serve np (fetched m), ground arith)

  -- What `dequeue` answers for an open mailbox: an item, or nothing if no item waits anywhere.
  pub data Answers (np : ℕ) (m : Mailbox A) : Type ℓ where
    an_item :
        (x : A) (m' : Mailbox A) → dequeue np m ≡ some (item x m') → Took np m x m' → Answers np m
    no_item : dequeue np m ≡ some (nothing m) → ((p : ℕ) → queue p m ≡ []) → Answers np m

  no_links : (st : Stack A) → (top st ≡ mark blocked) ⊎ (top st ≡ mark empty) → links st ≡ []
  no_links (dummy d) h = refl
  no_links (chain x xs) h = absurd (ground arith)

  Outcome-Answers :
      (np : ℕ) (m : Mailbox A) (r : Dequeued A)
      → IsValid np m
      → m.stack ≢ dummy closed
      → dequeue np m ≡ some r
      → Outcome np (top m.stack) m r
      → Answers np m
  Outcome-Answers np m (item x m') v open_box h (took t) = an_item x m' h t
  Outcome-Answers np m Dequeued.fault v open_box h (misread _ shut) = absurd (open_box shut)
  Outcome-Answers np m (nothing m') v open_box h (none_private same_box no_private e) =
      no_item (h ∙ ap (λ b. some (nothing b)) same_box)
        (λ p. rw (no_links m.stack e, get_or-le-total m.headers p (omega (arith, v.counted))) refl)
  Outcome-Answers np m Dequeued.assert_failed v open_box h o = elim o [ ]

  -- With no other thread in between, `dequeue` over a valid open mailbox ends in one pass: it hands
  -- out an item, the oldest of its priority, or it answers null and every queue is empty.
  pub dequeue-Answers :
      (np : ℕ) (m : Mailbox A) → IsValid np m → m.stack ≢ dummy closed → Answers np m
  unfolding dequeue
  dequeue-Answers np m v open_box =
      let (r, h) = dequeue-ends np m m.stack refl in
      Outcome-Answers np m r v open_box h (dequeue_try-Outcome np (top m.stack) m r v h)
