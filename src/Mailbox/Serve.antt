-- ===== src/Mailbox/Serve.antt =====
-- Serving the private queues of include/mola/mailbox.hpp: the invariant of the queues, and
-- what every operation does to the queue of each priority.
use elastic_actor.Prelude.{
  ℕ, zero, suc, ◌+◌, ◌<◌, ◌≤◌, ◌^◌, ◌≡◌, ◌≢◌, ◌∙◌, ◌⊎◌, refl, ap, sym, inl, inr, false, List, [],
  ◌∷◌, ◌++◌, reverse, some, arith, length, get_or, set, drop, select, ◌==◌, Bool-cases, List-cases,
  ==_iff, ==_refl, get_or-set_self, get_or-set_ne, length-set, select-append, select-fixed_head,
  reverse-cons, append_assoc, dec32,
}
use native.Mathlib.Numerals.{add-one}
use elastic_actor.Mailbox.{
  EnqueueStatus, failure, empty, blocked, closed, Stack, dummy, chain, Ptr, mark, node, same, links,
  Item, Mailbox, Dequeued, nothing, item, top, enqueue_try, unblocks, serve, is_blocked,
}
use elastic_actor.Mailbox.Drain.{total, total-set, InRange, at_level}

module _ {ℓ} {A : Type ℓ} where
  total-drop :
      (hs : List (List A)) (n : ℕ)
      → total (drop n hs) ≡ length (get_or hs n []) + total (drop (n + 1) hs)
  total-drop hs n = rw add-one (go hs n)
    where
      go :
          (hs : List (List A)) (n : ℕ)
          → total (drop n hs) ≡ length (get_or hs n []) + total (drop (suc n) hs)
      go [] zero = omega arith
      go [] (suc n) = omega arith
      go (q ∷ hs) zero = omega arith
      go (q ∷ hs) (suc n) = go hs n

  total-drop_all : (hs : List (List A)) (n : ℕ) → length hs ≤ n → total (drop n hs) ≡ 0
  total-drop_all [] zero h = refl
  total-drop_all [] (suc n) h = refl
  total-drop_all (q ∷ hs) zero h = absurd (omega arith)
  total-drop_all (q ∷ hs) (suc n) h = total-drop_all hs n (omega arith)

  pub total-drop-le : (hs : List (List A)) (n : ℕ) → total (drop n hs) ≤ total hs
  total-drop-le [] zero = omega arith
  total-drop-le [] (suc n) = omega arith
  total-drop-le (q ∷ hs) zero = omega arith
  total-drop-le (q ∷ hs) (suc n) = omega (arith, total-drop-le hs n)

  -- With as many items from `n` on as there are in all, the queues before `n` are empty.
  pub get_or-below :
      (hs : List (List A)) (n p : ℕ) → total (drop n hs) ≡ total hs → p < n → get_or hs p [] ≡ []
  get_or-below [] n p h lt = refl
  get_or-below (q ∷ hs) zero p h lt = absurd (omega arith)
  get_or-below ([] ∷ hs) (suc n) zero h lt = refl
  get_or-below ((x ∷ q) ∷ hs) (suc n) zero h lt = absurd (omega (arith, total-drop-le hs n))
  get_or-below (q ∷ hs) (suc n) (suc p) h lt =
      get_or-below hs n p (omega (arith, total-drop-le hs n)) (omega arith)

  total-drop-set :
      (hs : List (List A)) (n : ℕ) (q : List A)
      → n < length hs
      → total (drop n (set hs n q)) + length (get_or hs n []) ≡ total (drop n hs) + length q
  total-drop-set [] n q h = absurd (omega arith)
  total-drop-set (r ∷ hs) zero q h = omega arith
  total-drop-set (r ∷ hs) (suc n) q h = total-drop-set hs n q (omega arith)

  -- What `serve` finds: the first queue from `m_lastp` on that holds an item, and its head.
  pub record Found (m : Mailbox A) (r : Dequeued A) : Type ℓ where
    pub head : A
    pub rest : List A
    pub level : ℕ
    pub outcome :
        r
        ≡ item head (record m {
          headers = set m.headers level rest;
          num_inque = dec32 m.num_inque;
          lastp = level;
        })
    pub in_range : level < length m.headers
    pub holds : get_or m.headers level [] ≡ head ∷ rest
    pub first : total (drop level m.headers) ≡ total (drop m.lastp m.headers)

module _ {ℓ} {A : Type ℓ} ⦃i : Item A⦄ where
  pub serve-Found :
      (k : ℕ) (m : Mailbox A)
      → k + m.lastp ≡ length m.headers
      → 0 < total (drop m.lastp m.headers)
      → Found m (serve k m)
  unfolding serve
  serve-Found zero m h some_left =
      absurd (omega (arith, total-drop_all m.headers m.lastp (omega arith)))
  serve-Found (suc k) m h some_left = elim (List-cases (get_or m.headers m.lastp [])) [
    | inl e ↦
        let step = total-drop m.headers m.lastp in
        let later =
          serve-Found k (record m { lastp = m.lastp + 1 }) (omega arith)
            (omega (arith, step, ap length e)) in
        rw (e, serve)
          (record {
            head = later.head;
            rest = later.rest;
            level = later.level;
            outcome = later.outcome;
            in_range = later.in_range;
            holds = later.holds;
            first = omega (arith, later.first, step, ap length e);
          })
    | inr (x, rest, e) ↦
        rw (e, serve)
          (record {
            head = x;
            rest = rest;
            level = m.lastp;
            outcome = refl;
            in_range = omega arith;
            holds = e;
            first = refl;
          })
  ]

module _ {ℓ} {A : Type ℓ} ⦃i : Item A⦄ where
  -- What waits at one priority, oldest first: the private queue, then the shared stack upside down.
  abbrev pub queue : ℕ → Mailbox A → List A
  queue p m = get_or m.headers p [] ++ select (at_level p) (reverse (links m.stack))

  pub record IsValid (np : ℕ) (m : Mailbox A) : Type ℓ where
    pub levels : length m.headers ≡ np
    pub counted : m.num_inque ≡ total m.headers
    pub room : total m.headers + length (links m.stack) < 2 ^ 32
    pub served : total (drop m.lastp m.headers) ≡ total m.headers
    pub bounded : (0 < m.num_inque) → m.lastp ≤ np
    pub sorted : (p : ℕ) → select (at_level p) (get_or m.headers p []) ≡ get_or m.headers p []
    pub ranked : InRange np (links m.stack)

  -- Whatever pointer a producer holds, an iteration of `enqueue` that ends either refuses the item
  -- and changes nothing, or puts it on top of the stack as it is now.
  pub record Pushed (x : A) (m : Mailbox A) (s : EnqueueStatus) (m' : Mailbox A) : Type ℓ where
    pub result : m' ≡ record m { stack = chain x (links m.stack) }
    pub status : s ≡ unblocks (top m.stack)
    pub open_box : same (top m.stack) (mark closed) ≡ false

  enqueue_try-cases :
      (x : A) (e : Ptr) (m : Mailbox A) (s : EnqueueStatus) (m' : Mailbox A) (st : Stack A)
      → m.stack ≡ st
      → enqueue_try x e m ≡ some (s, m')
      → ((s ≡ failure) × (m' ≡ m) × (e ≡ mark closed)) ⊎ Pushed x m s m'
  unfolding enqueue_try
  enqueue_try-cases x (mark empty) m s m' (dummy f) q h = ground arith
  enqueue_try-cases x (mark blocked) m s m' (dummy f) q h = ground arith
  enqueue_try-cases x (mark closed) m s m' (dummy f) q h = ground arith
  enqueue_try-cases x (node a) m s m' (dummy f) q h = ground arith
  enqueue_try-cases x (mark empty) m s m' (chain y ys) q h = ground arith
  enqueue_try-cases x (mark blocked) m s m' (chain y ys) q h = ground arith
  enqueue_try-cases x (mark closed) m s m' (chain y ys) q h = ground arith
  enqueue_try-cases x (node a) m s m' (chain y ys) q h = ground arith

  pub enqueue_try-Pushed :
      (x : A) (e : Ptr) (m : Mailbox A) (s : EnqueueStatus) (m' : Mailbox A)
      → enqueue_try x e m ≡ some (s, m')
      → ((s ≡ failure) × (m' ≡ m) × (e ≡ mark closed)) ⊎ Pushed x m s m'
  enqueue_try-Pushed x e m s m' h = enqueue_try-cases x e m s m' m.stack refl h

  -- The pushed item is the last of its priority, and the other queues stay as they are.
  pub queue-Pushed :
      {x : A} {m : Mailbox A} {s : EnqueueStatus} {m' : Mailbox A}
      → Pushed x m s m'
      → (p : ℕ) → queue p m' ≡ queue p m ++ select (at_level p) (x ∷ [])
  queue-Pushed {x} {m} h p =
      rw
        (
          h.result,
          reverse-cons x (links m.stack),
          select-append (at_level p) (reverse (links m.stack)) (x ∷ []),
        )
        (sym (append_assoc (get_or m.headers p []) _ _))

  pub Pushed-IsValid :
      {np : ℕ} {x : A} {m : Mailbox A} {s : EnqueueStatus} {m' : Mailbox A}
      → Pushed x m s m'
      → IsValid np m
      → i.priority x < np
      → total m.headers + length (links m.stack) + 1 < 2 ^ 32
      → IsValid np m'
  Pushed-IsValid h v ranked fits = rw h.result (record {
    levels = v.levels;
    counted = v.counted;
    room = omega arith;
    served = v.served;
    bounded = v.bounded;
    sorted = v.sorted;
    ranked = (ranked, v.ranked);
  })

  -- What a pass of `dequeue` may answer: nothing, with the mailbox as it was; or an item, which was
  -- the oldest of its priority, while no more urgent item is left in a private queue.
  pub record Took (np : ℕ) (m : Mailbox A) (x : A) (m' : Mailbox A) : Type ℓ where
    pub valid : IsValid np m'
    pub oldest : (p : ℕ) → queue p m ≡ select (at_level p) (x ∷ []) ++ queue p m'
    pub urgent : (p : ℕ) → p < i.priority x → get_or m'.headers p [] ≡ []
    pub awake : is_blocked m ≡ false → is_blocked m' ≡ false
    pub shared : (m'.stack ≡ m.stack) ⊎ (m'.stack ≡ dummy empty)

  pub data Outcome (np : ℕ) (e : Ptr) (m : Mailbox A) : Dequeued A → Type ℓ where
    none_private :
        {m' : Mailbox A}
        → m' ≡ m
        → m.num_inque ≡ 0
        → (e ≡ mark blocked) ⊎ (e ≡ mark empty)
        → Outcome np e m (nothing m')
    took : {x : A} {m' : Mailbox A} → Took np m x m' → Outcome np e m (item x m')
    misread : e ≡ mark closed → m.stack ≡ dummy closed → Outcome np e m Dequeued.fault

  module _ (np : ℕ) (m : Mailbox A) (v : IsValid np m) {r : Dequeued A} (f : Found m r) where
    head_level : i.priority f.head ≡ f.level
    head_level =
        (==_iff (i.priority f.head) f.level).0
          (select-fixed_head (at_level f.level) f.head f.rest (rw f.holds at (v.sorted f.level))).0

    abbrev pub served_box : Mailbox A
    served_box = record m {
      headers = set m.headers f.level f.rest;
      num_inque = dec32 m.num_inque;
      lastp = f.level;
    }

    level_other : (p : ℕ) → f.level ≢ p → get_or served_box.headers p [] ≡ get_or m.headers p []
    level_other p ne = get_or-set_ne m.headers f.level p f.rest [] ne

    level_self : get_or served_box.headers f.level [] ≡ f.rest
    level_self = get_or-set_self m.headers f.level f.rest [] f.in_range

    queue-served_box : (p : ℕ) → queue p m ≡ select (at_level p) (f.head ∷ []) ++ queue p served_box
    queue-served_box p = elim (Bool-cases (f.level == p)) [
      | inl e ↦ rw (head_level, ← (==_iff f.level p).0 e, ==_refl f.level, f.holds, level_self)
      | inr e ↦ rw (head_level, e, level_other p (ground arith))
    ]

    served_box-sorted :
        (p : ℕ)
        → select (at_level p) (get_or served_box.headers p []) ≡ get_or served_box.headers p []
    served_box-sorted p = elim (Bool-cases (f.level == p)) [
      | inl e ↦
          rw (← (==_iff f.level p).0 e, level_self)
            (select-fixed_head (at_level f.level) f.head f.rest
              (rw f.holds at (v.sorted f.level))).1
      | inr e ↦ rw (level_other p (ground arith)) (v.sorted p)
    ]

    removed : total served_box.headers + 1 ≡ total m.headers
    removed = omega (arith, total-set m.headers f.level f.rest f.in_range, ap length f.holds)

    served_box-IsValid : IsValid np served_box
    served_box-IsValid = record {
      levels = length-set m.headers f.level f.rest ∙ v.levels;
      counted = omega (arith, removed, v.counted, v.room);
      room = omega (arith, removed, v.room);
      served = omega (
        arith,
        removed,
        f.first,
        v.served,
        total-drop-set m.headers f.level f.rest f.in_range,
        ap length f.holds,
      );
      bounded = λ _. omega (arith, f.in_range, v.levels);
      sorted = served_box-sorted;
      ranked = v.ranked;
    }

    less_urgent : (p : ℕ) → p < i.priority f.head → get_or served_box.headers p [] ≡ []
    less_urgent p lt =
        level_other p (omega (arith, head_level))
        ∙ get_or-below m.headers f.level p (f.first ∙ v.served) (omega (arith, head_level))

    -- Serving a valid mailbox that holds a private item.
    pub Found-Took : Took np m f.head served_box
    unfolding is_blocked
    Found-Took = record {
      valid = served_box-IsValid;
      oldest = queue-served_box;
      urgent = less_urgent;
      awake = λ h. h;
      shared = inl refl;
    }
