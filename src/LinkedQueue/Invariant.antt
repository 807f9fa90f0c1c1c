-- ===== src/LinkedQueue/Invariant.antt =====
-- The invariant of the ConcurrentLinkedQueue in include/mola/queue.hpp: what holds of the nodes, and
-- what a thread knows where it stands.
use elastic_actor.Prelude.{
  ℕ, suc, ◌<◌, ◌≤◌, ◌≡◌, ◌≢◌, List, ◌++◌, Option, none, some, length, get_elem?, arith, refl, ◌∙◌,
}
use elastic_actor.LinkedQueue.{
  Thread, idle, enqueued, dequeued, looked, crashed, enqueue_again, enqueue_next, enqueue_check,
  enqueue_link, enqueue_help, enqueue_move, head_loop, head_tail, head_next, head_check, head_help,
  claim, read_item, reset_item, look_item, skip,
}
use elastic_actor.LinkedQueue.System.{Shared}

module _ {A : Type 0} where
  abbrev pub item_at : Shared A → ℕ → Option A
  item_at w a = (w.queue.node a).item

  abbrev pub next_at : Shared A → ℕ → Option ℕ
  next_at w a = (w.queue.node a).next

  -- The nodes are a chain in the order of linking; those behind the head hold the items not yet taken.
  pub record Good (w : Shared A) : Type 0 where
    pub head_tail : w.queue.head ≤ w.queue.tail
    pub tail_in : w.queue.tail < w.queue.count
    pub sent_count : w.queue.count ≡ suc (length w.sent)
    pub inner : (a : ℕ) → suc a < w.queue.count → next_at w a ≡ some (suc a)
    pub last : (a : ℕ) → suc a ≡ w.queue.count → next_at w a ≡ none
    pub items :
        (a : ℕ) → w.queue.head ≤ a → suc a < w.queue.count → item_at w (suc a) ≡ get_elem? w.sent a
    pub waiting : List A
    pub in_order : w.sent ≡ w.taken ++ waiting
    pub taken_count : length w.taken ≡ w.queue.head

  -- A link that was read: none, or the next node in the chain.
  abbrev pub IsLink : Shared A → ℕ → Option ℕ → Type 0
  IsLink w a none = Unit
  IsLink w a (some s) = (s ≡ suc a) × (suc a < w.queue.count)

  -- A node that this thread alone has taken, with its item.
  abbrev pub IsClaim : Shared A → ℕ → A → Type 0
  IsClaim w f x =
      (k : ℕ) × (f ≡ suc k)
      × (k < w.queue.head)
      × (item_at w f ≡ some x)
      × (get_elem? w.taken k ≡ some x)

  -- What a thread knows; a crash is ruled out.
  abbrev pub Knows : Shared A → Thread A → Type 0
  Knows w crashed = ⊥
  Knows w (enqueue_next x t) = t ≤ w.queue.tail
  Knows w (enqueue_check x t s) = (t ≤ w.queue.tail) × IsLink w t s
  Knows w (enqueue_link x t) = t ≤ w.queue.tail
  Knows w (enqueue_help x t s) = (s ≡ suc t) × (suc t < w.queue.count)
  Knows w (enqueue_move t n) = (n ≡ suc t) × (suc t < w.queue.count)
  Knows w (head_tail o h) = h ≤ w.queue.head
  Knows w (head_next o h t) = (h ≤ w.queue.head) × (h ≤ t) × (t ≤ w.queue.tail)
  Knows w (head_check o h t f) =
      (h ≤ w.queue.head) × (h ≤ t) × (t ≤ w.queue.tail) × IsLink w h f × (h < t → f ≡ some (suc h))
  Knows w (head_help o t f) = (f ≡ suc t) × (suc t < w.queue.count)
  Knows w (claim h f) = (f ≡ some (suc h)) × (h < w.queue.tail)
  Knows w (read_item f) = (x : A) × IsClaim w f x
  Knows w (reset_item f x) = IsClaim w f x
  Knows w (look_item h f) = (f ≡ some (suc h)) × (suc h < w.queue.count)
  Knows w (skip h f) = (f ≡ suc h) × (h < w.queue.head)
  Knows w th = Unit

  -- The node that a thread has taken and not yet emptied.
  abbrev pub claims : Thread A → Option ℕ
  claims (read_item f) = some f
  claims (reset_item f x) = some f
  claims th = none

  -- What a step of a thread that holds `mine` keeps for the others.
  pub record Later (mine : Option ℕ) (w w' : Shared A) : Type 0 where
    pub heads : w.queue.head ≤ w'.queue.head
    pub tails : w.queue.tail ≤ w'.queue.tail
    pub counts : w.queue.count ≤ w'.queue.count
    pub still_taken : (i : ℕ) (x : A) → get_elem? w.taken i ≡ some x → get_elem? w'.taken i ≡ some x
    pub same_items : (a : ℕ) → mine ≢ some a → a ≤ w.queue.head → item_at w' a ≡ item_at w a

  IsLink-Later :
      {mine : Option ℕ} {w w' : Shared A} (a : ℕ) (s : Option ℕ)
      → Later mine w w'
      → IsLink w a s
      → IsLink w' a s
  IsLink-Later a none l k = k
  IsLink-Later a (some s) l (e, p) = (e, omega (arith, l.counts))

  IsClaim-Later :
      {mine : Option ℕ} {w w' : Shared A} (f : ℕ) (x : A)
      → Later mine w w'
      → mine ≢ some f
      → IsClaim w f x
      → IsClaim w' f x
  IsClaim-Later f x l other (k, e, p, i, t) =
      (k, e, omega (arith, l.heads), l.same_items f other (omega arith) ∙ i, l.still_taken k x t)

  -- What a thread knows stays true while others turn.
  pub Knows-Later :
      {mine : Option ℕ} {w w' : Shared A} (th : Thread A)
      → Later mine w w'
      → ((a : ℕ) → claims th ≡ some a → mine ≢ some a)
      → Knows w th
      → Knows w' th
  Knows-Later crashed l others k = k
  Knows-Later (enqueue_next x t) l others k = omega (arith, l.tails)
  Knows-Later (enqueue_check x t s) l others (k, m) = (omega (arith, l.tails), IsLink-Later t s l m)
  Knows-Later (enqueue_link x t) l others k = omega (arith, l.tails)
  Knows-Later (enqueue_help x t s) l others (e, p) = (e, omega (arith, l.counts))
  Knows-Later (enqueue_move t n) l others (e, p) = (e, omega (arith, l.counts))
  Knows-Later (head_tail o h) l others k = omega (arith, l.heads)
  Knows-Later (head_next o h t) l others (k, m, n) =
      (omega (arith, l.heads), m, omega (arith, l.tails))
  Knows-Later (head_check o h t f) l others (k, m, n, s, c) =
      (omega (arith, l.heads), m, omega (arith, l.tails), IsLink-Later h f l s, c)
  Knows-Later (head_help o t f) l others (e, p) = (e, omega (arith, l.counts))
  Knows-Later (claim h f) l others (e, p) = (e, omega (arith, l.tails))
  Knows-Later (read_item f) l others (x, c) = (x, IsClaim-Later f x l (others f refl) c)
  Knows-Later (reset_item f x) l others c = IsClaim-Later f x l (others f refl) c
  Knows-Later (look_item h f) l others (e, p) = (e, omega (arith, l.counts))
  Knows-Later (skip h f) l others (e, p) = (e, omega (arith, l.heads))
  Knows-Later idle l others k = k
  Knows-Later (enqueued b) l others k = k
  Knows-Later (dequeued x) l others k = k
  Knows-Later (looked f) l others k = k
  Knows-Later (enqueue_again x) l others k = k
  Knows-Later (head_loop o) l others k = k
