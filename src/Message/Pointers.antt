-- ===== src/Message/Pointers.antt =====
-- `MessageSafePtr` of include/mola/message.hpp: the counted references to message wrappers. The
-- live pointers are the entries of `handles`, and `raw` holds the wrappers that `pass` has handed
-- to the C code. A wrapper is known by its address, and a count of 0 means that it is deleted.
pub mod Balance
pub mod Steps
use elastic_actor.Prelude.{
  ℕ, ◌+◌, Bool, List, [], ◌∷◌, ◌++◌, Option, none, some, ◌==◌, if◌then◌else◌, get_or, set, inc32,
  dec32,
}

pub record Heap : Type 0 where
  pub counts : ℕ → ℕ
  pub handles : List (Option ℕ)
  pub raw : List ℕ
  pub next : ℕ

abbrev pub update : (ℕ → ℕ) → ℕ → ℕ → ℕ → ℕ
update f p v q = if p == q then v else f q

abbrev pub handle : Heap → ℕ → Option ℕ
handle h i = get_or h.handles i none

-- `inc_ref`
abbrev pub inc_ref : ℕ → Heap → Heap
inc_ref p h = record h { counts = update h.counts p (inc32 (h.counts p)) }

-- `dec_ref`; at 0 the wrapper deletes itself.
abbrev pub dec_ref : ℕ → Heap → Heap
dec_ref p h = record h { counts = update h.counts p (dec32 (h.counts p)) }

-- The constructor from a raw message: a new wrapper with one reference.
pub wrap : Heap → Heap
wrap h = record h {
  counts = update h.counts h.next 1;
  handles = h.handles ++ (some h.next ∷ []);
  next = h.next + 1;
}

-- `MessageSafePtr(MessageSafePtr&)`
pub copy : ℕ → Heap → Heap
copy i h = elim (handle h i) [
  | none ↦ record h { handles = h.handles ++ (none ∷ []) }
  | some p ↦ record (inc_ref p h) { handles = h.handles ++ (some p ∷ []) }
]

-- `MessageSafePtr(MessageSafePtr&&)`
pub move : ℕ → Heap → Heap
move i h = record h { handles = set h.handles i none ++ (handle h i ∷ []) }

-- `drop`, and the destructor.
pub drop_ref : ℕ → Heap → Heap
drop_ref i h = elim (handle h i) [
  | none ↦ h
  | some p ↦ record (dec_ref p h) { handles = set h.handles i none }
]

-- `pass`
pub pass : ℕ → Heap → Heap
pass i h = elim (handle h i) [
  | none ↦ h
  | some p ↦ record h { handles = set h.handles i none; raw = p ∷ h.raw }
]

-- `operator = (MessageSafePtr& rhs)` behind its `drop`; `rhs` may be the pointer itself.
pub share_from : ℕ → ℕ → Heap → Heap
share_from i j h = elim (handle h j) [
  | none ↦ h
  | some p ↦ record (inc_ref p h) { handles = set h.handles i (some p) }
]

pub assign : ℕ → ℕ → Heap → Heap
unfolding drop_ref share_from
assign i j h = share_from i j (drop_ref i h)

-- `operator = (MessageSafePtr&& rhs)` behind its `drop`.
pub take_from : ℕ → ℕ → Heap → Heap
take_from i j h = record h { handles = set (set h.handles j none) i (handle h j) }

pub assign_move : ℕ → ℕ → Heap → Heap
unfolding drop_ref take_from
assign_move i j h = take_from i j (drop_ref i h)

-- `operator = (mola_message_t *raw)` behind its `drop`.
pub wrap_into : ℕ → Heap → Heap
wrap_into i h = record h {
  counts = update h.counts h.next 1;
  handles = set h.handles i (some h.next);
  next = h.next + 1;
}

pub assign_raw : ℕ → Heap → Heap
unfolding drop_ref wrap_into
assign_raw i h = wrap_into i (drop_ref i h)

-- The constructor from the last wrapper that `pass` handed to the C code.
pub adopt : Heap → Heap
adopt h = elim h.raw [
  | [] ↦ h
  | p ∷ ps ↦ record h { handles = h.handles ++ (some p ∷ []); raw = ps }
]
