-- ===== src/Stream/Pending.antt =====
-- What a `StreamHandler` of include/mola/event_handler.hpp has still to write, and how it fetches the
-- next buffer from its mailbox.
use elastic_actor.Prelude.{
  ℕ, ◌≤◌, ◌<◌, ◌≡◌, ◌≢◌, ◌∙◌, refl, ap, sym, subst, inl, inr, true, false, List, [], ◌∷◌, ◌++◌,
  Option, none, some, length, drop, arith, Bool-cases, Option-cases, reverse, get_or, select,
  length-append, length-reverse,
}
use elastic_actor.Mailbox.{
  empty, blocked, closed, Stack, dummy, chain, links, Mailbox, dequeue, item, nothing, is_blocked,
  try_block,
}
use elastic_actor.Mailbox.Drain.{total, at_level, get_or-le-total}
use elastic_actor.Mailbox.Serve.{IsValid, queue, Took}
use elastic_actor.Mailbox.Dequeue.{an_item, no_item, dequeue-Answers}
use elastic_actor.Stream.Writing.{
  OutBuffer, OutBuffer-Item, Writer, Fetched, buffer, nothing_left, fetch, Written, idle, lost,
  undefined,
}

-- The bytes of buffers.
abbrev pub joined : List (List ℕ) → List ℕ
joined [] = []
joined (b ∷ l) = b ++ joined l

abbrev pub all_of : List OutBuffer → List ℕ
all_of [] = []
all_of (x ∷ xs) = (x.bytes ++ joined x.link) ++ all_of xs

abbrev pub rest_of : Option (List ℕ × List (List ℕ)) → ℕ → List ℕ
rest_of none k = []
rest_of (some (b, l)) k = drop k b ++ joined l

-- What is still to be written.
abbrev pub pending : Writer → List ℕ
pending w = rest_of w.wr_buf w.written ++ all_of (queue 0 w.mbox)

abbrev pub Within : Option (List ℕ × List (List ℕ)) → ℕ → Type 0
Within none k = k ≡ 0
Within (some (b, l)) k = k ≤ length b

pub record IsReady (w : Writer) : Type 0 where
  pub valid : IsValid 1 w.mbox
  pub open_box : w.mbox.stack ≢ dummy closed
  pub within : Within w.wr_buf w.written

-- What a call keeps: the bytes that the socket got and those that are pending are the same in all.
pub data Kept (all : List ℕ) : Written → Type 0 where
  kept_idle : {w : Writer} → IsReady w → w.wire ++ pending w ≡ all → Kept all (idle w)
  kept_lost :
      {w : Writer} (w' : Writer)
      → w'.wire ++ pending w' ≡ all
      → w ≡ record w' { mbox = record w'.mbox { stack = dummy closed } }
      → length (links w'.mbox.stack) ≤ 1
      → Kept all (lost w)
  -- An error with two buffers or more in the shared stack, where `close` reads a freed node.
  kept_undefined :
      (w' : Writer)
      → w'.wire ++ pending w' ≡ all
      → 1 < length (links w'.mbox.stack)
      → Kept all undefined

data FetchKept (w : Writer) : Fetched → Type 0 where
  has_buffer :
      {b : List ℕ} {l : List (List ℕ)} {w' : Writer}
      → w'.wr_buf ≡ some (b, l)
      → w'.wire ≡ w.wire
      → IsReady w'
      → pending w' ≡ pending w
      → FetchKept w (buffer b l w')
  has_none :
      {w' : Writer}
      → w'.wire ≡ w.wire
      → IsReady w'
      → pending w' ≡ pending w
      → FetchKept w (nothing_left w')

empty_queue-total : (m : Mailbox OutBuffer) → IsValid 1 m → queue 0 m ≡ [] → total m.headers ≡ 0
empty_queue-total m v e = go m.headers v.levels e
  where
    go :
        (hs : List (List OutBuffer))
        → length hs ≡ 1
        → queue 0 (record m { headers = hs }) ≡ []
        → total hs ≡ 0
    go [] h q = absurd (omega arith)
    go ([] ∷ []) h q = refl
    go ((x ∷ xs) ∷ []) h q = absurd (ground arith)
    go (x ∷ y ∷ hs) h q = absurd (omega arith)

select_all : (xs : List OutBuffer) → select (at_level 0) xs ≡ xs
select_all [] = refl
select_all (x ∷ xs) = ap (λ l. x ∷ l) (select_all xs)

empty_queue-links : (m : Mailbox OutBuffer) → queue 0 m ≡ [] → length (links m.stack) ≡ 0
empty_queue-links m e =
    let shared = reverse (links m.stack) in
    omega (
      arith,
      ap length e,
      length-append (get_or m.headers 0 []) (select (at_level 0) shared),
      ap length (select_all shared),
      length-reverse (links m.stack),
    )

-- The exchange of `try_block` succeeds over an open, empty mailbox that is not blocked.
sleeps :
    (m : Mailbox OutBuffer)
    → m.num_inque ≡ 0
    → length (links m.stack) ≡ 0
    → m.stack ≢ dummy closed
    → is_blocked m ≡ false
    → try_block m ≡ some (true, record m { stack = dummy blocked })
unfolding try_block is_blocked
sleeps m none_private none_shared open_box awake = go m.stack refl
  where
    go :
        (st : Stack OutBuffer)
        → m.stack ≡ st
        → try_block m ≡ some (true, record m { stack = dummy blocked })
    go (dummy empty) q = ground arith
    go (dummy blocked) q = absurd (ground arith)
    go (dummy closed) q = absurd (open_box q)
    go (chain x xs) q = absurd (omega (arith, ap (λ (st : Stack OutBuffer). length (links st)) q))

blocked-IsValid :
    (m : Mailbox OutBuffer) → IsValid 1 m → IsValid 1 (record m { stack = dummy blocked })
blocked-IsValid m v = record {
  levels = v.levels;
  counted = v.counted;
  room = omega (arith, v.room);
  served = v.served;
  bounded = v.bounded;
  sorted = v.sorted;
  ranked = tt;
}

Took-open :
    (m : Mailbox OutBuffer) (x : OutBuffer) (m' : Mailbox OutBuffer)
    → m.stack ≢ dummy closed
    → Took 1 m x m'
    → m'.stack ≢ dummy closed
Took-open m x m' open_box t shut = elim t.shared [
  | inl e ↦ open_box (sym e ∙ shut)
  | inr e ↦ ground arith
]

module _ (w : Writer) (r : IsReady w) where
  fetch_linked : (b : List ℕ) (l : List (List ℕ)) → w.wr_buf ≡ some (b, l) → FetchKept w (fetch w)
  unfolding fetch
  fetch_linked b l e =
      let same : fetch w ≡ buffer b l w = ground arith in
      subst (FetchKept w) (sym same) (has_buffer e refl r refl)

  module _ (e : w.wr_buf ≡ none) where
    at_start : w.written ≡ 0
    at_start = subst (λ o. Within o w.written) e r.within

    no_rest : pending w ≡ all_of (queue 0 w.mbox)
    no_rest = ap (λ o. rest_of o w.written ++ all_of (queue 0 w.mbox)) e

    fetch_item :
        (x : OutBuffer) (m : Mailbox OutBuffer)
        → dequeue 1 w.mbox ≡ some (item x m)
        → Took 1 w.mbox x m
        → FetchKept w (fetch w)
    unfolding fetch
    fetch_item x m d t =
        let w' : Writer = record w { mbox = m; wr_buf = some (x.bytes, x.link) } in
        let same : fetch w ≡ buffer x.bytes x.link w' = ground arith in
        let all : pending w' ≡ pending w =
          ap (λ k. (drop k x.bytes ++ joined x.link) ++ all_of (queue 0 m)) at_start
          ∙ ap all_of (sym (t.oldest 0))
          ∙ sym no_rest in
        subst (FetchKept w) (sym same) (
          has_buffer refl refl
            (record {
              valid = t.valid;
              open_box = Took-open w.mbox x m r.open_box t;
              within = omega (arith, at_start);
            })
            all)

    fetch_nothing :
        dequeue 1 w.mbox ≡ some (nothing w.mbox) → queue 0 w.mbox ≡ [] → FetchKept w (fetch w)
    unfolding fetch
    fetch_nothing d z = elim (Bool-cases (is_blocked w.mbox)) [
      | inl asleep ↦
          let same : fetch w ≡ nothing_left w = ground arith in
          subst (FetchKept w) (sym same) (has_none refl r refl)
      | inr awake ↦
          let m : Mailbox OutBuffer = record w.mbox { stack = dummy blocked } in
          let none_private = empty_queue-total w.mbox r.valid z in
          let idle_box : w.mbox.num_inque ≡ 0 = r.valid.counted ∙ none_private in
          let sleep = sleeps w.mbox idle_box (empty_queue-links w.mbox z) r.open_box awake in
          let same : fetch w ≡ nothing_left (record w { mbox = m }) = ground (arith, sleep) in
          let none_queued : queue 0 m ≡ queue 0 w.mbox =
            ap (λ l. l ++ []) (get_or-le-total w.mbox.headers 0 none_private) ∙ sym z in
          subst (FetchKept w) (sym same) (
            has_none refl
              (record {
                valid = blocked-IsValid w.mbox r.valid;
                open_box = λ shut. ground arith;
                within = r.within;
              })
              (ap (λ q. rest_of w.wr_buf w.written ++ all_of q) none_queued))
    ]

  fetch-Kept : FetchKept w (fetch w)
  fetch-Kept = elim (Option-cases w.wr_buf) [
    | inr ((b, l), e) ↦ fetch_linked b l e
    | inl e ↦ elim (dequeue-Answers 1 w.mbox r.valid r.open_box) [
      | an_item x m d t ↦ fetch_item e x m d t
      | no_item d z ↦ fetch_nothing e d (z 0)
    ]
  ]

-- The two outcomes of `fetch`.
pub data Fetching (w : Writer) : Type 0 where
  full :
      (b : List ℕ) (l : List (List ℕ)) (w' : Writer)
      → fetch w ≡ buffer b l w'
      → w'.wr_buf ≡ some (b, l)
      → IsReady w'
      → w'.wire ++ pending w' ≡ w.wire ++ pending w
      → Fetching w
  none_there :
      (w' : Writer)
      → fetch w ≡ nothing_left w'
      → IsReady w'
      → w'.wire ++ pending w' ≡ w.wire ++ pending w
      → Fetching w

pub fetching : (w : Writer) → IsReady w → Fetching w
fetching w r = go (fetch w) refl (fetch-Kept w r)
  where
    go : (f : Fetched) → fetch w ≡ f → FetchKept w f → Fetching w
    go f q (has_buffer {b} {l} {w'} e same_wire ready same) =
        full b l w' q e ready (rw (same_wire, same) refl)
    go f q (has_none {w'} same_wire ready same) = none_there w' q ready (rw (same_wire, same) refl)
