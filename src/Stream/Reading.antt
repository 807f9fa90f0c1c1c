-- ===== src/Stream/Reading.antt =====
-- The reads of include/mola/event_handler.hpp, of whatever length, against a read byte by byte.
use elastic_actor.Prelude.{
  ℕ, ◌+◌, ◌<◌, ◌≤◌, ◌≡◌, ◌∙◌, refl, ap, sym, subst, inl, inr, true, false, List, [], ◌∷◌, ◌++◌,
  Option, none, some, length, length-append, append_assoc, arith, Option-cases,
}
use elastic_actor.Stream.{
  StreamManager, Handler, ReadResult, got, again, Handled, waits, crashed, collect, handle_read,
  handle_all,
}

module _ {S : Type 0} (m : StreamManager S) where
  -- The bytes one by one: the reference.
  unfoldable pub feed : List ℕ → Handler S → Option (Handler S)
  feed [] h = some h
  feed (x ∷ xs) h = elim (collect m (x ∷ []) h) [ none ↦ none | some h' ↦ feed xs h' ]

  -- The bytes fit into what is left of the buffer, which is not full.
  abbrev pub FitsIn : List ℕ → Handler S → Type 0
  FitsIn bytes h = length h.collected + length bytes ≤ h.size

  collect-part :
      (bytes : List ℕ) (h : Handler S)
      → length h.collected + length bytes < h.size
      → collect m bytes h ≡ some (record h { collected = h.collected ++ bytes })
  unfolding collect
  collect-part bytes h less = ground (arith, length-append h.collected bytes)

  collect-cut :
      (x : ℕ) (ys : List ℕ) (h : Handler S)
      → collect m (x ∷ ys) h ≡ collect m ys (record h { collected = h.collected ++ (x ∷ []) })
  unfolding collect
  collect-cut x ys h = rw (append_assoc h.collected (x ∷ []) ys) refl

  pub collect-feed :
      (bytes : List ℕ) (h : Handler S)
      → 0 < length bytes
      → FitsIn bytes h
      → collect m bytes h ≡ feed bytes h
  unfolding feed
  collect-feed [] h some_there fits = absurd (omega arith)
  collect-feed (x ∷ []) h some_there fits = elim (Option-cases (collect m (x ∷ []) h)) [
    | inl e ↦ rw (e, feed) refl
    | inr (h', e) ↦ rw (e, feed) refl
  ]
  collect-feed (x ∷ y ∷ ys) h some_there fits =
      let h' : Handler S = record h { collected = h.collected ++ (x ∷ []) } in
      let first : collect m (x ∷ []) h ≡ some h' = collect-part (x ∷ []) h (omega arith) in
      collect-cut x (y ∷ ys) h
      ∙ collect-feed (y ∷ ys) h' (omega arith) (omega (arith, length-append h.collected (x ∷ [])))
      ∙ rw (first, feed) refl

  pub feed-append :
      (xs ys : List ℕ) (h : Handler S)
      → feed (xs ++ ys) h ≡ elim (feed xs h) [ none ↦ none | some h' ↦ feed ys h' ]
  unfolding feed
  feed-append [] ys h = refl
  feed-append (x ∷ xs) ys h = elim (Option-cases (collect m (x ∷ []) h)) [
    | inl e ↦ rw (e, feed) refl
    | inr (h', e) ↦ rw (e, feed) (feed-append xs ys h')
  ]

  pub feed-after :
      (xs ys : List ℕ) (h h' : Handler S) → feed xs h ≡ some h' → feed (xs ++ ys) h ≡ feed ys h'
  feed-after xs ys h h' e = feed-append xs ys h ∙ rw e refl

  -- What the reads bring.
  abbrev pub bytes_of : List ReadResult → List ℕ
  bytes_of [] = []
  bytes_of (got bytes ∷ rs) = bytes ++ bytes_of rs
  bytes_of (_ ∷ rs) = bytes_of rs

  abbrev pub After : Option (Handler S) → (Handler S → Type 0) → Type 0
  After none P = Unit
  After (some h) P = P h

  -- The stream is open: each read brings bytes, no more than were asked for, or none yet.
  unfoldable pub IsOpen : List ReadResult → Handler S → Type 0
  IsOpen [] h = Unit
  IsOpen (got bytes ∷ rs) h =
      (0 < length bytes) × FitsIn bytes h × After (collect m bytes h) (IsOpen rs)
  IsOpen (again ∷ rs) h = IsOpen rs h
  IsOpen (_ ∷ rs) h = true ≡ false

  abbrev pub read_to_end : Option (Handler S) → Handled S
  read_to_end none = crashed
  read_to_end (some h) = waits h

  handle_got :
      (bytes : List ℕ) (rs : List ReadResult) (h : Handler S)
      → 0 < length bytes
      → handle_all m (got bytes ∷ rs) h
        ≡ elim (collect m bytes h) [ none ↦ crashed | some h' ↦ handle_all m rs h' ]
  unfolding handle_all
  handle_got [] rs h some_there = absurd (omega arith)
  handle_got (x ∷ xs) rs h some_there = elim (Option-cases (collect m (x ∷ xs) h)) [
    | inl e ↦ rw (e, handle_all, handle_read) refl
    | inr (h', e) ↦ rw (e, handle_all, handle_read) refl
  ]

  -- However the stream is cut into reads, the handler ends as if it came byte by byte.
  pub handle_all-feed :
      (rs : List ReadResult) (h : Handler S)
      → IsOpen rs h
      → handle_all m rs h ≡ read_to_end (feed (bytes_of rs) h)
  unfolding handle_all IsOpen feed
  handle_all-feed [] h open_stream = refl
  handle_all-feed (got bytes ∷ rs) h (some_there, fits, later) =
      let whole = collect-feed bytes h some_there fits in
      let cut = ap read_to_end (feed-append bytes (bytes_of rs) h) in
      elim (Option-cases (collect m bytes h)) [
        | inl e ↦ handle_got bytes rs h some_there ∙ rw e (sym (cut ∙ rw (sym whole ∙ e) refl))
        | inr (h', e) ↦
            handle_got bytes rs h some_there
            ∙ rw e (
                handle_all-feed rs h' (subst (λ o. After o (IsOpen rs)) e later)
                ∙ sym (cut ∙ rw (sym whole ∙ e) refl))
      ]
  handle_all-feed (again ∷ rs) h open_stream = handle_all-feed rs h open_stream
  handle_all-feed (ReadResult.end_of_stream ∷ rs) h open_stream = absurd (ground arith)
  handle_all-feed (ReadResult.read_error ∷ rs) h open_stream = absurd (ground arith)
