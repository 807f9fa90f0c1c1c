-- ===== src/Packing/Copying.antt =====
-- `mola_message_cow` of src/message.cpp: what those who share a message see.
use elastic_actor.Prelude.{
  ℕ, ◌-◌, ◌^◌, ◌<◌, ◌≡◌, ◌≢◌, true, false, Option, none, some, ◌==◌, if◌then◌else◌, dec32, arith,
  refl, ◌∙◌, sym, ap, inl, inr, Bool-cases,
}
use elastic_actor.Future.{Refcnt, refcnt_put, refcnt_unique, refcnt_init}
use elastic_actor.Packing.{Vtab, UserHeap, put_at, alloc, put_message, copy_of, message_cow}

module _ {D : Type 0} where
  -- The content of a message.
  abbrev pub content_of : Option (Refcnt D) → Option D
  content_of none = none
  content_of (some r) = some r.object

  abbrev pub content : UserHeap D → ℕ → Option D
  content h a = content_of (h.at a)

  put_at_self : (a : ℕ) (r : Option (Refcnt D)) (h : UserHeap D) → (put_at a r h).at a ≡ r
  unfolding put_at
  put_at_self a r h = ground arith

  put_at_other :
      (a b : ℕ) (r : Option (Refcnt D)) (h : UserHeap D) → b ≢ a → (put_at a r h).at b ≡ h.at b
  unfolding put_at
  put_at_other a b r h other = ground (arith, other)

  -- A reference that is not the last is put.
  put_message_shared :
      (a : ℕ) (r : Refcnt D) (h : UserHeap D)
      → h.at a ≡ some r
      → 1 < r.count
      → r.count < 2 ^ 32
      → put_message a h ≡ some (put_at a (some (record r { count = r.count - 1 })) h)
  unfolding put_message refcnt_put
  put_message_shared a r h e p q =
      let used : (r.count == 0) ≡ false = ground (arith, p) in
      let d : dec32 r.count ≡ r.count - 1 = omega (arith, p, q) in
      let left : (r.count - 1 == 0) ≡ false = ground (arith, p) in
      rw (put_message, e, refcnt_put, used, d, left) refl

  message_cow_shared :
      (v : Vtab D) (a : ℕ) (r : Refcnt D) (h : UserHeap D)
      → h.at a ≡ some r
      → 1 < r.count
      → r.count < 2 ^ 32
      → a ≢ h.fresh
      → message_cow v a h
        ≡ some (
          h.fresh,
          put_at a (some (record r { count = r.count - 1 })) (alloc (copy_of v r.object) h).1,
        )
  unfolding message_cow refcnt_unique
  message_cow_shared v a r h e p q old =
      let used : (r.count == 0) ≡ false = ground (arith, p) in
      let many : (r.count == 1) ≡ false = ground (arith, p) in
      let put =
        put_message_shared a r (alloc (copy_of v r.object) h).1
          (put_at_other h.fresh a (some (refcnt_init (copy_of v r.object))) h old ∙ e) p q in
      rw (message_cow, e, used, many, put) refl

  message_cow_unique :
      (v : Vtab D) (a : ℕ) (r : Refcnt D) (h : UserHeap D)
      → h.at a ≡ some r
      → r.count ≡ 1
      → message_cow v a h ≡ some (a, h)
  unfolding message_cow refcnt_unique
  message_cow_unique v a r h e one =
      let used : (r.count == 0) ≡ false = ground (arith, one) in
      let single : (r.count == 1) ≡ true = ground (arith, one) in
      rw (message_cow, e, used, single) refl

  -- A message that others share too is copied before it is written: afterwards the pointer leads to a
  -- message that nobody else refers to, with the old content or with what the copy function of its
  -- type makes of it, and every other message keeps its content.
  pub message_cow-private :
      (v : Vtab D) (a : ℕ) (r : Refcnt D) (h : UserHeap D)
      → h.at a ≡ some r
      → 0 < r.count
      → r.count < 2 ^ 32
      → h.at h.fresh ≡ none
      → (a' : ℕ) × (h' : UserHeap D) × (message_cow v a h ≡ some (a', h'))
        × (h'.at a'
            ≡ some (record {
              count = 1;
              object = if r.count == 1 then r.object else copy_of v r.object;
            }))
        × ((b : ℕ) → b ≢ a' → content h' b ≡ content h b)
  unfolding alloc
  message_cow-private v a r h e p q free = elim (Bool-cases (r.count == 1)) [
    | inl one ↦
        let single : r.count ≡ 1 = ground (arith, one) in
        (
          a,
          h,
          message_cow_unique v a r h e single,
          e ∙ ap (λ c. some (record { count = c; object = r.object })) single ∙ rw one refl,
          λ b other. refl,
        )
    | inr shared ↦
        let old : a ≢ h.fresh =
          λ same. absurd (ground (arith, sym e ∙ ap (λ b. h.at b) same ∙ free)) in
        let new = some (refcnt_init (copy_of v r.object)) in
        let less = some (record r { count = r.count - 1 }) in
        (
          h.fresh,
          put_at a less (alloc (copy_of v r.object) h).1,
          message_cow_shared v a r h e (ground (arith, shared, p)) q old,
          put_at_other a h.fresh less (alloc (copy_of v r.object) h).1 (λ same. old (sym same))
              ∙ put_at_self h.fresh new h
              ∙ rw (shared, refcnt_init) refl,
          λ b other. elim (Bool-cases (b == a)) [
            | inl same ↦
                let at_a : b ≡ a = ground (arith, same) in
                ap content_of (
                  ap (λ c. (put_at a less (alloc (copy_of v r.object) h).1).at c) at_a
                  ∙ put_at_self a less (alloc (copy_of v r.object) h).1)
                ∙ sym (ap content_of (ap (λ c. h.at c) at_a ∙ e))
            | inr differs ↦ ap content_of (
                put_at_other a b less (alloc (copy_of v r.object) h).1 (ground (arith, differs))
                ∙ put_at_other h.fresh b new h other)
          ],
        )
  ]
