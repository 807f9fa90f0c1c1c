-- ===== src/Actor/Threshold.antt =====
-- How much an actor of include/mola/actor.hpp handles before it lets others run.
use elastic_actor.Prelude.{
  ℕ, zero, suc, ◌+◌, ◌≤◌, ◌≡◌, ◌∙◌, refl, ap, sym, inl, inr, Bool, true, false, Option, none, some,
  arith, Option-cases, if◌then◌else◌,
}
use elastic_actor.Message.{Message}
use elastic_actor.Mailbox.{Dequeued, dequeue}
use elastic_actor.Actor.{
  LinkNode-Item, Actor, through, answers, get_message, enter, leave, messages,
}

one_round : (b : Bool) (left : ℕ) → (if b then 0 else 1) + (if b then suc left else left) ≡ suc left
one_round true left = omega arith
one_round false left = omega arith

module _ {D : Type 0} where
  get_message-data : (a b : Actor D) → get_message a ≡ some b → b.data_ptr ≡ a.data_ptr
  unfolding get_message
  get_message-data a b e = go (dequeue 2 a.mailbox) refl
    where
      go : (r : Option (Dequeued _)) → dequeue 2 a.mailbox ≡ r → b.data_ptr ≡ a.data_ptr
      go none q = ground arith
      go (some (Dequeued.nothing m)) q = ground arith
      go (some (Dequeued.item x m)) q = ground arith
      go (some Dequeued.assert_failed) q = ground arith
      go (some Dequeued.fault) q = ground arith

  through-same : (a b : Actor D) → through a ≡ through b → a.data_ptr ≡ b.data_ptr
  through-same a b e = ground arith

  enter-data : (msg : Message) (a : Actor D) → (enter msg a).data_ptr ≡ a.data_ptr
  unfolding enter
  enter-data msg a = ground arith

  module _ (count : D → ℕ) (init : Actor D → Actor D)
      (invoke : Actor D → Message → Option (Actor D))
      (counts : (a b : Actor D) (msg : Message)
        → invoke a msg ≡ some b
        → count b.data_ptr ≡ count a.data_ptr + (if answers msg then 0 else 1)) where
    -- When the callback counts the messages that are no answers, a run of the loop that is through
    -- has handled at most as many of them as the threshold allows.
    pub messages-bounded :
        (fuel threshold : ℕ) (a b : Actor D)
        → messages init invoke fuel threshold a ≡ through b
        → count b.data_ptr ≤ count a.data_ptr + threshold
    unfolding messages leave
    messages-bounded fuel zero a b e =
        let same : a.data_ptr ≡ b.data_ptr = through-same a b e in omega (arith, ap count same)
    messages-bounded zero (suc left) a b e = absurd (ground arith)
    messages-bounded (suc fuel) (suc left) a b e = elim (Option-cases (get_message a)) [
      | inl failing ↦ absurd (ground arith)
      | inr (got, found) ↦
          let kept : got.data_ptr ≡ a.data_ptr = get_message-data a got found in
          elim (Option-cases got.current_message) [
            | inl over ↦
                let stops : messages init invoke (suc fuel) (suc left) a ≡ through got =
                  simp (found, messages, over) in
                let same : through got ≡ through b = sym stops ∙ e in
                omega (arith, ap count (through-same got b same), ap count kept)
            | inr (msg, taken) ↦ elim (Option-cases (invoke (enter msg got) msg)) [
              | inl thrown ↦ absurd (ground arith)
              | inr (c, returned) ↦
                  let more = counts (enter msg got) c msg returned in
                  let start : count (enter msg got).data_ptr ≡ count a.data_ptr =
                    ap count (enter-data msg got ∙ kept) in
                  let rounds = if answers msg then suc left else left in
                  let goes_on : messages init invoke (suc fuel) (suc left) a
                      ≡ messages init invoke fuel rounds (leave c) =
                    rw (found, messages) (rw taken (rw returned refl)) in
                  let rest = messages-bounded fuel rounds (leave c) b (sym goes_on ∙ e) in
                  omega (arith, more, rest, start, one_round (answers msg) left)
            ]
          ]
    ]
