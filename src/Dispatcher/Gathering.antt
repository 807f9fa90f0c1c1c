-- ===== src/Dispatcher/Gathering.antt =====
-- A scatter operation of src/dispatcher.cpp, from the messages that it sends to the gather callback.
use elastic_actor.Prelude.{
  ◌+◌, ◌<◌, ◌≡◌, ◌∙◌, refl, ap, sym, inl, inr, true, false, Option, none, some, arith, List, [],
  ◌∷◌, ◌++◌, length, ◌==◌, Option-cases, length-append, append_assoc, append-nil,
}
use elastic_actor.ActorId.{ActorId}
use elastic_actor.Message.{Message}
use elastic_actor.Actor.ReqCtx.{Gather, ready}
use elastic_actor.Module.{reply}
use elastic_actor.Dispatcher.{gather_one, insert_gather, switch_gather}

module _ (callback : List Message → Option Message) (self : ActorId) (to : Message) where
  -- The messages of a group as they arrive, and the replies that are dispatched meanwhile.
  pub gather_all : List Message → Gather → Option (List Message × Gather)
  gather_all [] g = some ([], g)
  gather_all (m ∷ ms) g = elim (gather_one callback self (some to) m g) [
    | none ↦ none
    | some (none, g') ↦ gather_all ms g'
    | some (some r, g') ↦ elim (gather_all ms g') [
      | none ↦ none
      | some (rs, g'') ↦ some (r ∷ rs, g'')
    ]
  ]

  -- What the callback makes of the whole group.
  abbrev pub result : List Message → List Message
  result ms = elim (callback ms) [ none ↦ [] | some res ↦ reply self to res ∷ [] ]

  gather_one-early :
      (m : Message) (g : Gather)
      → length g.messages + 1 < g.size
      → gather_one callback self (some to) m g
        ≡ some (none, record g { messages = g.messages ++ (m ∷ []) })
  unfolding gather_one insert_gather switch_gather ready
  gather_one-early m g early =
      let open_group : (length (g.messages ++ (m ∷ [])) == g.size) ≡ false =
        ground (arith, length-append g.messages (m ∷ [])) in
      rw open_group refl

  abbrev answer : List Message → Option Message
  answer ms = elim (callback ms) [ none ↦ none | some res ↦ some (reply self to res) ]

  gather_one-last :
      (m : Message) (g : Gather)
      → length g.messages + 1 ≡ g.size
      → gather_one callback self (some to) m g
        ≡ some (
          answer (g.messages ++ (m ∷ [])),
          record g { messages = g.messages ++ (m ∷ []); is_done = true },
        )
  unfolding gather_one insert_gather switch_gather ready
  gather_one-last m g last =
      let whole : (length (g.messages ++ (m ∷ [])) == g.size) ≡ true =
        ground (arith, length-append g.messages (m ∷ [])) in
      elim (Option-cases (callback (g.messages ++ (m ∷ [])))) [
        | inl e ↦ rw (whole, answer, e) refl
        | inr (res, e) ↦ rw (whole, answer, e) refl
      ]

  gather_all-last :
      (m : Message) (g : Gather)
      → length g.messages + 1 ≡ g.size
      → gather_all (m ∷ []) g
        ≡ some (
          result (g.messages ++ (m ∷ [])),
          record g { messages = g.messages ++ (m ∷ []); is_done = true },
        )
  unfolding gather_all
  gather_all-last m g last = elim (Option-cases (callback (g.messages ++ (m ∷ [])))) [
    | inl e ↦ rw (gather_one-last m g last, gather_all, answer, result, e) refl
    | inr (res, e) ↦ rw (gather_one-last m g last, gather_all, answer, result, e) refl
  ]

  gather_all-rest :
      (m : Message) (ms : List Message) (g : Gather)
      → length g.messages + length (m ∷ ms) ≡ g.size
      → gather_all (m ∷ ms) g
        ≡ some (
          result (g.messages ++ (m ∷ ms)),
          record g { messages = g.messages ++ (m ∷ ms); is_done = true },
        )
  unfolding gather_all
  gather_all-rest m [] g full = gather_all-last m g full
  gather_all-rest m (n ∷ ms) g full =
      let g' : Gather = record g { messages = g.messages ++ (m ∷ []) } in
      let rest = gather_all-rest n ms g' (omega (arith, full, length-append g.messages (m ∷ []))) in
      rw (gather_one-early m g (omega arith), gather_all)
        (rest
          ∙ ap (λ l. some (result l, record g { messages = l; is_done = true }))
              (append_assoc g.messages (m ∷ []) (n ∷ ms)))

  -- A group of n > 0 messages is gathered in the order in which they arrive: no reply is made before
  -- the last of them; then the callback sees them all, its reply (if any) answers the initiator, and
  -- the context is done.
  pub gather_all-replies :
      (m : Message) (ms : List Message)
      → gather_all (m ∷ ms) (record { is_done = false; size = length (m ∷ ms); messages = [] })
        ≡ some
            (result (m ∷ ms), record { is_done = true; size = length (m ∷ ms); messages = m ∷ ms })
  gather_all-replies m ms =
      gather_all-rest m ms (record { is_done = false; size = length (m ∷ ms); messages = [] })
        (omega arith)

  -- Before the last message of a group there is no reply, and the context stays open.
  pub gather_all-waits :
      (ms : List Message) (g : Gather)
      → length g.messages + length ms < g.size
      → gather_all ms g ≡ some ([], record g { messages = g.messages ++ ms })
  unfolding gather_all
  gather_all-waits [] g few =
      ap (λ l. some ([], record g { messages = l })) (sym (append-nil g.messages))
  gather_all-waits (m ∷ ms) g few =
      let g' : Gather = record g { messages = g.messages ++ (m ∷ []) } in
      rw (gather_one-early m g (omega arith), gather_all)
        (gather_all-waits ms g' (omega (arith, few, length-append g.messages (m ∷ [])))
          ∙ ap (λ l. some ([], record g { messages = l })) (append_assoc g.messages (m ∷ []) ms))
