-- ===== src/Dispatcher/Scattering.antt =====
-- Sending a group of messages to given targets in src/dispatcher.cpp.
use elastic_actor.Prelude.{
  ℕ, ◌+◌, ◌<◌, ◌^◌, ◌≡◌, ◌∙◌, refl, sym, ap, occurs-find-none, true, false, none, some, arith, List,
  [], ◌∷◌, map, length, ◌==◌, u32,
}
use elastic_actor.ActorId.{ActorId, set_intf_id}
use elastic_actor.Message.{Message, is_kind, scatter, set_kind, with_ids}
use elastic_actor.Actor.{Actor}
use elastic_actor.Actor.ReqCtx.{new_reqid, find_req_ctx}
use elastic_actor.Actor.ReqCtx.Ids.{Consistent, new_reqid-Fresh}
use elastic_actor.Dispatcher.{Ret, ret_ok, initiator, aim, scattering, count_ok, scatter_to}
use elastic_actor.Dispatcher.Request.{keep-found, initiator-same}

count_ok-all :
    (send : Message → Ret) (ms : List Message)
    → ((m : Message) → send m ≡ ret_ok)
    → count_ok send ms ≡ length ms
unfolding count_ok
count_ok-all send [] goes = refl
count_ok-all send (m ∷ ms) goes = rw (goes m) (omega (arith, count_ok-all send ms goes))

-- What `sender` sends of the message `g` of a group with the id `id`.
pub record Sends (id : ℕ) (from to : ActorId) (g m : Message) : Type 0 where
  pub reqid : m.meta.reqid ≡ id
  pub kind : is_kind scatter m.meta ≡ true
  pub sender : m.meta.sender ≡ from
  pub target : m.meta.target ≡ to
  pub size : m.meta.size ≡ g.meta.size
  pub payload : m.payload ≡ g.payload

-- One message for each of the group, in its order, each to the node and the instance at its place.
pub data Scattered (id : ℕ) (sender : ActorId) (mid intf : ℕ)
    : List (ℕ × ℕ) → List Message → List Message → Type 0 where
  all_sent : Scattered id sender mid intf [] [] []
  next :
      (node inst : ℕ) (g m : Message) (dests : List (ℕ × ℕ)) (group ms : List Message)
      → Sends id sender (with_ids node mid intf inst g.meta.target) g m
      → Scattered id sender mid intf dests group ms
      → Scattered id sender mid intf ((node, inst) ∷ dests) (g ∷ group) (m ∷ ms)

scattering-Sends :
    (self : ActorId) (gather_intf id : ℕ) (target : ActorId) (g : Message)
    → u32 id ≡ id
    → Sends id
        (set_intf_id gather_intf self)
        target
        g
        (scattering self gather_intf id (record g { meta = record g.meta { target = target } }))
unfolding scattering set_kind is_kind
scattering-Sends self gather_intf id target g fits = record {
  reqid = fits;
  kind = refl;
  sender = refl;
  target = refl;
  size = refl;
  payload = refl;
}

scattering-Scattered :
    (self : ActorId) (gather_intf id mid intf : ℕ) (dests : List (ℕ × ℕ)) (group : List Message)
    → u32 id ≡ id
    → length group ≡ length dests
    → Scattered id
        (set_intf_id gather_intf self)
        mid
        intf
        dests
        group
        (map (scattering self gather_intf id) (aim mid intf dests group))
scattering-Scattered self gather_intf id mid intf [] [] fits same = all_sent
scattering-Scattered self gather_intf id mid intf [] (g ∷ group) fits same =
    absurd (omega (arith, same))
scattering-Scattered self gather_intf id mid intf (d ∷ dests) [] fits same =
    absurd (omega (arith, same))
scattering-Scattered self gather_intf id mid intf ((node, inst) ∷ dests) (g ∷ group) fits same =
    next node inst g _ dests group _ (scattering-Sends self gather_intf id _ g fits)
      (scattering-Scattered self gather_intf id mid intf dests group fits (omega (arith, same)))

Scattered-length :
    (id : ℕ) (sender : ActorId) (mid intf : ℕ) (dests : List (ℕ × ℕ)) (group ms : List Message)
    → Scattered id sender mid intf dests group ms
    → length ms ≡ length group
Scattered-length id sender mid intf _ _ _ all_sent = refl
Scattered-length id sender mid intf _ _ _ (next node inst g m dests group ms s rest) =
    omega (arith, Scattered-length id sender mid intf dests group ms rest)

module _ {D : Type 0} where
  -- What is recorded for a group of `size` messages that was sent with the id `id`.
  pub record Opened (id size saved : ℕ) (a b : Actor D) : Type 0 where
    pub numbered : 0 < id
    pub consistent : Consistent b.requests
    pub context :
        find_req_ctx id b.requests
        ≡ some (record {
          reqid = id;
          initiator = initiator a;
          saved = saved;
          gather = some (record { is_done = false; size = size; messages = [] });
        })

  -- A group without null messages, with a target for each, and all of which are accepted, goes out in
  -- its order: each message to the target at its place, as a scatter message from the interface of the
  -- sender that gathers, with the same content and with the one id that is new. A context that waits
  -- for as many answers as there are messages is stored under that id, with the sender's initiator.
  pub scatter_to-Opened :
      (send : Message → Ret) (mid intf size : ℕ) (dests : List (ℕ × ℕ)) (group : List Message)
      (gather_intf saved : ℕ) (a : Actor D)
      → ((m : Message) → send m ≡ ret_ok)
      → length group ≡ size
      → length dests ≡ size
      → 0 < size
      → Consistent a.requests
      → a.requests.generator + 1 < 2 ^ 32
      → (id : ℕ) × (ms : List Message) × (b : Actor D) × (scatter_to send mid intf size dests group
            gather_intf saved a
          ≡ some (ret_ok, ms, b))
        × Scattered id (set_intf_id gather_intf a.id) mid intf dests group ms
        × (find_req_ctx id a.requests ≡ none)
        × Opened id size saved a b
  unfolding scatter_to
  scatter_to-Opened send mid intf size dests group gather_intf saved a goes whole aimed some_size v
        few =
      let (fresh, consistent, same) = new_reqid-Fresh a.requests v few in
      let id = (new_reqid a.requests).0 in
      let ms = map (scattering a.id gather_intf id) (aim mid intf dests group) in
      let a' : Actor D = record a { requests = (new_reqid a.requests).1 } in
      let fits : u32 id ≡ id = omega (arith, fresh.old, consistent.room) in
      let scattered =
        scattering-Scattered a.id gather_intf id mid intf dests group fits
          (omega (arith, whole, aimed)) in
      let counted : length ms ≡ size =
        omega (arith, whole, Scattered-length id _ mid intf dests group ms scattered) in
      let (b, kept, consistent', found) =
        keep-found a' id saved (some (record { is_done = false; size = length ms; messages = [] }))
          consistent fresh in
      let not_empty : (size == 0) ≡ false = ground arith in
      let complete : (length group == size) ≡ true = ground (arith, whole) in
      let accepted : (count_ok send ms == length ms) ≡ true =
        ground (arith, count_ok-all send ms goes) in
      (
        id,
        ms,
        b,
        rw (not_empty, complete, accepted, kept, scatter_to) refl,
        scattered,
        sym (same id)
            ∙ occurs-find-none id (new_reqid a.requests).1.contexts (omega (arith, fresh.free)),
        record {
          numbered = fresh.nonzero;
          consistent = consistent';
          context =
              found
              ∙ ap
                  (λ w. some (record {
                    reqid = id;
                    initiator = w;
                    saved = saved;
                    gather = some (record { is_done = false; size = length ms; messages = [] });
                  }))
                  (initiator-same a (new_reqid a.requests).1 same)
              ∙ ap
                  (λ n. some (record {
                    reqid = id;
                    initiator = initiator a;
                    saved = saved;
                    gather = some (record { is_done = false; size = n; messages = [] });
                  }))
                  counted;
        },
      )
