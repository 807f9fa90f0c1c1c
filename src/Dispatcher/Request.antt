-- ===== src/Dispatcher/Request.antt =====
-- A request of src/dispatcher.cpp, from its sender to the reply of `invoke_message` in src/module.cpp and
-- back to the sender's `execute`.
use elastic_actor.Prelude.{
  ℕ, ◌+◌, ◌<◌, ◌^◌, ◌≡◌, ◌≢◌, ◌∙◌, refl, ap, inl, inr, true, false, Option, none, some, arith, ◌==◌,
  u32, Option-cases,
}
use elastic_actor.ActorId.{ActorId, any, set_intf_id}
use elastic_actor.Message.{Message, is_kind, request, set_kind, set_reqid}
use elastic_actor.Actor.{Actor, answers, enter}
use elastic_actor.Actor.ReqCtx.{Ctx, Gather, Requests, new_reqid, find_req_ctx}
use elastic_actor.Actor.ReqCtx.Ids.{Consistent, Fresh, new_reqid-Fresh, insert_req_ctx-found}
use elastic_actor.Module.{reply}
use elastic_actor.Dispatcher.{Ret, ret_ok, initiator, keep, asking, sent, post, request_to}

-- A reply counts as an answer of its receiver.
answers-reply : (self : ActorId) (to res : Message) → answers (reply self to res) ≡ true
unfolding reply set_kind is_kind
answers-reply self to res = ground arith

asking-reqid :
    (target self : ActorId) (return_intf : ℕ) (msg : Message)
    → (asking target self return_intf msg).meta.reqid ≡ msg.meta.reqid
unfolding asking set_kind
asking-reqid target self return_intf msg = refl

abbrev pub numbered : ℕ → Message → Message
numbered id m = record m { meta = set_reqid id m.meta }

module _ {D : Type 0} where
  enter-open :
      (msg : Message) (a : Actor D) (c : Ctx)
      → answers msg ≡ true
      → 0 < msg.meta.reqid
      → find_req_ctx msg.meta.reqid a.requests ≡ some c
      → (enter msg a).current_ctx ≡ some msg.meta.reqid
  unfolding enter
  enter-open msg a c is_answer nonzero e = ground arith

  -- A request that is sent: what was recorded for it.
  pub record Asked (target : ActorId) (return_intf saved : ℕ) (a : Actor D) (m : Message)
      (b : Actor D) : Type 0 where
    pub numbered : 0 < m.meta.reqid
    pub fits : m.meta.reqid < 2 ^ 32
    pub receiver : m.meta.target ≡ target
    pub sender : m.meta.sender ≡ set_intf_id return_intf a.id
    pub kind : is_kind request m.meta ≡ true
    pub consistent : Consistent b.requests
    pub context :
        find_req_ctx m.meta.reqid b.requests
        ≡ some
            (record { reqid = m.meta.reqid; initiator = initiator a; saved = saved; gather = none })

  pub keep-found :
      (a : Actor D) (reqid saved : ℕ) (group : Option Gather)
      → Consistent a.requests
      → Fresh reqid a.requests
      → (b : Actor D) × (keep reqid group saved a ≡ some b)
        × Consistent b.requests
        × (find_req_ctx reqid b.requests
            ≡ some
                (record { reqid = reqid; initiator = initiator a; saved = saved; gather = group }))
  unfolding keep initiator
  keep-found a reqid saved group v f =
      let c : Ctx = record {
        reqid = reqid;
        initiator = initiator a;
        saved = saved;
        gather = group;
      } in
      let (r, inserted, consistent, found, others) = insert_req_ctx-found a.requests c v f in
      (record a { requests = r }, rw (inserted, keep) refl, consistent, found)

  -- A request with a new id does not change which message is behind it.
  pub initiator-same :
      (a : Actor D) (r : Requests)
      → ((id : ℕ) → find_req_ctx id r ≡ find_req_ctx id a.requests)
      → initiator (record a { requests = r }) ≡ initiator a
  unfolding initiator
  initiator-same a r same = elim (Option-cases a.current_ctx) [
    | inl e ↦ rw (e, initiator) refl
    | inr (id, e) ↦ rw (e, initiator, same id) refl
  ]

  post-kept :
      (send : Message → Ret × Option Message) (m left : Message) (return_intf saved : ℕ)
      (a b : Actor D)
      → (return_intf == any) ≡ false
      → (m.meta.reqid == 0) ≡ true
      → send (numbered (new_reqid a.requests).0 m) ≡ (ret_ok, some left)
      → left.meta.reqid ≡ u32 (new_reqid a.requests).0
      → keep
          (u32 (new_reqid a.requests).0)
          none
          saved
          (record a { requests = (new_reqid a.requests).1 })
        ≡ some b
      → post send return_intf m saved a ≡ some (ret_ok, numbered (new_reqid a.requests).0 m, b)
  unfolding post
  post-kept send m left return_intf saved a b named new goes id_left kept =
      let m' = numbered (new_reqid a.requests).0 m in
      let a' : Actor D = record a { requests = (new_reqid a.requests).1 } in
      let recorded : sent (ret_ok, some left) m' saved a' ≡ some (ret_ok, m', b) =
        rw (id_left, kept) refl in
      rw (named, new, post) (ap (λ r. sent r m' saved a') goes ∙ recorded)

  request_to-Asked :
      (send : Message → Ret × Option Message) (target : ActorId) (msg : Message)
      (return_intf saved : ℕ) (a : Actor D)
      → ((m : Message)
          → m.meta.target ≡ target
          → (left : Message) × (send m ≡ (ret_ok, some left)) × (left.meta.reqid ≡ m.meta.reqid))
      → return_intf ≢ any
      → msg.meta.reqid ≡ 0
      → Consistent a.requests
      → a.requests.generator + 1 < 2 ^ 32
      → (m : Message) × (b : Actor D) × (request_to send target msg return_intf saved a
          ≡ some (ret_ok, m, b))
        × Asked target return_intf saved a m b
  unfolding request_to asking set_kind is_kind
  request_to-Asked send target msg return_intf saved a goes named new v few =
      let (fresh, consistent, same) = new_reqid-Fresh a.requests v few in
      let id = (new_reqid a.requests).0 in
      let fits : u32 id ≡ id = omega (arith, fresh.old, consistent.room) in
      let a' : Actor D = record a { requests = (new_reqid a.requests).1 } in
      let (b, kept, consistent', found) =
        keep-found a' (u32 id) saved none consistent (rw fits fresh) in
      let not_any : (return_intf == any) ≡ false = ground (arith, named) in
      let m1 = asking target a.id return_intf msg in
      let old : m1.meta.reqid ≡ 0 = asking-reqid target a.id return_intf msg ∙ new in
      let (left, accepted, same_id) = goes (numbered id m1) refl in
      (
        numbered id m1,
        b,
        post-kept send m1 left return_intf saved a b not_any (ground (arith, old)) accepted same_id
            kept,
        record {
          numbered = omega (arith, fits, fresh.nonzero);
          fits = omega (arith, fits);
          receiver = refl;
          sender = rw not_any refl;
          kind = refl;
          consistent = consistent';
          context =
              found
              ∙ ap
                  (λ w.
                    some (record { reqid = u32 id; initiator = w; saved = saved; gather = none }))
                  (initiator-same a (new_reqid a.requests).1 same);
        },
      )

  -- The target module and the instance of a reply, its kind, and the context that it finds.
  pub record Answered (return_intf saved : ℕ) (a : Actor D) (m res : Message) (self : ActorId)
      (c : Actor D) : Type 0 where
    pub address : (reply self m res).meta.target ≡ set_intf_id return_intf a.id
    pub found : (enter (reply self m res) c).current_ctx ≡ some m.meta.reqid
    pub behind : initiator (enter (reply self m res) c) ≡ initiator a

  enter-requests : (msg : Message) (a : Actor D) → (enter msg a).requests ≡ a.requests
  unfolding enter
  enter-requests msg a = ground arith

  initiator-found :
      (a : Actor D) (id : ℕ) (c : Ctx) {r : Requests}
      → a.current_ctx ≡ some id
      → a.requests ≡ r
      → find_req_ctx id r ≡ some c
      → initiator a ≡ c.initiator
  unfolding initiator
  initiator-found a id c e same found = rw (e, initiator, same, found) refl

  reply-Answered :
      (target : ActorId) (return_intf saved : ℕ) (a b c : Actor D) (m res : Message)
      (self : ActorId)
      → Asked target return_intf saved a m b
      → c.requests ≡ b.requests
      → Answered return_intf saved a m res self c
  unfolding reply
  reply-Answered target return_intf saved a b c m res self q same = record {
    address = q.sender;
    found = current;
    behind =
        initiator-found (enter r c) m.meta.reqid opened current (enter-requests r c ∙ same)
          q.context;
  }
    where
      r : Message
      r = reply self m res

      opened : Ctx
      opened = record {
        reqid = m.meta.reqid;
        initiator = initiator a;
        saved = saved;
        gather = none;
      }

      same_id : r.meta.reqid ≡ m.meta.reqid
      same_id = omega (arith, q.fits)

      current : (enter r c).current_ctx ≡ some m.meta.reqid
      current =
          enter-open r c opened (answers-reply self m res) (omega (arith, q.numbered, same_id))
            (rw (same_id, same) q.context)
          ∙ ap some same_id

  -- A request from an actor that names an interface for the answer, sent without an id of its own.
  -- Messages for its target are accepted and leave the sender its pointer, as those for this node do:
  -- then the request gets an id and is recorded. Whatever the answering actor `self` returns, the
  -- reply is addressed to that interface of the sender, and as long as the sender `c` has the requests
  -- that it had then, the reply makes the context current, which leads back to the sender's initiator.
  pub request_to-Answered :
      (send : Message → Ret × Option Message) (target : ActorId) (msg : Message)
      (return_intf saved : ℕ) (a : Actor D)
      → ((m : Message)
          → m.meta.target ≡ target
          → (left : Message) × (send m ≡ (ret_ok, some left)) × (left.meta.reqid ≡ m.meta.reqid))
      → return_intf ≢ any
      → msg.meta.reqid ≡ 0
      → Consistent a.requests
      → a.requests.generator + 1 < 2 ^ 32
      → (m : Message) × (b : Actor D) × (request_to send target msg return_intf saved a
          ≡ some (ret_ok, m, b))
        × Asked target return_intf saved a m b
        × ((self : ActorId) (res : Message) (c : Actor D)
            → c.requests ≡ b.requests
            → Answered return_intf saved a m res self c)
  unfolding reply
  request_to-Answered send target msg return_intf saved a goes named new v few =
      let (m, b, e, asked) =
        request_to-Asked send target msg return_intf saved a goes named new v few in
      (
        m,
        b,
        e,
        asked,
        λ self res c same. reply-Answered target return_intf saved a b c m res self asked same,
      )
