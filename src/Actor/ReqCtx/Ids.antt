-- ===== src/Actor/ReqCtx/Ids.antt =====
-- The request ids of include/mola/actor.hpp, from `new_reqid` to the end of the request.
use elastic_actor.Prelude.{
  ℕ, ◌+◌, ◌<◌, ◌≤◌, ◌^◌, ◌≡◌, ◌≢◌, refl, ap, inl, inr, true, ◌∷◌, none, some, arith, List-cases,
  occurs, keys, inc32, find-some-occurs, find-erase-some, find, occurs-find-none, occurs-erase_self,
  occurs-erase_le, find-erase_ne, find-erase_self,
}
use elastic_actor.Actor.ReqCtx.{
  Ctx, ctx_done, Requests, new_reqid, release_reqid, find_req_ctx, insert_req_ctx, delete_req_ctx,
}

-- How often an id is open, as the key of a context, or waits to be given out again.
abbrev pub held : ℕ → Requests → ℕ
held id r = occurs id (keys r.contexts) + occurs id r.recycle

pub record Consistent (r : Requests) : Type 0 where
  pub once : (id : ℕ) → held id r ≤ 1
  pub given : (id : ℕ) → 0 < held id r → (0 < id) × (id ≤ r.generator)
  pub keyed : (id : ℕ) (c : Ctx) → find_req_ctx id r ≡ some c → c.reqid ≡ id
  pub room : r.generator < 2 ^ 32

-- An id that nobody holds, below the next new one, and that is not INVALID_REQID.
pub record Fresh (id : ℕ) (r : Requests) : Type 0 where
  pub nonzero : 0 < id
  pub old : id ≤ r.generator
  pub free : held id r ≡ 0

held-above : (r : Requests) (id : ℕ) → Consistent r → r.generator < id → held id r ≡ 0
held-above r id v above = ground (arith, v.given id)

-- A new id is not 0, is not the key of an open request and will not be given out again before it
-- is released, as long as fewer than 2^32 - 1 ids have been generated; no context changes.
pub new_reqid-Fresh :
    (r : Requests)
    → Consistent r
    → r.generator + 1 < 2 ^ 32
    → Fresh (new_reqid r).0 (new_reqid r).1
      × Consistent (new_reqid r).1
      × ((id : ℕ) → find_req_ctx id (new_reqid r).1 ≡ find_req_ctx id r)
unfolding new_reqid
new_reqid-Fresh r v few = elim (List-cases r.recycle) [
  | inl e ↦
      rw (e, new_reqid)
        (
          record {
            nonzero = omega arith;
            old = omega arith;
            free = held-above r (inc32 r.generator) v (omega arith);
          },
          record {
            once = v.once;
            given = λ id h. let (a, b) = v.given id h in (a, omega arith);
            keyed = v.keyed;
            room = omega arith;
          },
          λ id. refl,
        )
  | inr (id, ids, e) ↦
      rw (e, new_reqid)
        (
          record {
            nonzero = ground (arith, v.given id, v.once id, ap (occurs id) e);
            old = ground (arith, v.given id, v.once id, ap (occurs id) e);
            free = ground (arith, v.once id, ap (occurs id) e);
          },
          record {
            once = λ k. ground (arith, v.once k, ap (occurs k) e);
            given = λ k h. v.given k (ground (arith, h, ap (occurs k) e));
            keyed = v.keyed;
            room = v.room;
          },
          λ k. refl,
        )
]

-- An id that is fresh, or that was the only one of a context that goes, may be given back.
pub release_reqid-Consistent :
    (r : Requests) (id : ℕ) → Consistent r → Fresh id r → Consistent (release_reqid id r)
unfolding release_reqid
release_reqid-Consistent r id v f = record {
  once = λ k. ground (arith, v.once k, f.free);
  given = λ k h. ground (arith, h, v.given k, f.nonzero, f.old);
  keyed = v.keyed;
  room = v.room;
}

-- With a fresh id a context is stored without a failed assertion; an answer with that id finds it.
pub insert_req_ctx-found :
    (r : Requests) (c : Ctx)
    → Consistent r
    → Fresh c.reqid r
    → (r' : Requests) × (insert_req_ctx c r ≡ some r')
      × Consistent r'
      × (find_req_ctx c.reqid r' ≡ some c)
      × ((id : ℕ) → c.reqid ≢ id → find_req_ctx id r' ≡ find_req_ctx id r)
unfolding insert_req_ctx
insert_req_ctx-found r c v f =
    let absent : find c.reqid r.contexts ≡ none =
      occurs-find-none c.reqid r.contexts (omega (arith, f.free)) in
    (
      record r { contexts = (c.reqid, c) ∷ r.contexts },
      ground arith,
      record {
        once = λ k. ground (arith, v.once k, f.free);
        given = λ k h. ground (arith, h, v.given k, f.nonzero, f.old);
        keyed = λ k d e. ground (arith, v.keyed k d);
        room = v.room;
      },
      ground arith,
      λ k ne. ground (arith, ne),
    )

-- Once its answer is handled, a request that is done is closed: its id may be given out again, no
-- answer finds it any more, and the other requests stay as they are.
pub delete_req_ctx-closed :
    (r : Requests) (c : Ctx)
    → Consistent r
    → find_req_ctx c.reqid r ≡ some c
    → ctx_done c ≡ true
    → Consistent (delete_req_ctx c r)
      × (find_req_ctx c.reqid (delete_req_ctx c r) ≡ none)
      × ((new_reqid (delete_req_ctx c r)).0 ≡ c.reqid)
      × ((id : ℕ) → c.reqid ≢ id → find_req_ctx id (delete_req_ctx c r) ≡ find_req_ctx id r)
unfolding delete_req_ctx release_reqid new_reqid
delete_req_ctx-closed r c v e d = rw d (
  record {
    once = λ k. ground (
      arith,
      v.once k,
      v.once c.reqid,
      occurs-erase_le c.reqid k r.contexts,
      occurs-erase_self c.reqid r.contexts,
      found,
    );
    given = λ k h.
        ground (arith, h, v.given k, v.given c.reqid, found, occurs-erase_le c.reqid k r.contexts);
    keyed = λ k d q. v.keyed k d (find-erase-some c.reqid k d r.contexts q);
    room = v.room;
  },
  find-erase_self c.reqid r.contexts,
  refl,
  λ k ne. find-erase_ne c.reqid k r.contexts ne,
)
  where
    found : 0 < occurs c.reqid (keys r.contexts)
    found = find-some-occurs c.reqid c r.contexts e
