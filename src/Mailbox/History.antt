-- ===== src/Mailbox/History.antt =====
-- Any number of producers and one owner over a mailbox of include/mola/mailbox.hpp, interleaved in
-- any order: the steps are the iterations of the loops of `enqueue`, `dequeue` and `try_block`, each
-- with whatever pointer its thread loaded before. `sent` and `got` record the items that went in
-- and out, and `owners` counts the owners that are due to run: an `enqueue` that answers
-- MAILBOX_UNBLOCKED schedules one (include/mola/actor.hpp, `deliver_message`), and a `try_block`
-- that answers true sends one to sleep (`execute`).
use elastic_actor.Prelude.{
  ℕ, zero, suc, ◌+◌, ◌-◌, ◌<◌, ◌^◌, ◌≡◌, ◌≢◌, ◌∙◌, refl, sym, inl, inr, Bool, true, false, List, [],
  ◌∷◌, ◌++◌, some, arith, length, get_or, replicate, select, select-append, append-nil,
  append_assoc, length-replicate,
}
use elastic_actor.Mailbox.{
  EnqueueStatus, unblocked, failure, Ptr, links, Item, Mailbox, nothing, item, enqueue_try,
  dequeue_try, try_block_try, init, unblocks, is_blocked,
}
use elastic_actor.Mailbox.Drain.{total, get_or-le-total, at_level}
use elastic_actor.Mailbox.Serve.{
  queue, IsValid, total-drop-le, Outcome, none_private, took, Took, Pushed, enqueue_try-Pushed,
  queue-Pushed, Pushed-IsValid,
}
use elastic_actor.Mailbox.Dequeue.{dequeue_try-Outcome, Blocks, try_block_try-Blocks}

pub record World {ℓ} (A : Type ℓ) : Type ℓ where
  pub box : Mailbox A
  pub sent : List A
  pub got : List A
  pub owners : ℕ

-- An owner more if the status says so.
abbrev pub wake : EnqueueStatus → ℕ → ℕ
wake unblocked n = n + 1
wake _ n = n

abbrev pub sleep : Bool → ℕ → ℕ
sleep true n = n - 1
sleep false n = n

-- The owners that are due while the mailbox is, or is not, blocked.
abbrev pub due : Bool → ℕ
due true = 0
due false = 1

module _ {ℓ} {A : Type ℓ} where
  abbrev pub start : ℕ → ℕ → World A
  start np garbage = record { box = init np garbage; sent = []; got = []; owners = 0 }

  init-headers : (np p : ℕ) → get_or (replicate {A = List A} np []) p [] ≡ []
  init-headers zero p = refl
  init-headers (suc np) zero = refl
  init-headers (suc np) (suc p) = init-headers np p

init-total {ℓ} : (A : Type ℓ) (np : ℕ) → total (replicate {A = List A} np []) ≡ 0
init-total A zero = refl
init-total A (suc np) = omega (arith, init-total A np)

module _ {ℓ} {A : Type ℓ} ⦃i : Item A⦄ where
  pub data Step (np : ℕ) (w : World A) : World A → Type ℓ where
    push :
        (x : A) (e : Ptr) {s : EnqueueStatus} {m : Mailbox A}
        → i.priority x < np
        → total w.box.headers + length (links w.box.stack) + 1 < 2 ^ 32
        → enqueue_try x e w.box ≡ some (s, m)
        → s ≢ failure
        → Step np w (record w { box = m; sent = w.sent ++ (x ∷ []); owners = wake s w.owners })
    take :
        (e : Ptr) {x : A} {m : Mailbox A}
        → 0 < w.owners
        → dequeue_try np e w.box ≡ some (item x m)
        → Step np w (record w { box = m; got = w.got ++ (x ∷ []) })
    rest :
        (e : Ptr) {m : Mailbox A}
        → 0 < w.owners
        → dequeue_try np e w.box ≡ some (nothing m)
        → Step np w (record w { box = m })
    block :
        (e : Ptr) {b : Bool} {m : Mailbox A}
        → 0 < w.owners
        → try_block_try e w.box ≡ some (b, m)
        → Step np w (record w { box = m; owners = sleep b w.owners })

  pub data Reach (np garbage : ℕ) : World A → Type ℓ where
    begin : Reach np garbage (start np garbage)
    later : {w u : World A} → Reach np garbage w → Step np w u → Reach np garbage u

  pub record Inv (np : ℕ) (w : World A) : Type ℓ where
    pub valid : IsValid np w.box
    pub in_order : (p : ℕ) → select (at_level p) w.sent ≡ select (at_level p) w.got ++ queue p w.box
    pub one_owner : w.owners ≡ due (is_blocked w.box)

  start-Inv : (np garbage : ℕ) → Inv np (start np garbage)
  unfolding init is_blocked
  start-Inv np garbage = record {
    valid = record {
      levels = length-replicate np [];
      counted = sym (init-total A np);
      room = omega (arith, init-total A np);
      served = omega (arith, total-drop-le (replicate {A = List A} np []) garbage, init-total A np);
      bounded = λ h. absurd (omega arith);
      sorted = λ p. rw (init-headers {A = A} np p);
      ranked = tt;
    };
    in_order = λ p. rw (init-headers {A = A} np p);
    one_owner = refl;
  }

  push-Inv :
      {np : ℕ} (w : World A) (x : A) (s : EnqueueStatus) (m : Mailbox A)
      → Inv np w
      → i.priority x < np
      → total w.box.headers + length (links w.box.stack) + 1 < 2 ^ 32
      → Pushed x w.box s m
      → Inv np (record w { box = m; sent = w.sent ++ (x ∷ []); owners = wake s w.owners })
  unfolding unblocks is_blocked
  push-Inv w x s m v ranked fits h = record {
    valid = Pushed-IsValid h v.valid ranked fits;
    in_order = λ p.
        rw (select-append (at_level p) w.sent (x ∷ []), v.in_order p, queue-Pushed h p)
          (append_assoc (select (at_level p) w.got) _ _);
    one_owner = rw (h.status, h.result) (ground (arith, v.one_owner));
  }

  take-Inv :
      {np : ℕ} (w : World A) (x : A) (m : Mailbox A)
      → Inv np w
      → 0 < w.owners
      → Took np w.box x m
      → Inv np (record w { box = m; got = w.got ++ (x ∷ []) })
  unfolding is_blocked
  take-Inv w x m v running t = record {
    valid = t.valid;
    in_order = λ p.
        rw (v.in_order p, t.oldest p, select-append (at_level p) w.got (x ∷ []))
          (sym (append_assoc (select (at_level p) w.got) _ _));
    one_owner = ground (arith, v.one_owner, t.awake);
  }

  block-Inv :
      {np : ℕ} (w : World A) (b : Bool) (m : Mailbox A)
      → Inv np w
      → 0 < w.owners
      → Blocks w.box b m
      → Inv np (record w { box = m; owners = sleep b w.owners })
  unfolding is_blocked
  block-Inv w b m v running (inl (no_sleep, same_box)) = rw (no_sleep, same_box) v
  block-Inv w b m v running (inr (asleep, no_private, none_shared, e)) =
      rw (asleep, e)
        (record {
          valid = record {
            levels = v.valid.levels;
            counted = v.valid.counted;
            room = omega (arith, v.valid.counted);
            served = v.valid.served;
            bounded = v.valid.bounded;
            sorted = v.valid.sorted;
            ranked = tt;
          };
          in_order = λ p. v.in_order p ∙ rw none_shared;
          one_owner = omega (arith, rw none_shared at v.one_owner);
        })

  took-Inv :
      {np : ℕ} (w : World A) (e : Ptr) (x : A) (m : Mailbox A)
      → Inv np w
      → 0 < w.owners
      → Outcome np e w.box (item x m)
      → Inv np (record w { box = m; got = w.got ++ (x ∷ []) })
  took-Inv w e x m v running (took t) = take-Inv w x m v running t

  nothing-Inv :
      {np : ℕ} (w : World A) (e : Ptr) (m : Mailbox A)
      → Inv np w
      → Outcome np e w.box (nothing m)
      → Inv np (record w { box = m })
  nothing-Inv w e m v (none_private same_box _ _) = rw same_box v

  pub Step-Inv : {np : ℕ} {w u : World A} → Step np w u → Inv np w → Inv np u
  Step-Inv {w} (push x e {s} {m} ranked fits h accepted) v =
      elim (enqueue_try-Pushed x e w.box s m h) [
        | inl (refused, _, _) ↦ absurd (accepted refused)
        | inr pushed ↦ push-Inv w x s m v ranked fits pushed
      ]
  Step-Inv {np} {w} (take e {x} {m} running h) v =
      took-Inv w e x m v running (dequeue_try-Outcome np e w.box (item x m) v.valid h)
  Step-Inv {np} {w} (rest e {m} running h) v =
      nothing-Inv w e m v (dequeue_try-Outcome np e w.box (nothing m) v.valid h)
  Step-Inv {w} (block e {b} {m} running h) v =
      block-Inv w b m v running (try_block_try-Blocks e w.box b m h)

  pub Reach-Inv : {np garbage : ℕ} {w : World A} → Reach np garbage w → Inv np w
  Reach-Inv {np} {garbage} begin = start-Inv np garbage
  Reach-Inv (later r st) = Step-Inv st (Reach-Inv r)

  -- After any interleaving of producers and owner, for every priority: the items sent are those
  -- received, in that order, followed by those that wait, so none is lost, doubled or overtaken by
  -- another of its priority; and one owner is due exactly while the mailbox is not blocked.
  pub Reach-in_order :
      {np garbage : ℕ} {w : World A}
      → Reach np garbage w
      → ((p : ℕ) → select (at_level p) w.sent ≡ select (at_level p) w.got ++ queue p w.box)
        × (w.owners ≡ due (is_blocked w.box))
  Reach-in_order r = let v = Reach-Inv r in (v.in_order, v.one_owner)

  -- When the owner of a reachable mailbox falls asleep, it has received every item sent.
  pub block-all_received :
      {np garbage : ℕ} {w : World A} (e : Ptr) (m : Mailbox A)
      → Reach np garbage w
      → try_block_try e w.box ≡ some (true, m)
      → (p : ℕ) → select (at_level p) w.got ≡ select (at_level p) w.sent
  block-all_received {w} e m r h p = elim (try_block_try-Blocks e w.box true m h) [
    | inl (no_sleep, _) ↦ cc
    | inr (_, no_private, none_shared, _) ↦
        let v = Reach-Inv r in
        sym (
          v.in_order p
          ∙ rw (none_shared, get_or-le-total w.box.headers p (omega (arith, v.valid.counted)))
              (append-nil (select (at_level p) w.got)))
  ]
