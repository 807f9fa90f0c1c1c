-- ===== src/SafeQueue/Runs.antt =====
-- Threads that put into and take from a queue of include/mola/queue.hpp in any order; each operation
-- is one step under the lock.
use elastic_actor.Prelude.{
  ◌+◌, ◌<◌, ◌^◌, ◌≡◌, ◌∙◌, refl, ap, sym, subst, false, Option, some, List, [], ◌∷◌, ◌++◌, arith,
  length, append_assoc,
}
use elastic_actor.SafeQueue.{QueueNode, Queue, no_items, enqueue, dequeue}
use elastic_actor.SafeQueue.Order.{
  items, lives, to_list, IsValid, no_items-IsValid, enqueue-last, dequeue-first,
}

module _ {ℓ} {T : Type ℓ} where
  -- What went in, what came out, and the queue that is left. A new node has an address of its own.
  pub data Run : List T → List T → Queue T → Type ℓ where
    begun : Run [] [] no_items
    put :
        {ins outs : List T} {q q' : Queue T} (n : QueueNode T)
        → Run ins outs q
        → lives n.addr q.head ≡ false
        → length q.head + 1 < 2 ^ 64
        → enqueue n q ≡ some q'
        → Run (ins ++ (n.value ∷ [])) outs q'
    get :
        {ins outs : List T} {q q' : Queue T} {r : Option T}
        → Run ins outs q
        → dequeue q ≡ some (r, q')
        → Run ins (outs ++ to_list r) q'

  Kept : List T → List T → Queue T → Type ℓ
  Kept ins outs q = (ins ≡ outs ++ items q) × IsValid q

  Run-Kept : {ins outs : List T} {q : Queue T} → Run ins outs q → Kept ins outs q
  unfolding Kept
  Run-Kept begun = (refl, no_items-IsValid)
  Run-Kept (put {ins} {outs} {q} {q'} n run fresh few e) =
      let (sofar, v) = Run-Kept run in
      let (q2, done, last, v') = enqueue-last n q v fresh few in
      let same : q2 ≡ q' = ground arith in
      (
        ap (λ xs. xs ++ (n.value ∷ [])) sofar
            ∙ append_assoc outs (items q) (n.value ∷ [])
            ∙ ap (λ xs. outs ++ xs) (sym last)
            ∙ ap (λ q. outs ++ items q) same,
        subst IsValid same v',
      )
  Run-Kept (get {ins} {outs} {q} {q'} {r} run e) =
      let (sofar, v) = Run-Kept run in
      let (r2, q2, done, first, v') = dequeue-first q v in
      let same_answer : r2 ≡ r = ground arith in
      let same : q2 ≡ q' = ground arith in
      (
        sofar
            ∙ ap (λ xs. outs ++ xs) first
            ∙ sym (append_assoc outs (to_list r2) (items q2))
            ∙ ap (λ r. (outs ++ to_list r) ++ items q2) same_answer
            ∙ ap (λ q. (outs ++ to_list r) ++ items q) same,
        subst IsValid same v',
      )

  -- Whatever the order of the operations, what came out and then what is queued is what went in, in
  -- the order in which it went in; and `dequeue` does not fault on the queue that is left.
  pub Run-in_order :
      {ins outs : List T} {q : Queue T}
      → Run ins outs q
      → (ins ≡ outs ++ items q) × ((r : Option T) × (q' : Queue T) × (dequeue q ≡ some (r, q')))
  unfolding Kept
  Run-in_order {q = q} run =
      let (sofar, v) = Run-Kept run in
      let (r, q', done, _, _) = dequeue-first q v in (sofar, (r, q', done))
