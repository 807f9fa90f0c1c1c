-- ===== src/Module/Instances.antt =====
-- Which actor of src/module.cpp gets the messages for an instance id.
use elastic_actor.Prelude.{
  ℕ, ◌+◌, ◌≡◌, ◌≢◌, ◌∙◌, ◌⊎◌, refl, ap, sym, subst, inl, inr, true, false, none, some, arith, find,
  find-insert, find-insert_ne, Bool-cases, ◌==◌, if◌then◌else◌,
}
use elastic_actor.ActorId.{any, actor_id}
use elastic_actor.Module.{Module, create_instance, select_or_create}

module _ {D : Type 0} (garbage : ℕ) (blank : D) where
  abbrev select : ℕ → Module D → ℕ × Module D
  select = select_or_create garbage blank

  select-found :
      (inst p : ℕ) (m : Module D) → find inst m.instances ≡ some p → select inst m ≡ (p, m)
  unfolding select_or_create
  select-found inst p m e = rw (e, select_or_create) refl

  select-new :
      (inst : ℕ) (m : Module D)
      → find inst m.instances ≡ none
      → select inst m ≡ create_instance garbage blank inst m
  unfolding select_or_create
  select-new inst m e = rw (e, select_or_create) refl

  create-any :
      (inst : ℕ) (m : Module D)
      → find any m.instances ≡ none
      → find any (create_instance garbage blank inst m).1.instances ≡ some m.next
  unfolding create_instance actor_id
  create-any inst m e = find-insert any m.next m.instances e

  create-other :
      (inst k : ℕ) (m : Module D)
      → k ≢ any
      → find k (create_instance garbage blank inst m).1.instances ≡ find k m.instances
  unfolding create_instance actor_id
  create-other inst k m ne = find-insert_ne any k m.next m.instances (λ e. ne (sym e))

  create-next :
      (inst : ℕ) (m : Module D)
      → ((create_instance garbage blank inst m).0 ≡ m.next)
        × ((create_instance garbage blank inst m).1.next ≡ m.next + 1)
  unfolding create_instance
  create-next inst m = (refl, refl)

  -- An instance id that is not in the table names an actor only if it is 0xffff: for it, the actor
  -- that the first message creates gets the later ones too. For another id every message creates an
  -- actor of its own, since the table is keyed by the wrong field of the new actor's identity.
  pub select_or_create-again :
      (inst : ℕ) (m : Module D)
      → find inst m.instances ≡ none
      → ((select_or_create garbage blank inst (select_or_create garbage blank inst m).1).0
          ≡ (if inst == any then m.next else (m.next + 1)))
        × ((select_or_create garbage blank inst m).0 ≡ m.next)
  select_or_create-again inst m e =
      let c = create_instance garbage blank inst m in
      let (here, next) = create-next inst m in
      let first = select-new inst m e in
      let again = ap (λ r. (select inst r.1).0) first in
      (again ∙ second (Bool-cases (inst == any)), ap (λ r. r.0) first ∙ here)
    where
      second :
          ((inst == any) ≡ true) ⊎ ((inst == any) ≡ false)
          → (select inst (create_instance garbage blank inst m).1).0
            ≡ (if inst == any then m.next else (m.next + 1))
      second (inl y) =
          let same : inst ≡ any = ground arith in
          let stored =
            subst (λ k. find k (create_instance garbage blank inst m).1.instances ≡ some m.next)
              (sym same) (create-any inst m (subst (λ k. find k m.instances ≡ none) same e)) in
          rw y (
            ap (λ r. r.0)
              (select-found inst m.next (create_instance garbage blank inst m).1 stored))
      second (inr n) =
          let c = (create_instance garbage blank inst m).1 in
          let absent = create-other inst inst m (λ q. ground arith) ∙ e in
          rw n (
            ap (λ r. r.0) (select-new inst c absent)
            ∙ (create-next inst c).0
            ∙ (create-next inst m).1)
