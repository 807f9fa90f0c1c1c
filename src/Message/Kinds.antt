-- ===== src/Message/Kinds.antt =====
-- The kind bits of include/mola/c/mola_message.h.
use elastic_actor.Prelude.{◌≡◌, ◌≢◌, ◌↔◌, refl, Bool, true, false, arith}
use elastic_actor.Message.{
  Kind, request, response, scatter, gather, error, Metadata, is_kind, is_oneway, set_kind,
}

abbrev pub same_kind : Kind → Kind → Bool
same_kind request request = true
same_kind response response = true
same_kind scatter scatter = true
same_kind gather gather = true
same_kind error error = true
same_kind _ _ = false

is_kind-set_kind : (j k : Kind) (meta : Metadata) → is_kind j (set_kind k meta) ≡ same_kind j k
unfolding is_kind set_kind
is_kind-set_kind request request meta = refl
is_kind-set_kind request response meta = refl
is_kind-set_kind request _ meta = refl
is_kind-set_kind response request meta = refl
is_kind-set_kind response _ meta = refl
is_kind-set_kind scatter request meta = refl
is_kind-set_kind scatter _ meta = refl
is_kind-set_kind gather request meta = refl
is_kind-set_kind gather _ meta = refl
is_kind-set_kind error request meta = refl
is_kind-set_kind error _ meta = refl

is_oneway-set_kind :
    (k : Kind) (meta : Metadata)
    → (is_oneway (set_kind k meta) ≡ true) ↔ ((k ≢ request) × (k ≢ gather))
unfolding is_oneway set_kind
is_oneway-set_kind request meta = ground arith
is_oneway-set_kind _ meta = ground arith

-- A message whose kind is set is of that kind and of no other, and it is one-way unless it is a
-- request or a gather message.
pub set_kind-exclusive :
    (k : Kind) (meta : Metadata)
    → ((j : Kind) → is_kind j (set_kind k meta) ≡ same_kind j k)
      × ((is_oneway (set_kind k meta) ≡ true) ↔ ((k ≢ request) × (k ≢ gather)))
set_kind-exclusive k meta = (λ j. is_kind-set_kind j k meta, is_oneway-set_kind k meta)
