-- ===== src/Dispatcher/Routing.antt =====
-- The ways of a message through `dispatch(message)` of src/dispatcher.cpp, on one node and on two.
use elastic_actor.Prelude.{
  ℕ, ◌<◌, ◌^◌, ◌≡◌, ◌∙◌, refl, ap, Bool, true, false, Option, some, arith, ◌==◌, u32,
}
use elastic_actor.ActorId.{is_local}
use elastic_actor.Message.{Message, error, is_kind, set_kind}
use elastic_actor.Dispatcher.{drop_node, to_node, Node, bounce, forward, route, stamp}

bounced-error : (msg : Message) → is_kind error (bounce msg).meta ≡ true
unfolding bounce is_kind set_kind
bounced-error msg = refl

bounced-target :
    (msg : Message) (a : ℕ)
    → msg.meta.sender.node_id ≡ a
    → a < 2 ^ 32
    → (bounce msg).meta.target.node_id ≡ a
unfolding bounce set_kind
bounced-target msg a from fits = omega (arith, from, fits)

stamped-local :
    (a b : ℕ) (msg : Message) → a < 2 ^ 32 → is_local a (stamp b a msg).meta.target ≡ true
unfolding is_local stamp
stamped-local a b msg fits = let same : (u32 a == a) ≡ true = ground arith in ground (arith, same)

stamped-error :
    (a b : ℕ) (msg : Message)
    → is_kind error msg.meta ≡ true
    → is_kind error (stamp b a msg).meta ≡ true
unfolding stamp is_kind
stamped-error a b msg e = e

stamped-sender : (a b : ℕ) (msg : Message) → b < 2 ^ 32 → (stamp b a msg).meta.sender.node_id ≡ b
unfolding stamp
stamped-sender a b msg fits = omega (arith, fits)

-- A node B that does not have the module of a message from node A sends it back as an error message,
-- and A, which knows B, takes B out of its nodes: a missing module counts as a dead node.
pub route-bounced :
    (a b : ℕ) (loaded_a loaded_b : ℕ → Bool) (find_a find_b : ℕ → Option Node)
    (worker_a worker_b : Bool) (msg : Message) (node_b : Node)
    → a < 2 ^ 32
    → b < 2 ^ 32
    → is_local b msg.meta.target ≡ true
    → is_kind error msg.meta ≡ false
    → loaded_b msg.meta.target.module_id ≡ false
    → msg.meta.sender.node_id ≡ a
    → find_b a ≡ some (record { id = a; invalid = false })
    → find_a b ≡ some node_b
    → (route b loaded_b find_b worker_b msg ≡ to_node a (bounce msg))
      × (route a loaded_a find_a worker_a (stamp b a (bounce msg)) ≡ drop_node b)
unfolding route forward
route-bounced a b loaded_a loaded_b find_a find_b worker_a worker_b msg node_b fits_a fits_b here
      plain missing from knows_a knows_b =
    let known_a = ap find_b (bounced-target msg a from fits_a) ∙ knows_a in
    let known_b = ap find_a (stamped-sender a b (bounce msg) fits_b) ∙ knows_b in
    (
      rw (here, plain, missing, forward, known_a) refl,
      rw
          (
            stamped-local a b (bounce msg) fits_a,
            stamped-error a b (bounce msg) (bounced-error msg),
            known_b,
          )
          (ap drop_node (stamped-sender a b (bounce msg) fits_b)),
    )
