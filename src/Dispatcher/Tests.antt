-- ===== src/Dispatcher/Tests.antt =====
-- src/dispatcher.cpp at concrete inputs.
use elastic_actor.Prelude.{
  ℕ, ◌≡◌, refl, ap, arith, true, false, Option, none, some, [], ◌∷◌, List, ◌==◌, if◌then◌else◌,
}
use elastic_actor.ActorId.{ActorId, is_local, local, set_intf_id}
use elastic_actor.Message.{Message, is_kind}
use elastic_actor.Actor.{Actor}
use elastic_actor.Actor.ReqCtx.{find_req_ctx}
use elastic_actor.Actor.ReqCtx.Ids.{Consistent}
use elastic_actor.Module.{infant}
use elastic_actor.Dispatcher.{
  Ret, scatter_to, ret_ok, request_to, drop_node, to_node, Node, route, stamp, bounce,
}
use elastic_actor.Dispatcher.Request.{Asked, Answered, request_to-Answered}
use elastic_actor.Dispatcher.Routing.{route-bounced}
use elastic_actor.Dispatcher.Scattering.{Opened, Scattered, scatter_to-Opened}
use elastic_actor.Dispatcher.Gathering.{gather_all, result, gather_all-replies}

abbrev client : ActorId
client = record { node_id = 3; module_id = 4; intf_id = 0xffff; inst_id = 6 }

abbrev server : ActorId
server = record { node_id = 8; module_id = 9; intf_id = 0; inst_id = 0xffff }

abbrev letter : ℕ → Message
letter p = record {
  meta = record { type = 0; data_type = 3; size = 8; sender = client; target = server; reqid = 0 };
  payload = p;
}

abbrev asker : Actor (List ℕ)
asker = record (infant 0 [] client) { current_message = some (letter 1) }

asker-Consistent : Consistent asker.requests
asker-Consistent = record {
  once = λ id. omega arith;
  given = λ id h. absurd (omega arith);
  keyed = λ id c e. absurd (ground arith);
  room = omega arith;
}

-- A server on the sender's node, and a `dispatch` that leaves the pointer only then.
abbrev neighbour : ActorId
neighbour = record { node_id = local; module_id = 9; intf_id = 0; inst_id = 0xffff }

abbrev send_near : Message → Ret × Option Message
send_near m = (ret_ok, (if m.meta.target.node_id == local then some m else none))

send_near-left :
    (m : Message)
    → m.meta.target ≡ neighbour
    → (left : Message) × (send_near m ≡ (ret_ok, some left)) × (left.meta.reqid ≡ m.meta.reqid)
send_near-left m e =
    let near : (m.meta.target.node_id == local) ≡ true =
      ap (λ (t : ActorId). t.node_id == local) e in
    (m, rw near refl, refl)

request_to-Answered_example :
    (m : Message) × (b : Actor (List ℕ)) × (request_to send_near neighbour (letter 2) 5 70 asker
      ≡ some (ret_ok, m, b))
    × Asked neighbour 5 70 asker m b
    × ((self : ActorId) (res : Message) (c : Actor (List ℕ))
        → c.requests ≡ b.requests
        → Answered 5 70 asker m res self c)
request_to-Answered_example =
    request_to-Answered send_near neighbour (letter 2) 5 70 asker send_near-left (λ e. ground arith)
      refl asker-Consistent (omega arith)

abbrev known : ℕ → ℕ → Option Node
known n k = if k == n then some (record { id = n; invalid = false }) else none

route-bounced_example :
    (route 8 (λ k. false) (known 3) true (letter 2) ≡ to_node 3 (bounce (letter 2)))
    × (route 3 (λ k. true) (known 8) true (stamp 8 3 (bounce (letter 2))) ≡ drop_node 8)
unfolding is_local is_kind
route-bounced_example =
    route-bounced 3 8 (λ k. true) (λ k. false) (known 8) (known 3) true true (letter 2)
      (record { id = 8; invalid = false }) (omega arith) (omega arith) refl refl refl refl refl refl

abbrev last_one : List Message → Option Message
last_one [] = none
last_one (m ∷ ms) = some m

gather_all-replies_example :
    gather_all last_one client
      (letter 1)
      (letter 2 ∷ letter 3 ∷ [])
      (record { is_done = false; size = 2; messages = [] })
    ≡ some (
      result last_one client (letter 1) (letter 2 ∷ letter 3 ∷ []),
      record { is_done = true; size = 2; messages = letter 2 ∷ letter 3 ∷ [] },
    )
gather_all-replies_example =
    gather_all-replies last_one client (letter 1) (letter 2) (letter 3 ∷ [])

abbrev two_nodes : List (ℕ × ℕ)
two_nodes = (8, 1) ∷ (9, 2) ∷ []

scatter_to-Opened_example :
    (id : ℕ) × (ms : List Message) × (b : Actor (List ℕ)) × (scatter_to
        (λ m. ret_ok)
        9
        0
        2
        two_nodes
        (letter 1 ∷ letter 2 ∷ [])
        5
        70
        asker
      ≡ some (ret_ok, ms, b))
    × Scattered id (set_intf_id 5 asker.id) 9 0 two_nodes (letter 1 ∷ letter 2 ∷ []) ms
    × (find_req_ctx id asker.requests ≡ none)
    × Opened id 2 70 asker b
scatter_to-Opened_example =
    scatter_to-Opened (λ m. ret_ok) 9 0 2 two_nodes (letter 1 ∷ letter 2 ∷ []) 5 70 asker
      (λ m. refl) refl refl (omega arith) asker-Consistent (omega arith)
