-- ===== src/Module/Tests.antt =====
-- src/module.cpp at concrete inputs.
use elastic_actor.Prelude.{ℕ, ◌+◌, ◌≡◌, refl, Option, some, [], List}
use elastic_actor.ActorId.{ActorId}
use elastic_actor.Message.{Message, Metadata}
use elastic_actor.Actor.{Actor}
use elastic_actor.Actor.ReqCtx.{Gather}
use elastic_actor.Module.{Module, infant, select_or_create}
use elastic_actor.Module.Instances.{select_or_create-again}

abbrev no_actors : Module (List ℕ)
no_actors = record { id = 9; node_id = 3; instances = []; actors = []; next = 100 }

-- The two messages for instance 5 go to two actors, at 100 and at 101.
select_or_create-again_example :
    ((select_or_create 0 [] 5 (select_or_create 0 [] 5 no_actors).1).0 ≡ 101)
    × ((select_or_create 0 [] 5 no_actors).0 ≡ 100)
select_or_create-again_example = select_or_create-again 0 [] 5 no_actors refl

abbrev client : ActorId
client = record { node_id = 3; module_id = 4; intf_id = 2; inst_id = 6 }

abbrev server : ActorId
server = record { node_id = 3; module_id = 9; intf_id = 0; inst_id = 0xffff }

abbrev ask : Message
ask = record {
  meta = record { type = 1; data_type = 3; size = 8; sender = client; target = server; reqid = 7 };
  payload = 11;
}

abbrev blank : Metadata
blank = record { type = 0; data_type = 3; size = 8; sender = client; target = server; reqid = 0 }

abbrev double :
    ℕ → Message → Option Gather → Actor (List ℕ) → Option (Actor (List ℕ) × Option Message)
double intf msg group a =
    some (a, some (record { meta = blank; payload = msg.payload + msg.payload }))

abbrev serving : Actor (List ℕ)
serving = infant 0 [] server
