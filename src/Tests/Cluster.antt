-- ===== src/Tests/Cluster.antt =====
-- Three instances, and a node that moves between them.
use nodeva.Prelude.{ℕ, ◌+◌, ◌≤◌, ◌≡◌, refl, arith, true, false, some, List, [], ◌∷◌}
use nodeva.Ws.Protocol.{reserve_commit, committed}
use nodeva.Ws.ClusterRelay.{
  Owner, Relay, presence_of, snapshot_reply, relayed_reply, result_of, owner_of, RelayEvent,
  delivers, invokes, times_out, relay_run,
}
use nodeva.Ws.ClusterRelay.Owners.{owner_of-relay_run}
use nodeva.Ws.ClusterRelay.Calls.{ended, waiting, drawn, ended-relay_run}

abbrev instance_of : ℕ → List Owner → Relay
instance_of i os = record { self = i; snapshot_id = 90; owners = os; pending = [] }

abbrev by_two : Owner
by_two = record { node = 7; instance_id = 2 }

-- Node 7 has moved from 3 to 2, and 3 notices late.
abbrev late : List RelayEvent
late =
    delivers [] (presence_of 3 7 false)
    ∷ delivers [] (snapshot_reply 3 90 (8 ∷ []))
    ∷ invokes [] 50 7 reserve_commit
    ∷ []

owner_of-relay_run_example :
    owner_of 7 (relay_run (delivers [] (presence_of 2 7 true) ∷ late) (instance_of 1 [])).1.owners
    ≡ some by_two
owner_of-relay_run_example =
    owner_of-relay_run late [] 7 2 (instance_of 1 []) (λ e. omega arith) refl

-- Another call, and news of the node, come before the reply.
abbrev meanwhile : List RelayEvent
meanwhile = invokes [] 51 7 reserve_commit ∷ delivers [] (presence_of 2 7 false) ∷ times_out 51 ∷ []

abbrev too_late : List RelayEvent
too_late = times_out 50 ∷ delivers [] (relayed_reply 50 (result_of committed)) ∷ []

abbrev twice : List RelayEvent
twice =
    invokes [] 50 7 reserve_commit
    ∷ times_out 50
    ∷ delivers [] (relayed_reply 50 (result_of committed))
    ∷ []

ended-relay_run_example :
    let o = relay_run twice (instance_of 1 (by_two ∷ [])) in
    ended 50 o.0 + waiting 50 o.1 ≤ waiting 50 (instance_of 1 (by_two ∷ [])) + drawn 50 twice
ended-relay_run_example = ended-relay_run twice 50 (instance_of 1 (by_two ∷ []))
