-- ===== src/Ws/ClusterRelay.antt =====
-- backend/src/ws/clusterRelay.js with clustering on: one instance's relay around its hub. Instances,
-- nodes and correlation ids are numbers; a channel of Redis is the constructor of a message. `settles`,
-- on a correlation id, is the end of the promise of a relayed call, whose timer runs as long as its row
-- stands in `pending`. The hub's own nodes and the end of its calls are arguments.
pub mod Owners
pub mod Calls
pub mod Outcomes
use nodeva.Prelude.{
  ℕ, Bool, true, false, not, ◌==◌, ◌||◌, ◌++◌, Option, none, some, List, [], ◌∷◌, first, where_rows,
  any, is_some, if◌then◌else◌, get_or,
}
use nodeva.Ws.Protocol.{
  Ask, ReplyKind, release_ack, Outcome, node_offline, node_timeout, node_refused, answered,
}

-- `remoteOwner`
pub record Owner : Type 0 where
  pub node : ℕ
  pub instance_id : ℕ

pub record Relay : Type 0 where
  pub self : ℕ
  pub snapshot_id : ℕ
  pub owners : List Owner
  pub pending : List ℕ

-- `errorType` of a reply; a plain `Error` is `none`. A reason that is undefined is 0.
pub data ErrorType : Type 0 where
  offline_error refused_error timeout_error : ErrorType

pub data WireReply : Type 0 where
  result_of : ReplyKind → WireReply
  error_of : Option ErrorType → ℕ → WireReply

pub data BusMessage : Type 0 where
  presence_of : ℕ → ℕ → Bool → BusMessage
  snapshot_request : ℕ → ℕ → BusMessage
  snapshot_reply : ℕ → ℕ → List ℕ → BusMessage
  relayed_request : ℕ → ℕ → ℕ → Ask → BusMessage
  relayed_reply : ℕ → WireReply → BusMessage

-- A call of the hub's own method is for a caller of this instance (`none`) or for a correlation id.
pub data RelayEffect : Type 0 where
  publishes : BusMessage → RelayEffect
  calls_hub : Option ℕ → ℕ → Ask → RelayEffect
  settles : ℕ → Option Outcome → RelayEffect
  rejects_offline : RelayEffect

abbrev pub Sent : Type 0
Sent = List RelayEffect × Relay

abbrev pub owner_of : ℕ → List Owner → Option Owner
owner_of n = first (λ o. o.node == n)

abbrev pub drop_owner : ℕ → List Owner → List Owner
drop_owner n = where_rows (λ o. not (o.node == n))

-- `remoteOwner.set`
abbrev pub set_owner : ℕ → ℕ → List Owner → List Owner
set_owner n i os = record { node = n; instance_id = i } ∷ drop_owner n os

-- The channel of presence.
unfoldable pub on_presence_message : ℕ → ℕ → Bool → Relay → Relay
on_presence_message i n online r =
    if i == r.self
    then r
    else if online
    then record r { owners = set_owner n i r.owners }
    else elim (owner_of n r.owners) [
      | none ↦ r
      | some o ↦ if o.instance_id == i then record r { owners = drop_owner n r.owners } else r
    ]

unfoldable pub set_owners : ℕ → List ℕ → List Owner → List Owner
set_owners i [] os = os
set_owners i (n ∷ ns) os = set_owners i ns (set_owner n i os)

-- The error's class across Redis: `handleRelayedRequest` names it, the reply's handler makes it again.
unfoldable pub wire_of : Outcome → WireReply
wire_of node_offline = error_of (some offline_error) 0
wire_of node_timeout = error_of (some timeout_error) 0
wire_of (node_refused reason) = error_of (some refused_error) reason
wire_of (answered kind) = result_of kind

-- `none` is an error of no class of the hub.
unfoldable pub outcome_of_wire : WireReply → Option Outcome
outcome_of_wire (result_of kind) = some (answered kind)
outcome_of_wire (error_of none reason) = none
outcome_of_wire (error_of (some offline_error) reason) = some node_offline
outcome_of_wire (error_of (some timeout_error) reason) = some node_timeout
outcome_of_wire (error_of (some refused_error) reason) = some (node_refused reason)

abbrev pub waits_for : ℕ → Relay → Bool
waits_for c r = any (λ d. d == c) r.pending

-- `pending.delete`
abbrev pub drop_call : ℕ → Relay → Relay
drop_call c r = record r { pending = where_rows (λ d. not (d == c)) r.pending }

-- `sub.on('message')`, with the nodes of the hub; a request on another instance's channel is not
-- delivered.
unfoldable pub on_bus : List ℕ → BusMessage → Relay → Sent
unfolding on_presence_message set_owners outcome_of_wire
on_bus own (presence_of i n online) r = ([], on_presence_message i n online r)
on_bus own (snapshot_request i id) r =
    (if i == r.self then [] else publishes (snapshot_reply r.self id own) ∷ [], r)
on_bus own (snapshot_reply i id ns) r =
    ([], if id == r.snapshot_id then record r { owners = set_owners i ns r.owners } else r)
on_bus own (relayed_request to c n ask) r =
    (if to == r.self then calls_hub (some c) n ask ∷ [] else [], r)
on_bus own (relayed_reply c w) r =
    if waits_for c r then (settles c (outcome_of_wire w) ∷ [], drop_call c r) else ([], r)

-- `relay`
abbrev pub relay_call : ℕ → ℕ → ℕ → Ask → Relay → Sent
relay_call i c n ask r =
    (publishes (relayed_request i c n ask) ∷ [], record r { pending = c ∷ r.pending })

-- A method of the wrapped hub, with the correlation id that a relay would draw.
unfoldable pub invoke : List ℕ → ℕ → ℕ → Ask → Relay → Sent
invoke own c n ask r =
    if any (λ m. m == n) own then (calls_hub none n ask ∷ [], r) else elim (owner_of n r.owners) [
      | none ↦ (rejects_offline ∷ [], r)
      | some o ↦ relay_call o.instance_id c n ask r
    ]

-- The timer of a relayed call.
unfoldable pub time_out : ℕ → Relay → Sent
time_out c r =
    if waits_for c r then (settles c (some node_timeout) ∷ [], drop_call c r) else ([], r)

-- What happens at an instance: a message, a call, a timer, the end of a relayed call of the hub, and a
-- presence callback of the hub.
pub data RelayEvent : Type 0 where
  delivers : List ℕ → BusMessage → RelayEvent
  invokes : List ℕ → ℕ → ℕ → Ask → RelayEvent
  times_out : ℕ → RelayEvent
  hub_ends : ℕ → Outcome → RelayEvent
  hub_tells : ℕ → Bool → RelayEvent

unfoldable pub relay_step : RelayEvent → Relay → Sent
unfolding on_bus invoke time_out wire_of
relay_step (delivers own m) r = on_bus own m r
relay_step (invokes own c n ask) r = invoke own c n ask r
relay_step (times_out c) r = time_out c r
relay_step (hub_ends c o) r = (publishes (relayed_reply c (wire_of o)) ∷ [], r)
relay_step (hub_tells n online) r = (publishes (presence_of r.self n online) ∷ [], r)

unfoldable pub relay_run : List RelayEvent → Relay → Sent
unfolding relay_step
relay_run [] r = ([], r)
relay_run (e ∷ es) r =
    let one = relay_step e r in let rest = relay_run es one.1 in (one.0 ++ rest.0, rest.1)
