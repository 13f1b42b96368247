-- ===== src/Tests/Sockets.antt =====
-- A worker that connects, proves its key, takes a commit, and falls silent.
use nodeva.Ws.Hub.Overtaken.{is_answered-run}
use nodeva.Ws.Hub.Loses.{is_answered}
use nodeva.Prelude.{
  ◌++◌, false, ℕ, ◌+◌, ◌≡◌, refl, arith, Bool, true, false, ◌==◌, none, some, List, [], ◌∷◌,
}
use nodeva.Store.{Node}
use nodeva.Ws.Protocol.{
  ReplyMessage, committed, hello, challenge_response, heartbeat, replies, reserve_commit,
}
use nodeva.Ws.Hub.{
  NodeEntry, Hub, Event, found, connects, says, identifies, disconnects, sweeps, requests, expires,
}
use nodeva.Ws.Hub.Steps.{run, empty_hub}
use nodeva.Ws.Hub.Presence.{is_online}
use nodeva.Ws.Hub.Promises.{settled, waits, made}
use nodeva.Ws.Hub.Settled.{settled-run}
use nodeva.Ws.Hub.Authentic.{Proved}
use nodeva.Ws.Hub.Proved.{Occurs, run-Proved}
use nodeva.Ws.Hub.Silence.{is_closed, Serves}
use nodeva.Ws.Hub.Sweeps.{is_closed-run}
use nodeva.Ws.Hub.Status.{node_of, follow, says_online, status-run}
use nodeva.Api.Nodes.{is_draining}
use nodeva.Tests.World.{offline_node}

abbrev verify : ℕ → ℕ → ℕ → Bool
verify key nonce signature = signature == key + nonce

-- The worker of node 1 on socket 4.
abbrev comes : List Event
comes =
    connects 4 none
    ∷ says 4 (hello 1)
    ∷ identifies 4 1 (found 50) 9
    ∷ says 4 (challenge_response (some 59))
    ∷ []

abbrev ack : ReplyMessage
ack = record { kind = committed; reservation_id = some 5; job_id = none }

abbrev commits : List Event
commits =
    connects 4 none
    ∷ says 4 (hello 1)
    ∷ identifies 4 1 (found 50) 9
    ∷ says 4 (challenge_response (some 59))
    ∷ requests 1 5 reserve_commit
    ∷ says 4 (replies ack)
    ∷ expires 0
    ∷ says 4 (replies ack)
    ∷ disconnects 4
    ∷ requests 1 5 reserve_commit
    ∷ []

settled-run_example :
    settled 0 (run verify commits empty_hub).0 + waits 0 (run verify commits empty_hub).1
    ≡ made 0 (run verify commits empty_hub).1
settled-run_example = settled-run verify commits 0

abbrev at_four : NodeEntry
at_four = record { node = 1; socket = 4 }

run-Proved_example : (at_four.node ≡ 1) × Proved (Occurs comes) verify at_four
unfolding run
run-Proved_example = run-Proved verify comes 1 refl

-- The hub that `comes` leads to.
abbrev listed : Hub
listed = record {
  conns =
      record {
        socket = 4;
        node_id = some 1;
        public_key = 50;
        challenge = some (record { claimed = 1; key = 50; nonce = 9 });
        missed_beats = 0;
        auth_timer = false;
        remote_address = none;
        peer_port = none;
      }
      ∷ [];
  nodes = at_four ∷ [];
  pending = [];
  timers = [];
  next = 0;
}

comes_lem : (run verify comes empty_hub).1 ≡ listed
unfolding run
comes_lem = refl

listed-Serves : Serves 4 1 0 listed
listed-Serves = record { holds = (at_four, refl, refl); missed = (_, refl, omega arith) }

abbrev silence : List Event
silence = sweeps ∷ sweeps ∷ says 6 heartbeat ∷ sweeps ∷ sweeps ∷ []

is_closed-run_example : is_closed 4 (run verify silence listed).0 ≡ true
is_closed-run_example =
    is_closed-run verify silence 4 1 0 listed listed-Serves (omega arith) refl (omega arith)

status-run_example :
    (y : Node) × (node_of 1 (follow (run verify comes empty_hub).0 (offline_node ∷ [])) ≡ some y)
    × (is_draining y.status ≡ false)
    × (says_online y.status ≡ is_online 1 (run verify comes empty_hub).1)
status-run_example = status-run verify comes empty_hub 1 (offline_node ∷ []) refl refl refl

abbrev acks : List Event
acks = says 4 (replies ack) ∷ says 4 (replies ack) ∷ expires 0 ∷ []

is_answered-run_example :
    let h = (run verify comes empty_hub).1 in
    let first_part = requests 1 5 reserve_commit ∷ says 4 heartbeat ∷ [] in
    is_answered 0 (run verify (first_part ++ requests 1 5 reserve_commit ∷ acks) h).0
    ≡ is_answered 0 (run verify first_part h).0
unfolding run
is_answered-run_example =
    is_answered-run verify comes (says 4 heartbeat ∷ []) acks 1 5 reserve_commit reserve_commit refl
      refl
