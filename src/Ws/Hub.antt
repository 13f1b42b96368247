-- ===== src/Ws/Hub.antt =====
-- backend/src/ws/hub.js: the hub, a function from an event and the state to the effects in their order
-- and the next state. A socket's `state` object is a row of `conns`, which its closures and `_nodes`
-- share; it stands there until the socket's 'close' event. `_nodes` is a list of entries with distinct
-- nodes, `_pending` a list of rows with distinct keys, and `timers` holds the armed timers of
-- `_sendAwait`. A request (the call of one promise) is numbered by `next`.
pub mod Steps
pub mod Presence
pub mod Promises
pub mod Settled
pub mod Authentic
pub mod Proved
pub mod Silence
pub mod Sweeps
pub mod Status
pub mod Loses
pub mod Overtaken
use nodeva.Prelude.{
  ℕ, suc, Bool, true, false, not, ◌==◌, ◌&&◌, ltb, Option, none, some, List, [], ◌∷◌, ◌++◌, first,
  where_rows, update_rows, if◌then◌else◌,
}
use nodeva.Prelude.Int.{ℤ}
use nodeva.Ws.Protocol.{
  ReplyMessage, Message, malformed, heartbeat, job_result, other, hello, challenge_response,
  peer_addr, replies, Ask, Outcome, node_offline, node_timeout, Frame, bad_envelope,
  unexpected_type, expected_hello, unknown_node, no_challenge, bad_signature, challenge, welcome,
  asks, peer_info, auth_timed_out, protocol_violation, auth_failed, heartbeat_timed_out, superseded,
  HubEffect, sends, closes, looks_up, presence, beats, finishes_job, settles, unhandled_rejection,
  heartbeat_miss_limit, outcome_of,
}

-- `_pendingNodeId`, `_pendingPublicKey` and `_nonce`, which are set together.
pub record Challenge : Type 0 where
  pub claimed : ℕ
  pub key : ℕ
  pub nonce : ℕ

-- The `state` of a socket; `auth_timer` says that the timer is armed.
pub record Conn : Type 0 where
  pub socket : ℕ
  pub node_id : Option ℕ
  pub public_key : ℕ
  pub challenge : Option Challenge
  pub missed_beats : ℕ
  pub auth_timer : Bool
  pub remote_address : Option ℕ
  pub peer_port : Option ℤ

pub record NodeEntry : Type 0 where
  pub node : ℕ
  pub socket : ℕ

pub record Pending : Type 0 where
  pub key : ℕ
  pub request : ℕ
  pub ask : Ask

pub record Timer : Type 0 where
  pub request : ℕ
  pub key : ℕ

pub record Hub : Type 0 where
  pub conns : List Conn
  pub nodes : List NodeEntry
  pub pending : List Pending
  pub timers : List Timer
  pub next : ℕ

-- `lookupPublicKey`: a key, null, or an exception.
pub data KeyAnswer : Type 0 where
  found : ℕ → KeyAnswer
  unknown failed : KeyAnswer

pub data Event : Type 0 where
  connects : ℕ → Option ℕ → Event
  says : ℕ → Message → Event
  identifies : ℕ → ℕ → KeyAnswer → ℕ → Event
  auth_expires : ℕ → Event
  disconnects : ℕ → Event
  sweeps : Event
  requests : ℕ → ℕ → Ask → Event
  expires : ℕ → Event

abbrev pub Outgoing : Type 0
Outgoing = List HubEffect × Hub

abbrev pub conn_of : ℕ → List Conn → Option Conn
conn_of s = first (λ c. c.socket == s)

abbrev pub socket_of : ℕ → List NodeEntry → Option NodeEntry
socket_of n = first (λ e. e.node == n)

abbrev pub write_conn : (Conn → Conn) → ℕ → Hub → Hub
write_conn f s h = record h { conns = update_rows (λ c. c.socket == s) f h.conns }

-- `this._nodes.set`
unfoldable pub put_entry : NodeEntry → List NodeEntry → List NodeEntry
put_entry e [] = e ∷ []
put_entry e (x ∷ xs) = if x.node == e.node then e ∷ xs else x ∷ put_entry e xs

-- `this._nodes.delete`
abbrev pub drop_entry : ℕ → List NodeEntry → List NodeEntry
drop_entry n = where_rows (λ e. not (e.node == n))

-- `this._pending.delete`, and `set` on top of it.
abbrev pub drop_pending : ℕ → List Pending → List Pending
drop_pending k = where_rows (λ p. not (p.key == k))

-- `clearTimeout`
abbrev pub drop_timer : ℕ → List Timer → List Timer
drop_timer r = where_rows (λ t. not (t.request == r))

-- The state that `handleConnection` makes.
abbrev pub fresh_conn : ℕ → Option ℕ → Conn
fresh_conn s address = record {
  socket = s;
  node_id = none;
  public_key = 0;
  challenge = none;
  missed_beats = 0;
  auth_timer = true;
  remote_address = address;
  peer_port = none;
}

-- A verified answer to the challenge: the connection takes the node over.
unfoldable pub admit : Conn → Challenge → Hub → Outgoing
unfolding put_entry
admit c ch h =
    let prior : List HubEffect = elim (socket_of ch.claimed h.nodes) [
      | none ↦ []
      | some e ↦ closes e.socket superseded ∷ []
    ] in
    (
      prior ++ presence ch.claimed true ∷ sends c.socket (welcome ch.claimed) ∷ [],
      record (write_conn
          (λ x. record x { auth_timer = false; node_id = some ch.claimed; public_key = ch.key })
          c.socket h) {
            nodes = put_entry (record { node = ch.claimed; socket = c.socket }) h.nodes;
          },
    )

-- CHALLENGE_RESPONSE, by the challenge that was issued; `crypto.verify` is a parameter.
unfoldable pub respond : (ℕ → ℕ → ℕ → Bool) → Conn → Option Challenge → Option ℕ → Hub → Outgoing
unfolding admit
respond verify c none signature h =
    (sends c.socket no_challenge ∷ closes c.socket protocol_violation ∷ [], h)
respond verify c (some ch) none h = (unhandled_rejection ∷ [], h)
respond verify c (some ch) (some signature) h =
    if verify ch.key ch.nonce signature
    then admit c ch h
    else (sends c.socket bad_signature ∷ closes c.socket auth_failed ∷ [], h)

-- `_handlePreAuth`, up to its await.
unfoldable pub pre_auth : (ℕ → ℕ → ℕ → Bool) → Conn → Message → Hub → Outgoing
unfolding respond
pre_auth verify c malformed h = (sends c.socket bad_envelope ∷ [], h)
pre_auth verify c (hello n) h = (looks_up c.socket n ∷ [], h)
pre_auth verify c (challenge_response signature) h = respond verify c c.challenge signature h
pre_auth verify c _ h = (sends c.socket expected_hello ∷ closes c.socket protocol_violation ∷ [], h)

-- HELLO after its await.
unfoldable pub identify : Conn → ℕ → KeyAnswer → ℕ → Hub → Outgoing
identify c n failed nonce h = (unhandled_rejection ∷ [], h)
identify c n unknown nonce h = (sends c.socket unknown_node ∷ closes c.socket auth_failed ∷ [], h)
identify c n (found key) nonce h = (
  sends c.socket (challenge nonce) ∷ [],
  write_conn (λ x. record x { challenge = some (record { claimed = n; key = key; nonce = nonce }) })
      c.socket h,
)

-- `_resolvePending`, by the key and then by the row.
abbrev pub reply_key : ReplyMessage → Option ℕ
reply_key r = elim r.reservation_id [ none ↦ r.job_id | some k ↦ some k ]

unfoldable pub resolve : ReplyMessage → Option Pending → Hub → Outgoing
resolve r none h = ([], h)
resolve r (some p) h = (
  settles p.request (outcome_of p.ask r.kind) ∷ [],
  record h { pending = drop_pending p.key h.pending; timers = drop_timer p.request h.timers },
)

abbrev pub pending_of : Option ℕ → List Pending → Option Pending
pending_of none ps = none
pending_of (some k) ps = first (λ p. p.key == k) ps

-- `_onMessage` of an authenticated socket.
unfoldable pub on_authed : Conn → ℕ → Message → Hub → Outgoing
unfolding resolve
on_authed c n malformed h = (sends c.socket bad_envelope ∷ [], h)
on_authed c n heartbeat h =
    (beats n ∷ [], write_conn (λ x. record x { missed_beats = 0 }) c.socket h)
on_authed c n (peer_addr port) h = ([], write_conn (λ x. record x { peer_port = port }) c.socket h)
on_authed c n (replies r) h = resolve r (pending_of (reply_key r) h.pending) h
on_authed c n job_result h = (finishes_job n ∷ [], h)
on_authed c n _ h = (sends c.socket unexpected_type ∷ [], h)

-- `_onMessage`
unfoldable pub on_message : (ℕ → ℕ → ℕ → Bool) → Conn → Message → Hub → Outgoing
unfolding pre_auth on_authed
on_message verify c m h = elim c.node_id [
  | none ↦ pre_auth verify c m h
  | some n ↦ on_authed c n m h
]

-- `_onClose`; the rest of the socket's state is garbage afterwards.
unfoldable pub on_close : Conn → Hub → Outgoing
on_close c h =
    let h' = record h { conns = where_rows (λ x. not (x.socket == c.socket)) h.conns } in
    elim c.node_id [
      | none ↦ ([], h')
      | some n ↦ elim (socket_of n h.nodes) [
        | none ↦ ([], h')
        | some e ↦
            if e.socket == c.socket
            then (presence n false ∷ [], record h' { nodes = drop_entry n h.nodes })
            else ([], h')
      ]
    ]

-- The timer of `handleConnection`.
unfoldable pub auth_expire : Conn → Hub → Outgoing
auth_expire c h =
    if c.auth_timer
    then (
      closes c.socket auth_timed_out ∷ [],
      write_conn (λ x. record x { auth_timer = false }) c.socket h,
    )
    else ([], h)
