-- ===== src/Ws/Hub/Steps.antt =====
-- The rest of backend/src/ws/hub.js: the heartbeat sweep, the requests to a node and their timers,
-- the introduction of peers; and the hub as a machine.
use nodeva.Prelude.{
  ℕ, suc, ◌+◌, ◌≡◌, inl, inr, Option-cases, Bool, true, false, ◌==◌, ltb, Option, none, some, List,
  [], ◌∷◌, ◌++◌, first, update_rows, if◌then◌else◌,
}
use nodeva.Ws.Protocol.{
  Ask, node_offline, node_timeout, asks, peer_info, heartbeat_timed_out, HubEffect, sends, closes,
  settles, heartbeat_miss_limit,
}
use nodeva.Ws.Hub.{
  Conn, NodeEntry, Timer, Hub, Event, connects, says, identifies, auth_expires, disconnects, sweeps,
  requests, expires, Outgoing, conn_of, socket_of, drop_pending, drop_timer, fresh_conn, identify,
  on_message, on_close, auth_expire,
}

-- One turn of the loop of `sweepStale`.
unfoldable pub sweep_one : NodeEntry → List Conn → List HubEffect × List Conn
sweep_one e cs = elim (conn_of e.socket cs) [
  | none ↦ ([], cs)
  | some c ↦ (
    if ltb heartbeat_miss_limit (c.missed_beats + 1)
        then closes e.socket heartbeat_timed_out ∷ []
        else [],
    update_rows (λ x. x.socket == e.socket) (λ x. record x { missed_beats = x.missed_beats + 1 })
        cs,
  )
]

unfoldable pub sweep_entries : List NodeEntry → List Conn → List HubEffect × List Conn
unfolding sweep_one
sweep_entries [] cs = ([], cs)
sweep_entries (e ∷ es) cs =
    let one = sweep_one e cs in let rest = sweep_entries es one.1 in (one.0 ++ rest.0, rest.1)

-- `sweepStale`
unfoldable pub sweep_stale : Hub → Outgoing
unfolding sweep_entries
sweep_stale h = let swept = sweep_entries h.nodes h.conns in (swept.0, record h { conns = swept.1 })

-- `_sendAwait` on the socket of an entry, or the rejection of an offline node: the five requests.
unfoldable pub request : Option NodeEntry → ℕ → Ask → Hub → Outgoing
request none key ask h = (settles h.next node_offline ∷ [], record h { next = suc h.next })
request (some e) key ask h = (
  sends e.socket (asks ask key) ∷ [],
  record h {
    pending = record { key = key; request = h.next; ask = ask } ∷ drop_pending key h.pending;
    timers = record { request = h.next; key = key } ∷ h.timers;
    next = suc h.next;
  },
)

-- The timer of `_sendAwait`: it deletes the row that its key has now.
unfoldable pub expire : Option Timer → Hub → Outgoing
expire none h = ([], h)
expire (some t) h = (
  settles t.request node_timeout ∷ [],
  record h { pending = drop_pending t.key h.pending; timers = drop_timer t.request h.timers },
)

-- A socket without a state has no listeners.
abbrev pub at_conn : ℕ → (Conn → Outgoing) → Hub → Outgoing
at_conn s f h = elim (conn_of s h.conns) [ none ↦ ([], h) | some c ↦ f c ]

pub at_conn_cases {κ} :
    (s : ℕ) (f : Conn → Outgoing) (h : Hub) (P : Outgoing → Type κ)
    → P ([], h)
    → ((c : Conn) → conn_of s h.conns ≡ some c → P (f c))
    → P (at_conn s f h)
at_conn_cases s f h P p q = elim (Option-cases (conn_of s h.conns)) [
  | inl e ↦ rw (at_conn, e) p
  | inr (c, e) ↦ rw (at_conn, e) (q c e)
]

unfoldable pub step : (ℕ → ℕ → ℕ → Bool) → Event → Hub → Outgoing
unfolding on_message identify auth_expire on_close sweep_stale request expire
step verify (connects s address) h = elim (conn_of s h.conns) [
  | none ↦ ([], record h { conns = fresh_conn s address ∷ h.conns })
  | some c ↦ ([], h)
]
step verify (says s m) h = at_conn s (λ c. on_message verify c m h) h
step verify (identifies s n answer nonce) h = at_conn s (λ c. identify c n answer nonce h) h
step verify (auth_expires s) h = at_conn s (λ c. auth_expire c h) h
step verify (disconnects s) h = at_conn s (λ c. on_close c h) h
step verify sweeps h = sweep_stale h
step verify (requests n key ask) h = request (socket_of n h.nodes) key ask h
step verify (expires r) h = expire (first (λ t. t.request == r) h.timers) h

unfoldable pub run : (ℕ → ℕ → ℕ → Bool) → List Event → Hub → Outgoing
unfolding step
run verify [] h = ([], h)
run verify (e ∷ es) h =
    let one = step verify e h in let rest = run verify es one.1 in (one.0 ++ rest.0, rest.1)

-- The state that the constructor makes.
abbrev pub empty_hub : Hub
empty_hub = record { conns = []; nodes = []; pending = []; timers = []; next = 0 }

-- `introducePeers`, with whether each side was told.
abbrev pub introduce_one : Conn → Conn → ℕ → List HubEffect × Bool
introduce_one told about n = elim about.peer_port [
  | none ↦ ([], false)
  | some port ↦
      (sends told.socket (peer_info n about.public_key about.remote_address port) ∷ [], true)
]

abbrev pub online_conn : ℕ → Hub → Option Conn
online_conn n h = elim (socket_of n h.nodes) [ none ↦ none | some e ↦ conn_of e.socket h.conns ]

unfoldable pub introduce_peers : ℕ → ℕ → Hub → List HubEffect × Bool × Bool
introduce_peers a b h = elim (online_conn a h) [
  | none ↦ ([], false, false)
  | some x ↦ elim (online_conn b h) [
    | none ↦ ([], false, false)
    | some y ↦
        let to_a = introduce_one x y b in
        let to_b = introduce_one y x a in (to_a.0 ++ to_b.0, to_a.1, to_b.1)
  ]
]
