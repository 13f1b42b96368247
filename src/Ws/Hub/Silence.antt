-- ===== src/Ws/Hub/Silence.antt =====
-- Heartbeats: a node that stays silent is closed.
use nodeva.Prelude.{
  eqb_refl, ℕ, ◌≤◌, not, ◌≡◌, ◌≢◌, ◌⊎◌, refl, inl, inr, arith, Bool, true, false, ◌==◌, Option,
  none, some, List, [], ◌∷◌, ◌++◌, Bool-cases, Option-cases, ◌∙◌, ap, sym, eqb→eq, where_rows,
  update_rows, ◌||◌,
}
use nodeva.Ws.Protocol.{
  Message, HubEffect, closes, heartbeat, peer_addr, challenge_response, replies,
}
use nodeva.Ws.Hub.{
  drop_entry, Conn, NodeEntry, Hub, Pending, Outgoing, Challenge, KeyAnswer, found, unknown, failed,
  conn_of, socket_of, admit, respond, pre_auth, on_authed, on_message, identify, on_close,
  auth_expire, resolve, ReplyMessage, write_conn,
}
use nodeva.Ws.Hub.Presence.{socket_of-put_entry, socket_of-drop_entry}

-- Some effect closes a socket.
unfoldable pub is_closed : ℕ → List HubEffect → Bool
is_closed s [] = false
is_closed s (closes q code ∷ es) = (q == s) || is_closed s es
is_closed s (_ ∷ es) = is_closed s es

pub is_closed-append :
    (s : ℕ) (xs ys : List HubEffect) → is_closed s (xs ++ ys) ≡ is_closed s xs || is_closed s ys
unfolding is_closed
is_closed-append s [] ys = refl
is_closed-append s (closes q code ∷ xs) ys = ground (arith, is_closed-append s xs ys)
is_closed-append s (_ ∷ xs) ys = is_closed-append s xs ys

-- The socket has missed some heartbeats, at least.
abbrev pub Missed : ℕ → ℕ → List Conn → Type 0
Missed s m cs = (c : Conn) × (conn_of s cs ≡ some c) × (m ≤ c.missed_beats)

pub Missed-update_rows :
    (s m q : ℕ) (f : Conn → Conn) (cs : List Conn)
    → ((c : Conn) → (f c).socket ≡ c.socket)
    → (s ≡ q → (c : Conn) → c.missed_beats ≤ (f c).missed_beats)
    → Missed s m cs
    → Missed s m (update_rows (λ c. c.socket == q) f cs)
Missed-update_rows s m q f [] id mono (c, e, l) = cc
Missed-update_rows s m q f (x ∷ cs) id mono (c, e, l) = elim (Bool-cases (x.socket == s)) [
  | inl t ↦
      let same : x ≡ c = ground arith in
      elim (Bool-cases (x.socket == q)) [
        | inl u ↦
            let grows = mono (sym (eqb→eq x.socket s t) ∙ eqb→eq x.socket q u) x in
            let was : m ≤ x.missed_beats = rw same l in rw u (f x, rw (id x, t) refl, omega arith)
        | inr u ↦ rw u (x, rw t refl, rw same l)
      ]
  | inr t ↦
      let rest = Missed-update_rows s m q f cs id mono (c, ground arith, l) in
      elim (Bool-cases (x.socket == q)) [
        | inl u ↦ rw u (rest.0, rw (id x, t) rest.1, rest.2)
        | inr u ↦ rw u (rest.0, rw t rest.1, rest.2)
      ]
]

-- A node's entry holds the socket.
abbrev pub Holds : ℕ → ℕ → List NodeEntry → Type 0
Holds s n es = (e : NodeEntry) × (socket_of n es ≡ some e) × (e.socket ≡ s)

-- The socket serves the node and has missed some heartbeats, at least.
pub record Serves (s n m : ℕ) (h : Hub) : Type 0 where
  pub holds : Holds s n h.nodes
  pub missed : Missed s m h.conns

-- Closed by some effects, or still serving after them.
abbrev pub Lasts : ℕ → ℕ → ℕ → Outgoing → Type 0
Lasts s n m o = (is_closed s o.0 ≡ true) ⊎ Serves s n m o.1

write-Serves :
    (s n m q : ℕ) (f : Conn → Conn) (h : Hub)
    → ((c : Conn) → (f c).socket ≡ c.socket)
    → (s ≡ q → (c : Conn) → c.missed_beats ≤ (f c).missed_beats)
    → Serves s n m h
    → Serves s n m (write_conn f q h)
write-Serves s n m q f h id mono v = record {
  holds = v.holds;
  missed = Missed-update_rows s m q f h.conns id mono v.missed;
}

admit-Lasts :
    (s n m : ℕ) (c : Conn) (ch : Challenge) (h : Hub) → Serves s n m h → Lasts s n m (admit c ch h)
unfolding admit is_closed
admit-Lasts s n m c ch h v =
    let (e, o, same) = v.holds in
    elim (Bool-cases (ch.claimed == n)) [
      | inl t ↦
          let claimed = ap (λ k. socket_of k h.nodes) (eqb→eq ch.claimed n t) ∙ o in
          inl (rw (claimed, is_closed, same, eqb_refl s) refl)
      | inr t ↦ inr (record {
        holds = (e, socket_of-put_entry n _ h.nodes ∙ rw t o, same);
        missed =
            Missed-update_rows s m c.socket _ h.conns (λ x. refl) (λ q x. omega arith) v.missed;
      })
    ]

respond-Lasts :
    (s n m : ℕ) (verify : ℕ → ℕ → ℕ → Bool) (c : Conn) (ch : Option Challenge)
    (signature : Option ℕ) (h : Hub)
    → Serves s n m h
    → Lasts s n m (respond verify c ch signature h)
unfolding respond
respond-Lasts s n m verify c none signature h v = inr v
respond-Lasts s n m verify c (some ch) none h v = inr v
respond-Lasts s n m verify c (some ch) (some signature) h v =
    elim (Bool-cases (verify ch.key ch.nonce signature)) [
      | inl e ↦ rw (respond, e) (admit-Lasts s n m c ch h v)
      | inr e ↦ rw (respond, e) (inr v)
    ]

pre_auth-Lasts :
    (s n m : ℕ) (verify : ℕ → ℕ → ℕ → Bool) (c : Conn) (msg : Message) (h : Hub)
    → Serves s n m h
    → Lasts s n m (pre_auth verify c msg h)
unfolding pre_auth
pre_auth-Lasts s n m verify c (challenge_response signature) h v =
    respond-Lasts s n m verify c c.challenge signature h v
pre_auth-Lasts s n m verify c _ h v = inr v

resolve-Lasts :
    (s n m : ℕ) (r : ReplyMessage) (p : Option Pending) (h : Hub)
    → Serves s n m h
    → Lasts s n m (resolve r p h)
unfolding resolve
resolve-Lasts s n m r none h v = inr v
resolve-Lasts s n m r (some p) h v = inr (record { holds = v.holds; missed = v.missed })

abbrev pub is_beat : Message → Bool
is_beat heartbeat = true
is_beat _ = false

on_authed-Lasts :
    (s n m : ℕ) (c : Conn) (i : ℕ) (msg : Message) (h : Hub)
    → (s ≡ c.socket → is_beat msg ≡ false)
    → Serves s n m h
    → Lasts s n m (on_authed c i msg h)
unfolding on_authed
on_authed-Lasts s n m c i heartbeat h q v =
    inr (
      write-Serves s n m c.socket _ h (λ x. refl) (λ e x. let w : true ≡ false = q e in absurd cc)
        v)
on_authed-Lasts s n m c i (peer_addr port) h q v =
    inr (write-Serves s n m c.socket _ h (λ x. refl) (λ e x. omega arith) v)
on_authed-Lasts s n m c i (replies r) h q v = resolve-Lasts s n m r _ h v
on_authed-Lasts s n m c i _ h q v = inr v

pub on_message-Lasts :
    (s n m : ℕ) (verify : ℕ → ℕ → ℕ → Bool) (c : Conn) (msg : Message) (h : Hub)
    → (s ≡ c.socket → is_beat msg ≡ false)
    → Serves s n m h
    → Lasts s n m (on_message verify c msg h)
unfolding on_message
on_message-Lasts s n m verify c msg h q v = elim (Option-cases c.node_id) [
  | inl e ↦ rw (on_message, e) (pre_auth-Lasts s n m verify c msg h v)
  | inr (i, e) ↦ rw (on_message, e) (on_authed-Lasts s n m c i msg h q v)
]

pub identify-Lasts :
    (s n m : ℕ) (c : Conn) (i : ℕ) (answer : KeyAnswer) (nonce : ℕ) (h : Hub)
    → Serves s n m h
    → Lasts s n m (identify c i answer nonce h)
unfolding identify
identify-Lasts s n m c i failed nonce h v = inr v
identify-Lasts s n m c i unknown nonce h v = inr v
identify-Lasts s n m c i (found key) nonce h v =
    inr (write-Serves s n m c.socket _ h (λ x. refl) (λ e x. omega arith) v)

conn_of-where_rows :
    (s q : ℕ) (cs : List Conn)
    → s ≢ q
    → conn_of s (where_rows (λ x. not (x.socket == q)) cs) ≡ conn_of s cs
conn_of-where_rows s q [] ne = refl
conn_of-where_rows s q (x ∷ cs) ne = ground (arith, conn_of-where_rows s q cs ne)

-- An entry is dropped for its own socket only.
drop_entry-Holds :
    (s n i : ℕ) (c : Conn) (h : Hub) {x : NodeEntry}
    → socket_of i h.nodes ≡ some x
    → (x.socket == c.socket) ≡ true
    → s ≢ c.socket
    → Holds s n h.nodes
    → Holds s n (drop_entry i h.nodes)
drop_entry-Holds s n i c h {x} o b ne (e, at, same) = elim (Bool-cases (i == n)) [
  | inl t ↦
      let entries : some x ≡ some e = sym o ∙ ap (λ k. socket_of k h.nodes) (eqb→eq i n t) ∙ at in
      let sockets = eqb→eq x.socket c.socket b in absurd (ne cc)
  | inr t ↦ (e, socket_of-drop_entry n i h.nodes ∙ rw t at, same)
]

pub on_close-Lasts :
    (s n m : ℕ) (c : Conn) (h : Hub) → s ≢ c.socket → Serves s n m h → Lasts s n m (on_close c h)
unfolding on_close
on_close-Lasts s n m c h ne v =
    let rest : Missed s m (where_rows (λ x. not (x.socket == c.socket)) h.conns) =
      (v.missed.0, conn_of-where_rows s c.socket h.conns ne ∙ v.missed.1, v.missed.2) in
    elim (Option-cases c.node_id) [
      | inl e ↦ rw (on_close, e) (inr (record { holds = v.holds; missed = rest }))
      | inr (i, e) ↦ elim (Option-cases (socket_of i h.nodes)) [
        | inl o ↦ rw (on_close, e, o) (inr (record { holds = v.holds; missed = rest }))
        | inr (x, o) ↦ elim (Bool-cases (x.socket == c.socket)) [
          | inl b ↦
              rw (on_close, e, o, b)
                (inr (record { holds = drop_entry-Holds s n i c h o b ne v.holds; missed = rest }))
          | inr b ↦ rw (on_close, e, o, b) (inr (record { holds = v.holds; missed = rest }))
        ]
      ]
    ]

pub auth_expire-Lasts :
    (s n m : ℕ) (c : Conn) (h : Hub) → Serves s n m h → Lasts s n m (auth_expire c h)
unfolding auth_expire
auth_expire-Lasts s n m c h v = elim (Bool-cases c.auth_timer) [
  | inl e ↦
      rw (auth_expire, e) (inr (write-Serves s n m c.socket _ h (λ x. refl) (λ e x. omega arith) v))
  | inr e ↦ rw (auth_expire, e) (inr v)
]
