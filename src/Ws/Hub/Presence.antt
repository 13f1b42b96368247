-- ===== src/Ws/Hub/Presence.antt =====
-- Who is online, as the callbacks of the hub tell it.
use nodeva.Prelude.{
  ℕ, ltb, ◌+◌, ◌≡◌, refl, inl, inr, arith, Bool, true, false, ◌==◌, Option, none, some, List, [],
  ◌∷◌, ◌++◌, is_some, if◌then◌else◌, Bool-cases, Option-cases, ◌∙◌, ap,
}
use nodeva.Ws.Protocol.{
  Message, Ask, heartbeat_miss_limit, challenge_response, replies, ReplyMessage, HubEffect,
  presence,
}
use nodeva.Ws.Hub.{
  conn_of, Conn, NodeEntry, Hub, Pending, Timer, connects, says, identifies, auth_expires,
  disconnects, sweeps, requests, expires, KeyAnswer, found, unknown, failed, Event, Outgoing,
  socket_of, put_entry, drop_entry, Challenge, admit, respond, pre_auth, on_authed, on_message,
  identify, on_close, auth_expire, resolve,
}
use nodeva.Ws.Hub.Steps.{
  sweep_one, sweep_entries, sweep_stale, request, expire, step, run, at_conn_cases,
}

abbrev pub is_online : ℕ → Hub → Bool
is_online n h = is_some (socket_of n h.nodes)

-- What a listener of `onPresence` believes of a node after some effects.
unfoldable pub told : ℕ → List HubEffect → Bool → Bool
told n [] b = b
told n (presence m online ∷ es) b = told n es (if m == n then online else b)
told n (_ ∷ es) b = told n es b

told-append :
    (n : ℕ) (xs ys : List HubEffect) (b : Bool) → told n (xs ++ ys) b ≡ told n ys (told n xs b)
unfolding told
told-append n [] ys b = refl
told-append n (presence m online ∷ xs) ys b = told-append n xs ys (if m == n then online else b)
told-append n (_ ∷ xs) ys b = told-append n xs ys b

pub socket_of-put_entry :
    (n : ℕ) (e : NodeEntry) (xs : List NodeEntry)
    → socket_of n (put_entry e xs) ≡ (if e.node == n then some e else socket_of n xs)
unfolding put_entry
socket_of-put_entry n e [] = refl
socket_of-put_entry n e (x ∷ xs) = ground (arith, socket_of-put_entry n e xs)

pub socket_of-drop_entry :
    (n m : ℕ) (xs : List NodeEntry)
    → socket_of n (drop_entry m xs) ≡ (if m == n then none else socket_of n xs)
socket_of-drop_entry n m [] = ground arith
socket_of-drop_entry n m (x ∷ xs) = ground (arith, socket_of-drop_entry n m xs)

-- The listeners believe what `_nodes` says, when they did so before.
abbrev Tells : Hub → Outgoing → Type 0
Tells h o = (n : ℕ) → told n o.0 (is_online n h) ≡ is_online n o.1

told_put :
    (n : ℕ) (e : NodeEntry) (xs : List NodeEntry)
    → (if e.node == n then true else is_some (socket_of n xs))
      ≡ is_some (socket_of n (put_entry e xs))
told_put n e xs = rw (socket_of-put_entry n e xs) (ground arith)

admit-Tells : (c : Conn) (ch : Challenge) (h : Hub) → Tells h (admit c ch h)
unfolding admit told
admit-Tells c ch h n = elim (Option-cases (socket_of ch.claimed h.nodes)) [
  | inl e ↦ rw e (told_put n _ h.nodes)
  | inr (x, e) ↦ rw e (told_put n _ h.nodes)
]

respond-Tells :
    (verify : ℕ → ℕ → ℕ → Bool) (c : Conn) (ch : Option Challenge) (signature : Option ℕ) (h : Hub)
    → Tells h (respond verify c ch signature h)
unfolding respond told
respond-Tells verify c none signature h n = refl
respond-Tells verify c (some ch) none h n = refl
respond-Tells verify c (some ch) (some signature) h n =
    elim (Bool-cases (verify ch.key ch.nonce signature)) [
      | inl e ↦ rw e (admit-Tells c ch h n)
      | inr e ↦ rw e
    ]

pre_auth-Tells :
    (verify : ℕ → ℕ → ℕ → Bool) (c : Conn) (m : Message) (h : Hub) → Tells h (pre_auth verify c m h)
unfolding pre_auth told
pre_auth-Tells verify c (challenge_response signature) h n =
    respond-Tells verify c c.challenge signature h n
pre_auth-Tells verify c _ h n = refl

resolve-Tells : (r : ReplyMessage) (p : Option Pending) (h : Hub) → Tells h (resolve r p h)
unfolding resolve told
resolve-Tells r none h n = refl
resolve-Tells r (some p) h n = refl

on_authed-Tells : (c : Conn) (m : ℕ) (msg : Message) (h : Hub) → Tells h (on_authed c m msg h)
unfolding on_authed told
on_authed-Tells c m (replies r) h n = resolve-Tells r _ h n
on_authed-Tells c m _ h n = refl

on_message-Tells :
    (verify : ℕ → ℕ → ℕ → Bool) (c : Conn) (m : Message) (h : Hub)
    → Tells h (on_message verify c m h)
unfolding on_message
on_message-Tells verify c m h n = elim (Option-cases c.node_id) [
  | inl e ↦ rw e (pre_auth-Tells verify c m h n)
  | inr (i, e) ↦ rw e (on_authed-Tells c i m h n)
]

identify-Tells :
    (c : Conn) (i : ℕ) (answer : KeyAnswer) (nonce : ℕ) (h : Hub)
    → Tells h (identify c i answer nonce h)
unfolding identify told
identify-Tells c i failed nonce h n = refl
identify-Tells c i unknown nonce h n = refl
identify-Tells c i (found key) nonce h n = refl

told_drop :
    (n m : ℕ) (xs : List NodeEntry)
    → (if m == n then false else is_some (socket_of n xs)) ≡ is_some (socket_of n (drop_entry m xs))
told_drop n m xs = rw (socket_of-drop_entry n m xs) (ground arith)

on_close-Tells : (c : Conn) (h : Hub) → Tells h (on_close c h)
unfolding on_close told
on_close-Tells c h n = elim (Option-cases c.node_id) [
  | inl e ↦ rw (on_close, e)
  | inr (i, e) ↦ elim (Option-cases (socket_of i h.nodes)) [
    | inl o ↦ rw (on_close, e, o)
    | inr (x, o) ↦ elim (Bool-cases (x.socket == c.socket)) [
      | inl b ↦ rw (on_close, e, o, b) (told_drop n i h.nodes)
      | inr b ↦ rw (on_close, e, o, b)
    ]
  ]
]

auth_expire-Tells : (c : Conn) (h : Hub) → Tells h (auth_expire c h)
unfolding auth_expire told
auth_expire-Tells c h n = elim (Bool-cases c.auth_timer) [ inl e ↦ rw e | inr e ↦ rw e ]

told-sweep_one :
    (n : ℕ) (e : NodeEntry) (cs : List Conn) (b : Bool) → told n (sweep_one e cs).0 b ≡ b
unfolding sweep_one told
told-sweep_one n e cs b = elim (Option-cases (conn_of e.socket cs)) [
  | inl o ↦ rw (sweep_one, o)
  | inr (c, o) ↦ elim (Bool-cases (ltb heartbeat_miss_limit (c.missed_beats + 1))) [
    | inl l ↦ rw (sweep_one, o, l)
    | inr l ↦ rw (sweep_one, o, l)
  ]
]

told-sweep_entries :
    (n : ℕ) (es : List NodeEntry) (cs : List Conn) (b : Bool) → told n (sweep_entries es cs).0 b ≡ b
unfolding sweep_entries told
told-sweep_entries n [] cs b = refl
told-sweep_entries n (e ∷ es) cs b =
    told-append n (sweep_one e cs).0 (sweep_entries es (sweep_one e cs).1).0 b
    ∙ told-sweep_entries n es (sweep_one e cs).1 _
    ∙ told-sweep_one n e cs b

request-Tells :
    (e : Option NodeEntry) (key : ℕ) (ask : Ask) (h : Hub) → Tells h (request e key ask h)
unfolding request told
request-Tells none key ask h n = refl
request-Tells (some e) key ask h n = refl

expire-Tells : (t : Option Timer) (h : Hub) → Tells h (expire t h)
unfolding expire told
expire-Tells none h n = refl
expire-Tells (some t) h n = refl

step-Tells : (verify : ℕ → ℕ → ℕ → Bool) (e : Event) (h : Hub) → Tells h (step verify e h)
unfolding step told sweep_stale
step-Tells verify (connects s address) h n = elim (Option-cases (conn_of s h.conns)) [
  | inl e ↦ rw (step, e)
  | inr (c, e) ↦ rw (step, e)
]
step-Tells verify (says s m) h n =
    at_conn_cases s _ h (λ o. told n o.0 (is_online n h) ≡ is_online n o.1) refl
      (λ c e. on_message-Tells verify c m h n)
step-Tells verify (identifies s i answer nonce) h n =
    at_conn_cases s _ h (λ o. told n o.0 (is_online n h) ≡ is_online n o.1) refl
      (λ c e. identify-Tells c i answer nonce h n)
step-Tells verify (auth_expires s) h n =
    at_conn_cases s _ h (λ o. told n o.0 (is_online n h) ≡ is_online n o.1) refl
      (λ c e. auth_expire-Tells c h n)
step-Tells verify (disconnects s) h n =
    at_conn_cases s _ h (λ o. told n o.0 (is_online n h) ≡ is_online n o.1) refl
      (λ c e. on_close-Tells c h n)
step-Tells verify sweeps h n = told-sweep_entries n h.nodes h.conns (is_online n h)
step-Tells verify (requests i key ask) h n = request-Tells _ key ask h n
step-Tells verify (expires r) h n = expire-Tells _ h n

-- Whatever happens on the sockets, the callbacks for presence, replayed in their order, say of every
-- node exactly whether the hub has a connection for it.
pub told-run :
    (verify : ℕ → ℕ → ℕ → Bool) (es : List Event) (h : Hub) (n : ℕ)
    → told n (run verify es h).0 (is_online n h) ≡ is_online n (run verify es h).1
unfolding run told
told-run verify [] h n = refl
told-run verify (e ∷ es) h n =
    let one = step verify e h in
    told-append n one.0 (run verify es one.1).0 (is_online n h)
    ∙ ap (told n (run verify es one.1).0) (step-Tells verify e h n)
    ∙ told-run verify es one.1 n
