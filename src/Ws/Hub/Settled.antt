-- ===== src/Ws/Hub/Settled.antt =====
-- The law of the promises for every handler of the hub, and for its runs.
use nodeva.Prelude.{
  ℕ, suc, ◌+◌, ◌<◌, ltb, ◌≡◌, refl, inl, inr, arith, Bool, ◌==◌, Option, none, some, List, [], ◌∷◌,
  Bool-cases, Option-cases, ◌∙◌, ap, first, All, eqb_refl, first-All,
}
use nodeva.Ws.Protocol.{
  Message, Ask, ReplyMessage, heartbeat_miss_limit, challenge_response, replies,
}
use nodeva.Ws.Hub.{
  drop_pending, Conn, NodeEntry, Hub, Pending, Timer, Challenge, KeyAnswer, found, unknown, failed,
  Event, connects, says, identifies, auth_expires, disconnects, sweeps, requests, expires, conn_of,
  socket_of, admit, respond, pre_auth, on_authed, on_message, identify, on_close, auth_expire,
  resolve, pending_of, reply_key,
}
use nodeva.Ws.Hub.Steps.{
  sweep_one, sweep_entries, sweep_stale, request, expire, step, run, at_conn_cases, empty_hub,
}
use nodeva.Ws.Hub.Promises.{
  IsArmed, timer_of-below, timer_of, settled, settled-append, waits, made, Armed, Settles,
  Settles-same, ended-Settles, Settles-trans, timer_of-request,
}

admit-Settles : (c : Conn) (ch : Challenge) (h : Hub) → Settles h (admit c ch h)
unfolding admit settled
admit-Settles c ch h = Settles-same h _ refl refl refl (λ r.
    elim (Option-cases (socket_of ch.claimed h.nodes)) [
      | inl e ↦ rw e refl
      | inr (x, e) ↦ rw e refl
    ])

respond-Settles :
    (verify : ℕ → ℕ → ℕ → Bool) (c : Conn) (ch : Option Challenge) (signature : Option ℕ) (h : Hub)
    → Settles h (respond verify c ch signature h)
unfolding respond settled
respond-Settles verify c none signature h = Settles-same h _ refl refl refl (λ r. refl)
respond-Settles verify c (some ch) none h = Settles-same h _ refl refl refl (λ r. refl)
respond-Settles verify c (some ch) (some signature) h =
    elim (Bool-cases (verify ch.key ch.nonce signature)) [
      | inl e ↦ rw (respond, e) (admit-Settles c ch h)
      | inr e ↦ rw (respond, e) (Settles-same h _ refl refl refl (λ r. refl))
    ]

pre_auth-Settles :
    (verify : ℕ → ℕ → ℕ → Bool) (c : Conn) (m : Message) (h : Hub)
    → Settles h (pre_auth verify c m h)
unfolding pre_auth settled
pre_auth-Settles verify c (challenge_response signature) h =
    respond-Settles verify c c.challenge signature h
pre_auth-Settles verify c _ h = Settles-same h _ refl refl refl (λ r. refl)

resolve-Settles :
    (r : ReplyMessage) (o : Option ℕ) (h : Hub) → Settles h (resolve r (pending_of o h.pending) h)
unfolding resolve settled
resolve-Settles r none h = Settles-same h _ refl refl refl (λ r. refl)
resolve-Settles r (some k) h = elim (Option-cases (first (λ p. p.key == k) h.pending)) [
  | inl e ↦ rw (pending_of, e) (Settles-same h _ refl refl refl (λ r. refl))
  | inr (p, e) ↦
      rw (pending_of, e)
        (ended-Settles (record { request = p.request; key = p.key }) h _
          (λ a. first-All (Armed h.timers) (λ p. p.key == k) h.pending a.armed e))
]

on_authed-Settles : (c : Conn) (m : ℕ) (msg : Message) (h : Hub) → Settles h (on_authed c m msg h)
unfolding on_authed settled
on_authed-Settles c m (replies r) h = resolve-Settles r (reply_key r) h
on_authed-Settles c m _ h = Settles-same h _ refl refl refl (λ r. refl)

on_message-Settles :
    (verify : ℕ → ℕ → ℕ → Bool) (c : Conn) (m : Message) (h : Hub)
    → Settles h (on_message verify c m h)
unfolding on_message
on_message-Settles verify c m h = elim (Option-cases c.node_id) [
  | inl e ↦ rw (on_message, e) (pre_auth-Settles verify c m h)
  | inr (i, e) ↦ rw (on_message, e) (on_authed-Settles c i m h)
]

identify-Settles :
    (c : Conn) (i : ℕ) (answer : KeyAnswer) (nonce : ℕ) (h : Hub)
    → Settles h (identify c i answer nonce h)
unfolding identify settled
identify-Settles c i failed nonce h = Settles-same h _ refl refl refl (λ r. refl)
identify-Settles c i unknown nonce h = Settles-same h _ refl refl refl (λ r. refl)
identify-Settles c i (found key) nonce h = Settles-same h _ refl refl refl (λ r. refl)

on_close-Settles : (c : Conn) (h : Hub) → Settles h (on_close c h)
unfolding on_close settled
on_close-Settles c h = elim (Option-cases c.node_id) [
  | inl e ↦ rw (on_close, e) (Settles-same h _ refl refl refl (λ r. refl))
  | inr (i, e) ↦ elim (Option-cases (socket_of i h.nodes)) [
    | inl o ↦ rw (on_close, e, o) (Settles-same h _ refl refl refl (λ r. refl))
    | inr (x, o) ↦ elim (Bool-cases (x.socket == c.socket)) [
      | inl b ↦ rw (on_close, e, o, b) (Settles-same h _ refl refl refl (λ r. refl))
      | inr b ↦ rw (on_close, e, o, b) (Settles-same h _ refl refl refl (λ r. refl))
    ]
  ]
]

auth_expire-Settles : (c : Conn) (h : Hub) → Settles h (auth_expire c h)
unfolding auth_expire settled
auth_expire-Settles c h = elim (Bool-cases c.auth_timer) [
  | inl e ↦ rw (auth_expire, e) (Settles-same h _ refl refl refl (λ r. refl))
  | inr e ↦ rw (auth_expire, e) (Settles-same h _ refl refl refl (λ r. refl))
]

settled-sweep_one : (r : ℕ) (e : NodeEntry) (cs : List Conn) → settled r (sweep_one e cs).0 ≡ 0
unfolding sweep_one settled
settled-sweep_one r e cs = elim (Option-cases (conn_of e.socket cs)) [
  | inl o ↦ rw (sweep_one, o) refl
  | inr (c, o) ↦ elim (Bool-cases (ltb heartbeat_miss_limit (c.missed_beats + 1))) [
    | inl l ↦ rw (sweep_one, o, l) refl
    | inr l ↦ rw (sweep_one, o, l) refl
  ]
]

settled-sweep_entries :
    (r : ℕ) (es : List NodeEntry) (cs : List Conn) → settled r (sweep_entries es cs).0 ≡ 0
unfolding sweep_entries settled
settled-sweep_entries r [] cs = refl
settled-sweep_entries r (e ∷ es) cs =
    settled-append r (sweep_one e cs).0 (sweep_entries es (sweep_one e cs).1).0
    ∙ rw (settled-sweep_one r e cs, settled-sweep_entries r es (sweep_one e cs).1) (omega arith)

Armed-new :
    (t : Timer) (ts : List Timer) (k : ℕ) (ps : List Pending)
    → All (λ x. x.request < t.request) ts
    → All (Armed ts) ps
    → All (Armed (t ∷ ts)) (drop_pending k ps)
Armed-new t ts k [] b a = tt
Armed-new t ts k (p ∷ ps) b a =
    let old = timer_of-below t.request p.request ts b a.0 in
    ground (arith, old, Armed-new t ts k ps b a.1)

below_suc :
    (n : ℕ) (ts : List Timer) → All (λ t. t.request < n) ts → All (λ t. t.request < suc n) ts
below_suc n [] h = tt
below_suc n (t ∷ ts) h = (omega arith, below_suc n ts h.1)

timer_of-above : (n : ℕ) (ts : List Timer) → All (λ t. t.request < n) ts → timer_of n ts ≡ none
timer_of-above n [] h = refl
timer_of-above n (t ∷ ts) h = ground (arith, timer_of-above n ts h.1)

request-Settles :
    (e : Option NodeEntry) (key : ℕ) (ask : Ask) (h : Hub) → Settles h (request e key ask h)
unfolding request settled
request-Settles none key ask h = record {
  kept = λ a. record { armed = a.armed; below = below_suc h.next h.timers a.below };
  law = λ r a. ground arith;
}
request-Settles (some e) key ask h = record {
  kept = λ a. record {
    armed = (rw (eqb_refl h.next), Armed-new _ h.timers key h.pending a.below a.armed);
    below = (omega arith, below_suc h.next h.timers a.below);
  };
  law = λ r a. ground (arith, timer_of-above h.next h.timers a.below);
}

expire-Settles : (r : ℕ) (h : Hub) → Settles h (expire (timer_of r h.timers) h)
unfolding expire settled
expire-Settles r h = elim (Option-cases (timer_of r h.timers)) [
  | inl e ↦ rw (expire, e) (Settles-same h _ refl refl refl (λ r. refl))
  | inr (t, e) ↦
      rw (expire, e)
        (ended-Settles t h _
          (λ a. ap (λ x. timer_of x h.timers) (timer_of-request r h.timers e) ∙ e))
]

step-Settles : (verify : ℕ → ℕ → ℕ → Bool) (e : Event) (h : Hub) → Settles h (step verify e h)
unfolding step settled sweep_stale
step-Settles verify (connects s address) h = elim (Option-cases (conn_of s h.conns)) [
  | inl e ↦ rw (step, e) (Settles-same h _ refl refl refl (λ r. refl))
  | inr (c, e) ↦ rw (step, e) (Settles-same h _ refl refl refl (λ r. refl))
]
step-Settles verify (says s m) h =
    at_conn_cases s _ h (Settles h) (Settles-same h _ refl refl refl (λ r. refl))
      (λ c e. on_message-Settles verify c m h)
step-Settles verify (identifies s i answer nonce) h =
    at_conn_cases s _ h (Settles h) (Settles-same h _ refl refl refl (λ r. refl))
      (λ c e. identify-Settles c i answer nonce h)
step-Settles verify (auth_expires s) h =
    at_conn_cases s _ h (Settles h) (Settles-same h _ refl refl refl (λ r. refl))
      (λ c e. auth_expire-Settles c h)
step-Settles verify (disconnects s) h =
    at_conn_cases s _ h (Settles h) (Settles-same h _ refl refl refl (λ r. refl))
      (λ c e. on_close-Settles c h)
step-Settles verify sweeps h =
    Settles-same h _ refl refl refl (λ r. settled-sweep_entries r h.nodes h.conns)
step-Settles verify (requests i key ask) h = request-Settles _ key ask h
step-Settles verify (expires r) h = expire-Settles r h

run-Settles : (verify : ℕ → ℕ → ℕ → Bool) (es : List Event) (h : Hub) → Settles h (run verify es h)
unfolding run settled
run-Settles verify [] h = Settles-same h _ refl refl refl (λ r. refl)
run-Settles verify (e ∷ es) h =
    let one = step verify e h in
    Settles-trans h one (run verify es one.1) (step-Settles verify e h)
      (run-Settles verify es one.1)

pub run-IsArmed :
    (verify : ℕ → ℕ → ℕ → Bool) (es : List Event) → IsArmed (run verify es empty_hub).1
run-IsArmed verify es = (run-Settles verify es empty_hub).kept (record { armed = tt; below = tt })

-- From the start, every request that was made has been settled exactly once or else still waits with
-- its timer running, never both, and none is settled before it is made.
pub settled-run :
    (verify : ℕ → ℕ → ℕ → Bool) (es : List Event) (r : ℕ)
    → let o = run verify es empty_hub in settled r o.0 + waits r o.1 ≡ made r o.1
settled-run verify es r =
    let law = (run-Settles verify es empty_hub).law r (record { armed = tt; below = tt }) in
    ground arith
