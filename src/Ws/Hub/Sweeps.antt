-- ===== src/Ws/Hub/Sweeps.antt =====
-- The heartbeat sweep closes the sockets that stay silent.
use nodeva.Prelude.{
  eqb_refl, eqb_refl, ℕ, suc, ◌+◌, ◌≤◌, ◌<◌, ltb, not, ◌≡◌, ◌⊎◌, refl, inl, inr, arith, Bool, true,
  false, ◌==◌, Option, none, some, List, [], ◌∷◌, Bool-cases, Option-cases, ◌∙◌, ap, sym, eqb→eq,
  update_rows, ◌&&◌, all,
}
use nodeva.Ws.Protocol.{Message, Ask, heartbeat_miss_limit}
use nodeva.Ws.Hub.{
  fresh_conn, Conn, NodeEntry, Hub, Timer, Event, connects, says, identifies, auth_expires,
  disconnects, sweeps, requests, expires, conn_of,
}
use nodeva.Ws.Hub.Steps.{
  sweep_one, sweep_entries, sweep_stale, request, expire, step, run, at_conn_cases,
}
use nodeva.Ws.Hub.Authentic.{conn_of-socket}
use nodeva.Ws.Hub.Silence.{
  is_closed, is_closed-append, Missed, Missed-update_rows, Holds, Serves, Lasts, is_beat,
  on_message-Lasts, identify-Lasts, on_close-Lasts, auth_expire-Lasts,
}

sweep_one-Missed :
    (s m : ℕ) (e : NodeEntry) (cs : List Conn) → Missed s m cs → Missed s m (sweep_one e cs).1
unfolding sweep_one
sweep_one-Missed s m e cs v = elim (Option-cases (conn_of e.socket cs)) [
  | inl o ↦ rw (sweep_one, o) v
  | inr (c, o) ↦
      rw (sweep_one, o) (Missed-update_rows s m e.socket _ cs (λ x. refl) (λ q x. omega arith) v)
]

sweep_entries-Missed :
    (s m : ℕ) (es : List NodeEntry) (cs : List Conn)
    → Missed s m cs
    → Missed s m (sweep_entries es cs).1
unfolding sweep_entries
sweep_entries-Missed s m [] cs v = v
sweep_entries-Missed s m (e ∷ es) cs v =
    sweep_entries-Missed s m es (sweep_one e cs).1 (sweep_one-Missed s m e cs v)

Missed-bump :
    (s m : ℕ) (cs : List Conn)
    → Missed s m cs
    → Missed s
        (suc m)
        (update_rows (λ x. x.socket == s) (λ x. record x { missed_beats = x.missed_beats + 1 }) cs)
Missed-bump s m [] (c, e, l) = cc
Missed-bump s m (x ∷ cs) (c, e, l) = elim (Bool-cases (x.socket == s)) [
  | inl t ↦
      let same : x ≡ c = ground arith in
      let was : m ≤ x.missed_beats = rw same l in
      rw t (record x { missed_beats = x.missed_beats + 1 }, rw t refl, omega arith)
  | inr t ↦ let rest = Missed-bump s m cs (c, ground arith, l) in rw t (rest.0, rw t rest.1, rest.2)
]

-- The turn of the node's own entry.
sweep_own :
    (s m : ℕ) (e : NodeEntry) (cs : List Conn)
    → e.socket ≡ s
    → Missed s m cs
    → Missed s (suc m) (sweep_one e cs).1
      × (heartbeat_miss_limit ≤ m → is_closed s (sweep_one e cs).0 ≡ true)
unfolding sweep_one is_closed
sweep_own s m e cs same (c, o, l) =
    let at : conn_of e.socket cs ≡ some c = ap (λ k. conn_of k cs) same ∙ o in
    rw (sweep_one, at, same)
      (
        Missed-bump s m cs (c, o, l),
        λ k.
            let over : ltb heartbeat_miss_limit (c.missed_beats + 1) ≡ true = ground arith in
            rw (over, is_closed, eqb_refl s) refl,
      )

sweep_counts :
    (s n m : ℕ) (es : List NodeEntry) (cs : List Conn)
    → Holds s n es
    → Missed s m cs
    → Missed s (suc m) (sweep_entries es cs).1
      × (heartbeat_miss_limit ≤ m → is_closed s (sweep_entries es cs).0 ≡ true)
unfolding sweep_entries
sweep_counts s n m [] cs (e, o, same) v = cc
sweep_counts s n m (x ∷ es) cs (e, o, same) v = elim (Bool-cases (x.node == n)) [
  | inl t ↦
      let is : x ≡ e = ground arith in
      let own = sweep_own s m x cs (ap (λ y. y.socket) is ∙ same) v in
      (
        sweep_entries-Missed s (suc m) es (sweep_one x cs).1 own.0,
        λ l. is_closed-append s (sweep_one x cs).0 _ ∙ rw (own.1 l) refl,
      )
  | inr t ↦
      let rest =
        sweep_counts s n m es (sweep_one x cs).1 (e, ground arith, same)
          (sweep_one-Missed s m x cs v) in
      (rest.0, λ l. is_closed-append s (sweep_one x cs).0 _ ∙ rw (rest.1 l) (ground arith))
]

-- An event that neither brings a heartbeat on the socket nor ends it.
abbrev pub is_quiet : ℕ → Event → Bool
is_quiet s (says q msg) = not ((q == s) && is_beat msg)
is_quiet s (disconnects q) = not (q == s)
is_quiet s _ = true

request-Lasts :
    (s n m : ℕ) (e : Option NodeEntry) (key : ℕ) (ask : Ask) (h : Hub)
    → Serves s n m h
    → Lasts s n m (request e key ask h)
unfolding request
request-Lasts s n m none key ask h v = inr (record { holds = v.holds; missed = v.missed })
request-Lasts s n m (some e) key ask h v = inr (record { holds = v.holds; missed = v.missed })

expire-Lasts : (s n m : ℕ) (t : Option Timer) (h : Hub) → Serves s n m h → Lasts s n m (expire t h)
unfolding expire
expire-Lasts s n m none h v = inr v
expire-Lasts s n m (some t) h v = inr (record { holds = v.holds; missed = v.missed })

connects-Missed :
    (s m q : ℕ) (address : Option ℕ) (cs : List Conn)
    → conn_of q cs ≡ none
    → Missed s m cs
    → Missed s m (fresh_conn q address ∷ cs)
connects-Missed s m q address cs e (c, o, l) = elim (Bool-cases (q == s)) [
  | inl t ↦ let bad : none ≡ some c = sym e ∙ ap (λ k. conn_of k cs) (eqb→eq q s t) ∙ o in cc
  | inr t ↦ (c, rw t o, l)
]

beat_quiet :
    (s q : ℕ) (msg : Message) → q ≡ s → is_quiet s (says q msg) ≡ true → is_beat msg ≡ false
beat_quiet s q msg same w = elim (Bool-cases (is_beat msg)) [
  | inl b ↦
      let w' : not ((q == s) && is_beat msg) ≡ true = w in
      let at : (q == s) ≡ true = ground arith in let bad : false ≡ true = rw (at, b) at w' in cc
  | inr b ↦ b
]

step-Lasts :
    (s n m : ℕ) (verify : ℕ → ℕ → ℕ → Bool) (e : Event) (h : Hub)
    → is_quiet s e ≡ true
    → Serves s n m h
    → Lasts s n m (step verify e h)
unfolding step sweep_stale
step-Lasts s n m verify (connects q address) h w v = elim (Option-cases (conn_of q h.conns)) [
  | inl e ↦
      rw (step, e)
        (inr
          (record { holds = v.holds; missed = connects-Missed s m q address h.conns e v.missed }))
  | inr (c, e) ↦ rw (step, e) (inr v)
]
step-Lasts s n m verify (says q msg) h w v = at_conn_cases q _ h (Lasts s n m) (inr v) (λ c e.
    on_message-Lasts s n m verify c msg h
      (λ same.
        let mine : q ≡ s = sym (conn_of-socket q h.conns e) ∙ sym same in beat_quiet s q msg mine w)
      v)
step-Lasts s n m verify (identifies q i answer nonce) h w v =
    at_conn_cases q _ h (Lasts s n m) (inr v) (λ c e. identify-Lasts s n m c i answer nonce h v)
step-Lasts s n m verify (auth_expires q) h w v =
    at_conn_cases q _ h (Lasts s n m) (inr v) (λ c e. auth_expire-Lasts s n m c h v)
step-Lasts s n m verify (disconnects q) h w v = at_conn_cases q _ h (Lasts s n m) (inr v) (λ c e.
    on_close-Lasts s n m c h
      (λ same.
        let mine : q ≡ s = sym (conn_of-socket q h.conns e) ∙ sym same in
        let w' : not (q == s) ≡ true = w in ground arith)
      v)
step-Lasts s n m verify sweeps h w v =
    inr (record { holds = v.holds; missed = sweep_entries-Missed s m h.nodes h.conns v.missed })
step-Lasts s n m verify (requests i key ask) h w v = request-Lasts s n m _ key ask h v
step-Lasts s n m verify (expires r) h w v = expire-Lasts s n m _ h v

-- A counter of the sweeps.
abbrev after : Event → ℕ → ℕ
after sweeps k = suc k
after _ k = k

abbrev pub sweeps_of : List Event → ℕ
sweeps_of [] = 0
sweeps_of (e ∷ es) = after e (sweeps_of es)

after-add : (e : Event) (k m : ℕ) → after e k + m ≡ k + after e m
after-add sweeps k m = omega arith
after-add _ k m = refl

step_sweeps :
    (s n m : ℕ) (verify : ℕ → ℕ → ℕ → Bool) (h : Hub)
    → Serves s n m h
    → Serves s n (suc m) (step verify sweeps h).1
      × (heartbeat_miss_limit ≤ m → is_closed s (step verify sweeps h).0 ≡ true)
unfolding step sweep_stale
step_sweeps s n m verify h v =
    let swept = sweep_counts s n m h.nodes h.conns v.holds v.missed in
    (record { holds = v.holds; missed = swept.0 }, swept.1)

-- A quiet event, counted: the socket is closed, or has missed one more heartbeat after a sweep.
step_counts :
    (s n m : ℕ) (verify : ℕ → ℕ → ℕ → Bool) (e : Event) (h : Hub)
    → is_quiet s e ≡ true
    → m ≤ heartbeat_miss_limit
    → Serves s n m h
    → (is_closed s (step verify e h).0 ≡ true)
      ⊎ ((after e m ≤ heartbeat_miss_limit) × Serves s n (after e m) (step verify e h).1)
step_counts s n m verify sweeps h w b v =
    let swept = step_sweeps s n m verify h v in
    elim (Bool-cases (ltb m heartbeat_miss_limit)) [
      | inl t ↦ inr (ground arith, swept.0)
      | inr t ↦ inl (swept.1 (ground arith))
    ]
step_counts s n m verify e h w b v = elim (step-Lasts s n m verify e h w v) [
  | inl c ↦ inl c
  | inr v' ↦ inr (b, v')
]

-- A socket that serves a node, brings no heartbeat and does not disconnect is closed by the hub once
-- more sweeps have run than the limit on missed heartbeats allows, whatever else happens meanwhile.
pub is_closed-run :
    (verify : ℕ → ℕ → ℕ → Bool) (es : List Event) (s n m : ℕ) (h : Hub)
    → Serves s n m h
    → m ≤ heartbeat_miss_limit
    → all (is_quiet s) es ≡ true
    → heartbeat_miss_limit < sweeps_of es + m
    → is_closed s (run verify es h).0 ≡ true
unfolding run
is_closed-run verify [] s n m h v b q l = absurd (omega arith)
is_closed-run verify (e ∷ es) s n m h v b q l =
    let one = step verify e h in
    let now : is_quiet s e ≡ true = ground arith in
    let later : all (is_quiet s) es ≡ true = ground arith in
    is_closed-append s one.0 (run verify es one.1).0 ∙ elim (step_counts s n m verify e h now b v) [
      | inl c ↦ rw c refl
      | inr (b', v') ↦
          let rest =
            is_closed-run verify es s n (after e m) one.1 v' b' later
              (rw⁻¹ (after-add e (sweeps_of es) m) l) in
          rw rest (ground arith)
    ]
