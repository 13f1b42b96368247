-- ===== src/Ws/Hub/Loses.antt =====
-- A request without a row in `_pending` is never answered.

use nodeva.Prelude.{
  ◌++◌, false, true, ◌||◌, ◌&&◌, ◌≢◌, All-where_rows, not, ◌<◌, ℕ, ◌+◌, ◌<◌, ltb, ◌≡◌, refl, inl,
  inr, arith, Bool, ◌==◌, Option, none, some, List, [], ◌∷◌, Bool-cases, Option-cases, ◌∙◌, first,
  All, first-All,
}
use nodeva.Ws.Protocol.{
  settles, HubEffect, Outcome, node_timeout, Message, Ask, ReplyMessage, heartbeat_miss_limit,
  challenge_response, replies,
}
use nodeva.Ws.Hub.{
  Outgoing, Conn, NodeEntry, Hub, Pending, Timer, Challenge, KeyAnswer, found, unknown, failed,
  Event, connects, says, identifies, auth_expires, disconnects, sweeps, requests, expires, conn_of,
  socket_of, admit, respond, pre_auth, on_authed, on_message, identify, on_close, auth_expire,
  resolve, pending_of, reply_key,
}
use nodeva.Ws.Hub.Steps.{
  sweep_one, sweep_entries, sweep_stale, request, expire, step, run, at_conn_cases,
}

-- A request is answered: it ends otherwise than with its timer.
abbrev pub is_answer : Outcome → Bool
is_answer node_timeout = false
is_answer _ = true

unfoldable pub is_answered : ℕ → List HubEffect → Bool
is_answered q [] = false
is_answered q (settles p o ∷ es) = ((p == q) && is_answer o) || is_answered q es
is_answered q (_ ∷ es) = is_answered q es

pub is_answered-append :
    (q : ℕ) (xs ys : List HubEffect)
    → is_answered q (xs ++ ys) ≡ is_answered q xs || is_answered q ys
unfolding is_answered
is_answered-append q [] ys = refl
is_answered-append q (settles p o ∷ xs) ys = ground (arith, is_answered-append q xs ys)
is_answered-append q (_ ∷ xs) ys = is_answered-append q xs ys

module _ (q : ℕ) where
  abbrev pub Gone : Pending → Type 0
  Gone p = p.request ≢ q

  -- The request was made, and every row is such that `P`.
  pub record Lost (P : Pending → Type 0) (h : Hub) : Type 0 where
    pub gone : All P h.pending
    pub made : q < h.next

  -- What holds of the rows for other requests goes on to hold of all, and without a row there is no
  -- answer.
  pub record Loses (h : Hub) (o : Outgoing) : Type 1 where
    pub kept : (P : Pending → Type 0) → ((p : Pending) → Gone p → P p) → Lost P h → Lost P o.1
    pub silent : Lost Gone h → is_answered q o.0 ≡ false

  Loses-same :
      (h : Hub) (o : Outgoing)
      → o.1.pending ≡ h.pending
      → o.1.next ≡ h.next
      → is_answered q o.0 ≡ false
      → Loses h o
  Loses-same h o p n s = record {
    kept = λ P new l. record { gone = rw p l.gone; made = rw n l.made };
    silent = λ l. s;
  }

  Loses-trans : (h : Hub) (o p : Outgoing) → Loses h o → Loses o.1 p → Loses h (o.0 ++ p.0, p.1)
  Loses-trans h o p x y = record {
    kept = λ P new l. y.kept P new (x.kept P new l);
    silent = λ l.
        is_answered-append q o.0 p.0 ∙ rw (x.silent l, y.silent (x.kept Gone (λ p g. g) l)) refl;
  }

  admit-Loses : (c : Conn) (ch : Challenge) (h : Hub) → Loses h (admit c ch h)
  unfolding admit is_answered
  admit-Loses c ch h = elim (Option-cases (socket_of ch.claimed h.nodes)) [
    | inl e ↦ rw (admit, e) (Loses-same h _ refl refl refl)
    | inr (x, e) ↦ rw (admit, e) (Loses-same h _ refl refl refl)
  ]

  respond-Loses :
      (verify : ℕ → ℕ → ℕ → Bool) (c : Conn) (ch : Option Challenge) (signature : Option ℕ)
      (h : Hub)
      → Loses h (respond verify c ch signature h)
  unfolding respond is_answered
  respond-Loses verify c none signature h = Loses-same h _ refl refl refl
  respond-Loses verify c (some ch) none h = Loses-same h _ refl refl refl
  respond-Loses verify c (some ch) (some signature) h =
      elim (Bool-cases (verify ch.key ch.nonce signature)) [
        | inl e ↦ rw (respond, e) (admit-Loses c ch h)
        | inr e ↦ rw (respond, e) (Loses-same h _ refl refl refl)
      ]

  pre_auth-Loses :
      (verify : ℕ → ℕ → ℕ → Bool) (c : Conn) (m : Message) (h : Hub)
      → Loses h (pre_auth verify c m h)
  unfolding pre_auth is_answered
  pre_auth-Loses verify c (challenge_response signature) h =
      respond-Loses verify c c.challenge signature h
  pre_auth-Loses verify c _ h = Loses-same h _ refl refl refl

  resolve-Loses :
      (r : ReplyMessage) (o : Option ℕ) (h : Hub) → Loses h (resolve r (pending_of o h.pending) h)
  unfolding resolve is_answered
  resolve-Loses r none h = Loses-same h _ refl refl refl
  resolve-Loses r (some k) h = elim (Option-cases (first (λ p. p.key == k) h.pending)) [
    | inl e ↦ rw (pending_of, e) (Loses-same h _ refl refl refl)
    | inr (p, e) ↦
        rw (pending_of, e)
          (record {
            kept = λ P new l. record {
              gone = All-where_rows P (λ x. not (x.key == p.key)) h.pending l.gone;
              made = l.made;
            };
            silent = λ l.
                let other = first-All Gone (λ x. x.key == k) h.pending l.gone e in
                let differ : (p.request == q) ≡ false = ground arith in
                rw (is_answered, differ) refl;
          })
  ]

  on_authed-Loses : (c : Conn) (m : ℕ) (msg : Message) (h : Hub) → Loses h (on_authed c m msg h)
  unfolding on_authed is_answered
  on_authed-Loses c m (replies r) h = resolve-Loses r (reply_key r) h
  on_authed-Loses c m _ h = Loses-same h _ refl refl refl

  on_message-Loses :
      (verify : ℕ → ℕ → ℕ → Bool) (c : Conn) (m : Message) (h : Hub)
      → Loses h (on_message verify c m h)
  unfolding on_message
  on_message-Loses verify c m h = elim (Option-cases c.node_id) [
    | inl e ↦ rw (on_message, e) (pre_auth-Loses verify c m h)
    | inr (i, e) ↦ rw (on_message, e) (on_authed-Loses c i m h)
  ]

  identify-Loses :
      (c : Conn) (i : ℕ) (answer : KeyAnswer) (nonce : ℕ) (h : Hub)
      → Loses h (identify c i answer nonce h)
  unfolding identify is_answered
  identify-Loses c i failed nonce h = Loses-same h _ refl refl refl
  identify-Loses c i unknown nonce h = Loses-same h _ refl refl refl
  identify-Loses c i (found key) nonce h = Loses-same h _ refl refl refl

  on_close-Loses : (c : Conn) (h : Hub) → Loses h (on_close c h)
  unfolding on_close is_answered
  on_close-Loses c h = elim (Option-cases c.node_id) [
    | inl e ↦ rw (on_close, e) (Loses-same h _ refl refl refl)
    | inr (i, e) ↦ elim (Option-cases (socket_of i h.nodes)) [
      | inl o ↦ rw (on_close, e, o) (Loses-same h _ refl refl refl)
      | inr (x, o) ↦ elim (Bool-cases (x.socket == c.socket)) [
        | inl b ↦ rw (on_close, e, o, b) (Loses-same h _ refl refl refl)
        | inr b ↦ rw (on_close, e, o, b) (Loses-same h _ refl refl refl)
      ]
    ]
  ]

  auth_expire-Loses : (c : Conn) (h : Hub) → Loses h (auth_expire c h)
  unfolding auth_expire is_answered
  auth_expire-Loses c h = elim (Bool-cases c.auth_timer) [
    | inl e ↦ rw (auth_expire, e) (Loses-same h _ refl refl refl)
    | inr e ↦ rw (auth_expire, e) (Loses-same h _ refl refl refl)
  ]

  is_answered-sweep_one :
      (e : NodeEntry) (cs : List Conn) → is_answered q (sweep_one e cs).0 ≡ false
  unfolding sweep_one is_answered
  is_answered-sweep_one e cs = elim (Option-cases (conn_of e.socket cs)) [
    | inl o ↦ rw (sweep_one, o) refl
    | inr (c, o) ↦ elim (Bool-cases (ltb heartbeat_miss_limit (c.missed_beats + 1))) [
      | inl l ↦ rw (sweep_one, o, l) refl
      | inr l ↦ rw (sweep_one, o, l) refl
    ]
  ]

  is_answered-sweep_entries :
      (es : List NodeEntry) (cs : List Conn) → is_answered q (sweep_entries es cs).0 ≡ false
  unfolding sweep_entries is_answered
  is_answered-sweep_entries [] cs = refl
  is_answered-sweep_entries (e ∷ es) cs =
      is_answered-append q (sweep_one e cs).0 (sweep_entries es (sweep_one e cs).1).0
      ∙ rw (is_answered-sweep_one e cs, is_answered-sweep_entries es (sweep_one e cs).1) refl

  request-Loses :
      (e : Option NodeEntry) (key : ℕ) (ask : Ask) (h : Hub) → Loses h (request e key ask h)
  unfolding request is_answered
  request-Loses none key ask h = record {
    kept = λ P new l. let below = l.made in record { gone = l.gone; made = omega arith };
    silent = λ l.
        let below = l.made in
        let differ : (h.next == q) ≡ false = ground arith in rw (is_answered, differ) refl;
  }
  request-Loses (some e) key ask h = record {
    kept = λ P new l.
        let below = l.made in
        record {
          gone = (
            new _ (λ x. omega arith),
            All-where_rows P (λ x. not (x.key == key)) h.pending l.gone,
          );
          made = omega arith;
        };
    silent = λ l. refl;
  }

  expire-Loses : (t : Option Timer) (h : Hub) → Loses h (expire t h)
  unfolding expire is_answered
  expire-Loses none h = Loses-same h _ refl refl refl
  expire-Loses (some t) h = record {
    kept = λ P new l. record {
      gone = All-where_rows P (λ x. not (x.key == t.key)) h.pending l.gone;
      made = l.made;
    };
    silent = λ l. elim (Bool-cases (t.request == q)) [
      | inl e ↦ rw (is_answered, e) refl
      | inr e ↦ rw (is_answered, e) refl
    ];
  }

  step-Loses : (verify : ℕ → ℕ → ℕ → Bool) (e : Event) (h : Hub) → Loses h (step verify e h)
  unfolding step is_answered sweep_stale
  step-Loses verify (connects s address) h = elim (Option-cases (conn_of s h.conns)) [
    | inl e ↦ rw (step, e) (Loses-same h _ refl refl refl)
    | inr (c, e) ↦ rw (step, e) (Loses-same h _ refl refl refl)
  ]
  step-Loses verify (says s m) h =
      at_conn_cases s _ h (Loses h) (Loses-same h _ refl refl refl)
        (λ c e. on_message-Loses verify c m h)
  step-Loses verify (identifies s i answer nonce) h =
      at_conn_cases s _ h (Loses h) (Loses-same h _ refl refl refl)
        (λ c e. identify-Loses c i answer nonce h)
  step-Loses verify (auth_expires s) h =
      at_conn_cases s _ h (Loses h) (Loses-same h _ refl refl refl) (λ c e. auth_expire-Loses c h)
  step-Loses verify (disconnects s) h =
      at_conn_cases s _ h (Loses h) (Loses-same h _ refl refl refl) (λ c e. on_close-Loses c h)
  step-Loses verify sweeps h = Loses-same h _ refl refl (is_answered-sweep_entries h.nodes h.conns)
  step-Loses verify (requests i key ask) h = request-Loses _ key ask h
  step-Loses verify (expires r) h = expire-Loses _ h

  pub run-Loses :
      (verify : ℕ → ℕ → ℕ → Bool) (es : List Event) (h : Hub) → Loses h (run verify es h)
  unfolding run is_answered
  run-Loses verify [] h = Loses-same h _ refl refl refl
  run-Loses verify (e ∷ es) h =
      let one = step verify e h in
      Loses-trans h one (run verify es one.1) (step-Loses verify e h) (run-Loses verify es one.1)
