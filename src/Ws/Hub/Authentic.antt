-- ===== src/Ws/Hub/Authentic.antt =====
-- Who stands in `_nodes`: the sockets that proved possession of the node's key.
use nodeva.Prelude.{
  update_rows, ℕ, ◌≡◌, refl, inl, inr, arith, Bool, true, ◌==◌, Option, none, some, List, [], ◌∷◌,
  Bool-cases, Option-cases, ◌∙◌, sym, All, eqb→eq, All-update_rows,
}
use nodeva.Ws.Protocol.{heartbeat, peer_addr, Message, challenge_response, replies}
use nodeva.Ws.Hub.{
  Conn, NodeEntry, Hub, Pending, Challenge, KeyAnswer, found, unknown, failed, Event, says,
  identifies, conn_of, admit, respond, pre_auth, on_authed, on_message, identify, resolve,
  ReplyMessage, put_entry,
}

pub conn_of-socket : (s : ℕ) (cs : List Conn) {c : Conn} → conn_of s cs ≡ some c → c.socket ≡ s
conn_of-socket s [] {c} e = cc
conn_of-socket s (x ∷ cs) {c} e = ground (arith, conn_of-socket s cs {c = c})

All-put_entry :
    (P : NodeEntry → Type 0) (e : NodeEntry) (xs : List NodeEntry)
    → P e
    → All P xs
    → All P (put_entry e xs)
unfolding put_entry
All-put_entry P e [] p h = (p, tt)
All-put_entry P e (x ∷ xs) p h = elim (Bool-cases (x.node == e.node)) [
  | inl t ↦ rw (put_entry, t) (p, h.1)
  | inr t ↦ rw (put_entry, t) (h.0, All-put_entry P e xs p h.1)
]

module _ (Saw : Event → Type 0) (verify : ℕ → ℕ → ℕ → Bool) where
  -- A challenge stands for a key that was found for the claimed node.
  abbrev pub Challenged : Conn → Type 0
  Challenged c =
      (ch : Challenge)
      → c.challenge ≡ some ch
      → Saw (identifies c.socket ch.claimed (found ch.key) ch.nonce)

  -- The socket answered a challenge on the node's key.
  abbrev pub Proved : NodeEntry → Type 0
  Proved e =
      (key : ℕ) × (nonce : ℕ) × (signature : ℕ) × Saw (identifies e.socket e.node (found key) nonce)
      × Saw (says e.socket (challenge_response (some signature)))
      × (verify key nonce signature ≡ true)

  pub record IsAuthentic (h : Hub) : Type 0 where
    pub challenged : All Challenged h.conns
    pub proved : All Proved h.nodes

  -- A change of the states that leaves their challenges.
  pub write-IsAuthentic :
      (f : Conn → Conn) (s : ℕ) (h : Hub)
      → ((c : Conn) → (f c).challenge ≡ c.challenge)
      → ((c : Conn) → (f c).socket ≡ c.socket)
      → IsAuthentic h
      → All Challenged (update_rows (λ c. c.socket == s) f h.conns)
  write-IsAuthentic f s h same id a =
      All-update_rows Challenged (λ c. c.socket == s) f h.conns
        (λ c t p ch e. rw (id c) (p ch (sym (same c) ∙ e))) a.challenged

  admit-IsAuthentic :
      (c : Conn) (ch : Challenge) (h : Hub)
      → Proved (record { node = ch.claimed; socket = c.socket })
      → IsAuthentic h
      → IsAuthentic (admit c ch h).1
  unfolding admit
  admit-IsAuthentic c ch h p a = record {
    challenged = write-IsAuthentic _ c.socket h (λ x. refl) (λ x. refl) a;
    proved = All-put_entry Proved _ h.nodes p a.proved;
  }

  respond-IsAuthentic :
      (c : Conn) (ch : Option Challenge) (signature : Option ℕ) (h : Hub)
      → ((x : Challenge) → ch ≡ some x → Saw (identifies c.socket x.claimed (found x.key) x.nonce))
      → Saw (says c.socket (challenge_response signature))
      → IsAuthentic h
      → IsAuthentic (respond verify c ch signature h).1
  unfolding respond
  respond-IsAuthentic c none signature h k s a = a
  respond-IsAuthentic c (some ch) none h k s a = a
  respond-IsAuthentic c (some ch) (some signature) h k s a =
      elim (Bool-cases (verify ch.key ch.nonce signature)) [
        | inl e ↦
            rw (respond, e)
              (admit-IsAuthentic c ch h (ch.key, ch.nonce, signature, k ch refl, s, e) a)
        | inr e ↦ rw (respond, e) a
      ]

  pre_auth-IsAuthentic :
      (c : Conn) (m : Message) (h : Hub)
      → Challenged c
      → Saw (says c.socket m)
      → IsAuthentic h
      → IsAuthentic (pre_auth verify c m h).1
  unfolding pre_auth
  pre_auth-IsAuthentic c (challenge_response signature) h k s a =
      respond-IsAuthentic c c.challenge signature h k s a
  pre_auth-IsAuthentic c _ h k s a = a

  resolve-IsAuthentic :
      (r : ReplyMessage) (p : Option Pending) (h : Hub)
      → IsAuthentic h
      → IsAuthentic (resolve r p h).1
  unfolding resolve
  resolve-IsAuthentic r none h a = a
  resolve-IsAuthentic r (some p) h a = record { challenged = a.challenged; proved = a.proved }

  on_authed-IsAuthentic :
      (c : Conn) (n : ℕ) (m : Message) (h : Hub) → IsAuthentic h → IsAuthentic (on_authed c n m h).1
  unfolding on_authed
  on_authed-IsAuthentic c n heartbeat h a = record {
    challenged = write-IsAuthentic _ c.socket h (λ x. refl) (λ x. refl) a;
    proved = a.proved;
  }
  on_authed-IsAuthentic c n (peer_addr port) h a = record {
    challenged = write-IsAuthentic _ c.socket h (λ x. refl) (λ x. refl) a;
    proved = a.proved;
  }
  on_authed-IsAuthentic c n (replies r) h a = resolve-IsAuthentic r _ h a
  on_authed-IsAuthentic c n _ h a = a

  pub on_message-IsAuthentic :
      (c : Conn) (m : Message) (h : Hub)
      → Challenged c
      → Saw (says c.socket m)
      → IsAuthentic h
      → IsAuthentic (on_message verify c m h).1
  unfolding on_message
  on_message-IsAuthentic c m h k s a = elim (Option-cases c.node_id) [
    | inl e ↦ rw (on_message, e) (pre_auth-IsAuthentic c m h k s a)
    | inr (i, e) ↦ rw (on_message, e) (on_authed-IsAuthentic c i m h a)
  ]

  pub identify-IsAuthentic :
      (c : Conn) (n : ℕ) (answer : KeyAnswer) (nonce : ℕ) (h : Hub)
      → Saw (identifies c.socket n answer nonce)
      → IsAuthentic h
      → IsAuthentic (identify c n answer nonce h).1
  unfolding identify
  identify-IsAuthentic c n failed nonce h s a = a
  identify-IsAuthentic c n unknown nonce h s a = a
  identify-IsAuthentic c n (found key) nonce h s a = record {
    challenged =
        All-update_rows Challenged (λ x. x.socket == c.socket) _ h.conns
          (λ x t p ch e.
            let made : Challenge = record { claimed = n; key = key; nonce = nonce } in
            let same : made ≡ ch = cc in rw (eqb→eq x.socket c.socket t) (rw⁻¹ same s))
          a.challenged;
    proved = a.proved;
  }
