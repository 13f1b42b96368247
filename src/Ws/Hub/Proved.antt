-- ===== src/Ws/Hub/Proved.antt =====
-- What the sockets of `_nodes` proved, over the runs of the hub.
use nodeva.Prelude.{
  not, ℕ, ◌≡◌, ◌⊎◌, refl, inl, inr, arith, Bool, ◌==◌, Option, none, some, List, [], ◌∷◌,
  Bool-cases, Option-cases, All, first-All, All-where_rows, All-update_rows,
}
use nodeva.Ws.Protocol.{Ask}
use nodeva.Ws.Hub.{
  Conn, NodeEntry, Hub, Timer, Event, connects, says, identifies, auth_expires, disconnects, sweeps,
  requests, expires, conn_of, socket_of, on_close, auth_expire,
}
use nodeva.Ws.Hub.Steps.{
  sweep_one, sweep_entries, sweep_stale, request, expire, step, run, at_conn_cases, empty_hub,
}
use nodeva.Ws.Hub.Authentic.{
  Challenged, Proved, IsAuthentic, write-IsAuthentic, on_message-IsAuthentic, identify-IsAuthentic,
  conn_of-socket,
}

module _ (Saw : Event → Type 0) (verify : ℕ → ℕ → ℕ → Bool) where
  on_close-IsAuthentic :
      (c : Conn) (h : Hub) → IsAuthentic Saw verify h → IsAuthentic Saw verify (on_close c h).1
  unfolding on_close
  on_close-IsAuthentic c h a =
      let rest =
        All-where_rows (Challenged Saw verify) (λ x. not (x.socket == c.socket)) h.conns
          a.challenged in
      elim (Option-cases c.node_id) [
        | inl e ↦ rw (on_close, e) (record { challenged = rest; proved = a.proved })
        | inr (i, e) ↦ elim (Option-cases (socket_of i h.nodes)) [
          | inl o ↦ rw (on_close, e, o) (record { challenged = rest; proved = a.proved })
          | inr (x, o) ↦ elim (Bool-cases (x.socket == c.socket)) [
            | inl b ↦
                rw (on_close, e, o, b)
                  (record {
                    challenged = rest;
                    proved =
                        All-where_rows (Proved Saw verify) (λ y. not (y.node == i)) h.nodes
                          a.proved;
                  })
            | inr b ↦ rw (on_close, e, o, b) (record { challenged = rest; proved = a.proved })
          ]
        ]
      ]

  auth_expire-IsAuthentic :
      (c : Conn) (h : Hub) → IsAuthentic Saw verify h → IsAuthentic Saw verify (auth_expire c h).1
  unfolding auth_expire
  auth_expire-IsAuthentic c h a = elim (Bool-cases c.auth_timer) [
    | inl e ↦
        rw (auth_expire, e)
          (record {
            challenged = write-IsAuthentic Saw verify _ c.socket h (λ x. refl) (λ x. refl) a;
            proved = a.proved;
          })
    | inr e ↦ rw (auth_expire, e) a
  ]

  sweep_entries-Challenged :
      (es : List NodeEntry) (cs : List Conn)
      → All (Challenged Saw verify) cs
      → All (Challenged Saw verify) (sweep_entries es cs).1
  unfolding sweep_entries sweep_one
  sweep_entries-Challenged [] cs a = a
  sweep_entries-Challenged (e ∷ es) cs a = elim (Option-cases (conn_of e.socket cs)) [
    | inl o ↦ rw (sweep_entries, sweep_one, o) (sweep_entries-Challenged es cs a)
    | inr (c, o) ↦
        rw (sweep_entries, sweep_one, o)
          (sweep_entries-Challenged es _ (
            All-update_rows (Challenged Saw verify) (λ x. x.socket == e.socket) _ cs (λ x t p. p)
              a))
  ]

  request-IsAuthentic :
      (e : Option NodeEntry) (key : ℕ) (ask : Ask) (h : Hub)
      → IsAuthentic Saw verify h
      → IsAuthentic Saw verify (request e key ask h).1
  unfolding request
  request-IsAuthentic none key ask h a = record { challenged = a.challenged; proved = a.proved }
  request-IsAuthentic (some e) key ask h a = record { challenged = a.challenged; proved = a.proved }

  expire-IsAuthentic :
      (t : Option Timer) (h : Hub)
      → IsAuthentic Saw verify h
      → IsAuthentic Saw verify (expire t h).1
  unfolding expire
  expire-IsAuthentic none h a = a
  expire-IsAuthentic (some t) h a = record { challenged = a.challenged; proved = a.proved }

  step-IsAuthentic :
      (e : Event) (h : Hub)
      → Saw e
      → IsAuthentic Saw verify h
      → IsAuthentic Saw verify (step verify e h).1
  unfolding step sweep_stale
  step-IsAuthentic (connects s address) h w a = elim (Option-cases (conn_of s h.conns)) [
    | inl e ↦ rw (step, e) (record { challenged = ((λ ch n. cc), a.challenged); proved = a.proved })
    | inr (c, e) ↦ rw (step, e) a
  ]
  step-IsAuthentic (says s m) h w a =
      at_conn_cases s _ h (λ o. IsAuthentic Saw verify o.1) a
        (λ c e.
          on_message-IsAuthentic Saw verify c m h
            (first-All (Challenged Saw verify) (λ x. x.socket == s) h.conns a.challenged e)
            (rw (conn_of-socket s h.conns e) w) a)
  step-IsAuthentic (identifies s i answer nonce) h w a =
      at_conn_cases s _ h (λ o. IsAuthentic Saw verify o.1) a
        (λ c e.
          identify-IsAuthentic Saw verify c i answer nonce h (rw (conn_of-socket s h.conns e) w) a)
  step-IsAuthentic (auth_expires s) h w a =
      at_conn_cases s _ h (λ o. IsAuthentic Saw verify o.1) a (λ c e. auth_expire-IsAuthentic c h a)
  step-IsAuthentic (disconnects s) h w a =
      at_conn_cases s _ h (λ o. IsAuthentic Saw verify o.1) a (λ c e. on_close-IsAuthentic c h a)
  step-IsAuthentic sweeps h w a = record {
    challenged = sweep_entries-Challenged h.nodes h.conns a.challenged;
    proved = a.proved;
  }
  step-IsAuthentic (requests i key ask) h w a = request-IsAuthentic _ key ask h a
  step-IsAuthentic (expires r) h w a = expire-IsAuthentic _ h a

  run-IsAuthentic :
      (es : List Event) (h : Hub)
      → All Saw es
      → IsAuthentic Saw verify h
      → IsAuthentic Saw verify (run verify es h).1
  unfolding run
  run-IsAuthentic [] h w a = a
  run-IsAuthentic (e ∷ es) h w a =
      run-IsAuthentic es (step verify e h).1 w.1 (step-IsAuthentic e h w.0 a)

-- Every event is one of the events.
abbrev pub Occurs : List Event → Event → Type 0
Occurs [] e = ⊥
Occurs (x ∷ xs) e = (x ≡ e) ⊎ Occurs xs e

All_weaken :
    (P Q : Event → Type 0) (es : List Event) → ((e : Event) → P e → Q e) → All P es → All Q es
All_weaken P Q [] f a = tt
All_weaken P Q (e ∷ es) f a = (f e a.0, All_weaken P Q es f a.1)

All-Occurs : (es : List Event) → All (Occurs es) es
All-Occurs [] = tt
All-Occurs (e ∷ es) =
    (inl refl, All_weaken (Occurs es) (Occurs (e ∷ es)) es (λ x. inr) (All-Occurs es))

socket_of-node :
    (n : ℕ) (es : List NodeEntry) {e : NodeEntry} → socket_of n es ≡ some e → e.node ≡ n
socket_of-node n [] {e} o = cc
socket_of-node n (x ∷ es) {e} o = ground (arith, socket_of-node n es {e = e})

-- A node that the hub lists after any events has proved itself on its own socket: a key was looked up
-- for the node that the socket claimed, a challenge was issued to the socket for it, and the socket sent
-- a signature of that challenge that the key verifies.
pub run-Proved :
    (verify : ℕ → ℕ → ℕ → Bool) (es : List Event) (n : ℕ) {e : NodeEntry}
    → socket_of n (run verify es empty_hub).1.nodes ≡ some e
    → (e.node ≡ n) × Proved (Occurs es) verify e
run-Proved verify es n {e} o = (
  socket_of-node n (run verify es empty_hub).1.nodes o,
  first-All (Proved (Occurs es) verify) (λ x. x.node == n) (run verify es empty_hub).1.nodes
      (run-IsAuthentic (Occurs es) verify es empty_hub (All-Occurs es)
        (record { challenged = tt; proved = tt })).proved
      o,
)
