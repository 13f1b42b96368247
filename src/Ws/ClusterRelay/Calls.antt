-- ===== src/Ws/ClusterRelay/Calls.antt =====
-- How often a relayed call is settled.
use nodeva.Prelude.{
  ℕ, ◌+◌, ◌≤◌, ◌≡◌, refl, inl, inr, arith, Bool, true, false, not, ◌==◌, Option, some, List, [],
  ◌∷◌, ◌++◌, any, where_rows, if◌then◌else◌, Bool-cases, Option-cases, eqb→eq,
}
use nodeva.Ws.Protocol.{Outcome, node_timeout}
use nodeva.Ws.ClusterRelay.{
  Relay, presence_of, snapshot_request, snapshot_reply, relayed_request, relayed_reply, owner_of,
  on_presence_message, RelayEffect, settles, RelayEvent, delivers, invokes, times_out, hub_ends,
  hub_tells, on_bus, invoke, time_out, relay_step, relay_run, waits_for, drop_call, Sent,
  outcome_of_wire,
}

-- How often the promise of a relayed call is settled, and how often its id was drawn.
unfoldable pub ended : ℕ → List RelayEffect → ℕ
ended c [] = 0
ended c (settles d _ ∷ es) = (if d == c then 1 else 0) + ended c es
ended c (_ ∷ es) = ended c es

ended-append : (c : ℕ) (xs ys : List RelayEffect) → ended c (xs ++ ys) ≡ ended c xs + ended c ys
unfolding ended
ended-append c [] ys = omega arith
ended-append c (settles d o ∷ xs) ys = ground (arith, ended-append c xs ys)
ended-append c (_ ∷ xs) ys = ended-append c xs ys

abbrev pub waiting : ℕ → Relay → ℕ
waiting c r = if waits_for c r then 1 else 0

abbrev pub draws : ℕ → RelayEvent → ℕ
draws c (invokes own d n ask) = if d == c then 1 else 0
draws c _ = 0

abbrev pub drawn : ℕ → List RelayEvent → ℕ
drawn c [] = 0
drawn c (e ∷ es) = draws c e + drawn c es

pub dropped :
    (c d : ℕ) (ps : List ℕ)
    → any (λ x. x == c) (where_rows (λ x. not (x == d)) ps)
      ≡ (if d == c then false else any (λ x. x == c) ps)
dropped c d [] = ground arith
dropped c d (p ∷ ps) = ground (arith, dropped c d ps)

-- One event settles a call or keeps it waiting, and a call begins to wait only when its id is drawn.
abbrev Bounded : ℕ → ℕ → Relay → Sent → Type 0
Bounded c k r o = ended c o.0 + waiting c o.1 ≤ waiting c r + k

drop_call-Bounded :
    (c d : ℕ) (r : Relay) (o : Option Outcome)
    → waits_for d r ≡ true
    → Bounded c 0 r (settles d o ∷ [], drop_call d r)
unfolding ended
drop_call-Bounded c d r o w = elim (Bool-cases (d == c)) [
  | inl t ↦
      let mine : waits_for c r ≡ true = rw⁻¹ (eqb→eq d c t) w in
      rw (dropped c d r.pending, ended, t, mine) (omega arith)
  | inr t ↦ rw (dropped c d r.pending, ended, t) (omega arith)
]

pub on_presence_message-pending :
    (i n : ℕ) (online : Bool) (r : Relay) → (on_presence_message i n online r).pending ≡ r.pending
unfolding on_presence_message
on_presence_message-pending i n online r = elim (Bool-cases (i == r.self)) [
  | inl t ↦ rw (on_presence_message, t) refl
  | inr t ↦ elim (Bool-cases online) [
    | inl u ↦ rw (on_presence_message, t, u) refl
    | inr u ↦ elim (Option-cases (owner_of n r.owners)) [
      | inl e ↦ rw (on_presence_message, t, u, e) refl
      | inr (x, e) ↦ elim (Bool-cases (x.instance_id == i)) [
        | inl v ↦ rw (on_presence_message, t, u, e, v) refl
        | inr v ↦ rw (on_presence_message, t, u, e, v) refl
      ]
    ]
  ]
]

step-Bounded : (c : ℕ) (e : RelayEvent) (r : Relay) → Bounded c (draws c e) r (relay_step e r)
unfolding relay_step on_bus invoke time_out ended
step-Bounded c (delivers own (presence_of j m online)) r =
    rw (relay_step, on_bus, on_presence_message-pending j m online r) (omega arith)
step-Bounded c (delivers own (snapshot_request j id)) r = elim (Bool-cases (j == r.self)) [
  | inl t ↦ rw (relay_step, on_bus, t) (omega arith)
  | inr t ↦ rw (relay_step, on_bus, t) (omega arith)
]
step-Bounded c (delivers own (snapshot_reply j id ns)) r = elim (Bool-cases (id == r.snapshot_id)) [
  | inl t ↦ rw (relay_step, on_bus, t) (omega arith)
  | inr t ↦ rw (relay_step, on_bus, t) (omega arith)
]
step-Bounded c (delivers own (relayed_request to d m ask)) r = elim (Bool-cases (to == r.self)) [
  | inl t ↦ rw (relay_step, on_bus, t) (omega arith)
  | inr t ↦ rw (relay_step, on_bus, t) (omega arith)
]
step-Bounded c (delivers own (relayed_reply d w)) r = elim (Bool-cases (waits_for d r)) [
  | inl t ↦ rw (relay_step, on_bus, t) (drop_call-Bounded c d r (outcome_of_wire w) t)
  | inr t ↦ rw (relay_step, on_bus, t) (omega arith)
]
step-Bounded c (invokes own d m ask) r = elim (Bool-cases (any (λ k. k == m) own)) [
  | inl t ↦ rw (relay_step, invoke, t) (omega arith)
  | inr t ↦ elim (Option-cases (owner_of m r.owners)) [
    | inl e ↦ rw (relay_step, invoke, t, e) (omega arith)
    | inr (x, e) ↦
        rw (relay_step, invoke, t, e)
          (elim (Bool-cases (d == c)) [ inl u ↦ rw u (omega arith) | inr u ↦ rw u (omega arith) ])
  ]
]
step-Bounded c (times_out d) r = elim (Bool-cases (waits_for d r)) [
  | inl t ↦ rw (relay_step, time_out, t) (drop_call-Bounded c d r (some node_timeout) t)
  | inr t ↦ rw (relay_step, time_out, t) (omega arith)
]
step-Bounded c (hub_ends d x) r = omega arith
step-Bounded c (hub_tells m online) r = omega arith

-- However messages, replies and timers interleave, the promise of a relayed call is settled at most as
-- often as its correlation id was drawn, so once for an id that is drawn once; and it does not wait any
-- more when it has been.
pub ended-relay_run :
    (es : List RelayEvent) (c : ℕ) (r : Relay)
    → let o = relay_run es r in ended c o.0 + waiting c o.1 ≤ waiting c r + drawn c es
unfolding relay_run ended
ended-relay_run [] c r = omega arith
ended-relay_run (e ∷ es) c r =
    let one = relay_step e r in
    let first_part = step-Bounded c e r in
    let rest = ended-relay_run es c one.1 in
    rw (ended-append c one.0 (relay_run es one.1).0) (omega arith)
