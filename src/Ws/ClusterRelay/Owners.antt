-- ===== src/Ws/ClusterRelay/Owners.antt =====
-- Which instance holds a node, as another instance hears of it.
use nodeva.Prelude.{
  ◌||◌, ap, ℕ, ◌≡◌, ◌≢◌, refl, inl, inr, arith, Bool, true, false, not, ◌==◌, ◌&&◌, some, List, [],
  ◌∷◌, any, all, Bool-cases, Option-cases, ◌∙◌, eqb→eq, eqb_refl, sym,
}
use nodeva.Ws.ClusterRelay.{
  waits_for, Owner, Relay, presence_of, snapshot_request, snapshot_reply, relayed_request,
  relayed_reply, owner_of, drop_owner, set_owner, on_presence_message, set_owners, RelayEvent,
  delivers, invokes, times_out, hub_ends, hub_tells, on_bus, invoke, time_out, relay_step,
  relay_run,
}

owner_of-drop_owner :
    (n m : ℕ) (os : List Owner) → (m == n) ≡ false → owner_of n (drop_owner m os) ≡ owner_of n os
owner_of-drop_owner n m [] ne = refl
owner_of-drop_owner n m (o ∷ os) ne = ground (arith, owner_of-drop_owner n m os ne)

owner_of-set_owner :
    (n m i : ℕ) (os : List Owner) → (m == n) ≡ false → owner_of n (set_owner m i os) ≡ owner_of n os
owner_of-set_owner n m i os ne = rw ne (owner_of-drop_owner n m os ne)

owner_of-set_owners :
    (n i : ℕ) (ns : List ℕ) (os : List Owner)
    → any (λ m. m == n) ns ≡ false
    → owner_of n (set_owners i ns os) ≡ owner_of n os
unfolding set_owners
owner_of-set_owners n i [] os h = refl
owner_of-set_owners n i (m ∷ ns) os h =
    let here : (m == n) ≡ false = ground arith in
    let rest : any (λ x. x == n) ns ≡ false = ground arith in
    owner_of-set_owners n i ns (set_owner m i os) rest ∙ owner_of-set_owner n m i os here

-- A message that says nothing new of the node: it goes offline elsewhere, or it is not named.
abbrev pub is_stale : ℕ → ℕ → RelayEvent → Bool
is_stale n i (delivers own (presence_of j m online)) = not (m == n) || (not online && not (j == i))
is_stale n i (delivers own (snapshot_reply j id ns)) = not (any (λ m. m == n) ns)
is_stale n i _ = true

not_its_owner :
    (n i j m : ℕ) (os : List Owner) {x : Owner}
    → not (m == n) || (true && not (j == i)) ≡ true
    → owner_of n os ≡ some (record { node = n; instance_id = i })
    → owner_of m os ≡ some x
    → (x.instance_id == j) ≡ true
    → (m == n) ≡ false
not_its_owner n i j m os {x} h o e u = elim (Bool-cases (m == n)) [
  | inr t ↦ t
  | inl t ↦
      let is : some (record { node = n; instance_id = i }) ≡ some x =
        sym o ∙ ap (λ k. owner_of k os) (sym (eqb→eq m n t)) ∙ e in
      let same : x.instance_id ≡ i = cc in
      let at : (j == i) ≡ true = ground arith in let bad : false ≡ true = rw (t, at) at h in cc
]

presence-stale :
    (n i j m : ℕ) (online : Bool) (r : Relay)
    → not (m == n) || (not online && not (j == i)) ≡ true
    → owner_of n r.owners ≡ some (record { node = n; instance_id = i })
    → owner_of n (on_presence_message j m online r).owners
      ≡ some (record { node = n; instance_id = i })
unfolding on_presence_message
presence-stale n i j m true r h o =
    let other : (m == n) ≡ false = ground arith in
    elim (Bool-cases (j == r.self)) [
      | inl t ↦ rw (on_presence_message, t) o
      | inr t ↦ rw (on_presence_message, t) (owner_of-set_owner n m j r.owners other ∙ o)
    ]
presence-stale n i j m false r h o = elim (Bool-cases (j == r.self)) [
  | inl t ↦ rw (on_presence_message, t) o
  | inr t ↦ elim (Option-cases (owner_of m r.owners)) [
    | inl e ↦ rw (on_presence_message, t, e) o
    | inr (x, e) ↦ elim (Bool-cases (x.instance_id == j)) [
      | inl u ↦
          rw (on_presence_message, t, e, u)
            (owner_of-drop_owner n m r.owners (not_its_owner n i j m r.owners h o e u) ∙ o)
      | inr u ↦ rw (on_presence_message, t, e, u) o
    ]
  ]
]

abbrev Owned : ℕ → ℕ → Relay → Type 0
Owned n i r = owner_of n r.owners ≡ some (record { node = n; instance_id = i })

step-Owned :
    (n i : ℕ) (e : RelayEvent) (r : Relay)
    → is_stale n i e ≡ true
    → Owned n i r
    → Owned n i (relay_step e r).1
unfolding relay_step on_bus invoke time_out
step-Owned n i (delivers own (presence_of j m online)) r h o = presence-stale n i j m online r h o
step-Owned n i (delivers own (snapshot_request j id)) r h o = o
step-Owned n i (delivers own (snapshot_reply j id ns)) r h o =
    let other : any (λ m. m == n) ns ≡ false = ground arith in
    elim (Bool-cases (id == r.snapshot_id)) [
      | inl t ↦ rw (relay_step, on_bus, t) (owner_of-set_owners n j ns r.owners other ∙ o)
      | inr t ↦ rw (relay_step, on_bus, t) o
    ]
step-Owned n i (delivers own (relayed_request to c m ask)) r h o = o
step-Owned n i (delivers own (relayed_reply c w)) r h o = elim (Bool-cases (waits_for c r)) [
  | inl t ↦ rw (relay_step, on_bus, t) o
  | inr t ↦ rw (relay_step, on_bus, t) o
]
step-Owned n i (invokes own c m ask) r h o = elim (Bool-cases (any (λ k. k == m) own)) [
  | inl t ↦ rw (relay_step, invoke, t) o
  | inr t ↦ elim (Option-cases (owner_of m r.owners)) [
    | inl e ↦ rw (relay_step, invoke, t, e) o
    | inr (x, e) ↦ rw (relay_step, invoke, t, e) o
  ]
]
step-Owned n i (times_out c) r h o = elim (Bool-cases (waits_for c r)) [
  | inl t ↦ rw (relay_step, time_out, t) o
  | inr t ↦ rw (relay_step, time_out, t) o
]
step-Owned n i (hub_ends c x) r h o = o
step-Owned n i (hub_tells m online) r h o = o

comes_online : (n i : ℕ) (r : Relay) → i ≢ r.self → Owned n i (on_presence_message i n true r)
unfolding on_presence_message
comes_online n i r ne =
    let other : (i == r.self) ≡ false = ground arith in
    rw (on_presence_message, other, eqb_refl n) refl

run-Owned :
    (es : List RelayEvent) (n i : ℕ) (r : Relay)
    → all (is_stale n i) es ≡ true
    → Owned n i r
    → Owned n i (relay_run es r).1
unfolding relay_run
run-Owned [] n i r h o = o
run-Owned (e ∷ es) n i r h o =
    let now : is_stale n i e ≡ true = ground arith in
    let later : all (is_stale n i) es ≡ true = ground arith in
    run-Owned es n i (relay_step e r).1 later (step-Owned n i e r now o)

-- Once another instance has said that a node came online there, it stays the node's owner while nothing
-- newer is said of the node: a late word that the node went offline elsewhere does not remove it.
pub owner_of-relay_run :
    (es : List RelayEvent) (own : List ℕ) (n i : ℕ) (r : Relay)
    → i ≢ r.self
    → all (is_stale n i) es ≡ true
    → owner_of n (relay_run (delivers own (presence_of i n true) ∷ es) r).1.owners
      ≡ some (record { node = n; instance_id = i })
unfolding relay_run relay_step on_bus on_presence_message
owner_of-relay_run es own n i r ne h =
    run-Owned es n i (on_presence_message i n true r) h (comes_online n i r ne)
