-- ===== src/Ws/Hub/Status.antt =====
-- The callback for presence of backend/src/api/server.js on `compute_nodes.status`, and that the column
-- follows the hub.
use nodeva.Prelude.{
  ap, first-update_rows, eqb→eq, Option, ℕ, ◌≡◌, refl, inl, inr, arith, Bool, true, false, ◌==◌,
  ◌&&◌, not, some, List, [], ◌∷◌, first, update_rows, if◌then◌else◌, Bool-cases, ◌∙◌,
}
use nodeva.Marketplace.Scheduler.{NodeStatus, online, offline}
use nodeva.Store.{Node}
use nodeva.Api.Nodes.{is_draining}
use nodeva.Ws.Protocol.{HubEffect, presence}
use nodeva.Ws.Hub.{Hub, Event}
use nodeva.Ws.Hub.Steps.{run}
use nodeva.Ws.Hub.Presence.{is_online, told, told-run}

abbrev pub node_of : ℕ → List Node → Option Node
node_of n = first (λ x. x.node_id == n)

-- `onPresence`: `UPDATE compute_nodes SET status = $2 WHERE node_id = $1 AND status <> 'draining'`
unfoldable pub on_presence : ℕ → Bool → List Node → List Node
on_presence n b =
    update_rows (λ x. (x.node_id == n) && not (is_draining x.status))
      (λ x. record x { status = if b then online else offline })

-- The callbacks among some effects; their queries are taken to run in the order in which they were
-- sent.
unfoldable pub follow : List HubEffect → List Node → List Node
unfolding on_presence
follow [] ns = ns
follow (presence n b ∷ es) ns = follow es (on_presence n b ns)
follow (_ ∷ es) ns = follow es ns

abbrev pub says_online : NodeStatus → Bool
says_online online = true
says_online _ = false

abbrev pub updated : ℕ → Bool → Node → Node
updated n b x =
    if (x.node_id == n) && not (is_draining x.status)
    then record x { status = if b then online else offline }
    else x

node_of-on_presence :
    (m n : ℕ) (b : Bool) (ns : List Node) {x : Node}
    → node_of m ns ≡ some x
    → node_of m (on_presence n b ns) ≡ some (updated n b x)
unfolding on_presence
node_of-on_presence m n b ns e = first-update_rows (λ x. x.node_id == m) _ _ ns (λ y. refl) e

node_of-id : (n : ℕ) (ns : List Node) {x : Node} → node_of n ns ≡ some x → x.node_id ≡ n
node_of-id n [] {x} e = cc
node_of-id n (y ∷ ns) {x} e = elim (Bool-cases (y.node_id == n)) [
  | inl t ↦ let is : y ≡ x = ground arith in rw⁻¹ is (eqb→eq y.node_id n t)
  | inr t ↦ node_of-id n ns {x = x} (ground arith)
]

written :
    (v : Bool)
    → (is_draining (if v then online else offline) ≡ false)
      × (says_online (if v then online else offline) ≡ v)
written true = (refl, refl)
written false = (refl, refl)

updated-says_online :
    (n m : ℕ) (v b : Bool) (x : Node)
    → x.node_id ≡ n
    → is_draining x.status ≡ false
    → says_online x.status ≡ b
    → (is_draining (updated m v x).status ≡ false)
      × (says_online (updated m v x).status ≡ (if m == n then v else b))
updated-says_online n m v b x i d s = elim (Bool-cases (m == n)) [
  | inl t ↦ let mine : (x.node_id == m) ≡ true = ground arith in rw (mine, d, t) (written v)
  | inr t ↦ let other : (x.node_id == m) ≡ false = ground arith in rw (other, t) (d, s)
]

updated_draining : (m : ℕ) (v : Bool) (x : Node) → is_draining x.status ≡ true → updated m v x ≡ x
updated_draining m v x d = elim (Bool-cases (x.node_id == m)) [
  | inl t ↦ rw (t, d) refl
  | inr t ↦ rw t refl
]

-- Replaying the effects on the table: the row of a node that is not draining says what the listener was
-- told, and the row of a draining node stays.
follow-told :
    (n : ℕ) (es : List HubEffect) (b : Bool) (ns : List Node) {x : Node}
    → node_of n ns ≡ some x
    → is_draining x.status ≡ false
    → says_online x.status ≡ b
    → (y : Node) × (node_of n (follow es ns) ≡ some y)
      × (is_draining y.status ≡ false)
      × (says_online y.status ≡ told n es b)
unfolding follow told
follow-told n [] b ns {x} e d s = (x, e, d, s)
follow-told n (presence m v ∷ es) b ns {x} e d s =
    let kept = updated-says_online n m v b x (node_of-id n ns e) d s in
    let next = if m == n then v else b in
    follow-told n es next (on_presence m v ns) (node_of-on_presence n m v ns e) kept.0 kept.1
follow-told n (_ ∷ es) b ns {x} e d s = follow-told n es b ns e d s

-- Whatever happens on the sockets, the row of a node that the provider has not retired, when it said
-- whether the hub had a connection for the node, says so again once the callbacks have run in their
-- order.
pub status-run :
    (verify : ℕ → ℕ → ℕ → Bool) (es : List Event) (h : Hub) (n : ℕ) (ns : List Node) {x : Node}
    → node_of n ns ≡ some x
    → is_draining x.status ≡ false
    → says_online x.status ≡ is_online n h
    → (y : Node) × (node_of n (follow (run verify es h).0 ns) ≡ some y)
      × (is_draining y.status ≡ false)
      × (says_online y.status ≡ is_online n (run verify es h).1)
status-run verify es h n ns {x} e d s =
    let (y, found, stays, says) = follow-told n (run verify es h).0 (is_online n h) ns e d s in
    (y, found, stays, says ∙ told-run verify es h n)

-- Presence never takes a node out of retirement.
pub follow-draining :
    (n : ℕ) (es : List HubEffect) (ns : List Node) {x : Node}
    → node_of n ns ≡ some x
    → is_draining x.status ≡ true
    → node_of n (follow es ns) ≡ some x
unfolding follow
follow-draining n [] ns {x} e d = e
follow-draining n (presence m v ∷ es) ns {x} e d =
    follow-draining n es (on_presence m v ns)
      (node_of-on_presence n m v ns e ∙ ap some (updated_draining m v x d)) d
follow-draining n (_ ∷ es) ns {x} e d = follow-draining n es ns e d
