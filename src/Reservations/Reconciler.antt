-- ===== src/Reservations/Reconciler.antt =====
-- backend/src/reservations/reconciler.js: the sweep of stale holds, and the reconciliation of expired
-- reservations with what their nodes believe. The nodes' answers are functions of the reservation.
pub mod Sweep
use nodeva.Prelude.{
  ℕ, zero, suc, ◌+◌, Bool, true, false, not, ◌==◌, ◌&&◌, ◌||◌, ltb, Option, none, some, List, [],
  ◌∷◌, where_rows, update_rows, if◌then◌else◌, is_some,
}
use nodeva.Reservations.Machine.{Status, pending, held, confirmed, expired, ◌=ₛ◌}
use nodeva.Payments.Refunds.{take}
use nodeva.Store.{Store, Reservation}

-- `GRACE_MS`
abbrev pub grace_ms : ℕ
grace_ms = 500

abbrev pub lapsed : ℕ → Option ℕ → Bool
lapsed now none = false
lapsed now (some until) = ltb (until + grace_ms) now

abbrev pub on_node : Option ℕ → Reservation → Bool
on_node none r = true
on_node (some node) r = r.node_id == node

-- The WHERE clause of the sweep.
unfoldable pub is_stale : ℕ → Option ℕ → Reservation → Bool
is_stale now node r =
    ((r.status =ₛ pending) || (r.status =ₛ held))
    && (lapsed now r.hold_expires_at && on_node node r)

-- `expireStaleHolds`, for one node or for all.
unfoldable pub expire_stale_holds : ℕ → Option ℕ → Store → Store
unfolding is_stale
expire_stale_holds now node db = record db {
  reservations =
      update_rows (is_stale now node) (λ r. record r { status = expired }) db.reservations;
}

-- What asking a node about a reservation comes to: its status there, or no answer in time.
pub data NodeStatusReply : Type 0 where
  believes_confirmed believes_other no_answer : NodeStatusReply

-- The hub as this sweep uses it; `releases` says that the release is acknowledged.
pub record NodeView : Type 0 where
  pub is_online : ℕ → Bool
  pub status_of : ℕ → ℕ → NodeStatusReply
  pub releases : ℕ → ℕ → Bool

-- The WHERE clause of the reconciliation.
unfoldable pub is_unreconciled : Reservation → Bool
is_unreconciled r = (r.status =ₛ expired) && (is_some r.receipt_sig && not r.reconciled)

abbrev pub mismatch_batch_size : ℕ
mismatch_batch_size = 20

abbrev pub set_reconciled : ℕ → List Reservation → List Reservation
set_reconciled id = update_rows (λ r. r.reservation_id == id) (λ r. record r { reconciled = true })

-- What one turn of the loop does about a reservation.
pub data Action : Type 0 where
  leave mark release_and_mark : Action

unfoldable pub reconcile_action : NodeView → Reservation → Action
reconcile_action view r =
    if not (view.is_online r.node_id)
    then leave
    else elim (view.status_of r.node_id r.reservation_id) [
      | believes_confirmed ↦
          if view.releases r.node_id r.reservation_id then release_and_mark else leave
      | believes_other ↦ mark
      | no_answer ↦ leave
    ]

-- The rows, the counters `checked` and `mismatchesReleased`.
pub record Progress : Type 0 where
  pub reservations : List Reservation
  pub checked : ℕ
  pub released : ℕ

unfoldable pub reconcile_step : Action → ℕ → Progress → Progress
reconcile_step leave id s = s
reconcile_step mark id s = record s {
  reservations = set_reconciled id s.reservations;
  checked = s.checked + 1;
}
reconcile_step release_and_mark id s = record s {
  reservations = set_reconciled id s.reservations;
  checked = s.checked + 1;
  released = s.released + 1;
}

unfoldable pub reconcile_rows : NodeView → List Reservation → Progress → Progress
unfolding reconcile_step reconcile_action
reconcile_rows view [] s = s
reconcile_rows view (r ∷ rs) s =
    reconcile_rows view rs (reconcile_step (reconcile_action view r) r.reservation_id s)

-- `reconcileExpiredMismatches`
unfoldable pub reconcile_expired_mismatches : NodeView → Store → Store × (ℕ × ℕ)
unfolding reconcile_rows is_unreconciled
reconcile_expired_mismatches view db =
    let s =
      reconcile_rows view (take mismatch_batch_size (where_rows is_unreconciled db.reservations))
        (record { reservations = db.reservations; checked = 0; released = 0 }) in
    (record db { reservations = s.reservations }, (s.checked, s.released))
