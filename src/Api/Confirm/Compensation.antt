-- ===== src/Api/Confirm/Compensation.antt =====
-- What happens to captured money when the node does not deliver.
use nodeva.Prelude.{
  any, update_rows, ◌==◌, ◌&&◌, ap, ℕ, ◌≡◌, ◌⊎◌, refl, arith, Bool, true, false, List, [], ◌∷◌,
  Option, some, first, ◌∙◌,
}
use nodeva.Reservations.Machine.{confirmed, expired, can_transition}
use nodeva.Payments.Razorpay.{verify_payment_signature}
use nodeva.Payments.Refunds.{refund_done, refund_queued, issue_refund}
use nodeva.Payments.Refunds.Retries.{Requeued, first_try, issue_refund_never_lost}
use nodeva.Api.Settlement.{is_captured}
use nodeva.Store.{
  captured, Store, Env, Reservation, Payment, find_reservation, set_reservation_status, set_status,
}
use nodeva.Api.Capture.{NodeReply, offline, refused, node_unreachable, commit_node_and_capture}
use nodeva.Api.Confirm.{
  failed_refund, server_error, Secrets, owned, mark_captured, refund_failed, verify_payment,
  confirm_verify, webhook_capture, payment_captured, is_order, is_open_order,
}

-- The payment stands in the store as captured, under the gateway's reference.
abbrev pub CapturedAs : ℕ → ℕ → List Payment → Type 0
CapturedAs payment ref rows =
    any (λ p. (p.payment_id == payment) && (is_captured p.status && p.gateway_ref == ref)) rows
    ≡ true

update_rows-CapturedAs :
    (test : Payment → Bool) (ref : ℕ) (rows : List Payment) {payment : Payment}
    → first test rows ≡ some payment
    → CapturedAs payment.payment_id ref (
        update_rows
          (λ p. p.payment_id == payment.payment_id)
          (λ p. record p { status = captured; gateway_ref = ref })
          rows)
update_rows-CapturedAs test ref [] {payment} e = cc
update_rows-CapturedAs test ref (p ∷ rows) {payment} e =
    ground (arith, update_rows-CapturedAs test ref rows {payment = payment})

mark_captured_lem :
    (test : Payment → Bool) (ref : ℕ) (db : Store) {payment : Payment} {db' : Store}
    → first test db.payments ≡ some payment
    → mark_captured payment ref db ≡ some db'
    → (db'.reservations ≡ db.reservations)
      × (db'.ledger ≡ db.ledger)
      × (db'.gateway_refunds ≡ db.gateway_refunds)
      × (db'.refund_retries ≡ db.refund_retries)
      × CapturedAs payment.payment_id ref db'.payments
unfolding mark_captured
mark_captured_lem test ref db {payment} e m =
    ground (arith, update_rows-CapturedAs test ref db.payments e)

issue_refund-reservations :
    (env : Env) (payment reservation ref amount : ℕ) (db : Store)
    → (issue_refund env payment reservation ref amount db).1.reservations ≡ db.reservations
unfolding issue_refund
issue_refund-reservations env payment reservation ref amount db = ground arith

module _ (env : Env) (keys : Secrets) (user id order ref : ℕ) (signature : Option (List ℕ))
    (db : Store) {resv : Reservation} {payment : Payment} {db' : Store}
    (live : env.is_configured ≡ true) (mine : owned user id db ≡ some resv)
    (legal : can_transition resv.status confirmed ≡ true)
    (ordered : first (is_order resv.reservation_id order) db.payments ≡ some payment)
    (valid : verify_payment_signature keys.hmac keys.key_secret
        (keys.text_of order)
        (keys.text_of ref)
        signature
      ≡ true)
    (marked : mark_captured payment ref db ≡ some db') where
  verified :
      (reply : NodeReply)
      → confirm_verify env keys reply user id order ref signature db
        ≡ refund_failed env payment.payment_id resv.reservation_id ref resv.quoted_paise
            (commit_node_and_capture reply resv db')
  unfolding confirm_verify verify_payment
  verified reply =
      rw (live, mine, confirm_verify) (rw (legal, ordered) (rw (valid, verify_payment) (rw marked)))

  -- A payment with a valid signature whose node turns out to be offline: the reservation expires,
  -- and the quote is refunded by the gateway or waits in the refund queue, as the reply says: in a row
  -- with the payment, its reference and the quote, unless the payment has a row already, which then
  -- waits again for the amount that it had.
  pub confirm_verify_compensates :
      let (reply, out) = confirm_verify env keys offline user id order ref signature db in
      (out.reservations ≡ set_status resv.reservation_id expired db.reservations)
      × (((reply ≡ failed_refund node_unreachable refund_done)
            × (out.gateway_refunds ≡ (ref, resv.quoted_paise) ∷ db.gateway_refunds))
          ⊎ ((reply ≡ failed_refund node_unreachable refund_queued)
              × (out.gateway_refunds ≡ db.gateway_refunds)
              × Requeued
                  (first_try env.now payment.payment_id resv.reservation_id ref resv.quoted_paise)
                  db.refund_retries
                  out.refund_retries))
  unfolding refund_failed commit_node_and_capture
  confirm_verify_compensates =
      let lapsed = set_reservation_status resv.reservation_id expired db' in
      let m = mark_captured_lem (is_order resv.reservation_id order) ref db ordered marked in
      rw (verified offline) (
        ground (
          arith,
          m,
          issue_refund-reservations env payment.payment_id resv.reservation_id ref resv.quoted_paise
              lapsed,
          issue_refund_never_lost env payment.payment_id resv.reservation_id ref resv.quoted_paise
              lapsed,
        ))

  -- A node that refuses the commit is another matter. The request fails with a server error, the
  -- payment stands as captured under its reference, the reservation and the ledger are as they were,
  -- and a refund has neither been made nor queued.
  pub confirm_verify_refused :
      let (reply, out) = confirm_verify env keys refused user id order ref signature db in
      (reply ≡ server_error)
      × (out.reservations ≡ db.reservations)
      × (out.ledger ≡ db.ledger)
      × (out.gateway_refunds ≡ db.gateway_refunds)
      × (out.refund_retries ≡ db.refund_retries)
      × CapturedAs payment.payment_id ref out.payments
  unfolding refund_failed commit_node_and_capture
  confirm_verify_refused =
      let m = mark_captured_lem (is_order resv.reservation_id order) ref db ordered marked in
      rw (verified refused) (refl, m.0, m.1, m.2, m.3, m.4)

-- The webhook has the same gap for a reservation that may no longer be confirmed, such as one that has
-- expired: the payment is marked as captured, and a refund is neither made nor queued.
pub webhook_late_payment :
    (env : Env) (reply : NodeReply) (order ref : ℕ) (db : Store) {payment : Payment}
    {resv : Reservation} {db' : Store}
    → first (is_open_order order) db.payments ≡ some payment
    → find_reservation payment.reservation_id db ≡ some resv
    → can_transition resv.status confirmed ≡ false
    → mark_captured payment ref db ≡ some db'
    → let out = payment_captured env reply order ref db in
      (out.reservations ≡ db.reservations)
      × (out.ledger ≡ db.ledger)
      × (out.gateway_refunds ≡ db.gateway_refunds)
      × (out.refund_retries ≡ db.refund_retries)
      × CapturedAs payment.payment_id ref out.payments
unfolding payment_captured webhook_capture
webhook_late_payment env reply order ref db {payment} {resv} {db'} open_order found illegal marked =
    let m = mark_captured_lem (is_open_order order) ref db open_order marked in
    let same : find_reservation payment.reservation_id db' ≡ some resv =
      ap (first (λ r. r.reservation_id == payment.reservation_id)) m.0 ∙ found in
    rw (open_order, payment_captured) (rw marked (rw (same, webhook_capture) (rw illegal m)))
