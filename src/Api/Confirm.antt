-- ===== src/Api/Confirm.antt =====
-- The three ways to confirm a reservation in backend/src/api/server.js: POST /reservations/:id/confirm,
-- POST /reservations/:id/confirm/verify and the Razorpay webhook. A handler gets the session's user,
-- the request and the answers of the gateway and the node, and returns its reply and the store.
pub mod Money
pub mod Compensation
use nodeva.Prelude.{
  ℕ, Bool, true, false, not, ◌==◌, ◌&&◌, Option, none, some, List, [], ◌∷◌, ◌++◌, any, first,
  update_rows, if◌then◌else◌,
}
use nodeva.Reservations.Machine.{Status, confirmed, can_transition}
use nodeva.Payments.Razorpay.{verify_payment_signature, verify_webhook_signature}
use nodeva.Payments.Refunds.{issue_refund, RefundResult}
use nodeva.Ledger.{DbError}
use nodeva.Store.{
  Store, Env, Reservation, Payment, PaymentStatus, GatewayName, razorpay, no_gateway, created,
  captured, failed, refunded, find_reservation, set_payment_status,
}
use nodeva.Api.Capture.{
  NodeReply, CaptureResult, capture_done, node_unreachable, already_captured, node_refused,
  capture_thrown, commit_node_and_capture,
}

pub data Reply : Type 0 where
  reservation_not_found payment_order_not_found invalid_signature no_live_gateway server_error :
      Reply
  cannot_confirm_from : Status → Reply
  confirmed_reply slot_unreachable captured_before : Reply
  requires_payment : ℕ → ℕ → Reply
  failed_refund : CaptureResult → RefundResult → Reply
  webhook_refused webhook_received : Reply

abbrev pub same_gateway : GatewayName → GatewayName → Bool
same_gateway razorpay razorpay = true
same_gateway razorpay no_gateway = false
same_gateway no_gateway razorpay = false
same_gateway no_gateway no_gateway = true

abbrev pub is_created : PaymentStatus → Bool
is_created created = true
is_created captured = false
is_created failed = false
is_created refunded = false

-- `UNIQUE (gateway, gateway_ref)`
abbrev pub ref_taken : GatewayName → ℕ → List Payment → Bool
ref_taken gateway ref = any (λ p. same_gateway p.gateway gateway && p.gateway_ref == ref)

-- The reservation, if it exists and belongs to the session's user.
unfoldable pub owned : ℕ → ℕ → Store → Option Reservation
owned user id db = elim (find_reservation id db) [
  | none ↦ none
  | some resv ↦ if resv.user_id == user then some resv else none
]

abbrev pub live_name : Bool → GatewayName
live_name true = razorpay
live_name false = no_gateway

-- `UPDATE payments SET status='captured' WHERE reservation_id=$1 AND gateway_ref=$2`
abbrev pub capture_local : ℕ → ℕ → Store → Store
capture_local reservation ref db = record db {
  payments =
      update_rows (λ p. (p.reservation_id == reservation) && (p.gateway_ref == ref))
        (λ p. record p { status = captured }) db.payments;
}

-- The end of POST /confirm with no live gateway.
unfoldable pub finish_local : ℕ → ℕ → CaptureResult × Store → Reply × Store
finish_local reservation ref (capture_done, db) =
    (confirmed_reply, capture_local reservation ref db)
finish_local reservation ref (node_unreachable, db) = (slot_unreachable, db)
finish_local reservation ref (already_captured, db) = (captured_before, db)
finish_local reservation ref (node_refused, db) = (server_error, db)
finish_local reservation ref (capture_thrown e, db) = (server_error, db)

-- The row of `INSERT INTO payments`.
abbrev pub new_payment : Env → ℕ → ℕ → Reservation → Payment
new_payment env payment ref resv = record {
  payment_id = payment;
  user_id = resv.user_id;
  reservation_id = resv.reservation_id;
  gateway = live_name env.is_configured;
  gateway_ref = ref;
  amount_paise = resv.quoted_paise;
  status = created;
}

abbrev pub add_payment : Payment → Store → Store
add_payment p db = record db { payments = p ∷ db.payments }

-- After the order: `INSERT INTO payments`, and the capture if no gateway is configured.
unfoldable pub confirm_order : Env → NodeReply → ℕ → ℕ → Reservation → Store → Reply × Store
unfolding finish_local commit_node_and_capture
confirm_order env reply payment ref resv db =
    let db' = add_payment (new_payment env payment ref resv) db in
    if ref_taken (live_name env.is_configured) ref db.payments
    then (captured_before, db)
    else if env.is_configured
    then (requires_payment ref resv.quoted_paise, db')
    else finish_local resv.reservation_id ref (commit_node_and_capture reply resv db')

-- POST /reservations/:id/confirm. `order` is the id of the gateway's order, `none` if creating it
-- throws; `payment` is the id of the new row.
unfoldable pub confirm : Env → NodeReply → Option ℕ → ℕ → ℕ → ℕ → Store → Reply × Store
unfolding owned confirm_order
confirm env reply order payment user id db = elim (owned user id db) [
  | none ↦ (reservation_not_found, db)
  | some resv ↦
      if not (can_transition resv.status confirmed)
      then (cannot_confirm_from resv.status, db)
      else elim order [
        | none ↦ (server_error, db)
        | some ref ↦ confirm_order env reply payment ref resv db
      ]
]

-- `UPDATE payments SET status='captured', gateway_ref=$2 WHERE payment_id=$1`, which fails if another
-- payment has that reference.
unfoldable pub mark_captured : Payment → ℕ → Store → Option Store
mark_captured payment ref db =
    let is_other = λ (p : Payment).
      not (p.payment_id == payment.payment_id)
      && (same_gateway p.gateway payment.gateway && p.gateway_ref == ref) in
    if any is_other db.payments
    then none
    else some (record db {
      payments =
          update_rows (λ p. p.payment_id == payment.payment_id)
            (λ p. record p { status = captured; gateway_ref = ref }) db.payments;
    })

-- A capture that reported an error is refunded through the gateway; one that threw is not.
unfoldable pub refund_failed : Env → ℕ → ℕ → ℕ → ℕ → CaptureResult × Store → Reply × Store
unfolding issue_refund
refund_failed env payment reservation ref amount (capture_done, db) = (confirmed_reply, db)
refund_failed env payment reservation ref amount (node_unreachable, db) =
    let (r, db') = issue_refund env payment reservation ref amount db in
    (failed_refund node_unreachable r, db')
refund_failed env payment reservation ref amount (already_captured, db) =
    let (r, db') = issue_refund env payment reservation ref amount db in
    (failed_refund already_captured r, db')
refund_failed env payment reservation ref amount (node_refused, db) = (server_error, db)
refund_failed env payment reservation ref amount (capture_thrown e, db) = (server_error, db)

-- The secrets and the HMAC of the deployment; a reference is a number, spelled by `text_of`.
pub record Secrets : Type 0 where
  pub hmac : List ℕ → List ℕ → List ℕ
  pub key_secret : List ℕ
  pub webhook_secret : Option (List ℕ)
  pub text_of : ℕ → List ℕ

abbrev pub is_order : ℕ → ℕ → Payment → Bool
is_order reservation ref p =
    (p.reservation_id == reservation) && (p.gateway_ref == ref && is_created p.status)

-- The end of /confirm/verify, once a payment has been found and its signature checked.
unfoldable pub verify_payment :
    Env → NodeReply → Reservation → Payment → ℕ → Bool → Store → Reply × Store
unfolding mark_captured refund_failed commit_node_and_capture
verify_payment env reply resv payment ref false db =
    (invalid_signature, set_payment_status payment.payment_id failed db)
verify_payment env reply resv payment ref true db = elim (mark_captured payment ref db) [
  | none ↦ (server_error, db)
  | some db' ↦
      refund_failed env payment.payment_id resv.reservation_id ref resv.quoted_paise
        (commit_node_and_capture reply resv db')
]

-- POST /reservations/:id/confirm/verify, with the order, the payment and the signature of the body.
unfoldable pub confirm_verify :
    Env → Secrets → NodeReply → ℕ → ℕ → ℕ → ℕ → Option (List ℕ) → Store → Reply × Store
unfolding owned verify_payment
confirm_verify env keys reply user id order ref signature db =
    if not env.is_configured then (no_live_gateway, db) else elim (owned user id db) [
      | none ↦ (reservation_not_found, db)
      | some resv ↦
          if not (can_transition resv.status confirmed)
          then (cannot_confirm_from resv.status, db)
          else elim (first (is_order resv.reservation_id order) db.payments) [
            | none ↦ (payment_order_not_found, db)
            | some payment ↦
                verify_payment env reply resv payment ref
                  (verify_payment_signature keys.hmac keys.key_secret (keys.text_of order)
                    (keys.text_of ref) signature)
                  db
          ]
    ]

abbrev pub is_open_order : ℕ → Payment → Bool
is_open_order ref p = (p.gateway_ref == ref) && is_created p.status

-- The store that the webhook leaves once the payment has been marked.
unfoldable pub webhook_capture : Env → NodeReply → Payment → ℕ → Store → Store
unfolding refund_failed commit_node_and_capture
webhook_capture env reply payment ref db = elim (find_reservation payment.reservation_id db) [
  | none ↦ db
  | some resv ↦
      if can_transition resv.status confirmed
      then (refund_failed env payment.payment_id payment.reservation_id ref payment.amount_paise
          (commit_node_and_capture reply resv db)).1
      else db
]

-- The handling of `payment.captured` for an order and a payment.
unfoldable pub payment_captured : Env → NodeReply → ℕ → ℕ → Store → Store
unfolding mark_captured webhook_capture
payment_captured env reply order ref db = elim (first (is_open_order order) db.payments) [
  | none ↦ db
  | some payment ↦ elim (mark_captured payment ref db) [
    | none ↦ db
    | some db' ↦ webhook_capture env reply payment ref db'
  ]
]

-- POST /webhooks/razorpay; `event` is the order and the payment of a `payment.captured`, and `none`
-- any other event. Errors on the way are logged and answered like success.
unfoldable pub webhook :
    Env → Secrets → NodeReply → List ℕ → Option (List ℕ) → Option (ℕ × ℕ) → Store → Reply × Store
unfolding payment_captured
webhook env keys reply raw signature event db = elim keys.webhook_secret [
  | none ↦ (server_error, db)
  | some secret ↦
      if not (verify_webhook_signature keys.hmac secret raw signature)
      then (webhook_refused, db)
      else elim event [
        | none ↦ (webhook_received, db)
        | some (order, ref) ↦ (webhook_received, payment_captured env reply order ref db)
      ]
]
