-- ===== src/Api/Confirm/Money.antt =====
-- What the confirming handlers keep: balanced transactions and the edges of the lifecycle.
use nodeva.Store.Paid.{Pays, Pays-refl, Pays-around}
use mathlib.Core.Path.{subst}
use nodeva.Prelude.{
  ℕ, ◌≡◌, inl, inr, refl, arith, Bool, true, false, List, Option, some, first, if◌then◌else◌,
  Bool-cases, Option-cases, sym,
}
use nodeva.Reservations.Machine.{confirmed, can_transition}
use nodeva.Payments.Razorpay.{verify_webhook_signature}
use nodeva.Payments.Refunds.{issue_refund}
use nodeva.Ledger.Balance.{IsBalanced}
use nodeva.Store.{Store, Env, Reservation, Payment, find_reservation}
use nodeva.Store.Lifecycle.{Advances, Keyed, Advances-refl}
use nodeva.Api.Capture.{NodeReply, CaptureResult, commit_node_and_capture}
use nodeva.Api.Capture.Effects.{
  commit_node_and_capture-Pays, commit_node_and_capture-IsBalanced,
  commit_node_and_capture-Advances,
}
use nodeva.Api.Confirm.{
  requires_payment, live_name, new_payment, add_payment, Secrets, owned, confirm, confirm_order,
  finish_local, mark_captured, refund_failed, verify_payment, confirm_verify, webhook_capture,
  payment_captured, webhook, is_order, is_open_order, ref_taken,
}

-- Every transaction sums to zero, reservations have moved along edges only, and into the states past a
-- capture only with one.
pub record Keeps (db db' : Store) : Type 0 where
  pub balanced : IsBalanced db'.ledger
  pub advanced : Advances db.reservations db'.reservations
  pub paid : Pays db db'

-- The same reservations and the same ledger.
pub record SameBooks (db db' : Store) : Type 0 where
  pub same_reservations : db'.reservations ≡ db.reservations
  pub same_ledger : db'.ledger ≡ db.ledger

pub SameBooks-Keeps : (db db' : Store) → SameBooks db db' → IsBalanced db.ledger → Keeps db db'
SameBooks-Keeps db db' s b = record {
  balanced = rw s.same_ledger b;
  advanced = rw s.same_reservations (Advances-refl db.reservations);
  paid = Pays-around db db db db' refl refl (Pays-refl db) s.same_reservations s.same_ledger;
}

-- Changes to other tables before and after an operation are no matter.
pub Keeps-around : (a b c d : Store) → SameBooks a b → Keeps b c → SameBooks c d → Keeps a d
Keeps-around a b c d before k after = record {
  balanced = rw after.same_ledger k.balanced;
  advanced = rw (after.same_reservations, ← before.same_reservations) k.advanced;
  paid =
      Pays-around a b c d before.same_reservations before.same_ledger k.paid after.same_reservations
        after.same_ledger;
}

commit-Keeps :
    (reply : NodeReply) (id : ℕ) (db : Store) {resv : Reservation}
    → IsBalanced db.ledger
    → Keyed db.reservations
    → find_reservation id db ≡ some resv
    → can_transition resv.status confirmed ≡ true
    → Keeps db (commit_node_and_capture reply resv db).1
commit-Keeps reply id db {resv} b k e t = record {
  balanced = commit_node_and_capture-IsBalanced reply resv db b;
  advanced = commit_node_and_capture-Advances reply id db b k e t;
  paid = commit_node_and_capture-Pays reply id db b k e;
}

pub owned-find :
    (user id : ℕ) (db : Store) {resv : Reservation}
    → owned user id db ≡ some resv
    → (find_reservation id db ≡ some resv) × (resv.user_id ≡ user)
unfolding owned
owned-find user id db {resv} e = ground arith

mark_captured-SameBooks :
    (payment : Payment) (ref : ℕ) (db : Store) {db' : Store}
    → mark_captured payment ref db ≡ some db'
    → SameBooks db db'
unfolding mark_captured
mark_captured-SameBooks payment ref db e = ground arith

refund_failed-SameBooks :
    (env : Env) (payment reservation ref amount : ℕ) (r : CaptureResult × Store)
    → SameBooks r.1 (refund_failed env payment reservation ref amount r).1
unfolding refund_failed issue_refund
refund_failed-SameBooks env payment reservation ref amount r = ground arith

finish_local-SameBooks :
    (reservation ref : ℕ) (r : CaptureResult × Store)
    → SameBooks r.1 (finish_local reservation ref r).1
unfolding finish_local
finish_local-SameBooks reservation ref r = ground arith

same_store : (db : Store) → IsBalanced db.ledger → Keeps db db
same_store db b = record {
  balanced = b;
  advanced = Advances-refl db.reservations;
  paid = Pays-refl db;
}

confirm_order-Keeps :
    (env : Env) (reply : NodeReply) (payment ref id : ℕ) (db : Store) {resv : Reservation}
    → IsBalanced db.ledger
    → Keyed db.reservations
    → find_reservation id db ≡ some resv
    → can_transition resv.status confirmed ≡ true
    → Keeps db (confirm_order env reply payment ref resv db).1
unfolding confirm_order
confirm_order-Keeps env reply payment ref id db {resv} b k e t =
    let db' = add_payment (new_payment env payment ref resv) db in
    let before : SameBooks db db' = record { same_reservations = refl; same_ledger = refl } in
    let kept = commit-Keeps reply id db' {resv = resv} b k e t in
    elim (Bool-cases (ref_taken (live_name env.is_configured) ref db.payments)) [
      | inl taken ↦ rw taken (same_store db b)
      | inr new ↦ elim (Bool-cases env.is_configured) [
        | inl live ↦ rw new (
            rw live
              (SameBooks-Keeps db _ (record { same_reservations = refl; same_ledger = refl }) b))
        | inr local ↦ rw new (
            subst
              (λ c.
                Keeps db
                  (if c
                    then (requires_payment ref resv.quoted_paise, db')
                    else finish_local resv.reservation_id ref
                        (commit_node_and_capture reply resv db')).1)
              (sym local)
              (Keeps-around db db' (commit_node_and_capture reply resv db').1 _ before kept (
                finish_local-SameBooks resv.reservation_id ref
                  (commit_node_and_capture reply resv db'))))
      ]
    ]

verify_payment-Keeps :
    (env : Env) (reply : NodeReply) (payment : Payment) (ref id : ℕ) (valid : Bool) (db : Store)
    {resv : Reservation}
    → IsBalanced db.ledger
    → Keyed db.reservations
    → find_reservation id db ≡ some resv
    → can_transition resv.status confirmed ≡ true
    → Keeps db (verify_payment env reply resv payment ref valid db).1
unfolding verify_payment
verify_payment-Keeps env reply payment ref id false db b k e t = record {
  balanced = b;
  advanced = Advances-refl db.reservations;
  paid = Pays-around db db db _ refl refl (Pays-refl db) refl refl;
}
verify_payment-Keeps env reply payment ref id true db {resv} b k e t =
    elim (Option-cases (mark_captured payment ref db)) [
      | inl n ↦ rw (n, verify_payment) (same_store db b)
      | inr (db', m) ↦
          let s = mark_captured-SameBooks payment ref db m in
          let kept =
            commit-Keeps reply id db' {resv = resv} (rw s.same_ledger b) (rw s.same_reservations k)
              (rw s.same_reservations e) t in
          rw (m, verify_payment)
            (Keeps-around db db' (commit_node_and_capture reply resv db').1 _ s kept (
              refund_failed-SameBooks env payment.payment_id resv.reservation_id ref
                resv.quoted_paise (commit_node_and_capture reply resv db')))
    ]

-- However POST /reservations/:id/confirm ends, ledger transactions sum to zero and reservations have
-- moved along edges of the lifecycle only.
pub confirm-Keeps :
    (env : Env) (reply : NodeReply) (order : Option ℕ) (payment user id : ℕ) (db : Store)
    → IsBalanced db.ledger
    → Keyed db.reservations
    → Keeps db (confirm env reply order payment user id db).1
unfolding confirm
confirm-Keeps env reply order payment user id db b k = elim (Option-cases (owned user id db)) [
  | inl n ↦ rw (n, confirm) (same_store db b)
  | inr (resv, o) ↦ elim (Bool-cases (can_transition resv.status confirmed)) [
    | inr f ↦ rw (o, confirm) (rw f (same_store db b))
    | inl t ↦ elim (Option-cases order) [
      | inl n ↦ rw (o, confirm) (rw (t, n) (same_store db b))
      | inr (ref, r) ↦
          rw (o, confirm)
            (rw (t, r)
              (confirm_order-Keeps env reply payment ref id db b k (owned-find user id db o).0 t))
    ]
  ]
]

-- However POST /reservations/:id/confirm/verify ends, ledger transactions sum to zero and
-- reservations have moved along edges of the lifecycle only.
pub confirm_verify-Keeps :
    (env : Env) (keys : Secrets) (reply : NodeReply) (user id order ref : ℕ)
    (signature : Option (List ℕ)) (db : Store)
    → IsBalanced db.ledger
    → Keyed db.reservations
    → Keeps db (confirm_verify env keys reply user id order ref signature db).1
unfolding confirm_verify
confirm_verify-Keeps env keys reply user id order ref signature db b k =
    elim (Bool-cases env.is_configured) [
      | inr f ↦ rw f (same_store db b)
      | inl live ↦ elim (Option-cases (owned user id db)) [
        | inl n ↦ rw (live, n, confirm_verify) (same_store db b)
        | inr (resv, o) ↦ elim (Bool-cases (can_transition resv.status confirmed)) [
          | inr f ↦ rw (live, o, confirm_verify) (rw f (same_store db b))
          | inl t ↦ elim (Option-cases (first (is_order resv.reservation_id order) db.payments)) [
            | inl n ↦ rw (live, o, confirm_verify) (rw (t, n) (same_store db b))
            | inr (payment, p) ↦
                rw (live, o, confirm_verify)
                  (rw (t, p)
                    (verify_payment-Keeps env reply payment ref id _ db b k
                      (owned-find user id db o).0 t))
          ]
        ]
      ]
    ]

webhook_capture-Keeps :
    (env : Env) (reply : NodeReply) (payment : Payment) (ref : ℕ) (db db' : Store)
    → SameBooks db db'
    → IsBalanced db.ledger
    → Keyed db.reservations
    → Keeps db (webhook_capture env reply payment ref db')
unfolding webhook_capture
webhook_capture-Keeps env reply payment ref db db' s b k =
    let b' : IsBalanced db'.ledger = rw s.same_ledger b in
    let k' : Keyed db'.reservations = rw s.same_reservations k in
    elim (Option-cases (find_reservation payment.reservation_id db')) [
      | inl n ↦ rw (n, webhook_capture) (SameBooks-Keeps db db' s b)
      | inr (resv, e) ↦ elim (Bool-cases (can_transition resv.status confirmed)) [
        | inr f ↦ rw (e, webhook_capture) (rw f (SameBooks-Keeps db db' s b))
        | inl t ↦
            rw (e, webhook_capture)
              (rw t (
                Keeps-around db db' (commit_node_and_capture reply resv db').1 _ s
                  (commit-Keeps reply payment.reservation_id db' b' k' e t)
                  (refund_failed-SameBooks env payment.payment_id payment.reservation_id ref
                    payment.amount_paise (commit_node_and_capture reply resv db'))))
      ]
    ]

payment_captured-Keeps :
    (env : Env) (reply : NodeReply) (order ref : ℕ) (db : Store)
    → IsBalanced db.ledger
    → Keyed db.reservations
    → Keeps db (payment_captured env reply order ref db)
unfolding payment_captured
payment_captured-Keeps env reply order ref db b k =
    elim (Option-cases (first (is_open_order order) db.payments)) [
      | inl n ↦ rw (n, payment_captured) (same_store db b)
      | inr (payment, p) ↦ elim (Option-cases (mark_captured payment ref db)) [
        | inl n ↦ rw (p, payment_captured) (rw n (same_store db b))
        | inr (db', m) ↦
            rw (p, payment_captured)
              (rw m (
                webhook_capture-Keeps env reply payment ref db db'
                  (mark_captured-SameBooks payment ref db m) b k))
      ]
    ]

-- However the webhook ends, ledger transactions sum to zero and reservations have moved along edges
-- of the lifecycle only.
pub webhook-Keeps :
    (env : Env) (keys : Secrets) (reply : NodeReply) (raw : List ℕ) (signature : Option (List ℕ))
    (event : Option (ℕ × ℕ)) (db : Store)
    → IsBalanced db.ledger
    → Keyed db.reservations
    → Keeps db (webhook env keys reply raw signature event db).1
unfolding webhook
webhook-Keeps env keys reply raw signature event db b k = elim (Option-cases keys.webhook_secret) [
  | inl n ↦ rw (n, webhook) (same_store db b)
  | inr (secret, s) ↦ elim (Bool-cases (verify_webhook_signature keys.hmac secret raw signature)) [
    | inr f ↦ rw (s, webhook) (rw f (same_store db b))
    | inl v ↦ elim (Option-cases event) [
      | inl n ↦ rw (s, webhook) (rw (v, n) (same_store db b))
      | inr (e, r) ↦ rw (s, webhook) (rw (v, r) (payment_captured-Keeps env reply e.0 e.1 db b k))
    ]
  ]
]
