-- ===== src/Api/Settlement/Invariant.antt =====
-- What every call of `settleReservation` keeps, however it ends.
use nodeva.Store.Moves.{edge-Pays, posting-keeps}
use nodeva.Store.Paid.{Pays, Pays-refl}
use nodeva.Prelude.{
  ap, ◌≢◌, arith, ℕ, ◌-◌, ◌≤◌, ◌≡◌, ◌⊎◌, inl, inr, refl, true, false, some, Option-cases,
  Bool-cases, ◌∙◌, sym,
}
use nodeva.Reservations.Machine.{confirmed, Status, Rule, can_transition, settlement}
use nodeva.Ledger.{
  ok, err, DbError, type_error, check_violation, unique_violation, settle, key_used,
}
use nodeva.Ledger.Balance.{
  IsBalanced, post_cases, posting-IsBalanced, Extends-IsBalanced, Extends-key_used,
}
use nodeva.Store.{set_status, Store, Env, Reservation, Node, find_reservation, find_node}
use nodeva.Store.Lifecycle.{Advances, Keyed, Advances-refl, set_status-Advances, find-id}
use nodeva.Api.Settlement.{
  is_settled, settle_accounts, settle_entries, settle_txn, charge_for, pay_out, after_settle,
  settle_reservation, settled,
}
use nodeva.Api.Settlement.Entries.{charge_for-le, total-settle_entries}
use nodeva.Api.Settlement.Effects.{settle_accounts-Extends, pay_out_frame, settled_store}

settle_txn_cases :
    (resv : Reservation) (outcome : Status) (charge : ℕ) (db : Store)
    → IsBalanced db.ledger
    → charge ≤ resv.quoted_paise
    → ((e : DbError) × (settle_txn resv outcome charge db ≡ err e))
      ⊎ ((node : Node) × (find_node resv.node_id db ≡ some node)
          × (key_used settle resv.reservation_id db.ledger ≡ false)
          × (settle_txn resv outcome charge db ≡ ok (settled_store resv node outcome charge db)))
unfolding settle_txn
settle_txn_cases resv outcome charge db b le = elim (Option-cases (find_node resv.node_id db)) [
  | inl e ↦ inl (type_error, rw (e, settle_txn))
  | inr (node, e) ↦ at_node node e
]
  where
    at_node :
        (node : Node)
        → find_node resv.node_id db ≡ some node
        → ((e : DbError) × (settle_txn resv outcome charge db ≡ err e))
          ⊎ ((n : Node) × (find_node resv.node_id db ≡ some n)
              × (key_used settle resv.reservation_id db.ledger ≡ false)
              × (settle_txn resv outcome charge db ≡ ok (settled_store resv n outcome charge db)))
    at_node node e =
        let a = settle_accounts resv.user_id node.provider_id db.ledger in
        let es = settle_entries a.0 resv.quoted_paise charge in
        let x = settle_accounts-Extends resv.user_id node.provider_id db.ledger in
        elim (post_cases settle resv.reservation_id es a.1 (Extends-IsBalanced db.ledger a.1 x b)
          (total-settle_entries a.0 resv.quoted_paise charge le)) [
            | inl (new, step) ↦ inr (
              node,
              e,
              sym (Extends-key_used settle resv.reservation_id db.ledger a.1 x) ∙ new,
              rw (e, settle_txn) (rw step),
            )
            | inr (inl used) ↦ inl (unique_violation, rw (e, settle_txn) (rw used))
            | inr (inr zero) ↦ inl (check_violation, rw (e, settle_txn) (rw zero))
          ]

after_settle-err :
    (env : Env) (resv : Reservation) (outcome : Status) (charge : ℕ) (db : Store) (e : DbError)
    → let r = after_settle env resv outcome charge db (err e) in
      (r.1 ≡ db) × (is_settled r.0 ≡ false)
unfolding after_settle
after_settle-err env resv outcome charge db unique_violation = (refl, refl)
after_settle-err env resv outcome charge db _ = (refl, refl)

-- A settlement either leaves the store alone or is the one transaction, followed by the payout.
pub settle_cases :
    (env : Env) (id : ℕ) (outcome : Status) (seconds : ℕ) (db : Store)
    → IsBalanced db.ledger
    → (((settle_reservation env id outcome seconds db).1 ≡ db)
        × (is_settled (settle_reservation env id outcome seconds db).0 ≡ false))
      ⊎ ((resv : Reservation) × (rule : Rule) × (node : Node) × (find_reservation id db ≡ some resv)
          × (settlement outcome ≡ some rule)
          × (can_transition resv.status outcome ≡ true)
          × (let charge = charge_for rule resv seconds in
              settle_reservation env id outcome seconds db ≡ (
                settled outcome charge (resv.quoted_paise - charge),
                pay_out env resv
                    (resv.quoted_paise - charge)
                    (settled_store resv node outcome charge db),
              )))
unfolding settle_reservation
settle_cases env id outcome seconds db b = elim (Option-cases (find_reservation id db)) [
  | inl e ↦ inl (rw (e, settle_reservation), rw (e, settle_reservation))
  | inr (resv, e) ↦ elim (Option-cases (settlement outcome)) [
    | inl n ↦ inl (rw (e, settle_reservation) (rw n), rw (e, settle_reservation) (rw n))
    | inr (rule, r) ↦ elim (Bool-cases (can_transition resv.status outcome)) [
      | inr f ↦ inl (rw (e, settle_reservation) (rw (r, f)), rw (e, settle_reservation) (rw (r, f)))
      | inl t ↦
          elim (settle_txn_cases resv outcome (charge_for rule resv seconds) db b
            (charge_for-le rule resv seconds)) [
              | inl (x, failed) ↦
                  let rolled_back =
                    after_settle-err env resv outcome (charge_for rule resv seconds) db x in
                  inl (
                    rw (e, settle_reservation) (rw (r, t, failed) rolled_back.0),
                    rw (e, settle_reservation) (rw (r, t, failed) rolled_back.1),
                  )
              | inr (node, _, _, done) ↦
                  inr (resv, rule, node, e, r, t, rw (e, settle_reservation) (rw (r, t, done)))
            ]
    ]
  ]
]

-- However a call of `settleReservation` ends, every ledger transaction still sums to zero.
pub settle_reservation-IsBalanced :
    (env : Env) (id : ℕ) (outcome : Status) (seconds : ℕ) (db : Store)
    → IsBalanced db.ledger
    → IsBalanced (settle_reservation env id outcome seconds db).1.ledger
settle_reservation-IsBalanced env id outcome seconds db b =
    elim (settle_cases env id outcome seconds db b) [
      | inl (same, _) ↦ rw same b
      | inr (resv, rule, node, _, _, _, done) ↦
          let charge = charge_for rule resv seconds in
          let a = settle_accounts resv.user_id node.provider_id db.ledger in
          rw
            (
              done,
              (pay_out_frame env resv (resv.quoted_paise - charge)
                  (settled_store resv node outcome charge db)).0,
            )
            (posting-IsBalanced settle resv.reservation_id
              (settle_entries a.0 resv.quoted_paise charge) a.1
              (Extends-IsBalanced db.ledger a.1
                (settle_accounts-Extends resv.user_id node.provider_id db.ledger) b)
              (total-settle_entries a.0 resv.quoted_paise charge (charge_for-le rule resv seconds)))
    ]

-- However a call of `settleReservation` ends, each reservation is as it was or has moved along one
-- edge of the lifecycle with nothing but its status changed, and none is added or removed.
pub settle_reservation-Advances :
    (env : Env) (id : ℕ) (outcome : Status) (seconds : ℕ) (db : Store)
    → IsBalanced db.ledger
    → Keyed db.reservations
    → Advances db.reservations (settle_reservation env id outcome seconds db).1.reservations
settle_reservation-Advances env id outcome seconds db b k =
    elim (settle_cases env id outcome seconds db b) [
      | inl (same, _) ↦ rw same (Advances-refl db.reservations)
      | inr (resv, rule, node, e, _, t, done) ↦
          let charge = charge_for rule resv seconds in
          rw
            (
              done,
              (pay_out_frame env resv (resv.quoted_paise - charge)
                  (settled_store resv node outcome charge db)).1,
            )
            (rw (find-id id db.reservations e)
              (set_status-Advances id outcome db.reservations k e t))
    ]

settlement-confirmed :
    (outcome : Status) {rule : Rule} → settlement outcome ≡ some rule → outcome ≢ confirmed
unfolding settlement
settlement-confirmed outcome {rule} h e = ground (arith, h, e)

-- However a call of `settleReservation` ends, the captures stay in the ledger, and only what was
-- captured is past its capture.
pub settle_reservation-Pays :
    (env : Env) (id : ℕ) (outcome : Status) (seconds : ℕ) (db : Store)
    → IsBalanced db.ledger
    → Keyed db.reservations
    → Pays db (settle_reservation env id outcome seconds db).1
settle_reservation-Pays env id outcome seconds db b k =
    elim (settle_cases env id outcome seconds db b) [
      | inl (same, _) ↦ rw same (Pays-refl db)
      | inr (resv, rule, node, e, ruled, t, done) ↦
          let charge = charge_for rule resv seconds in
          let a = settle_accounts resv.user_id node.provider_id db.ledger in
          let frame =
            pay_out_frame env resv (resv.quoted_paise - charge)
              (settled_store resv node outcome charge db) in
          rw done (
            edge-Pays id outcome db _ {r = resv} k e
              (λ i c. rw frame.0 (
                posting-keeps settle resv.reservation_id
                  (settle_entries a.0 resv.quoted_paise charge) db.ledger a.1
                  (settle_accounts-Extends resv.user_id node.provider_id db.ledger) i c))
              (frame.1
                ∙ ap (λ j. set_status j outcome db.reservations) (find-id id db.reservations e))
              t (settlement-confirmed outcome {rule = rule} ruled))
    ]
