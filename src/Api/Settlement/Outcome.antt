-- ===== src/Api/Settlement/Outcome.antt =====
-- What `settleReservation` answers, and that it settles a reservation once.
use nodeva.Prelude.{
  first, ◌==◌, ℕ, ◌+◌, ◌-◌, ◌<◌, ◌≡◌, ◌≢◌, inl, inr, arith, true, false, some, ◌∙◌, ap,
}
use nodeva.Reservations.Machine.{Status, Rule, can_transition, settlement}
use nodeva.Reservations.Machine.Graph.{terminal-can_transition, settlement-terminal}
use nodeva.Payments.Settle.{split_total}
use nodeva.Ledger.{
  Ledger, err, check_violation, settle, key_used, post, insert_transaction, insert_entries,
}
use nodeva.Ledger.Balance.{IsBalanced, Extends-key_used}
use nodeva.Store.{Store, Env, Reservation, Node, find_reservation, find_node, set_status}
use nodeva.Store.Lifecycle.{find-set_status, find-id}
use nodeva.Api.Settlement.{
  SettleAccounts, settle_accounts, settle_entries, settle_txn, charge_for, pay_out,
  settle_reservation, settled, cannot_settle_from, thrown, is_settled,
}
use nodeva.Api.Settlement.Entries.{charge_for-le}
use nodeva.Api.Settlement.Effects.{
  settle_accounts-Extends, pay_out_frame, settled_store, settle_txn_lem,
}
use nodeva.Api.Settlement.Invariant.{settle_cases}

module _ (env : Env) (id : ℕ) (outcome : Status) (seconds : ℕ) (db : Store) {resv : Reservation}
    {rule : Rule} {node : Node} (found : find_reservation id db ≡ some resv)
    (ruled : settlement outcome ≡ some rule) (legal : can_transition resv.status outcome ≡ true)
    (known : find_node resv.node_id db ≡ some node)
    (new : key_used settle resv.reservation_id db.ledger ≡ false)
    (positive : 0 < resv.quoted_paise) where
  pub settle_reservation_pays :
      IsBalanced db.ledger
      → charge_for rule resv seconds ≢ 1
      → let charge = charge_for rule resv seconds in
        (settle_reservation env id outcome seconds db ≡ (
          settled outcome charge (resv.quoted_paise - charge),
          pay_out env resv (resv.quoted_paise - charge) (settled_store resv node outcome charge db),
        ))
        × (charge + (resv.quoted_paise - charge) ≡ resv.quoted_paise)
  unfolding settle_reservation
  settle_reservation_pays balanced n =
      let le = charge_for-le rule resv seconds in
      let step =
        settle_txn_lem resv node outcome (charge_for rule resv seconds) db balanced known new le
          positive n in
      (rw (found, settle_reservation) (rw (ruled, legal, step)), omega arith)

  one_paisa_entries :
      (a : SettleAccounts) (txn : ℕ) (l : Ledger)
      → insert_entries txn (settle_entries a resv.quoted_paise 1) l ≡ err check_violation
  unfolding insert_entries settle_entries split_total
  one_paisa_entries a txn l = ground arith

  -- A charge of one paisa cannot be settled: the provider's part is zero, the schema refuses the
  -- entry, and the store stays as it was.
  pub settle_reservation_one_paisa :
      charge_for rule resv seconds ≡ 1
      → settle_reservation env id outcome seconds db ≡ (thrown check_violation, db)
  unfolding settle_reservation settle_txn post insert_transaction
  settle_reservation_one_paisa one =
      let a = settle_accounts resv.user_id node.provider_id db.ledger in
      let fresh =
        Extends-key_used settle resv.reservation_id db.ledger a.1
          (settle_accounts-Extends resv.user_id node.provider_id db.ledger)
        ∙ new in
      rw (found, settle_reservation)
        (rw (ruled, legal, one)
          (rw (known, settle_txn) (rw fresh (rw (one_paisa_entries a.0 a.1.next_id _)))))

refused_from :
    (env : Env) (id : ℕ) (outcome : Status) (seconds : ℕ) (db : Store) {resv : Reservation}
    {rule : Rule}
    → find_reservation id db ≡ some resv
    → settlement outcome ≡ some rule
    → can_transition resv.status outcome ≡ false
    → settle_reservation env id outcome seconds db ≡ (cannot_settle_from resv.status, db)
unfolding settle_reservation
refused_from env id outcome seconds db e r t = rw (e, settle_reservation) (rw (r, t))

-- Once a reservation is settled no further call settles it, whatever its outcome: a later call
-- with an outcome that has a rule is refused and leaves the store alone.
pub settle_reservation_once :
    (env later : Env) (id : ℕ) (outcome again : Status) (seconds more : ℕ) (db : Store)
    {rule : Rule}
    → IsBalanced db.ledger
    → is_settled (settle_reservation env id outcome seconds db).0 ≡ true
    → settlement again ≡ some rule
    → let db' = (settle_reservation env id outcome seconds db).1 in
      settle_reservation later id again more db' ≡ (cannot_settle_from outcome, db')
settle_reservation_once env later id outcome again seconds more db {rule} b s h =
    elim (settle_cases env id outcome seconds db b) [
      | inl (_, no_change) ↦ cc
      | inr (resv, r, node, e, o, _, done) ↦
          let charge = charge_for r resv seconds in
          let refund = resv.quoted_paise - charge in
          let paid = pay_out_frame env resv refund (settled_store resv node outcome charge db) in
          let stored =
            paid.1
            ∙ ap (λ k. set_status k outcome db.reservations) (find-id id db.reservations e) in
          let moved = find-set_status id outcome db.reservations e in
          let final =
            terminal-can_transition outcome again ((settlement-terminal outcome).1 (λ n. cc)) in
          rw done (
            refused_from later id again more
              (pay_out env resv refund (settled_store resv node outcome charge db))
              (ap (first (λ x. x.reservation_id == id)) stored ∙ moved) h final)
    ]
