-- ===== src/Tests/Money.antt =====
-- Settlement, capture, prices and the ledger on small amounts.
use nodeva.Prelude.{false, ℕ, ◌≡◌, ◌⊎◌, refl, arith, false, List, [], ◌∷◌, if◌then◌else◌}
use nodeva.Prelude.Int.{◌+ℤ◌, ℤ, pos, negsuc}
use nodeva.Reservations.Machine.{
  running, completed, failed_user, settle_full, held, settle_metered, settlement, can_transition,
}
use nodeva.Payments.Settle.{split_total, ok}
use nodeva.Payments.Refunds.{issue_refund, refund_done, refund_queued, is_waiting}
use nodeva.Payments.Refunds.Retries.{
  is_waiting-after_retries, after_retries, issue_refund_never_lost, Requeued, first_try,
}
use nodeva.Ledger.{
  account_id, Result, err, capture, key_used, post, check_violation, unique_violation,
}
use nodeva.Ledger.Balance.{post_lem, posting}
use nodeva.Store.{Env, Store, RefundRetry, waiting}
use nodeva.Api.Settlement.{charge_for, settle_reservation, thrown, cannot_settle_from}
use nodeva.Api.Settlement.Outcome.{settle_reservation_once, settle_reservation_one_paisa}
use nodeva.Tests.World.{store_of, env, no_books, node_of, an_hour, world, no_books-IsBalanced}

-- A reservation of one paisa.
abbrev a_paisa : Store
a_paisa = store_of (record (an_hour running) { quoted_paise = 1 } ∷ [])

settle_reservation_one_paisa_example :
    settle_reservation env 5 completed 60 a_paisa ≡ (thrown check_violation, a_paisa)
unfolding charge_for settlement can_transition
settle_reservation_one_paisa_example =
    settle_reservation_one_paisa env 5 completed 60 a_paisa
      {resv = record (an_hour running) { quoted_paise = 1 }} {rule = settle_full} {node = node_of 1}
      refl refl refl refl refl (omega arith) refl

settle_reservation_once_example :
    let db' = (settle_reservation env 5 completed 60 (world running)).1 in
    settle_reservation env 5 failed_user 90 db' ≡ (cannot_settle_from completed, db')
unfolding settle_reservation settlement can_transition post account_id split_total ◌+ℤ◌
settle_reservation_once_example =
    settle_reservation_once env env 5 completed failed_user 60 90 (world running)
      {rule = settle_metered} no_books-IsBalanced refl refl

abbrev ten_paise : List (ℕ × ℤ)
ten_paise = (0, pos 10) ∷ ((1, negsuc 9) ∷ [])

post_lem_example : post capture 5 ten_paise no_books ≡ (
    if key_used capture 5 no_books
    then err unique_violation
    else Result.ok (posting capture 5 ten_paise no_books))
unfolding ◌+ℤ◌
post_lem_example = post_lem capture 5 ten_paise no_books no_books-IsBalanced (refl, (refl, tt)) refl

-- A gateway that refuses refunds.
abbrev refusing : Env
refusing = record env { refund_accepted = λ ref amount. false }

issue_refund_never_lost_example :
    let (r, db') = issue_refund refusing 3 5 41 6000 (world held) in
    ((r ≡ refund_done) × (db'.gateway_refunds ≡ (41, 6000) ∷ []) × (db'.refund_retries ≡ []))
    ⊎ ((r ≡ refund_queued)
        × (db'.gateway_refunds ≡ [])
        × Requeued (first_try refusing.now 3 5 41 6000) [] db'.refund_retries)
issue_refund_never_lost_example = issue_refund_never_lost refusing 3 5 41 6000 (world held)

abbrev ninth : RefundRetry
ninth = record {
  payment_id = 3;
  reservation_id = 5;
  gateway_ref = 41;
  amount_paise = 6000;
  attempts = 8;
  next_attempt_at = 900;
  status = waiting;
}

is_waiting-after_retries_example :
    is_waiting (after_retries (refusing ∷ refusing ∷ []) ninth).status ≡ false
is_waiting-after_retries_example =
    is_waiting-after_retries (refusing ∷ refusing ∷ []) ninth (omega arith) (omega arith)
