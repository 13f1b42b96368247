-- ===== src/Tests/Confirming.antt =====
-- Booking, and the three ways to confirm.
use nodeva.Prelude.Int.{pos}
use nodeva.Store.Paid.{is_paid}
use nodeva.System.Safe.{IsSafe, run-IsSafe}
use nodeva.System.{Event, books, verifies, completes, expires, retries, run}
use nodeva.Prelude.{false, none, ℕ, ◌≡◌, ◌⊎◌, ◌↔◌, refl, arith, true, Option, some, List, [], ◌∷◌}
use nodeva.Reservations.Machine.{held, completed, held, confirmed, expired, can_transition}
use nodeva.Reservations.Reconciler.{expire_stale_holds}
use nodeva.Payments.Refunds.{refund_done, refund_queued}
use nodeva.Payments.Refunds.Retries.{Requeued, first_try}
use nodeva.Payments.Razorpay.{from_hex, verify_payment_signature}
use nodeva.Payments.Razorpay.Signatures.{verify_payment_signature_iff, IsBytes}
use nodeva.Receipts.{integer, other, Body, Expected, admitted, admit_receipt}
use nodeva.Receipts.Checked.{NotAbove, NotUpTo, admit_receipt_iff}
use nodeva.Store.{Env, Store, captured, set_status}
use nodeva.Store.Lifecycle.{IsSound}
use nodeva.Api.Capture.{accepted, offline, refused, node_unreachable}
use nodeva.Api.Booking.{Desk, Booking, receipt, book}
use nodeva.Api.Booking.Slots.{Disjoint, Books, book_lem, book-Disjoint}
use nodeva.Api.Confirm.{
  Secrets, confirm_verify, failed_refund, server_error, payment_captured, owned, mark_captured,
}
use nodeva.Api.Confirm.Compensation.{
  CapturedAs, confirm_verify_compensates, confirm_verify_refused, webhook_late_payment,
}
use nodeva.Tests.World.{env, an_hour, an_order, world, world-IsSound}

-- An HMAC that answers with one byte.
abbrev keys : Secrets
keys = record {
  hmac = λ key text. 171 ∷ [];
  key_secret = 1 ∷ [];
  webhook_secret = some (2 ∷ []);
  text_of = λ ref. 49 ∷ [];
}

-- "ab", the hexadecimal digits of that byte.
abbrev signature : Option (List ℕ)
signature = some (97 ∷ (98 ∷ []))

abbrev marked : Store
marked = record (world held) {
  payments = record an_order { status = captured; gateway_ref = 41 } ∷ [];
}

abbrev refusing : Env
refusing = record env { refund_accepted = λ ref amount. false }

confirm_verify_compensates_example :
    let (reply, out) = confirm_verify refusing keys offline 7 5 40 41 signature (world held) in
    (out.reservations ≡ set_status 5 expired (world held).reservations)
    × (((reply ≡ failed_refund node_unreachable refund_done)
          × (out.gateway_refunds ≡ (41, 6000) ∷ []))
        ⊎ ((reply ≡ failed_refund node_unreachable refund_queued)
            × (out.gateway_refunds ≡ [])
            × Requeued (first_try 1000 3 5 41 6000) [] out.refund_retries))
unfolding owned can_transition verify_payment_signature mark_captured
confirm_verify_compensates_example =
    confirm_verify_compensates refusing keys 7 5 40 41 signature (world held) {resv = an_hour held}
      {payment = an_order} {db' = marked} refl refl refl refl refl refl

confirm_verify_refused_example :
    let (reply, out) = confirm_verify env keys refused 7 5 40 41 signature (world held) in
    (reply ≡ server_error)
    × (out.reservations ≡ (world held).reservations)
    × (out.ledger ≡ (world held).ledger)
    × (out.gateway_refunds ≡ [])
    × (out.refund_retries ≡ [])
    × CapturedAs 3 41 out.payments
unfolding owned can_transition verify_payment_signature mark_captured
confirm_verify_refused_example =
    confirm_verify_refused env keys 7 5 40 41 signature (world held) {resv = an_hour held}
      {payment = an_order} {db' = marked} refl refl refl refl refl refl

webhook_late_payment_example :
    let out = payment_captured env accepted 40 41 (world expired) in
    (out.reservations ≡ (world expired).reservations)
    × (out.ledger ≡ (world expired).ledger)
    × (out.gateway_refunds ≡ [])
    × (out.refund_retries ≡ [])
    × CapturedAs 3 41 out.payments
unfolding can_transition mark_captured
webhook_late_payment_example =
    webhook_late_payment env accepted 40 41 (world expired) {payment = an_order}
      {resv = an_hour expired} {db' = record marked { reservations = an_hour expired ∷ [] }} refl
      refl refl refl

byte : (key text : List ℕ) → IsBytes (keys.hmac key text)
byte key text = (omega arith, tt)

verify_payment_signature_iff_example :
    (verify_payment_signature keys.hmac (1 ∷ []) (49 ∷ []) (50 ∷ []) signature ≡ true)
    ↔ ((s : List ℕ) × (signature ≡ some s) × (from_hex s ≡ 171 ∷ []))
verify_payment_signature_iff_example =
    verify_payment_signature_iff keys.hmac byte (1 ∷ []) (49 ∷ []) (50 ∷ []) signature

-- The hour after the one that is taken.
abbrev next_hour : Booking
next_hour = record {
  user_id = 7;
  reservation_id = 6;
  node_id = 1;
  starts_at = 3600000;
  ends_at = 7200000;
}

abbrev body : Body
body = record {
  node_id = 1;
  reservation_id = 6;
  starts_at = integer (pos 3600000);
  ends_at = integer (pos 7200000);
  price_paise_hr = integer (pos 6000);
  hold_expires_at = integer (pos 9000);
}

abbrev desk : Desk
desk = record { now = 1000; verify_body = λ key b s. true }

book_lem_example :
    Books desk next_hour
      (receipt body 2)
      (expire_stale_holds 1000 (some 1) (world confirmed))
      (book desk next_hour (receipt body 2) (world confirmed))
book_lem_example = book_lem desk next_hour (receipt body 2) (world confirmed)

book-Disjoint_example :
    let db' = (book desk next_hour (receipt body 2) (world confirmed)).1 in
    IsSound db' × Disjoint db'.reservations
book-Disjoint_example =
    book-Disjoint desk next_hour (receipt body 2) (world confirmed) (world-IsSound confirmed)
      (refl, tt)

abbrev expected : Expected
expected = record {
  node_id = 1;
  reservation_id = 6;
  starts_at = 3600000;
  ends_at = 7200000;
  price_paise_hr = 6000;
}

-- The hold of this receipt ends at a date that is a text, and it names no price.
abbrev loose : Body
loose = record body { price_paise_hr = other none none; hold_expires_at = other none (some 500) }

admit_receipt_iff_example : (admit_receipt desk.verify_body 1000 11 loose 2 expected ≡ admitted) ↔ (
    (desk.verify_body 11 loose 2 ≡ true)
    × (loose.node_id ≡ expected.node_id)
    × (loose.starts_at ≡ integer (pos expected.starts_at))
    × (loose.ends_at ≡ integer (pos expected.ends_at))
    × (loose.reservation_id ≡ expected.reservation_id)
    × NotAbove none 6000
    × NotUpTo none 1000)
admit_receipt_iff_example = admit_receipt_iff desk.verify_body 1000 11 loose 2 expected

abbrev a_day : List Event
a_day =
    books desk next_hour (receipt body 2)
    ∷ verifies env keys accepted 7 5 40 41 signature
    ∷ completes true env 7 5 completed 60
    ∷ expires 9000
    ∷ retries env
    ∷ []

run-IsSafe_example : IsSafe (run a_day (world held))
unfolding is_paid
run-IsSafe_example = run-IsSafe a_day (world held) (record {
  sound = world-IsSound held;
  started = (λ e. cc, tt);
  apart = (refl, tt);
  paid = (λ e. cc, tt);
})
