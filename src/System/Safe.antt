-- ===== src/System/Safe.antt =====
-- What holds after any sequence of events.
use nodeva.Store.Paid.{Paid, Pays, Pays-Paid, is_paid}
use nodeva.Prelude.{ℕ, List, [], ◌∷◌, none, some, Option, inl, inr, arith}
use nodeva.Reservations.Reconciler.{NodeView, expire_stale_holds, reconcile_expired_mismatches}
use nodeva.Reservations.Reconciler.Sweep.{expire_stale_holds-Preserves}
use nodeva.Payments.Refunds.{process_refund_retries}
use nodeva.Ledger.Balance.{IsBalanced}
use nodeva.Store.{Store}
use nodeva.Store.Lifecycle.{IsSound, Preserves, Advances-Preserves}
use nodeva.Api.Booking.{Desk, Booking, ReserveAnswer, book}
use nodeva.Api.Booking.Slots.{Disjoint, book_lem, book-Disjoint}
use nodeva.Api.Confirm.Money.{Keeps, confirm-Keeps, confirm_verify-Keeps, webhook-Keeps}
use nodeva.Api.JobResult.Groups.{on_job_result-Preserves}
use nodeva.Api.JobSubmit.Pairs.{submit_job-Preserves}
use nodeva.Api.JobSubmit.Tiebreak.{tiebreak-Preserves}
use nodeva.Api.Complete.Guards.{complete-Preserves}
use nodeva.Api.Nodes.{enroll, retire}
use nodeva.System.{
  Event, books, confirms, verifies, hears, submits, tiebreaks, reports, completes, enrolls, retires,
  expires, reconciles, retries, handle, run,
}
use nodeva.System.Rows.{
  Started, Within, Within-Started, Within-Keyed, Within-Disjoint, Evolves-Within,
}
use nodeva.System.Frames.{
  reconcile-Pays, SameBooks, reconcile-Within, process_refund_retries-SameBooks, enroll-SameBooks,
  retire-SameBooks,
}

-- Every ledger transaction sums to zero under fresh ids, reservations have distinct ids, none is
-- `pending`, no two that occupy one node overlap, and each that is past its capture has the capture in
-- the ledger.
pub record IsSafe (db : Store) : Type 0 where
  pub sound : IsSound db
  pub started : Started db.reservations
  pub apart : Disjoint db.reservations
  pub paid : Paid db.ledger db.reservations

Within-IsSafe :
    (db db' : Store)
    → IsSafe db
    → IsBalanced db'.ledger
    → Within db.reservations db'.reservations
    → Pays db db'
    → IsSafe db'
Within-IsSafe db db' s b w p = record {
  sound = record {
    balanced = b;
    keyed = Within-Keyed db.reservations db'.reservations w s.sound.keyed;
  };
  started = Within-Started db.reservations db'.reservations w;
  apart = Within-Disjoint db.reservations db'.reservations w s.apart;
  paid = Pays-Paid db db' p s.paid;
}

Preserves-IsSafe : (db db' : Store) → IsSafe db → Preserves db db' → IsSafe db'
Preserves-IsSafe db db' s p =
    Within-IsSafe db db' s p.balanced
      (Evolves-Within db.reservations db'.reservations p.evolved s.started) p.paid

Keeps-IsSafe : (db db' : Store) → IsSafe db → Keeps db db' → IsSafe db'
Keeps-IsSafe db db' s k =
    Preserves-IsSafe db db' s (Advances-Preserves db db' k.balanced k.advanced k.paid)

SameBooks-IsSafe : (db db' : Store) → IsSafe db → SameBooks db db' → IsSafe db'
SameBooks-IsSafe db db' s b = record {
  sound = record {
    balanced = rw b.ledger s.sound.balanced;
    keyed = rw b.reservations s.sound.keyed;
  };
  started = rw b.reservations s.started;
  apart = rw b.reservations s.apart;
  paid = rw (b.reservations, b.ledger) s.paid;
}

expire_stale_holds-IsSafe :
    (now : ℕ) (at_node : Option ℕ) (db : Store)
    → IsSafe db
    → IsSafe (expire_stale_holds now at_node db)
expire_stale_holds-IsSafe now at_node db s =
    Preserves-IsSafe db (expire_stale_holds now at_node db) s
      (expire_stale_holds-Preserves now at_node db s.sound).0

book-Started :
    (desk : Desk) (b : Booking) (answer : ReserveAnswer) (db : Store)
    → IsSafe db
    → Started (book desk b answer db).1.reservations
book-Started desk b answer db s =
    let swept = (expire_stale_holds-IsSafe desk.now (some b.node_id) db s).started in
    elim (book_lem desk b answer db) [
      | inl same ↦ rw same swept
      | inr (r, (_, _, _, _, _, _, _, _, _, _, is_hold), _, rows, _, _) ↦
          rw rows ((λ e. ground (arith, is_hold, e)), swept)
    ]

-- A new hold is not past its capture.
book-Paid :
    (desk : Desk) (b : Booking) (answer : ReserveAnswer) (db : Store)
    → IsSafe db
    → Paid (book desk b answer db).1.ledger (book desk b answer db).1.reservations
unfolding is_paid
book-Paid desk b answer db s =
    let swept = (expire_stale_holds-IsSafe desk.now (some b.node_id) db s).paid in
    elim (book_lem desk b answer db) [
      | inl same ↦ rw same swept
      | inr (r, (_, _, _, _, _, _, _, _, _, _, is_hold), _, rows, _, _) ↦
          rw rows ((λ e. ground (arith, is_hold, e)), swept)
    ]

reconcile-IsBalanced :
    (view : NodeView) (db : Store)
    → IsBalanced db.ledger
    → IsBalanced (reconcile_expired_mismatches view db).0.ledger
unfolding reconcile_expired_mismatches
reconcile-IsBalanced view db b = b

-- Each event keeps the store safe.
handle-IsSafe : (e : Event) (db : Store) → IsSafe db → IsSafe (handle e db)
unfolding handle
handle-IsSafe (books desk b answer) db s =
    let kept = book-Disjoint desk b answer db s.sound s.apart in
    record {
      sound = kept.0;
      started = book-Started desk b answer db s;
      apart = kept.1;
      paid = book-Paid desk b answer db s;
    }
handle-IsSafe (confirms env reply order payment user id) db s =
    Keeps-IsSafe db _ s
      (confirm-Keeps env reply order payment user id db s.sound.balanced s.sound.keyed)
handle-IsSafe (verifies env keys reply user id order ref signature) db s = Keeps-IsSafe db _ s (
    confirm_verify-Keeps env keys reply user id order ref signature db s.sound.balanced
      s.sound.keyed)
handle-IsSafe (hears env keys reply raw signature event) db s =
    Keeps-IsSafe db _ s
      (webhook-Keeps env keys reply raw signature event db s.sound.balanced s.sound.keyed)
handle-IsSafe (submits repos ack req) db s =
    Preserves-IsSafe db _ s (submit_job-Preserves repos ack req db s.sound)
handle-IsSafe (tiebreaks ack user group tiebreaker job) db s =
    Preserves-IsSafe db _ s (tiebreak-Preserves ack user group tiebreaker job db s.sound)
handle-IsSafe (reports digest env msg) db s =
    Preserves-IsSafe db _ s (on_job_result-Preserves digest env msg db s.sound)
handle-IsSafe (completes is_allowed env user id outcome seconds) db s =
    Preserves-IsSafe db _ s (complete-Preserves is_allowed env user id outcome seconds db s.sound)
handle-IsSafe (enrolls id user l) db s =
    SameBooks-IsSafe db (enroll id user l db).1 s (enroll-SameBooks id user l db)
handle-IsSafe (retires id user) db s =
    SameBooks-IsSafe db (retire id user db).1 s (retire-SameBooks id user db)
handle-IsSafe (expires now) db s = expire_stale_holds-IsSafe now none db s
handle-IsSafe (reconciles view) db s =
    Within-IsSafe db (reconcile_expired_mismatches view db).0 s
      (reconcile-IsBalanced view db s.sound.balanced) (reconcile-Within view db s.started)
      (reconcile-Pays view db)
handle-IsSafe (retries env) db s =
    SameBooks-IsSafe db (process_refund_retries env db) s (process_refund_retries-SameBooks env db)

-- Whatever requests come in, in whatever order, with whatever answers of nodes, gateway and clock: every
-- ledger transaction sums to zero, ids stay distinct, the time of no node is sold
-- twice, and every reservation past its capture has the capture in the ledger.
pub run-IsSafe : (es : List Event) (db : Store) → IsSafe db → IsSafe (run es db)
unfolding run
run-IsSafe [] db s = s
run-IsSafe (e ∷ es) db s = run-IsSafe es (handle e db) (handle-IsSafe e db s)
