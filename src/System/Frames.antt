-- ===== src/System/Frames.antt =====
-- The events that leave the statuses alone: reconciliation, refund retries, and listings.
use nodeva.Ledger.{Ledger}
use nodeva.Store.Paid.{PaidRows, is_paid, Pays}
use nodeva.Prelude.{inl, ap, sym, where_rows, ℕ, ◌≡◌, ◌≢◌, refl, arith, List, [], ◌∷◌, ◌∙◌}
use nodeva.Reservations.Machine.{Status}
use nodeva.Reservations.Reconciler.{
  NodeView, Action, leave, mark, release_and_mark, reconcile_step, Progress, reconcile_rows,
  reconcile_action, set_reconciled, mismatch_batch_size, is_unreconciled,
  reconcile_expired_mismatches,
}
use nodeva.Payments.Refunds.{take, due_rows, process_refund_retries, retry_row, retry_rows}
use nodeva.Store.{Store, Env, Reservation, RefundRetry}
use nodeva.Api.Booking.{occupies}
use nodeva.Api.Nodes.{Listing, enroll, enroll_key, retire}
use nodeva.System.Rows.{Started, Inside, Within}

-- The tables that the other invariants are about.
pub record SameBooks (db db' : Store) : Type 0 where
  pub ledger : db'.ledger ≡ db.ledger
  pub reservations : db'.reservations ≡ db.reservations

Inside-refl : (r : Reservation) → r.status ≢ Status.pending → Inside r r
Inside-refl r s = record {
  same_id = refl;
  same_node = refl;
  same_start = refl;
  same_end = refl;
  freed = λ o. o;
  started = s;
}

pub Within-refl : (rs : List Reservation) → Started rs → Within rs rs
Within-refl [] s = tt
Within-refl (r ∷ rs) s = (Inside-refl r s.0, Within-refl rs s.1)

set_reconciled-Started :
    (id : ℕ) (rs : List Reservation) → Started rs → Started (set_reconciled id rs)
set_reconciled-Started id [] s = tt
set_reconciled-Started id (r ∷ rs) s = ground (arith, set_reconciled-Started id rs s.1)

-- The rows as the reconciliation leaves them.
abbrev MarkedInside : Reservation → Reservation → Type 0
MarkedInside r s = s ≡ record r { reconciled = s.reconciled }

abbrev Marked : List Reservation → List Reservation → Type 0
Marked [] [] = Unit
Marked [] (s ∷ ss) = ⊥
Marked (r ∷ rs) [] = ⊥
Marked (r ∷ rs) (s ∷ ss) = MarkedInside r s × Marked rs ss

Marked-refl : (rs : List Reservation) → Marked rs rs
Marked-refl [] = tt
Marked-refl (r ∷ rs) = (refl, Marked-refl rs)

Marked-set : (id : ℕ) (rs ss : List Reservation) → Marked rs ss → Marked rs (set_reconciled id ss)
Marked-set id [] [] m = tt
Marked-set id [] (s ∷ ss) m = absurd m
Marked-set id (r ∷ rs) [] m = absurd m
Marked-set id (r ∷ rs) (s ∷ ss) m = ground (arith, Marked-set id rs ss m.1)

Marked-step :
    (a : Action) (id : ℕ) (rs : List Reservation) (s : Progress)
    → Marked rs s.reservations
    → Marked rs (reconcile_step a id s).reservations
unfolding reconcile_step
Marked-step leave id rs s m = m
Marked-step mark id rs s m = Marked-set id rs s.reservations m
Marked-step release_and_mark id rs s m = Marked-set id rs s.reservations m

Marked-rows :
    (view : NodeView) (todo rs : List Reservation) (s : Progress)
    → Marked rs s.reservations
    → Marked rs (reconcile_rows view todo s).reservations
unfolding reconcile_rows
Marked-rows view [] rs s m = m
Marked-rows view (r ∷ todo) rs s m =
    Marked-rows view todo rs (reconcile_step (reconcile_action view r) r.reservation_id s)
      (Marked-step (reconcile_action view r) r.reservation_id rs s m)

Marked-Inside : (r s : Reservation) → MarkedInside r s → r.status ≢ Status.pending → Inside r s
Marked-Inside r s e p = record {
  same_id = ap (λ x. x.reservation_id) e;
  same_node = ap (λ x. x.node_id) e;
  same_start = ap (λ x. x.starts_at) e;
  same_end = ap (λ x. x.ends_at) e;
  freed = λ o. ap (λ x. occupies x.status) e ∙ o;
  started = λ q. p (sym (ap (λ x. x.status) e) ∙ q);
}

Marked-Within : (rs ss : List Reservation) → Marked rs ss → Started rs → Within rs ss
Marked-Within [] [] m s = tt
Marked-Within [] (b ∷ ss) m s = m
Marked-Within (r ∷ rs) [] m s = m
Marked-Within (r ∷ rs) (b ∷ ss) (e, m) (now, later) =
    (Marked-Inside r b e now, Marked-Within rs ss m later)

-- A mark moves no status.
Marked-PaidRows : (l : Ledger) (rs ss : List Reservation) → Marked rs ss → PaidRows l rs ss
Marked-PaidRows l [] [] m = tt
Marked-PaidRows l [] (b ∷ ss) m = m
Marked-PaidRows l (r ∷ rs) [] m = m
Marked-PaidRows l (r ∷ rs) (b ∷ ss) (e, m) = (
  ap (λ x. x.reservation_id) e,
  (λ now. inl (sym (ap (λ x. is_paid x.status) e) ∙ now)),
  Marked-PaidRows l rs ss m,
)

reconciled-Marked :
    (view : NodeView) (db : Store)
    → Marked db.reservations (reconcile_expired_mismatches view db).0.reservations
unfolding reconcile_expired_mismatches
reconciled-Marked view db =
    Marked-rows view (take mismatch_batch_size (where_rows is_unreconciled db.reservations))
      db.reservations (record { reservations = db.reservations; checked = 0; released = 0 })
      (Marked-refl db.reservations)

pub reconcile-Pays :
    (view : NodeView) (db : Store) → Pays db (reconcile_expired_mismatches view db).0
unfolding reconcile_expired_mismatches
reconcile-Pays view db = record {
  keys_stay = λ i c. c;
  rows_paid = Marked-PaidRows db.ledger db.reservations _ (reconciled-Marked view db);
}

pub reconcile-Within :
    (view : NodeView) (db : Store)
    → Started db.reservations
    → Within db.reservations (reconcile_expired_mismatches view db).0.reservations
reconcile-Within view db s =
    Marked-Within db.reservations (reconcile_expired_mismatches view db).0.reservations
      (reconciled-Marked view db) s

retry_rows-SameBooks :
    (env : Env) (rows : List RefundRetry) (db : Store) → SameBooks db (retry_rows env rows db)
unfolding retry_rows retry_row
retry_rows-SameBooks env [] db = record { ledger = refl; reservations = refl }
retry_rows-SameBooks env (row ∷ rows) db =
    let rest = retry_rows-SameBooks env rows (retry_row env row db) in
    ground (arith, rest.ledger, rest.reservations)

pub process_refund_retries-SameBooks :
    (env : Env) (db : Store) → SameBooks db (process_refund_retries env db)
unfolding process_refund_retries
process_refund_retries-SameBooks env db =
    let all = retry_rows-SameBooks env (due_rows env.now db.refund_retries) db in
    ground (arith, all.ledger, all.reservations)

pub enroll-SameBooks :
    (id user : ℕ) (l : Listing) (db : Store) → SameBooks db (enroll id user l db).1
unfolding enroll enroll_key
enroll-SameBooks id user l db = ground arith

pub retire-SameBooks : (id user : ℕ) (db : Store) → SameBooks db (retire id user db).1
unfolding retire
retire-SameBooks id user db = ground arith
