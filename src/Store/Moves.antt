-- ===== src/Store/Moves.antt =====
-- A change of reservations' statuses, as the handlers make it, and what has been paid for.

use nodeva.Prelude.Int.{ℤ}
use nodeva.Ledger.Balance.{Extends, Extends-key_used, posting}
use nodeva.Reservations.Machine.Graph.{allowed-⟶}
use nodeva.Prelude.{
  Bool, ◌≢◌, update_rows, eqb_refl, ℕ, ◌≡◌, ◌⊎◌, inl, inr, refl, arith, true, false, ◌==◌, List, [],
  ◌∷◌, some, first, eqb→eq, Bool-cases, ◌∙◌, sym, ap,
}
use nodeva.Reservations.Machine.{can_transition, confirmed, Status}
use nodeva.Ledger.{TxnKind, capture, Ledger}
use nodeva.Store.{Store, Reservation, set_status}
use nodeva.Store.Paid.{Pays, ⟶-is_paid, is_paid, IsCapturedIn, PaidRows, PaidRows-refl}
use nodeva.Store.Lifecycle.{Keyed, set_status-Absent}

found_first :
    (id : ℕ) (x r : Reservation) (rs : List Reservation)
    → (x.reservation_id == id) ≡ true
    → first (λ y. y.reservation_id == id) (x ∷ rs) ≡ some r
    → x ≡ r
found_first id x r rs h e = ground (arith, h, e)

found_later :
    (id : ℕ) (x r : Reservation) (rs : List Reservation)
    → (x.reservation_id == id) ≡ false
    → first (λ y. y.reservation_id == id) (x ∷ rs) ≡ some r
    → first (λ y. y.reservation_id == id) rs ≡ some r
found_later id x r rs h e = ground (arith, h, e)

-- A status past the capture may be set only where one was, or where the capture is in the ledger.
pub set_status-PaidRows :
    (id : ℕ) (s : Status) (l : Ledger) (rs : List Reservation) {r : Reservation}
    → Keyed rs
    → first (λ x. x.reservation_id == id) rs ≡ some r
    → (is_paid s ≡ true → (is_paid r.status ≡ true) ⊎ IsCapturedIn l id)
    → PaidRows l rs (set_status id s rs)
set_status-PaidRows id s l [] {r} k e p = cc
set_status-PaidRows id s l (x ∷ rs) {r} k e p = elim (Bool-cases (x.reservation_id == id)) [
  | inl hit ↦
      let same = found_first id x r rs hit e in
      let key = eqb→eq x.reservation_id id hit in
      rw (hit, set_status-Absent id s rs (rw key at k.0))
        (
          refl,
          (λ now. rw (same, ap (λ y. y.reservation_id) (sym same) ∙ key) (p now)),
          PaidRows-refl l rs,
        )
  | inr miss ↦ rw miss (
    refl,
    (λ now. inl now),
    set_status-PaidRows id s l rs {r = r} k.1 (found_later id x r rs miss e) p,
  )
]

-- Statuses that are not past the capture may be set anywhere.
pub update_rows-PaidRows :
    (p : Reservation → Bool) (s : Status) (l : Ledger) (rs : List Reservation)
    → is_paid s ≡ false
    → PaidRows l rs (update_rows p (λ r. record r { status = s }) rs)
update_rows-PaidRows p s l [] e = tt
update_rows-PaidRows p s l (r ∷ rs) e = elim (Bool-cases (p r)) [
  | inl hit ↦ rw hit (refl, (λ now. absurd cc), update_rows-PaidRows p s l rs e)
  | inr miss ↦ rw miss (refl, (λ now. inl now), update_rows-PaidRows p s l rs e)
]

-- The ledger stays, and one status moves.
pub set_status-Pays :
    (id : ℕ) (s : Status) (db db' : Store) {r : Reservation}
    → Keyed db.reservations
    → first (λ x. x.reservation_id == id) db.reservations ≡ some r
    → ((i : ℕ) → IsCapturedIn db.ledger i → IsCapturedIn db'.ledger i)
    → db'.reservations ≡ set_status id s db.reservations
    → (is_paid s ≡ true → (is_paid r.status ≡ true) ⊎ IsCapturedIn db'.ledger id)
    → Pays db db'
set_status-Pays id s db db' {r} k e stay rows p = record {
  keys_stay = stay;
  rows_paid = rw rows (set_status-PaidRows id s db'.ledger db.reservations {r = r} k e p);
}

-- One status moves along an edge of the lifecycle, and not into `confirmed`.
pub edge-Pays :
    (id : ℕ) (s : Status) (db db' : Store) {r : Reservation}
    → Keyed db.reservations
    → first (λ x. x.reservation_id == id) db.reservations ≡ some r
    → ((i : ℕ) → IsCapturedIn db.ledger i → IsCapturedIn db'.ledger i)
    → db'.reservations ≡ set_status id s db.reservations
    → can_transition r.status s ≡ true
    → s ≢ confirmed
    → Pays db db'
edge-Pays id s db db' {r} k e stay rows edge n =
    set_status-Pays id s db db' {r = r} k e stay rows (λ now.
      elim (⟶-is_paid (allowed-⟶ r.status s edge) now) [
        | inl before ↦ inl before
        | inr c ↦ absurd (n c)
      ])

-- A posting under one key keeps the captures, and a capture is one.
pub posting-keeps :
    (kind : TxnKind) (resv : ℕ) (es : List (ℕ × ℤ)) (l l' : Ledger)
    → Extends l l'
    → (i : ℕ) → IsCapturedIn l i
    → IsCapturedIn (posting kind resv es l') i
posting-keeps kind resv es l l' x i c = ground (arith, c, Extends-key_used capture i l l' x)

pub posting-captured :
    (resv : ℕ) (es : List (ℕ × ℤ)) (l : Ledger) → IsCapturedIn (posting capture resv es l) resv
posting-captured resv es l = ground (arith, eqb_refl resv)
