-- ===== src/System/Rows.antt =====
-- What a change of the table of reservations may do to the slots that are taken.
use nodeva.Prelude.{
  sym, ap, ◌∙◌, ℕ, ◌≡◌, ◌≢◌, refl, arith, false, List, [], ◌∷◌, any, Bool-cases, inl, inr,
}
use nodeva.Reservations.Machine.{Status, pending}
use nodeva.Reservations.Machine.Graph.{
  Run, here, step, ◌⟶◌, hold, capture, start, give_up, lapse, drop, cancel_held, cancel_paid, lose,
  finish, vanish, crash, dispute,
}
use nodeva.Store.{Reservation}
use nodeva.Store.Lifecycle.{Evolves, Absent, Keyed}
use nodeva.Api.Booking.{occupies, clashes}
use nodeva.Api.Booking.Slots.{Disjoint}

-- No row is an intent that was never held.
abbrev pub Started : List Reservation → Type 0
Started [] = Unit
Started (r ∷ rs) = (r.status ≢ pending) × Started rs

-- The row is for the same slot, and occupies it only if it did.
pub record Inside (r s : Reservation) : Type 0 where
  pub same_id : s.reservation_id ≡ r.reservation_id
  pub same_node : s.node_id ≡ r.node_id
  pub same_start : s.starts_at ≡ r.starts_at
  pub same_end : s.ends_at ≡ r.ends_at
  pub freed : occupies r.status ≡ false → occupies s.status ≡ false
  pub started : s.status ≢ pending

abbrev pub Within : List Reservation → List Reservation → Type 0
Within [] [] = Unit
Within [] (s ∷ ss) = ⊥
Within (r ∷ rs) [] = ⊥
Within (r ∷ rs) (s ∷ ss) = Inside r s × Within rs ss

pub Within-Started : (rs ss : List Reservation) → Within rs ss → Started ss
Within-Started [] [] w = tt
Within-Started [] (s ∷ ss) w = absurd w
Within-Started (r ∷ rs) [] w = tt
Within-Started (r ∷ rs) (s ∷ ss) w = (w.0.started, Within-Started rs ss w.1)

Within-Absent : (id : ℕ) (rs ss : List Reservation) → Within rs ss → Absent id rs → Absent id ss
Within-Absent id [] [] w a = tt
Within-Absent id [] (s ∷ ss) w a = absurd w
Within-Absent id (r ∷ rs) [] w a = tt
Within-Absent id (r ∷ rs) (s ∷ ss) w a =
    ((λ e. a.0 (sym w.0.same_id ∙ e)), Within-Absent id rs ss w.1 a.1)

pub Within-Keyed : (rs ss : List Reservation) → Within rs ss → Keyed rs → Keyed ss
Within-Keyed [] [] w k = tt
Within-Keyed [] (s ∷ ss) w k = absurd w
Within-Keyed (r ∷ rs) [] w k = tt
Within-Keyed (r ∷ rs) (s ∷ ss) w k =
    (rw w.0.same_id (Within-Absent r.reservation_id rs ss w.1 k.0), Within-Keyed rs ss w.1 k.1)

Inside-clashes :
    (r s a b : Reservation) → Inside r s → Inside a b → clashes r a ≡ false → clashes s b ≡ false
unfolding clashes
Inside-clashes r s a b i j c = ground (
  arith, i.same_node, i.same_start, i.same_end, i.freed, j.same_node, j.same_start, j.same_end,
  j.freed,
)

Within-any :
    (r s : Reservation) (rs ss : List Reservation)
    → Inside r s
    → Within rs ss
    → any (clashes r) rs ≡ false
    → any (clashes s) ss ≡ false
Within-any r s [] [] i w h = refl
Within-any r s [] (b ∷ ss) i w h = absurd w
Within-any r s (a ∷ rs) [] i w h = refl
Within-any r s (a ∷ rs) (b ∷ ss) i w h = elim (Bool-cases (clashes r a)) [
  | inl c ↦ ground (arith, c, h)
  | inr c ↦ rw (Inside-clashes r s a b i w.0 c) (Within-any r s rs ss i w.1 (rw c at h))
]

pub Within-Disjoint : (rs ss : List Reservation) → Within rs ss → Disjoint rs → Disjoint ss
Within-Disjoint [] [] w d = tt
Within-Disjoint [] (s ∷ ss) w d = absurd w
Within-Disjoint (r ∷ rs) [] w d = tt
Within-Disjoint (r ∷ rs) (s ∷ ss) w d =
    (Within-any r s rs ss w.0 w.1 d.0, Within-Disjoint rs ss w.1 d.1)

-- Only from `pending` does an edge lead to a slot that was free.
⟶-occupies : {a b : Status} → a ⟶ b → a ≢ pending → occupies a ≡ false → occupies b ≡ false
unfolding occupies
⟶-occupies hold n o = absurd (n refl)
⟶-occupies capture n o = cc
⟶-occupies start n o = cc
⟶-occupies give_up n o = refl
⟶-occupies lapse n o = refl
⟶-occupies drop n o = refl
⟶-occupies cancel_held n o = refl
⟶-occupies cancel_paid n o = refl
⟶-occupies lose n o = refl
⟶-occupies finish n o = cc
⟶-occupies vanish n o = refl
⟶-occupies crash n o = refl
⟶-occupies dispute n o = refl

⟶-started : {a b : Status} → a ⟶ b → b ≢ pending
⟶-started hold = λ e. cc
⟶-started capture = λ e. cc
⟶-started start = λ e. cc
⟶-started give_up = λ e. cc
⟶-started lapse = λ e. cc
⟶-started drop = λ e. cc
⟶-started cancel_held = λ e. cc
⟶-started cancel_paid = λ e. cc
⟶-started lose = λ e. cc
⟶-started finish = λ e. cc
⟶-started vanish = λ e. cc
⟶-started crash = λ e. cc
⟶-started dispute = λ e. cc

Run-occupies :
    {a b : Status} {n : ℕ}
    → Run a n b
    → a ≢ pending
    → (occupies a ≡ false → occupies b ≡ false) × (b ≢ pending)
Run-occupies here p = ((λ o. o), p)
Run-occupies (step r e) p =
    let before = Run-occupies r p in ((λ o. ⟶-occupies e before.1 (before.0 o)), ⟶-started e)

pub Evolves-Within : (rs ss : List Reservation) → Evolves rs ss → Started rs → Within rs ss
Evolves-Within [] [] e s = tt
Evolves-Within [] (b ∷ ss) e s = e
Evolves-Within (r ∷ rs) [] e s = e
Evolves-Within (r ∷ rs) (b ∷ ss) (same, (n, run), e) s =
    let moved = Run-occupies run s.0 in
    (
      record {
        same_id = ap (λ x. x.reservation_id) same;
        same_node = ap (λ x. x.node_id) same;
        same_start = ap (λ x. x.starts_at) same;
        same_end = ap (λ x. x.ends_at) same;
        freed = moved.0;
        started = moved.1;
      },
      Evolves-Within rs ss e s.1,
    )
