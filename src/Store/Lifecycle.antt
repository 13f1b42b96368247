-- ===== src/Store/Lifecycle.antt =====
-- How the table of reservations may change: row by row along the edges of the lifecycle, and into
-- the states past a capture only with one.
use nodeva.Prelude.{
  suc, ap, sym, ◌∙◌, ℕ, ◌≡◌, ◌≢◌, ◌⊎◌, inl, inr, refl, arith, true, ◌==◌, List, [], ◌∷◌, some,
  first,
}
use nodeva.Reservations.Machine.{Status, can_transition}
use nodeva.Reservations.Machine.Graph.{Run, here, step, allowed-⟶}
use nodeva.Ledger.Balance.{IsBalanced}
use nodeva.Store.{Reservation, Store, set_status}
use nodeva.Store.Paid.{Pays, Pays-refl, Pays-trans}

-- Everything but the status stays.
abbrev pub SameBut : Reservation → Reservation → Type 0
SameBut r s = s ≡ record r { status = s.status }

-- The same reservations in the same order, each left alone or moved along an edge.
abbrev pub Advances : List Reservation → List Reservation → Type 0
Advances [] [] = Unit
Advances [] (s ∷ ss) = ⊥
Advances (r ∷ rs) [] = ⊥
Advances (r ∷ rs) (s ∷ ss) =
    SameBut r s
    × ((s.status ≡ r.status) ⊎ (can_transition r.status s.status ≡ true))
    × Advances rs ss

-- The primary key: no id stands twice.
abbrev pub Absent : ℕ → List Reservation → Type 0
Absent id [] = Unit
Absent id (r ∷ rs) = (r.reservation_id ≢ id) × Absent id rs

abbrev pub Keyed : List Reservation → Type 0
Keyed [] = Unit
Keyed (r ∷ rs) = Absent r.reservation_id rs × Keyed rs

pub Advances-refl : (rs : List Reservation) → Advances rs rs
Advances-refl [] = tt
Advances-refl (r ∷ rs) = (refl, inl refl, Advances-refl rs)

pub set_status-Absent :
    (id : ℕ) (s : Status) (rs : List Reservation) → Absent id rs → set_status id s rs ≡ rs
set_status-Absent id s [] h = refl
set_status-Absent id s (r ∷ rs) h = ground (arith, set_status-Absent id s rs h.1)

pub set_status-Advances :
    (id : ℕ) (s : Status) (rs : List Reservation) {r : Reservation}
    → Keyed rs
    → first (λ x. x.reservation_id == id) rs ≡ some r
    → can_transition r.status s ≡ true
    → Advances rs (set_status id s rs)
set_status-Advances id s [] {r} k e t = cc
set_status-Advances id s (x ∷ rs) {r} k e t =
    ground
      (arith, set_status-Absent id s rs, Advances-refl rs, set_status-Advances id s rs {r = r} k.1)

pub find-set_status :
    (id : ℕ) (s : Status) (rs : List Reservation) {r : Reservation}
    → first (λ x. x.reservation_id == id) rs ≡ some r
    → first (λ x. x.reservation_id == id) (set_status id s rs) ≡ some (record r { status = s })
find-set_status id s [] {r} e = cc
find-set_status id s (x ∷ rs) {r} e = ground (arith, find-set_status id s rs {r = r})

pub find-id :
    (id : ℕ) (rs : List Reservation) {r : Reservation}
    → first (λ x. x.reservation_id == id) rs ≡ some r
    → r.reservation_id ≡ id
find-id id [] {r} e = cc
find-id id (x ∷ rs) {r} e = ground (arith, find-id id rs {r = r})

Absent-set_status :
    (j id : ℕ) (s : Status) (rs : List Reservation) → Absent j rs → Absent j (set_status id s rs)
Absent-set_status j id s [] h = tt
Absent-set_status j id s (r ∷ rs) h = ground (arith, Absent-set_status j id s rs h.1)

pub set_status-Keyed :
    (id : ℕ) (s : Status) (rs : List Reservation) → Keyed rs → Keyed (set_status id s rs)
set_status-Keyed id s [] k = tt
set_status-Keyed id s (r ∷ rs) k =
    ground (arith, set_status-Keyed id s rs k.1, Absent-set_status r.reservation_id id s rs k.0)

-- As `Advances`, over any number of steps.
abbrev pub Evolves : List Reservation → List Reservation → Type 0
Evolves [] [] = Unit
Evolves [] (s ∷ ss) = ⊥
Evolves (r ∷ rs) [] = ⊥
Evolves (r ∷ rs) (s ∷ ss) = SameBut r s × ((n : ℕ) × Run r.status n s.status) × Evolves rs ss

pub Evolves-refl : (rs : List Reservation) → Evolves rs rs
Evolves-refl [] = tt
Evolves-refl (r ∷ rs) = (refl, (0, here), Evolves-refl rs)

Advances-Evolves : (rs ss : List Reservation) → Advances rs ss → Evolves rs ss
Advances-Evolves [] [] h = tt
Advances-Evolves [] (s ∷ ss) h = h
Advances-Evolves (r ∷ rs) [] h = h
Advances-Evolves (r ∷ rs) (s ∷ ss) (b, inl same, h) =
    (b, (0, rw same here), Advances-Evolves rs ss h)
Advances-Evolves (r ∷ rs) (s ∷ ss) (b, inr edge, h) =
    (b, (1, step here (allowed-⟶ r.status s.status edge)), Advances-Evolves rs ss h)

pub Run-trans : {a b c : Status} {m n : ℕ} → Run a m b → Run b n c → (k : ℕ) × Run a k c
Run-trans {m} r here = (m, r)
Run-trans r (step s e) = let t = Run-trans r s in (suc t.0, step t.1 e)

pub Evolves-trans : (rs ss ts : List Reservation) → Evolves rs ss → Evolves ss ts → Evolves rs ts
Evolves-trans [] [] [] h k = tt
Evolves-trans [] [] (t ∷ ts) h k = k
Evolves-trans [] (s ∷ ss) ts h k = absurd h
Evolves-trans (r ∷ rs) [] ts h k = absurd h
Evolves-trans (r ∷ rs) (s ∷ ss) [] h k = k
Evolves-trans (r ∷ rs) (s ∷ ss) (t ∷ ts) h k =
    (ground arith, Run-trans h.1.1 k.1.1, Evolves-trans rs ss ts h.2 k.2)

Evolves-Absent : (id : ℕ) (rs ss : List Reservation) → Evolves rs ss → Absent id rs → Absent id ss
Evolves-Absent id [] [] h a = tt
Evolves-Absent id [] (s ∷ ss) h a = absurd h
Evolves-Absent id (r ∷ rs) [] h a = tt
Evolves-Absent id (r ∷ rs) (s ∷ ss) h a =
    ((λ e. a.0 (sym (ap (λ x. x.reservation_id) h.0) ∙ e)), Evolves-Absent id rs ss h.2 a.1)

pub Evolves-Keyed : (rs ss : List Reservation) → Evolves rs ss → Keyed rs → Keyed ss
Evolves-Keyed [] [] h k = tt
Evolves-Keyed [] (s ∷ ss) h k = absurd h
Evolves-Keyed (r ∷ rs) [] h k = tt
Evolves-Keyed (r ∷ rs) (s ∷ ss) h k = (
  rw (ap (λ x. x.reservation_id) h.0) (Evolves-Absent r.reservation_id rs ss h.2 k.0),
  Evolves-Keyed rs ss h.2 k.1,
)

-- What holds of the books between two events: balanced transactions and distinct ids.
pub record IsSound (db : Store) : Type 0 where
  pub balanced : IsBalanced db.ledger
  pub keyed : Keyed db.reservations

-- What an event keeps, over any number of steps.
pub record Preserves (db db' : Store) : Type 0 where
  pub balanced : IsBalanced db'.ledger
  pub evolved : Evolves db.reservations db'.reservations
  pub paid : Pays db db'

pub Preserves-refl : (db : Store) → IsSound db → Preserves db db
Preserves-refl db s = record {
  balanced = s.balanced;
  evolved = Evolves-refl db.reservations;
  paid = Pays-refl db;
}

pub Preserves-IsSound : (db db' : Store) → IsSound db → Preserves db db' → IsSound db'
Preserves-IsSound db db' s p = record {
  balanced = p.balanced;
  keyed = Evolves-Keyed db.reservations db'.reservations p.evolved s.keyed;
}

pub Preserves-trans : (a b c : Store) → Preserves a b → Preserves b c → Preserves a c
Preserves-trans a b c p q = record {
  balanced = q.balanced;
  evolved = Evolves-trans a.reservations b.reservations c.reservations p.evolved q.evolved;
  paid = Pays-trans a b c p.paid q.paid;
}

pub Advances-Preserves :
    (db db' : Store)
    → IsBalanced db'.ledger
    → Advances db.reservations db'.reservations
    → Pays db db'
    → Preserves db db'
Advances-Preserves db db' b a p = record {
  balanced = b;
  evolved = Advances-Evolves db.reservations db'.reservations a;
  paid = p;
}
