-- ===== src/Store/Paid.antt =====
-- What has been paid for: the reservations past their capture, and the captures in the ledger.
use nodeva.Prelude.{◌∙◌, ℕ, ◌≡◌, ◌⊎◌, inl, inr, refl, Bool, true, false, List, [], ◌∷◌}
use nodeva.Reservations.Machine.{
  Status, confirmed, running, completed, failed_provider, failed_user, disputed,
}
use nodeva.Reservations.Machine.Graph.{
  ◌⟶◌, hold, capture, start, give_up, lapse, drop, cancel_held, cancel_paid, lose, finish, vanish,
  crash, dispute,
}
use nodeva.Ledger.{Ledger, TxnKind, key_used}
use nodeva.Store.{Store, Reservation}

-- The states that follow a capture.
unfoldable pub is_paid : Status → Bool
is_paid confirmed = true
is_paid running = true
is_paid completed = true
is_paid failed_provider = true
is_paid failed_user = true
is_paid disputed = true
is_paid _ = false

abbrev pub IsCapturedIn : Ledger → ℕ → Type 0
IsCapturedIn l id = key_used TxnKind.capture id l ≡ true

-- Every reservation in such a state has its capture in the ledger.
abbrev pub Paid : Ledger → List Reservation → Type 0
Paid l [] = Unit
Paid l (r ∷ rs) = (is_paid r.status ≡ true → IsCapturedIn l r.reservation_id) × Paid l rs

-- Row by row, what is paid for now was before, or is captured in the ledger `l`.
abbrev pub PaidRows : Ledger → List Reservation → List Reservation → Type 0
PaidRows l [] [] = Unit
PaidRows l [] (s ∷ ss) = ⊥
PaidRows l (r ∷ rs) [] = ⊥
PaidRows l (r ∷ rs) (s ∷ ss) =
    (s.reservation_id ≡ r.reservation_id)
    × (is_paid s.status ≡ true → (is_paid r.status ≡ true) ⊎ IsCapturedIn l s.reservation_id)
    × PaidRows l rs ss

-- Captures are kept, and no state past the capture is entered without one.
pub record Pays (db db' : Store) : Type 0 where
  pub keys_stay : (id : ℕ) → IsCapturedIn db.ledger id → IsCapturedIn db'.ledger id
  pub rows_paid : PaidRows db'.ledger db.reservations db'.reservations

pub PaidRows-refl : (l : Ledger) (rs : List Reservation) → PaidRows l rs rs
PaidRows-refl l [] = tt
PaidRows-refl l (r ∷ rs) = (refl, (λ p. inl p), PaidRows-refl l rs)

pub Pays-refl : (db : Store) → Pays db db
Pays-refl db = record { keys_stay = λ id k. k; rows_paid = PaidRows-refl db.ledger db.reservations }

PaidRows-trans :
    (l l' : Ledger) (rs ss ts : List Reservation)
    → ((id : ℕ) → IsCapturedIn l id → IsCapturedIn l' id)
    → PaidRows l rs ss
    → PaidRows l' ss ts
    → PaidRows l' rs ts
PaidRows-trans l l' [] [] [] keep p q = tt
PaidRows-trans l l' [] [] (t ∷ ts) keep p q = q
PaidRows-trans l l' [] (s ∷ ss) ts keep p q = absurd p
PaidRows-trans l l' (r ∷ rs) [] ts keep p q = absurd p
PaidRows-trans l l' (r ∷ rs) (s ∷ ss) [] keep p q = q
PaidRows-trans l l' (r ∷ rs) (s ∷ ss) (t ∷ ts) keep p q = (
  q.0 ∙ p.0,
  (λ paid. elim (q.1 paid) [
    | inr now ↦ inr now
    | inl before ↦ elim (p.1 before) [
      | inl long_ago ↦ inl long_ago
      | inr then_captured ↦ inr (rw q.0 (keep s.reservation_id then_captured))
    ]
  ]),
  PaidRows-trans l l' rs ss ts keep p.2 q.2,
)

pub Pays-trans : (a b c : Store) → Pays a b → Pays b c → Pays a c
Pays-trans a b c p q = record {
  keys_stay = λ id k. q.keys_stay id (p.keys_stay id k);
  rows_paid =
      PaidRows-trans b.ledger c.ledger a.reservations b.reservations c.reservations q.keys_stay
        p.rows_paid q.rows_paid;
}

-- Other tables are no matter.
pub Pays-around :
    (a b c d : Store)
    → b.reservations ≡ a.reservations
    → b.ledger ≡ a.ledger
    → Pays b c
    → d.reservations ≡ c.reservations
    → d.ledger ≡ c.ledger
    → Pays a d
Pays-around a b c d r l p r' l' = record {
  keys_stay = λ id k. rw l' (p.keys_stay id (rw l k));
  rows_paid = rw (l', r', ← r) p.rows_paid;
}

Paid-PaidRows :
    (l l' : Ledger) (rs ss : List Reservation)
    → ((id : ℕ) → IsCapturedIn l id → IsCapturedIn l' id)
    → PaidRows l' rs ss
    → Paid l rs
    → Paid l' ss
Paid-PaidRows l l' [] [] keep p paid = tt
Paid-PaidRows l l' [] (s ∷ ss) keep p paid = absurd p
Paid-PaidRows l l' (r ∷ rs) [] keep p paid = tt
Paid-PaidRows l l' (r ∷ rs) (s ∷ ss) keep p paid = (
  (λ now. elim (p.1 now) [
    | inl before ↦ rw p.0 (keep r.reservation_id (paid.0 before))
    | inr captured ↦ captured
  ]),
  Paid-PaidRows l l' rs ss keep p.2 paid.1,
)

pub Pays-Paid :
    (db db' : Store)
    → Pays db db'
    → Paid db.ledger db.reservations
    → Paid db'.ledger db'.reservations
Pays-Paid db db' p =
    Paid-PaidRows db.ledger db'.ledger db.reservations db'.reservations p.keys_stay p.rows_paid

-- Only the capture leads into the states past it.
pub ⟶-is_paid : {a b : Status} → a ⟶ b → is_paid b ≡ true → (is_paid a ≡ true) ⊎ (b ≡ confirmed)
unfolding is_paid
⟶-is_paid hold p = cc
⟶-is_paid capture p = inr refl
⟶-is_paid start p = inl refl
⟶-is_paid give_up p = cc
⟶-is_paid lapse p = cc
⟶-is_paid drop p = cc
⟶-is_paid cancel_held p = cc
⟶-is_paid cancel_paid p = inl refl
⟶-is_paid lose p = inl refl
⟶-is_paid finish p = inl refl
⟶-is_paid vanish p = inl refl
⟶-is_paid crash p = inl refl
⟶-is_paid dispute p = inl refl
