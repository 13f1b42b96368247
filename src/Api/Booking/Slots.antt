-- ===== src/Api/Booking/Slots.antt =====
-- A node's time is sold once.
use nodeva.Prelude.{
  ℕ, ◌≡◌, ◌⊎◌, inl, inr, refl, arith, false, Option, some, List, [], ◌∷◌, any, update_rows,
  Option-cases, Bool-cases,
}
use nodeva.Reservations.Machine.{expired}
use nodeva.Reservations.Reconciler.{is_stale, expire_stale_holds}
use nodeva.Reservations.Reconciler.Sweep.{expire_stale_holds-Preserves}
use nodeva.Payments.Settle.{quote, Quoted, ok, bad_total, empty_window}
use nodeva.Receipts.{Body, Admission, admitted, admit_receipt, date_of}
use nodeva.Store.{Store, Reservation, Node, find_node}
use nodeva.Store.Lifecycle.{Absent, IsSound, Preserves-IsSound}
use nodeva.Api.Booking.{
  Desk, Booking, ReserveAnswer, receipt, denied, offline, unresponsive, BookReply, booked, occupies,
  clashes, same_id, insert_reservation, hold, expected_of, on_answer, book,
}

-- No two reservations that occupy the same node overlap in time.
abbrev pub Disjoint : List Reservation → Type 0
Disjoint [] = Unit
Disjoint (r ∷ rs) = (any (clashes r) rs ≡ false) × Disjoint rs

abbrev sweep_rows : ℕ → Option ℕ → List Reservation → List Reservation
sweep_rows now node = update_rows (is_stale now node) (λ r. record r { status = expired })

any-sweep_rows :
    (now : ℕ) (at_node : Option ℕ) (r : Reservation) (rs : List Reservation)
    → any (clashes r) rs ≡ false
    → any (clashes r) (sweep_rows now at_node rs) ≡ false
unfolding clashes occupies
any-sweep_rows now at_node r [] h = refl
any-sweep_rows now at_node r (s ∷ rs) h = ground (arith, any-sweep_rows now at_node r rs)

any-expired :
    (r : Reservation) (rs : List Reservation)
    → any (clashes (record r { status = expired })) rs ≡ false
unfolding clashes occupies
any-expired r [] = refl
any-expired r (s ∷ rs) = ground (arith, any-expired r rs)

sweep_rows-Disjoint :
    (now : ℕ) (at_node : Option ℕ) (rs : List Reservation)
    → Disjoint rs
    → Disjoint (sweep_rows now at_node rs)
sweep_rows-Disjoint now at_node [] d = tt
sweep_rows-Disjoint now at_node (r ∷ rs) d = elim (Bool-cases (is_stale now at_node r)) [
  | inl stale ↦
      rw stale (any-expired r (sweep_rows now at_node rs), sweep_rows-Disjoint now at_node rs d.1)
  | inr live ↦ rw live (any-sweep_rows now at_node r rs d.0, sweep_rows-Disjoint now at_node rs d.1)
]

any-Absent :
    (r : Reservation) (rs : List Reservation)
    → any (same_id r) rs ≡ false
    → Absent r.reservation_id rs
any-Absent r [] h = tt
any-Absent r (s ∷ rs) h = ground (arith, any-Absent r rs)

-- What the insert comes to: nothing, or a new first row that clashes with no other.
abbrev pub Inserted : Reservation → Store → BookReply × Store → Type 0
Inserted r db out =
    (out.1 ≡ db)
    ⊎ ((out.0 ≡ booked r.reservation_id r.quoted_paise)
        × (out.1 ≡ record db { reservations = r ∷ db.reservations })
        × (any (same_id r) db.reservations ≡ false)
        × (any (clashes r) db.reservations ≡ false))

insert_reservation_cases : (r : Reservation) (db : Store) → Inserted r db (insert_reservation r db)
unfolding insert_reservation
insert_reservation_cases r db = elim (Bool-cases (any (same_id r) db.reservations)) [
  | inl taken ↦ rw (taken, insert_reservation) (inl refl)
  | inr fresh ↦ elim (Bool-cases (any (clashes r) db.reservations)) [
    | inl busy ↦ rw (fresh, busy, insert_reservation) (inl refl)
    | inr free ↦ rw (fresh, free, insert_reservation) (inr (refl, refl, refl, refl))
  ]
]

-- What a booking that succeeds has behind it: the node's price, its quote and an admitted receipt.
abbrev pub IsBacked : Desk → Booking → ReserveAnswer → Store → Reservation → Type 0
IsBacked desk b answer db r =
    (node : Node) × (body : Body) × (signature quoted expires : ℕ) × (find_node b.node_id db
      ≡ some node)
    × (quote node.price_paise_hr b.starts_at b.ends_at ≡ ok quoted)
    × (answer ≡ receipt body signature)
    × (admit_receipt desk.verify_body desk.now node.public_key body signature (expected_of b node)
        ≡ admitted)
    × (date_of body.hold_expires_at ≡ some expires)
    × (r ≡ hold b node quoted expires signature)

abbrev pub Books : Desk → Booking → ReserveAnswer → Store → BookReply × Store → Type 0
Books desk b answer db out =
    (out.1 ≡ db)
    ⊎ ((r : Reservation) × IsBacked desk b answer db r
        × (out.0 ≡ booked r.reservation_id r.quoted_paise)
        × (out.1 ≡ record db { reservations = r ∷ db.reservations })
        × (any (same_id r) db.reservations ≡ false)
        × (any (clashes r) db.reservations ≡ false))

not_admitted :
    (desk : Desk) (b : Booking) (node : Node) (quoted : ℕ) (body : Body) (signature : ℕ)
    (db : Store) (a : Admission)
    → admit_receipt desk.verify_body desk.now node.public_key body signature (expected_of b node)
      ≡ a
    → (a ≡ admitted) ⊎ ((on_answer desk b node quoted (receipt body signature) db).1 ≡ db)
unfolding on_answer
not_admitted desk b node quoted body signature db admitted e = inl refl
not_admitted desk b node quoted body signature db Admission.bad_signature e =
    inr (rw (e, on_answer))
not_admitted desk b node quoted body signature db Admission.node_mismatch e =
    inr (rw (e, on_answer))
not_admitted desk b node quoted body signature db Admission.window_mismatch e =
    inr (rw (e, on_answer))
not_admitted desk b node quoted body signature db Admission.reservation_mismatch e =
    inr (rw (e, on_answer))
not_admitted desk b node quoted body signature db Admission.price_increased e =
    inr (rw (e, on_answer))
not_admitted desk b node quoted body signature db Admission.hold_expired e = inr (rw (e, on_answer))

Quoted-cases : (q : Quoted ℕ) → ((n : ℕ) × (q ≡ ok n)) ⊎ ((q ≡ bad_total) ⊎ (q ≡ empty_window))
Quoted-cases (ok n) = inl (n, refl)
Quoted-cases bad_total = inr (inl refl)
Quoted-cases empty_window = inr (inr refl)

on_answer-Books :
    (desk : Desk) (b : Booking) (node : Node) (quoted : ℕ) (answer : ReserveAnswer) (db : Store)
    → find_node b.node_id db ≡ some node
    → quote node.price_paise_hr b.starts_at b.ends_at ≡ ok quoted
    → Books desk b answer db (on_answer desk b node quoted answer db)
unfolding on_answer
on_answer-Books desk b node quoted denied db f q = inl refl
on_answer-Books desk b node quoted offline db f q = inl refl
on_answer-Books desk b node quoted unresponsive db f q = inl refl
on_answer-Books desk b node quoted (receipt body signature) db f q =
    elim (not_admitted desk b node quoted body signature db _ refl) [
      | inr bad ↦ inl bad
      | inl good ↦ elim (Option-cases (date_of body.hold_expires_at)) [
        | inl invalid ↦ rw (good, on_answer) (rw invalid (inl refl))
        | inr (expires, date) ↦
            let r = hold b node quoted expires signature in
            rw (good, on_answer)
              (rw date (elim (insert_reservation_cases r db) [
                | inl same ↦ inl same
                | inr (reply, rows, fresh, free) ↦ inr (
                  r,
                  (node, body, signature, quoted, expires, f, q, refl, good, date, refl),
                  reply,
                  rows,
                  fresh,
                  free,
                )
              ]))
      ]
    ]

book-answer :
    (desk : Desk) (b : Booking) (node : Node) (quoted : ℕ) (answer : ReserveAnswer) (db0 : Store)
    → find_node b.node_id (expire_stale_holds desk.now (some b.node_id) db0) ≡ some node
    → quote node.price_paise_hr b.starts_at b.ends_at ≡ ok quoted
    → book desk b answer db0
      ≡ on_answer desk b node quoted answer (expire_stale_holds desk.now (some b.node_id) db0)
unfolding book
book-answer desk b node quoted answer db0 found q = rw (found, q, book)

-- A booking either leaves the store as the sweep of the node's stale holds left it, or it puts one
-- new held reservation first, which overlaps no other that occupies the node, is quoted from the
-- node's own price, and has a receipt of the node that passed every check.
pub book_lem :
    (desk : Desk) (b : Booking) (answer : ReserveAnswer) (db0 : Store)
    → let db = expire_stale_holds desk.now (some b.node_id) db0 in
      Books desk b answer db (book desk b answer db0)
unfolding book on_answer
book_lem desk b answer db0 =
    let db = expire_stale_holds desk.now (some b.node_id) db0 in
    elim (Option-cases (find_node b.node_id db)) [
      | inl none_found ↦ rw (none_found, book) (inl refl)
      | inr (node, found) ↦ elim (Quoted-cases (quote node.price_paise_hr b.starts_at b.ends_at)) [
        | inl (quoted, q) ↦
            rw (book-answer desk b node quoted answer db0 found q)
              (on_answer-Books desk b node quoted answer db found q)
        | inr (inl q) ↦ rw (found, q, book) (inl refl)
        | inr (inr q) ↦ rw (found, q, book) (inl refl)
      ]
    ]

-- Booking keeps the store sound and sells no time twice: if no two reservations that occupy the same
-- node overlap before, none do after, whatever the node answers.
pub book-Disjoint :
    (desk : Desk) (b : Booking) (answer : ReserveAnswer) (db : Store)
    → IsSound db
    → Disjoint db.reservations
    → let db' = (book desk b answer db).1 in IsSound db' × Disjoint db'.reservations
unfolding expire_stale_holds
book-Disjoint desk b answer db0 s d =
    let db = expire_stale_holds desk.now (some b.node_id) db0 in
    let sound : IsSound db =
      Preserves-IsSound db0 db s (expire_stale_holds-Preserves desk.now (some b.node_id) db0 s).0 in
    let apart : Disjoint db.reservations =
      sweep_rows-Disjoint desk.now (some b.node_id) db0.reservations d in
    elim (book_lem desk b answer db0) [
      | inl same ↦ rw same (sound, apart)
      | inr (r, _, _, rows, fresh, free) ↦ rw rows (
        record {
          balanced = sound.balanced;
          keyed = (any-Absent r db.reservations fresh, sound.keyed);
        },
        (free, apart),
      )
    ]
