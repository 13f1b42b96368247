-- ===== src/Api/Booking.antt =====
-- POST /reservations of backend/src/api/server.js: the sweep of the node's stale holds, the quote, the
-- node's receipt and the insert under the exclusion constraint of the table. The session's user and
-- the generated id are fields of the request; the node's answer is an argument.
pub mod Slots
use nodeva.Prelude.{
  ℕ, Bool, true, false, not, ◌==◌, ◌&&◌, ltb, Option, none, some, List, ◌∷◌, any, if◌then◌else◌,
}
use nodeva.Reservations.Machine.{
  Status, pending, held, confirmed, running, completed, expired, disputed, failed_provider,
  failed_user,
}
use nodeva.Reservations.Reconciler.{expire_stale_holds}
use nodeva.Payments.Settle.{quote, Quoted, ok, bad_total, empty_window}
use nodeva.Receipts.{Body, Expected, Admission, admitted, admit_receipt, date_of}
use nodeva.Store.{Store, Reservation, Node, find_node}

-- The clock, and Ed25519 on a key, a body and a signature.
pub record Desk : Type 0 where
  pub now : ℕ
  pub verify_body : ℕ → Body → ℕ → Bool

pub record Booking : Type 0 where
  pub user_id : ℕ
  pub reservation_id : ℕ
  pub node_id : ℕ
  pub starts_at : ℕ
  pub ends_at : ℕ

-- How `hub.requestReservation` ends.
pub data ReserveAnswer : Type 0 where
  receipt : Body → ℕ → ReserveAnswer
  denied offline unresponsive : ReserveAnswer

pub data BookReply : Type 0 where
  unknown_node node_offline refused node_unresponsive slot_conflict server_error : BookReply
  invalid_receipt : Admission → BookReply
  booked : ℕ → ℕ → BookReply

-- The statuses of the exclusion constraint.
unfoldable pub occupies : Status → Bool
occupies held = true
occupies confirmed = true
occupies running = true
occupies completed = true
occupies _ = false

-- `EXCLUDE USING gist (node_id WITH =, slot WITH &&)`, on half-open ranges that are not empty.
unfoldable pub clashes : Reservation → Reservation → Bool
unfolding occupies
clashes a b =
    (occupies a.status && occupies b.status)
    && ((a.node_id == b.node_id) && (ltb a.starts_at b.ends_at && ltb b.starts_at a.ends_at))

abbrev pub same_id : Reservation → Reservation → Bool
same_id a b = a.reservation_id == b.reservation_id

-- `INSERT INTO reservations`: the primary key, then the exclusion constraint.
unfoldable pub insert_reservation : Reservation → Store → BookReply × Store
unfolding clashes
insert_reservation r db =
    if any (same_id r) db.reservations
    then (server_error, db)
    else if any (clashes r) db.reservations
    then (slot_conflict, db)
    else (booked r.reservation_id r.quoted_paise, record db { reservations = r ∷ db.reservations })

abbrev pub hold : Booking → Node → (quoted expires signature : ℕ) → Reservation
hold b node quoted expires signature = record {
  reservation_id = b.reservation_id;
  node_id = b.node_id;
  user_id = b.user_id;
  starts_at = b.starts_at;
  ends_at = b.ends_at;
  price_paise_hr = node.price_paise_hr;
  quoted_paise = quoted;
  status = held;
  receipt_sig = some signature;
  hold_expires_at = some expires;
  reconciled = false;
}

abbrev pub expected_of : Booking → Node → Expected
expected_of b node = record {
  node_id = b.node_id;
  reservation_id = b.reservation_id;
  starts_at = b.starts_at;
  ends_at = b.ends_at;
  price_paise_hr = node.price_paise_hr;
}

-- What the node answered: a receipt is checked before the insert, which fails on an invalid date.
unfoldable pub on_answer : Desk → Booking → Node → ℕ → ReserveAnswer → Store → BookReply × Store
unfolding admit_receipt insert_reservation date_of
on_answer desk b node quoted denied db = (refused, db)
on_answer desk b node quoted offline db = (node_offline, db)
on_answer desk b node quoted unresponsive db = (node_unresponsive, db)
on_answer desk b node quoted (receipt body signature) db =
    elim (admit_receipt desk.verify_body desk.now node.public_key body signature
      (expected_of b node)) [
        | admitted ↦ elim (date_of body.hold_expires_at) [
          | none ↦ (server_error, db)
          | some expires ↦ insert_reservation (hold b node quoted expires signature) db
        ]
        | bad ↦ (invalid_receipt bad, db)
      ]

-- POST /reservations
unfoldable pub book : Desk → Booking → ReserveAnswer → Store → BookReply × Store
unfolding expire_stale_holds quote on_answer
book desk b answer db0 =
    let db = expire_stale_holds desk.now (some b.node_id) db0 in
    elim (find_node b.node_id db) [
      | none ↦ (unknown_node, db)
      | some node ↦ elim (quote node.price_paise_hr b.starts_at b.ends_at) [
        | ok quoted ↦ on_answer desk b node quoted answer db
        | bad_total ↦ (server_error, db)
        | empty_window ↦ (server_error, db)
      ]
    ]
