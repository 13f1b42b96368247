-- ===== src/Api/Capture.antt =====
-- `commitNodeAndCapture` of backend/src/api/server.js: the node's commit, then the capture in the
-- ledger. The answer of the node, which the hub relays, is an argument.
pub mod Effects
use nodeva.Prelude.{ℕ, Bool, true, false, Option, none, some, List, [], ◌∷◌}
use nodeva.Prelude.Int.{ℤ, pos, neg}
use nodeva.Reservations.Machine.{confirmed, expired}
use nodeva.Ledger.{
  Ledger, Result, ok, err, ◌>>=◌, DbError, unique_violation, gateway_clearing, user_escrow, capture,
  account_id, ensure_accounts, post,
}
use nodeva.Store.{Store, Reservation, set_reservation_status}

-- How an awaited request to a node ends.
pub data NodeReply : Type 0 where
  accepted offline timed_out refused : NodeReply

pub data CaptureResult : Type 0 where
  capture_done node_unreachable already_captured node_refused : CaptureResult
  capture_thrown : DbError → CaptureResult

abbrev pub capture_entries : ℕ → ℕ → ℕ → List (ℕ × ℤ)
capture_entries gateway escrow quoted = (gateway, neg quoted) ∷ (escrow, pos quoted) ∷ []

-- The accounts of a capture: the gateway's and the user's escrow.
unfoldable pub capture_accounts : ℕ → Ledger → (ℕ × ℕ) × Ledger
capture_accounts user l0 =
    let l1 = ensure_accounts user l0 in
    let (g, l2) = account_id gateway_clearing none none l1 in
    let (e, l3) = account_id user_escrow (some user) none l2 in ((g, e), l3)

-- The part between BEGIN and COMMIT.
unfoldable pub capture_txn : Reservation → Store → Result Store
unfolding capture_accounts
capture_txn resv db =
    let (accounts, l) = capture_accounts resv.user_id db.ledger in
    post capture resv.reservation_id (capture_entries accounts.0 accounts.1 resv.quoted_paise) l
    >>= λ l'. ok (record (set_reservation_status resv.reservation_id confirmed db) { ledger = l' })

unfoldable pub after_capture : Store → Result Store → CaptureResult × Store
after_capture db (ok db') = (capture_done, db')
after_capture db (err unique_violation) = (already_captured, db)
after_capture db (err e) = (capture_thrown e, db)

-- `commitNodeAndCapture`; a refusal by the node is thrown on.
unfoldable pub commit_node_and_capture : NodeReply → Reservation → Store → CaptureResult × Store
unfolding capture_txn after_capture
commit_node_and_capture accepted resv db = after_capture db (capture_txn resv db)
commit_node_and_capture offline resv db =
    (node_unreachable, set_reservation_status resv.reservation_id expired db)
commit_node_and_capture timed_out resv db =
    (node_unreachable, set_reservation_status resv.reservation_id expired db)
commit_node_and_capture refused resv db = (node_refused, db)
