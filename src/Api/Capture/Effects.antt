-- ===== src/Api/Capture/Effects.antt =====
-- What `commitNodeAndCapture` does, by the node's answer.
use nodeva.Store.Moves.{set_status-Pays, posting-keeps, posting-captured}
use nodeva.Store.Paid.{IsCapturedIn, Pays, Pays-refl, is_paid}
use mathlib.Core.Path.{subst}
use nodeva.Prelude.{
  ap, ℕ, ◌≡◌, ◌⊎◌, inl, inr, refl, arith, true, ◌<◌, some, if◌then◌else◌, Bool-cases,
}
use nodeva.Prelude.Int.{pos, ◌+ℤ◌}
use nodeva.Reservations.Machine.{confirmed, expired, can_transition}
use nodeva.Ledger.{Ledger, capture, key_used}
use nodeva.Ledger.Balance.{
  IsBalanced, Extends, Extends-trans, account_id-Extends, ensure_accounts-Extends,
  Extends-IsBalanced, Extends-key_used, posting, post_lem, post_cases, posting-IsBalanced, total,
}
use nodeva.Store.{Store, Reservation, find_reservation, set_status, set_reservation_status}
use nodeva.Store.Lifecycle.{Advances, Keyed, Advances-refl, set_status-Advances, find-id}
use nodeva.Api.Capture.{
  NodeReply, accepted, offline, timed_out, refused, capture_done, node_unreachable,
  already_captured, capture_entries, capture_accounts, commit_node_and_capture,
}

capture_accounts-Extends : (user : ℕ) (l : Ledger) → Extends l (capture_accounts user l).1
unfolding capture_accounts
capture_accounts-Extends user l =
    Extends-trans (Extends-trans (ensure_accounts-Extends user l) (account_id-Extends _ _ _ _))
      (account_id-Extends _ _ _ _)

total-capture_entries : (g e quoted : ℕ) → total (capture_entries g e quoted) ≡ pos 0
unfolding ◌+ℤ◌
total-capture_entries g e quoted = ground arith

-- The store after a capture.
abbrev pub captured_store : Reservation → Store → Store
captured_store resv db =
    let a = capture_accounts resv.user_id db.ledger in
    record db {
      reservations = set_status resv.reservation_id confirmed db.reservations;
      ledger =
          posting capture resv.reservation_id (capture_entries a.0.0 a.0.1 resv.quoted_paise) a.1;
    }

-- When the node accepts and the quote is positive, the capture succeeds unless the reservation has
-- been captured before: on a balanced ledger it posts the quote from the gateway to the user's escrow
-- and confirms the reservation, or else answers so and changes nothing.
pub commit_node_and_capture_lem :
    (resv : Reservation) (db : Store)
    → IsBalanced db.ledger
    → 0 < resv.quoted_paise
    → commit_node_and_capture accepted resv db ≡ (
        if key_used capture resv.reservation_id db.ledger
        then (already_captured, db)
        else (capture_done, captured_store resv db))
unfolding commit_node_and_capture
commit_node_and_capture_lem resv db b p =
    let a = capture_accounts resv.user_id db.ledger in
    let x = capture_accounts-Extends resv.user_id db.ledger in
    let step =
      post_lem capture resv.reservation_id (capture_entries a.0.0 a.0.1 resv.quoted_paise) a.1
        (Extends-IsBalanced db.ledger a.1 x b) (ground arith)
        (total-capture_entries a.0.0 a.0.1 resv.quoted_paise) in
    let same = Extends-key_used capture resv.reservation_id db.ledger a.1 x in
    elim (Bool-cases (key_used capture resv.reservation_id db.ledger)) [
      | inl used ↦ rw (step, same, used)
      | inr new ↦ rw (step, same, new)
    ]

-- What a call can come to.
pub commit_cases :
    (reply : NodeReply) (resv : Reservation) (db : Store)
    → IsBalanced db.ledger
    → let r = commit_node_and_capture reply resv db in
      (r.1 ≡ db)
      ⊎ (((r.0 ≡ node_unreachable) × (r.1 ≡ set_reservation_status resv.reservation_id expired db))
          ⊎ ((reply ≡ accepted) × (r ≡ (capture_done, captured_store resv db))))
unfolding commit_node_and_capture
commit_cases offline resv db b = inr (inl (refl, refl))
commit_cases timed_out resv db b = inr (inl (refl, refl))
commit_cases refused resv db b = inl refl
commit_cases accepted resv db b =
    let a = capture_accounts resv.user_id db.ledger in
    let x = capture_accounts-Extends resv.user_id db.ledger in
    elim (post_cases capture resv.reservation_id (capture_entries a.0.0 a.0.1 resv.quoted_paise) a.1
      (Extends-IsBalanced db.ledger a.1 x b)
      (total-capture_entries a.0.0 a.0.1 resv.quoted_paise)) [
        | inl (_, done) ↦ inr (inr (refl, rw done))
        | inr (inl used) ↦ inl (rw used)
        | inr (inr zero) ↦ inl (rw zero)
      ]

-- Whatever the node answers, every ledger transaction still sums to zero.
pub commit_node_and_capture-IsBalanced :
    (reply : NodeReply) (resv : Reservation) (db : Store)
    → IsBalanced db.ledger
    → IsBalanced (commit_node_and_capture reply resv db).1.ledger
commit_node_and_capture-IsBalanced reply resv db b = elim (commit_cases reply resv db b) [
  | inl same ↦ rw same b
  | inr (inl (_, lapsed)) ↦ rw lapsed b
  | inr (inr (_, done)) ↦
      let a = capture_accounts resv.user_id db.ledger in
      rw done (
        posting-IsBalanced capture resv.reservation_id
          (capture_entries a.0.0 a.0.1 resv.quoted_paise) a.1
          (Extends-IsBalanced db.ledger a.1 (capture_accounts-Extends resv.user_id db.ledger) b)
          (total-capture_entries a.0.0 a.0.1 resv.quoted_paise))
]

-- For a stored reservation that may be confirmed, whatever the node answers, each reservation is as
-- it was or has moved along one edge of the lifecycle.
pub commit_node_and_capture-Advances :
    (reply : NodeReply) (id : ℕ) (db : Store) {resv : Reservation}
    → IsBalanced db.ledger
    → Keyed db.reservations
    → find_reservation id db ≡ some resv
    → can_transition resv.status confirmed ≡ true
    → Advances db.reservations (commit_node_and_capture reply resv db).1.reservations
unfolding can_transition
commit_node_and_capture-Advances reply id db {resv} b k e t = elim (commit_cases reply resv db b) [
  | inl same ↦ rw same (Advances-refl db.reservations)
  | inr (inl (_, lapsed)) ↦
      rw (lapsed, find-id id db.reservations e)
        (set_status-Advances id expired db.reservations k e (ground arith))
  | inr (inr (_, done)) ↦
      rw (done, find-id id db.reservations e)
        (set_status-Advances id confirmed db.reservations k e t)
]

-- For a stored reservation that may be confirmed, whatever the node answers, captures stay in the
-- ledger, and the reservation is confirmed only with its own.
pub commit_node_and_capture-Pays :
    (reply : NodeReply) (id : ℕ) (db : Store) {resv : Reservation}
    → IsBalanced db.ledger
    → Keyed db.reservations
    → find_reservation id db ≡ some resv
    → Pays db (commit_node_and_capture reply resv db).1
unfolding is_paid
commit_node_and_capture-Pays reply id db {resv} b k e =
    let key = find-id id db.reservations e in
    let a = capture_accounts resv.user_id db.ledger in
    let es = capture_entries a.0.0 a.0.1 resv.quoted_paise in
    elim (commit_cases reply resv db b) [
      | inl same ↦ rw same (Pays-refl db)
      | inr (inl (_, lapsed)) ↦ rw lapsed (
          set_status-Pays id expired db _ {r = resv} k e (λ i c. c)
            (ap (λ j. set_status j expired db.reservations) key) (λ now. cc))
      | inr (inr (_, done)) ↦ rw done (
          set_status-Pays id confirmed db _ {r = resv} k e
            (posting-keeps capture resv.reservation_id es db.ledger a.1
              (capture_accounts-Extends resv.user_id db.ledger))
            (ap (λ j. set_status j confirmed db.reservations) key)
            (λ now. inr (
              subst (IsCapturedIn (posting capture resv.reservation_id es a.1)) key
                (posting-captured resv.reservation_id es a.1))))
    ]
