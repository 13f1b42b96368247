-- ===== src/Api/Settlement.antt =====
-- `settleReservation` of backend/src/api/server.js. A text that names no state takes the branch of an
-- outcome without a rule. The metrics counter is left out.
pub mod Entries
pub mod Effects
pub mod Invariant
pub mod Outcome
use nodeva.Prelude.{
  ℕ, ◌+◌, ◌-◌, Bool, true, false, not, ◌==◌, ◌&&◌, ltb, leb, Option, none, some, List, [], ◌∷◌,
  ◌++◌, first, if◌then◌else◌,
}
use nodeva.Prelude.Int.{ℤ, pos, neg}
use nodeva.Reservations.Machine.{
  Status, can_transition, Rule, settle_full, settle_metered, refund_full, refund_per_policy,
  settlement,
}
use nodeva.Payments.Settle.{split_total, platform_fee_bps, metered_charge}
use nodeva.Payments.Refunds.{issue_refund}
use nodeva.Providers.{reputation_effect, bump_reputation}
use nodeva.Ledger.{
  Ledger, Result, ok, err, ◌>>=◌, DbError, unique_violation, type_error, user_escrow,
  provider_balance, platform_revenue, refunds, settle, account_id, post,
}
use nodeva.Store.{
  Store, Env, Reservation, Payment, PaymentStatus, captured, GatewayName, razorpay, no_gateway,
  created, failed, refunded, find_reservation, set_reservation_status, find_node,
}

-- The amount that a rule charges.
unfoldable pub charge_for : Rule → Reservation → ℕ → ℕ
charge_for settle_full resv seconds = resv.quoted_paise
charge_for settle_metered resv seconds =
    metered_charge resv.quoted_paise resv.price_paise_hr seconds
charge_for refund_full resv seconds = 0
charge_for refund_per_policy resv seconds = 0

-- The entries of a settlement, on the four accounts that it touches.
pub record SettleAccounts : Type 0 where
  pub escrow : ℕ
  pub provider : ℕ
  pub platform : ℕ
  pub refunds : ℕ

unfoldable pub settle_entries : SettleAccounts → ℕ → ℕ → List (ℕ × ℤ)
settle_entries a quoted charge =
    let s = split_total charge platform_fee_bps in
    (a.escrow, neg quoted)
    ∷ ((if ltb 0 charge
          then (a.provider, pos s.provider) ∷ (a.platform, pos s.platform) ∷ []
          else [])
        ++ (if ltb 0 (quoted - charge) then (a.refunds, pos (quoted - charge)) ∷ [] else []))

-- The accounts are looked up, and created if missing, in this order.
unfoldable pub settle_accounts : ℕ → ℕ → Ledger → SettleAccounts × Ledger
settle_accounts user provider l0 =
    let (e, l1) = account_id user_escrow (some user) none l0 in
    let (p, l2) = account_id provider_balance none (some provider) l1 in
    let (f, l3) = account_id platform_revenue none none l2 in
    let (r, l4) = account_id refunds none none l3 in
    (record { escrow = e; provider = p; platform = f; refunds = r }, l4)

-- The part between BEGIN and COMMIT.
unfoldable pub settle_txn : Reservation → Status → ℕ → Store → Result Store
unfolding settle_accounts settle_entries
settle_txn resv outcome charge db = elim (find_node resv.node_id db) [
  | none ↦ err type_error
  | some node ↦
      let (accounts, l) = settle_accounts resv.user_id node.provider_id db.ledger in
      post settle resv.reservation_id (settle_entries accounts resv.quoted_paise charge) l >>= λ l'.
      ok (record (set_reservation_status resv.reservation_id outcome db) {
        ledger = l';
        providers = bump_reputation node.provider_id (reputation_effect outcome) db.providers;
      })
]

abbrev pub is_captured : PaymentStatus → Bool
is_captured captured = true
is_captured created = false
is_captured failed = false
is_captured refunded = false

abbrev pub is_razorpay : GatewayName → Bool
is_razorpay razorpay = true
is_razorpay no_gateway = false

abbrev pub live_payment : ℕ → Payment → Bool
live_payment reservation p =
    (p.reservation_id == reservation) && (is_captured p.status && is_razorpay p.gateway)

-- The refund that is paid out after COMMIT, where a live gateway holds the money.
unfoldable pub pay_out : Env → Reservation → ℕ → Store → Store
pay_out env resv refund db =
    if ltb 0 refund && env.is_configured
    then elim (first (live_payment resv.reservation_id) db.payments) [
      | none ↦ db
      | some p ↦ (issue_refund env p.payment_id resv.reservation_id p.gateway_ref refund db).1
    ]
    else db

pub data SettleResult : Type 0 where
  settled : Status → ℕ → ℕ → SettleResult
  not_found unknown_outcome already_settled : SettleResult
  cannot_settle_from : Status → SettleResult
  thrown : DbError → SettleResult

abbrev pub is_settled : SettleResult → Bool
is_settled (settled _ _ _) = true
is_settled not_found = false
is_settled unknown_outcome = false
is_settled already_settled = false
is_settled (cannot_settle_from _) = false
is_settled (thrown _) = false

abbrev pub is_thrown : SettleResult → Bool
is_thrown (thrown _) = true
is_thrown (settled _ _ _) = false
is_thrown not_found = false
is_thrown unknown_outcome = false
is_thrown already_settled = false
is_thrown (cannot_settle_from _) = false

-- The answer after the transaction; any error has been rolled back.
unfoldable pub after_settle :
    Env → Reservation → Status → ℕ → Store → Result Store → SettleResult × Store
unfolding pay_out
after_settle env resv outcome charge db (ok db') =
    let refund = resv.quoted_paise - charge in
    (settled outcome charge refund, pay_out env resv refund db')
after_settle env resv outcome charge db (err unique_violation) = (already_settled, db)
after_settle env resv outcome charge db (err e) = (thrown e, db)

unfoldable pub settle_found :
    Env → Reservation → Status → ℕ → Store → Option Rule → SettleResult × Store
unfolding after_settle settle_txn charge_for
settle_found env resv outcome seconds db none = (unknown_outcome, db)
settle_found env resv outcome seconds db (some rule) =
    let charge = charge_for rule resv seconds in
    if not (can_transition resv.status outcome)
    then (cannot_settle_from resv.status, db)
    else after_settle env resv outcome charge db (settle_txn resv outcome charge db)

-- `settleReservation`
unfoldable pub settle_reservation : Env → ℕ → Status → ℕ → Store → SettleResult × Store
unfolding settle_found
settle_reservation env id outcome seconds db = elim (find_reservation id db) [
  | none ↦ (not_found, db)
  | some resv ↦ settle_found env resv outcome seconds db (settlement outcome)
]
