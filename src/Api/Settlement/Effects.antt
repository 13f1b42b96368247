-- ===== src/Api/Settlement/Effects.antt =====
-- What `settleReservation` does on each of its branches.
use nodeva.Prelude.{ℕ, ◌≤◌, ◌<◌, ◌≡◌, ◌≢◌, arith, false, some, ◌∙◌}
use nodeva.Reservations.Machine.{Status}
use nodeva.Payments.Refunds.{issue_refund}
use nodeva.Providers.{reputation_effect, bump_reputation}
use nodeva.Ledger.{Ledger, ok, settle, key_used}
use nodeva.Ledger.Balance.{
  IsBalanced, Extends, posting, post_lem, account_id-Extends, Extends-trans, Extends-IsBalanced,
  Extends-key_used,
}
use nodeva.Store.{Store, Env, Reservation, Node, find_node, set_status}
use nodeva.Api.Settlement.{settle_accounts, settle_entries, settle_txn, pay_out}
use nodeva.Api.Settlement.Entries.{total-settle_entries, settle_entries-NonZero}

pub settle_accounts-Extends :
    (user provider : ℕ) (l : Ledger) → Extends l (settle_accounts user provider l).1
unfolding settle_accounts
settle_accounts-Extends user provider l =
    Extends-trans
      (Extends-trans (Extends-trans (account_id-Extends _ _ _ l) (account_id-Extends _ _ _ _))
        (account_id-Extends _ _ _ _))
      (account_id-Extends _ _ _ _)

-- Paying out touches neither the ledger, nor the reservations, nor the providers.
pub pay_out_frame :
    (env : Env) (resv : Reservation) (refund : ℕ) (db : Store)
    → let db' = pay_out env resv refund db in
      (db'.ledger ≡ db.ledger)
      × (db'.reservations ≡ db.reservations)
      × (db'.providers ≡ db.providers)
      × (db'.jobs ≡ db.jobs)
      × (db'.nodes ≡ db.nodes)
      × (db'.dispute_resolutions ≡ db.dispute_resolutions)
unfolding pay_out issue_refund
pay_out_frame env resv refund db = ground arith

-- The ledger that a settlement posts to, and the entries that it posts.
abbrev pub settled_ledger : Reservation → Node → ℕ → Store → Ledger
settled_ledger resv node charge db =
    let (accounts, l) = settle_accounts resv.user_id node.provider_id db.ledger in
    posting settle resv.reservation_id (settle_entries accounts resv.quoted_paise charge) l

abbrev pub settled_store : Reservation → Node → Status → ℕ → Store → Store
settled_store resv node outcome charge db = record db {
  reservations = set_status resv.reservation_id outcome db.reservations;
  ledger = settled_ledger resv node charge db;
  providers = bump_reputation node.provider_id (reputation_effect outcome) db.providers;
}

pub settle_txn_lem :
    (resv : Reservation) (node : Node) (outcome : Status) (charge : ℕ) (db : Store)
    → IsBalanced db.ledger
    → find_node resv.node_id db ≡ some node
    → key_used settle resv.reservation_id db.ledger ≡ false
    → charge ≤ resv.quoted_paise
    → 0 < resv.quoted_paise
    → charge ≢ 1
    → settle_txn resv outcome charge db ≡ ok (settled_store resv node outcome charge db)
unfolding settle_txn
settle_txn_lem resv node outcome charge db b e new le p n =
    let x = settle_accounts-Extends resv.user_id node.provider_id db.ledger in
    let a = settle_accounts resv.user_id node.provider_id db.ledger in
    let es = settle_entries a.0 resv.quoted_paise charge in
    let balanced = Extends-IsBalanced db.ledger a.1 x b in
    let fresh = Extends-key_used settle resv.reservation_id db.ledger a.1 x ∙ new in
    let step =
      post_lem settle resv.reservation_id es a.1 balanced
        (settle_entries-NonZero a.0 resv.quoted_paise charge p n)
        (total-settle_entries a.0 resv.quoted_paise charge le) in
    rw (e, settle_txn) (rw (step, fresh))
