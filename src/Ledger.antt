-- ===== src/Ledger.antt =====
-- The double-entry ledger: its three tables in backend/migrations/001_init.sql, and `accountId` and
-- `ensureAccounts` of backend/src/api/server.js.
pub mod Balance
use nodeva.Prelude.{
  ℕ, suc, Bool, true, false, ◌==◌, ◌&&◌, Option, none, some, List, [], ◌∷◌, first, any, opt_eq,
  if◌then◌else◌,
}
use nodeva.Prelude.Int.{ℤ, pos, ◌+ℤ◌, is_zero}

-- The errors that the code tells apart, and those that it only passes on.
pub data DbError : Type 0 where
  unique_violation exclusion_violation check_violation unbalanced_txn type_error : DbError

pub data Result {ℓ} (A : Type ℓ) : Type ℓ where
  ok : A → Result A
  err : DbError → Result A

infixl 5 ◌>>=◌
abbrev pub ◌>>=◌ {ℓ κ} : {A : Type ℓ} {B : Type κ} → Result A → (A → Result B) → Result B
ok a >>= f = f a
err e >>= f = err e

pub data AccountKind : Type 0 where
  gateway_clearing user_escrow provider_balance platform_revenue refunds : AccountKind

abbrev pub kind_code : AccountKind → ℕ
kind_code gateway_clearing = 0
kind_code user_escrow = 1
kind_code provider_balance = 2
kind_code platform_revenue = 3
kind_code refunds = 4

-- `ledger_accounts`
pub record Account : Type 0 where
  pub account_id : ℕ
  pub kind : AccountKind
  pub owner_user_id : Option ℕ
  pub owner_provider_id : Option ℕ

pub data TxnKind : Type 0 where
  capture settle : TxnKind

abbrev same_kind : TxnKind → TxnKind → Bool
same_kind capture capture = true
same_kind capture settle = false
same_kind settle capture = false
same_kind settle settle = true

-- `ledger_transactions`. The idempotency key is the text of the kind and the reservation's id, so the
-- two fields stand for it.
pub record Transaction : Type 0 where
  pub txn_id : ℕ
  pub kind : TxnKind
  pub reservation_id : ℕ

-- `ledger_entries`
pub record Entry : Type 0 where
  pub txn_id : ℕ
  pub account_id : ℕ
  pub amount_paise : ℤ

-- Newest rows come first; the next generated id stands above all ids in use.
pub record Ledger : Type 0 where
  pub accounts : List Account
  pub transactions : List Transaction
  pub entries : List Entry
  pub next_id : ℕ

abbrev pub is_account : AccountKind → Option ℕ → Option ℕ → Account → Bool
is_account kind user provider a =
    (kind_code a.kind == kind_code kind)
    && (opt_eq a.owner_user_id user && opt_eq a.owner_provider_id provider)

abbrev new_account : AccountKind → Option ℕ → Option ℕ → Ledger → Account
new_account kind user provider l = record {
  account_id = l.next_id;
  kind = kind;
  owner_user_id = user;
  owner_provider_id = provider;
}

-- `accountId`: the account's id, created if it is missing.
unfoldable pub account_id : AccountKind → Option ℕ → Option ℕ → Ledger → ℕ × Ledger
account_id kind user provider l = elim (first (is_account kind user provider) l.accounts) [
  | some a ↦ (a.account_id, l)
  | none ↦ (
    l.next_id,
    record l { accounts = new_account kind user provider l ∷ l.accounts; next_id = suc l.next_id },
  )
]

-- `ensureAccounts`
unfoldable pub ensure_accounts : ℕ → Ledger → Ledger
ensure_accounts user l =
    (account_id refunds none none
      (account_id platform_revenue none none
        (account_id user_escrow (some user) none
          (account_id gateway_clearing none none l).1).1).1).1

-- The idempotency key has been used.
abbrev pub key_used : TxnKind → ℕ → Ledger → Bool
key_used kind reservation l =
    any (λ t. same_kind t.kind kind && t.reservation_id == reservation) l.transactions

-- `INSERT INTO ledger_transactions`, which the unique key refuses a second time.
unfoldable pub insert_transaction : TxnKind → ℕ → Ledger → Result (ℕ × Ledger)
insert_transaction kind reservation l =
    if key_used kind reservation l
    then err unique_violation
    else ok (
      l.next_id,
      record l {
        transactions =
            record { txn_id = l.next_id; kind = kind; reservation_id = reservation }
            ∷ l.transactions;
        next_id = suc l.next_id;
      },
    )

-- The rows of `INSERT INTO ledger_entries`, one after the other; an amount of zero is refused.
unfoldable pub insert_entries : ℕ → List (ℕ × ℤ) → Ledger → Result Ledger
insert_entries txn [] l = ok l
insert_entries txn ((account, amount) ∷ rest) l =
    let row : Entry = record { txn_id = txn; account_id = account; amount_paise = amount } in
    let inserted = insert_entries txn rest (record l { entries = row ∷ l.entries }) in
    if is_zero amount then err check_violation else inserted

-- `SUM(amount_paise) WHERE txn_id = $1`
unfoldable pub txn_sum : ℕ → List Entry → ℤ
txn_sum txn [] = pos 0
txn_sum txn (e ∷ es) = if e.txn_id == txn then e.amount_paise +ℤ txn_sum txn es else txn_sum txn es

-- The deferred trigger `ledger_balanced`, which runs at COMMIT for the transaction's entries.
unfoldable pub assert_balanced : ℕ → Ledger → Result Ledger
unfolding txn_sum
assert_balanced txn l = if is_zero (txn_sum txn l.entries) then ok l else err unbalanced_txn

-- A whole posting: the ledger transaction, its entries and the check at COMMIT.
unfoldable pub post : TxnKind → ℕ → List (ℕ × ℤ) → Ledger → Result Ledger
unfolding insert_transaction insert_entries assert_balanced
post kind reservation entries l = do
  (txn, l') ← insert_transaction kind reservation l
  l'' ← insert_entries txn entries l'
  assert_balanced txn l''
