-- ===== src/Api/Settlement/Entries.antt =====
-- The entries of a settlement: they balance, and they can be stored.
use nodeva.Prelude.{ℕ, ◌≤◌, ◌<◌, ◌≡◌, ◌≢◌, arith}
use nodeva.Prelude.Int.{pos, ◌+ℤ◌}
use nodeva.Payments.Settle.{split_total, metered_charge}
use nodeva.Ledger.Balance.{total, NonZero}
use nodeva.Store.{Reservation}
use nodeva.Reservations.Machine.{Rule}
use nodeva.Api.Settlement.{SettleAccounts, settle_entries, charge_for}

-- A bill never exceeds the quote.
pub charge_for-le :
    (rule : Rule) (resv : Reservation) (seconds : ℕ)
    → charge_for rule resv seconds ≤ resv.quoted_paise
unfolding charge_for metered_charge
charge_for-le rule resv seconds = ground arith

-- Whatever is charged up to the quote, the entries sum to zero.
pub total-settle_entries :
    (a : SettleAccounts) (quoted charge : ℕ)
    → charge ≤ quoted
    → total (settle_entries a quoted charge) ≡ pos 0
unfolding settle_entries split_total ◌+ℤ◌
total-settle_entries a quoted charge h = ground arith

-- The schema refuses an entry of zero. None arises for a positive quote, unless exactly one paisa is
-- charged: then the provider's part is zero.
pub settle_entries-NonZero :
    (a : SettleAccounts) (quoted charge : ℕ)
    → 0 < quoted
    → charge ≢ 1
    → NonZero (settle_entries a quoted charge)
unfolding settle_entries split_total
settle_entries-NonZero a quoted charge h n = ground arith
