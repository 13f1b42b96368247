-- ===== src/Api/Complete.antt =====
-- POST /reservations/:id/complete of backend/src/api/server.js, which settles by hand where the
-- deployment allows it.
pub mod Guards
use nodeva.Prelude.{ℕ, Bool, not, Option, none, some, if◌then◌else◌}
use nodeva.Reservations.Machine.{Status}
use nodeva.Store.{Store, Env}
use nodeva.Api.Settlement.{SettleResult, not_found, settle_reservation}
use nodeva.Api.Confirm.{owned}

unfoldable pub complete : Bool → Env → ℕ → ℕ → Status → ℕ → Store → SettleResult × Store
unfolding owned settle_reservation
complete is_allowed env user id outcome seconds db =
    if not is_allowed then (not_found, db) else elim (owned user id db) [
      | none ↦ (not_found, db)
      | some _ ↦ settle_reservation env id outcome seconds db
    ]
