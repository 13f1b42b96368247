-- ===== src/Api/Complete/Guards.antt =====
-- Settling by hand keeps what every settlement keeps.
use nodeva.Prelude.{ℕ, inl, inr, Bool, true, false, Option-cases}
use nodeva.Reservations.Machine.{Status}
use nodeva.Store.{Store, Env}
use nodeva.Store.Lifecycle.{IsSound, Preserves, Preserves-refl}
use nodeva.Api.Confirm.{owned}
use nodeva.Api.JobResult.Groups.{settle_reservation-Preserves}
use nodeva.Api.Complete.{complete}

-- However the route ends, ledger transactions sum to zero and reservations have moved along edges of
-- the lifecycle only.
pub complete-Preserves :
    (is_allowed : Bool) (env : Env) (user id : ℕ) (outcome : Status) (seconds : ℕ) (db : Store)
    → IsSound db
    → Preserves db (complete is_allowed env user id outcome seconds db).1
unfolding complete
complete-Preserves false env user id outcome seconds db s = Preserves-refl db s
complete-Preserves true env user id outcome seconds db s = elim (Option-cases (owned user id db)) [
  | inl o ↦ rw (o, complete) (Preserves-refl db s)
  | inr (r, o) ↦ rw (o, complete) (settle_reservation-Preserves env id outcome seconds db s)
]
