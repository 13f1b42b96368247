-- ===== src/Reservations/Reconciler/Sweep.antt =====
-- The sweep expires exactly the stale holds, along the lifecycle, and is done after one pass.
use nodeva.Store.Moves.{update_rows-PaidRows}
use nodeva.Store.Paid.{is_paid}
use nodeva.Prelude.{ℕ, ◌≡◌, refl, arith, false, List, [], ◌∷◌, Option, update_rows, any}
use nodeva.Reservations.Machine.{expired, can_transition}
use nodeva.Store.{Store, Reservation}
use nodeva.Store.Lifecycle.{Advances, IsSound, Preserves, Advances-Preserves}
use nodeva.Reservations.Reconciler.{is_stale, expire_stale_holds}

sweep-Advances :
    (now : ℕ) (at_node : Option ℕ) (rows : List Reservation)
    → Advances rows (update_rows (is_stale now at_node) (λ r. record r { status = expired }) rows)
unfolding is_stale can_transition
sweep-Advances now at_node [] = tt
sweep-Advances now at_node (r ∷ rows) = ground (arith, sweep-Advances now at_node rows)

sweep-done :
    (now : ℕ) (at_node : Option ℕ) (rows : List Reservation)
    → any
        (is_stale now at_node)
        (update_rows (is_stale now at_node) (λ r. record r { status = expired }) rows)
      ≡ false
unfolding is_stale
sweep-done now at_node [] = refl
sweep-done now at_node (r ∷ rows) = ground (arith, sweep-done now at_node rows)

-- The sweep moves reservations along edges of the lifecycle only, leaves the books balanced, and
-- leaves no hold that it would expire at the same moment.
pub expire_stale_holds-Preserves :
    (now : ℕ) (at_node : Option ℕ) (db : Store)
    → IsSound db
    → let db' = expire_stale_holds now at_node db in
      Preserves db db' × (any (is_stale now at_node) db'.reservations ≡ false)
unfolding expire_stale_holds is_paid
expire_stale_holds-Preserves now at_node db s = (
  Advances-Preserves db (expire_stale_holds now at_node db) s.balanced
      (sweep-Advances now at_node db.reservations)
      (record {
        keys_stay = λ i c. c;
        rows_paid =
            update_rows-PaidRows (is_stale now at_node) expired db.ledger db.reservations refl;
      }),
  sweep-done now at_node db.reservations,
)
