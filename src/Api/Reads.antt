-- ===== src/Api/Reads.antt =====
-- The routes of backend/src/api/server.js that read for a session's user: a reservation with its job, a
-- job, and the verdict on a group; and POST /nodes/:id/availability. No row is 404.
pub mod Private
use nodeva.Prelude.{
  ℕ, Bool, true, false, ◌==◌, ◌&&◌, ltb, Option, none, some, List, ◌∷◌, first, any, if◌then◌else◌,
}
use nodeva.Store.{Store, Reservation, Job, Resolution, find_node}
use nodeva.Marketplace.Scheduler.{Window}
use nodeva.Marketplace.Catalogue.{Availability}
use nodeva.Api.Nodes.{is_own_node}

-- `reservations WHERE reservation_id = $1 AND user_id = $2`
abbrev pub is_users : ℕ → ℕ → Reservation → Bool
is_users user id r = (r.reservation_id == id) && (r.user_id == user)

-- `JOIN reservations r ON r.reservation_id = ... WHERE r.user_id = $2`
abbrev pub owns : ℕ → ℕ → Store → Bool
owns user id db = any (is_users user id) db.reservations

-- GET /reservations/:id: with the newest job, where there is one.
unfoldable pub get_reservation : ℕ → ℕ → Store → Option (Reservation × Option Job)
get_reservation user id db = elim (first (is_users user id) db.reservations) [
  | none ↦ none
  | some r ↦ some (r, first (λ j. j.reservation_id == id) db.jobs)
]

-- GET /jobs/:id
unfoldable pub get_job : ℕ → ℕ → Store → Option Job
get_job user id db = first (λ j. (j.job_id == id) && owns user j.reservation_id db) db.jobs

-- GET /verification-groups/:groupId/resolution
unfoldable pub get_resolution : ℕ → ℕ → Store → Option Resolution
get_resolution user group db =
    first (λ d. (d.verification_group_id == group) && owns user d.tiebreaker_reservation_id db)
      db.dispute_resolutions

pub data AvailabilityReply : Type 0 where
  not_found check_failed window_added : AvailabilityReply

-- POST /nodes/:id/availability; the table refuses a window that does not end after it starts.
unfoldable pub add_availability :
    ℕ → ℕ → Window → Store → List Availability → AvailabilityReply × List Availability
add_availability user id window db rows = elim (find_node id db) [
  | none ↦ (not_found, rows)
  | some n ↦
      if is_own_node user db n
      then if ltb window.start window.end
        then (window_added, record { node_id = id; window = window } ∷ rows)
        else (check_failed, rows)
      else (not_found, rows)
]
