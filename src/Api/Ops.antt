-- ===== src/Api/Ops.antt =====
-- GET /admin/ops-summary of backend/src/api/server.js, and the gauges that
-- backend/src/observability/backlog.js refreshes. The column `updated_at` is a function of the row.
pub mod Agree
use nodeva.Prelude.{
  ℕ, ◌+◌, ◌==◌, Bool, true, false, not, leb, Option, none, some, List, [], ◌∷◌, ◌++◌, map, length,
  any, where_rows, if◌then◌else◌, is_some,
}
use nodeva.Prelude.Sorting.{sort_by}
use nodeva.Payments.Refunds.{take}
use nodeva.Store.{
  Store, Reservation, RefundRetry, RetryStatus, waiting, succeeded, exhausted, Resolution,
}
use nodeva.Api.Dashboard.{DisputedJob, disputed_jobs, resolution_of}

abbrev same_retry : RetryStatus → RetryStatus → Bool
same_retry waiting waiting = true
same_retry succeeded succeeded = true
same_retry exhausted exhausted = true
same_retry _ _ = false

-- `count(*)` of the rows of `refund_retries` with a status.
abbrev pub retries_in : RetryStatus → Store → ℕ
retries_in s db = length (where_rows (λ r. same_retry r.status s) db.refund_retries)

-- `GROUP BY status`: a status without rows is missing.
unfoldable pub retries_by_status : Store → List (RetryStatus × ℕ)
retries_by_status db =
    where_rows (λ c. not (c.1 == 0))
      (map (λ s. (s, retries_in s db)) (waiting ∷ succeeded ∷ exhausted ∷ []))

abbrev pub all_disputed : Store → List DisputedJob
all_disputed db = disputed_jobs db.reservations db.jobs

abbrev is_awaiting : Option Resolution → Bool
is_awaiting none = true
is_awaiting (some d) = false

-- The verdict is 'attributed' exactly when a reservation is named.
abbrev is_attributed : Option Resolution → Bool
is_attributed none = false
is_attributed (some d) = is_some d.at_fault_reservation_id

abbrev is_inconclusive : Option Resolution → Bool
is_inconclusive none = false
is_inconclusive (some d) = not (is_some d.at_fault_reservation_id)

abbrev pub disputes_that : (Option Resolution → Bool) → Store → ℕ
disputes_that p db = length (where_rows (λ d. p (resolution_of d.job db)) (all_disputed db))

-- `SELECT DISTINCT`, on rows that the reservation's id determines.
abbrev pub distinct_ids : List DisputedJob → List DisputedJob
distinct_ids [] = []
distinct_ids (d ∷ ds) =
    let rest = distinct_ids ds in
    if any (λ x. x.reservation.reservation_id == d.reservation.reservation_id) ds
    then rest
    else d ∷ rest

pub record OpsSummary : Type 0 where
  pub by_status : List (RetryStatus × ℕ)
  pub exhausted_rows : List RefundRetry
  pub awaiting_tiebreaker : ℕ
  pub resolved_attributed : ℕ
  pub resolved_inconclusive : ℕ
  pub awaiting_tiebreak : List Reservation

-- GET /admin/ops-summary, past the admin gate.
unfoldable pub ops_summary : (RefundRetry → ℕ) → (Reservation → ℕ) → Store → OpsSummary
unfolding retries_by_status
ops_summary retry_updated_at updated_at db = record {
  by_status = retries_by_status db;
  exhausted_rows = take 50 (
      sort_by (λ a b. leb (retry_updated_at b) (retry_updated_at a))
        (where_rows (λ r. same_retry r.status exhausted) db.refund_retries));
  awaiting_tiebreaker = disputes_that is_awaiting db;
  resolved_attributed = disputes_that is_attributed db;
  resolved_inconclusive = disputes_that is_inconclusive db;
  awaiting_tiebreak = take 50 (
      sort_by (λ a b. leb (updated_at b) (updated_at a))
        (map (λ d. d.reservation)
          (distinct_ids
            (where_rows (λ d. is_awaiting (resolution_of d.job db)) (all_disputed db)))));
}

-- The two gauges of metrics.js.
pub record Gauges : Type 0 where
  pub refund_retries_pending : RetryStatus → Option ℕ
  pub disputes_awaiting_tiebreak : Option ℕ

abbrev pub lookup : RetryStatus → List (RetryStatus × ℕ) → Option ℕ
lookup s [] = none
lookup s (c ∷ cs) = let rest = lookup s cs in if same_retry c.0 s then some c.1 else rest

abbrev pub or_zero : Option ℕ → ℕ
or_zero none = 0
or_zero (some n) = n

abbrev set_gauge : RetryStatus → ℕ → Gauges → Gauges
set_gauge s n g = record g {
  refund_retries_pending = λ t. if same_retry t s then some n else g.refund_retries_pending t;
}

-- The loop over `REFUND_RETRY_STATUSES`.
abbrev set_all : List (RetryStatus × ℕ) → List RetryStatus → Gauges → Gauges
set_all counts [] g = g
set_all counts (s ∷ ss) g = set_all counts ss (set_gauge s (or_zero (lookup s counts)) g)

-- `refreshBacklogGauges`
unfoldable pub refresh_backlog_gauges : Store → Gauges → Gauges
unfolding retries_by_status
refresh_backlog_gauges db g =
    let g' = set_all (retries_by_status db) (waiting ∷ succeeded ∷ exhausted ∷ []) g in
    record g' { disputes_awaiting_tiebreak = some (disputes_that is_awaiting db) }
