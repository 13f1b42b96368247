-- ===== src/Api/Ops/Agree.antt =====
-- The summary and the gauges count the same rows, and every row once.
use nodeva.Prelude.{
  ℕ, ◌+◌, ◌≡◌, ◌==◌, refl, arith, not, some, List, [], ◌∷◌, length, where_rows, inl, inr,
  Bool-cases, is_some, Option-cases,
}
use nodeva.Store.{Store, Reservation, RefundRetry, RetryStatus, waiting, succeeded, exhausted}
use nodeva.Api.Dashboard.{DisputedJob, resolution_of}
use nodeva.Api.Ops.{
  same_retry, retries_in, retries_by_status, all_disputed, is_awaiting, is_attributed,
  is_inconclusive, ops_summary, Gauges, lookup, or_zero, refresh_backlog_gauges,
}

-- The groups of a count by status, of which empty ones are missing.
abbrev grouped : ℕ → ℕ → ℕ → List (RetryStatus × ℕ)
grouped a b c =
    where_rows (λ x. not (x.1 == 0)) ((waiting, a) ∷ (succeeded, b) ∷ (exhausted, c) ∷ [])

lookup-grouped :
    (a b c : ℕ)
    → (or_zero (lookup waiting (grouped a b c)) ≡ a)
      × (or_zero (lookup succeeded (grouped a b c)) ≡ b)
      × (or_zero (lookup exhausted (grouped a b c)) ≡ c)
lookup-grouped a b c = ground arith

retries_total :
    (rs : List RefundRetry)
    → length (where_rows (λ r. same_retry r.status waiting) rs)
        + length (where_rows (λ r. same_retry r.status succeeded) rs)
        + length (where_rows (λ r. same_retry r.status exhausted) rs)
      ≡ length rs
retries_total [] = refl
retries_total (r ∷ rs) = ground (arith, retries_total rs)

disputes_total :
    (db : Store) (ds : List DisputedJob)
    → length (where_rows (λ d. is_awaiting (resolution_of d.job db)) ds)
        + length (where_rows (λ d. is_attributed (resolution_of d.job db)) ds)
        + length (where_rows (λ d. is_inconclusive (resolution_of d.job db)) ds)
      ≡ length ds
disputes_total db [] = refl
disputes_total db (d ∷ ds) = elim (Option-cases (resolution_of d.job db)) [
  | inl n ↦ rw n (omega (arith, disputes_total db ds))
  | inr (r, e) ↦ elim (Bool-cases (is_some r.at_fault_reservation_id)) [
    | inl t ↦ rw (e, t) (omega (arith, disputes_total db ds))
    | inr f ↦ rw (e, f) (omega (arith, disputes_total db ds))
  ]
]

set_gauges-each :
    (s : RetryStatus) (db : Store) (g : Gauges)
    → (refresh_backlog_gauges db g).refund_retries_pending s
      ≡ some (or_zero (lookup s (retries_by_status db)))
unfolding refresh_backlog_gauges retries_by_status
set_gauges-each waiting db g = refl
set_gauges-each succeeded db g = refl
set_gauges-each exhausted db g = refl

-- The gauges never disagree with the summary for the operators: for each status of a refund retry, also
-- one without rows, the gauge is the summary's count or 0 where the summary has none, and the gauge of
-- disputes is its count. The counts by status make up all refund retries, and the three counts of
-- disputes all disputed reservations with a job.
pub refresh_backlog_gauges-ops_summary :
    (retry_updated_at : RefundRetry → ℕ) (updated_at : Reservation → ℕ) (db : Store) (g : Gauges)
    → let o = ops_summary retry_updated_at updated_at db in
      let g' = refresh_backlog_gauges db g in
      ((s : RetryStatus) → g'.refund_retries_pending s ≡ some (or_zero (lookup s o.by_status)))
      × (g'.disputes_awaiting_tiebreak ≡ some o.awaiting_tiebreaker)
      × (or_zero (lookup waiting o.by_status)
            + or_zero (lookup succeeded o.by_status)
            + or_zero (lookup exhausted o.by_status)
          ≡ length db.refund_retries)
      × (o.awaiting_tiebreaker + o.resolved_attributed + o.resolved_inconclusive
          ≡ length (all_disputed db))
unfolding ops_summary refresh_backlog_gauges retries_by_status
refresh_backlog_gauges-ops_summary retry_updated_at updated_at db g =
    let counts =
      lookup-grouped (retries_in waiting db) (retries_in succeeded db) (retries_in exhausted db) in
    (
      (λ s. set_gauges-each s db g),
      refl,
      omega (arith, counts.0, counts.1, counts.2, retries_total db.refund_retries),
      disputes_total db (all_disputed db),
    )
