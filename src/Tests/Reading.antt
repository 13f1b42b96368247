-- ===== src/Tests/Reading.antt =====
-- What users, providers and operators read.
use nodeva.Prelude.{◌≡◌, ◌+◌, refl, arith, true, none, some, [], ◌∷◌, length}
use nodeva.Prelude.Int.{pos, ◌+ℤ◌}
use nodeva.Reservations.Machine.{
  running, held, disputed, failed_user, settle_metered, settlement, can_transition,
}
use nodeva.Payments.Settle.{split_total, metered_charge}
use nodeva.Store.{Store, RefundRetry, RetryStatus, waiting, succeeded, exhausted}
use nodeva.Api.Settlement.{charge_for, settle_reservation}
use nodeva.Api.Reads.{get_reservation, get_job, get_resolution}
use nodeva.Api.Reads.Private.{only, reads-only}
use nodeva.Api.Dashboard.{earned, sum_entries}
use nodeva.Api.Dashboard.Credits.Settled.{earned-settle_reservation}
use nodeva.Api.Ops.{
  Gauges, OpsSummary, all_disputed, lookup, or_zero, ops_summary, refresh_backlog_gauges,
}
use nodeva.Api.Ops.Agree.{refresh_backlog_gauges-ops_summary}
use nodeva.Tests.World.{store_of, env, node_of, an_hour, world, no_books-IsBalanced}

-- The user 7 and a stranger.
abbrev two_users : Store
two_users =
    store_of (record (an_hour held) { reservation_id = 6; user_id = 8 } ∷ an_hour running ∷ [])

reads-only_example :
    (get_reservation 7 5 (only 7 two_users) ≡ get_reservation 7 5 two_users)
    × (get_job 7 5 (only 7 two_users) ≡ get_job 7 5 two_users)
    × (get_resolution 7 5 (only 7 two_users) ≡ get_resolution 7 5 two_users)
reads-only_example = reads-only 7 5 two_users

strangers_see_nothing : get_reservation 8 5 two_users ≡ none
unfolding get_reservation
strangers_see_nothing = refl

-- Five rupees are charged, of which the provider gets nine tenths.
earned-settle_reservation_example :
    earned 1 (λ e. true) (settle_reservation env 5 failed_user 60 (world running)).1.ledger
    ≡ pos 450
unfolding charge_for metered_charge settlement can_transition earned sum_entries ◌+ℤ◌ split_total
earned-settle_reservation_example =
    earned-settle_reservation env 5 failed_user 60 (world running) 1 {resv = an_hour running}
      {rule = settle_metered} {node = node_of 1} refl refl refl refl refl (omega arith)
      no_books-IsBalanced (record { apart = tt; accounts_below = tt; entries_below = tt })
      (omega arith)

abbrev a_retry : RetryStatus → RefundRetry
a_retry s = record {
  payment_id = 3;
  reservation_id = 5;
  gateway_ref = 40;
  amount_paise = 100;
  attempts = 1;
  next_attempt_at = 0;
  status = s;
}

-- Two retries wait, none has succeeded, and one dispute has no verdict.
abbrev a_backlog : Store
a_backlog = record (world disputed) {
  refund_retries = a_retry waiting ∷ a_retry exhausted ∷ a_retry waiting ∷ [];
}

abbrev no_gauges : Gauges
no_gauges = record { refund_retries_pending = λ s. none; disputes_awaiting_tiebreak = none }

abbrev seen : OpsSummary
seen = ops_summary (λ r. 0) (λ r. 0) a_backlog

refresh_backlog_gauges-ops_summary_example :
    let g = refresh_backlog_gauges a_backlog no_gauges in
    ((s : RetryStatus) → g.refund_retries_pending s ≡ some (or_zero (lookup s seen.by_status)))
    × (g.disputes_awaiting_tiebreak ≡ some seen.awaiting_tiebreaker)
    × (or_zero (lookup waiting seen.by_status)
          + or_zero (lookup succeeded seen.by_status)
          + or_zero (lookup exhausted seen.by_status)
        ≡ length a_backlog.refund_retries)
    × (seen.awaiting_tiebreaker + seen.resolved_attributed + seen.resolved_inconclusive
        ≡ length (all_disputed a_backlog))
refresh_backlog_gauges-ops_summary_example =
    refresh_backlog_gauges-ops_summary (λ r. 0) (λ r. 0) a_backlog no_gauges
