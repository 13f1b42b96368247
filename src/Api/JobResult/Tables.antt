-- ===== src/Api/JobResult/Tables.antt =====
-- The three status tables agree with each other.
use nodeva.Prelude.{◌≡◌, ◌≢◌, true, none, arith}
use nodeva.Reservations.Machine.{running, can_transition, settlement}
use nodeva.Jobs.Verification.{job_terminal}
use nodeva.Api.JobResult.{
  ExecStatus, map_job_status, job_status_to_settlement, job_row_status_to_outcome,
}

-- Whatever the executor reports, the stored status is terminal, settling by the report and settling
-- by the stored row come to the same outcome, and that outcome has a rule and is legal from running.
pub job_outcome_agrees :
    (s : ExecStatus)
    → (job_terminal (map_job_status s) ≡ true)
      × (job_row_status_to_outcome (map_job_status s) ≡ job_status_to_settlement s)
      × (can_transition running (job_status_to_settlement s) ≡ true)
      × (settlement (job_status_to_settlement s) ≢ none)
unfolding job_terminal map_job_status job_row_status_to_outcome job_status_to_settlement
    can_transition settlement
job_outcome_agrees s = ground arith
