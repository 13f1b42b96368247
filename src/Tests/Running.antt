-- ===== src/Tests/Running.antt =====
-- Submissions, results, and the lifecycle.
use nodeva.Store.{Reservation, Store}
use nodeva.Prelude.{arith, map, refl, ◌≡◌, ℕ, none, some, List, [], ◌∷◌, length}
use nodeva.Prelude.Int.{◌+ℤ◌, pos}
use nodeva.Api.Settlement.{settle_reservation}
use nodeva.Payments.Settle.{split_total}
use nodeva.Ledger.{post, account_id}
use nodeva.Reservations.Machine.{settlement, can_transition, Status, confirmed, running}
use nodeva.Jobs.Verification.{compute_result_hash, compare_job_results, JobStatus, Fingerprint}
use nodeva.Store.Lifecycle.{Preserves}
use nodeva.Api.Capture.{NodeReply, accepted}
use nodeva.Api.JobResult.{
  map_job_status, job_row_status_to_outcome, JobResult, exec_succeeded, on_job_result,
}
use nodeva.Api.JobResult.Groups.{on_job_result-Preserves}
use nodeva.Api.JobSubmit.{Submission, SubmitRequest}
use nodeva.Tests.World.{an_hour, store_of, a_job, no_books-IsBalanced, env}

abbrev digest : Fingerprint → ℕ
digest f = length f.stdout

abbrev result : JobResult
result = record {
  job_id = 8;
  status = exec_succeeded;
  exit_code = some (pos 0);
  duration_seconds = 60;
  stdout = some (49 ∷ []);
  stderr = none;
}

abbrev second : Reservation
second = record (an_hour running) { reservation_id = 6; node_id = 2 }

-- Job 9 has ended with the result that job 8 is about to report.
abbrev pair : Store
pair = record (store_of (an_hour running ∷ second ∷ [])) {
  jobs =
      a_job
      ∷ record a_job {
        job_id = 9;
        reservation_id = 6;
        status = JobStatus.succeeded;
        compute_seconds = 60;
        result_hash = some 1;
      }
      ∷ [];
}

-- The report settles both reservations.
both_settle :
    map (λ r. r.status) (on_job_result digest env result pair).reservations
    ≡ Status.completed ∷ Status.completed ∷ []
unfolding on_job_result map_job_status settlement compute_result_hash job_row_status_to_outcome
    can_transition compare_job_results settle_reservation post account_id split_total ◌+ℤ◌
both_settle = refl

abbrev cheap_pair : Store
cheap_pair = record pair {
  reservations = record (an_hour running) { quoted_paise = 1 } ∷ second ∷ [];
}

-- One paisa cannot be settled, and the second reservation is not settled either.
neither_settles :
    map (λ r. r.status) (on_job_result digest env result cheap_pair).reservations
    ≡ running ∷ running ∷ []
unfolding on_job_result map_job_status settlement compute_result_hash job_row_status_to_outcome
    can_transition compare_job_results settle_reservation post account_id split_total ◌+ℤ◌
neither_settles = refl

on_job_result-Preserves_example : Preserves pair (on_job_result digest env result pair)
on_job_result-Preserves_example =
    on_job_result-Preserves digest env result pair
      (record { balanced = no_books-IsBalanced; keyed = (((λ e. omega arith), tt), (tt, tt)) })

-- "alpine" with the tag "3".
abbrev alpine : List ℕ
alpine = 97 ∷ (108 ∷ (112 ∷ (105 ∷ (110 ∷ (101 ∷ [])))))

abbrev alpine_3 : List ℕ
alpine_3 = 97 ∷ (108 ∷ (112 ∷ (105 ∷ (110 ∷ (101 ∷ (58 ∷ (51 ∷ [])))))))

abbrev request : SubmitRequest
request = record {
  user_id = 7;
  reservation_id = 5;
  image = alpine_3;
  command = [];
  verify_against = some 6;
  job_id = 20;
  sibling_job_id = 21;
  group_id = 22;
}

abbrev takes : Submission → NodeReply
takes s = accepted

-- Two confirmed reservations of the user on two nodes, without a job.
abbrev free_pair : Store
free_pair =
    record (store_of (an_hour confirmed ∷ record second { status = Status.confirmed } ∷ [])) {
      jobs = [];
    }
