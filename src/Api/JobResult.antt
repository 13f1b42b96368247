-- ===== src/Api/JobResult.antt =====
-- What happens when a node reports a job's result: `onJobResult`, `settleVerificationGroup`,
-- `resolveDisputeTiebreaker` and the status tables of backend/src/api/server.js. Log lines and
-- counters are left out.
pub mod Tables
pub mod Groups
use nodeva.Prelude.{
  ℕ, ◌+◌, Bool, true, false, not, ◌==◌, ◌&&◌, leb, Option, none, some, List, [], ◌∷◌, length, first,
  any, all, map, where_rows, update_rows, if◌then◌else◌, opt_eq, is_some,
}
use nodeva.Prelude.Int.{ℤ}
use nodeva.Reservations.Machine.{Status, completed, disputed, failed_provider, failed_user, ◌=ₛ◌}
use nodeva.Jobs.Verification.{
  JobStatus, succeeded, queued, starting, running, timed_out, cancelled, Fingerprint, Output,
  compute_result_hash, compare_job_results, Comparison, same, mismatch, group_is_complete, Verdict,
  inconclusive, attributed, attribute_fault,
}
use nodeva.Providers.{Effect, failure, bump_reputation, provider_id_for_node}
use nodeva.Store.{Store, Env, Job, Reservation, Resolution, find_reservation}
use nodeva.Api.Settlement.{settle_reservation, is_thrown}

-- The executor's vocabulary; `unknown` is any other text.
pub data ExecStatus : Type 0 where
  exec_succeeded exec_failed exec_timed_out exec_oom_killed exec_error unknown : ExecStatus

-- `mapJobStatus`
unfoldable pub map_job_status : ExecStatus → JobStatus
map_job_status exec_succeeded = succeeded
map_job_status exec_failed = JobStatus.failed_user
map_job_status exec_timed_out = JobStatus.failed_user
map_job_status exec_oom_killed = JobStatus.failed_user
map_job_status exec_error = JobStatus.failed_provider
map_job_status unknown = JobStatus.failed_provider

-- `jobStatusToSettlement`
unfoldable pub job_status_to_settlement : ExecStatus → Status
job_status_to_settlement exec_succeeded = completed
job_status_to_settlement exec_failed = failed_user
job_status_to_settlement exec_timed_out = failed_user
job_status_to_settlement exec_oom_killed = failed_user
job_status_to_settlement exec_error = failed_provider
job_status_to_settlement unknown = failed_provider

-- `jobRowStatusToOutcome`
unfoldable pub job_row_status_to_outcome : JobStatus → Status
job_row_status_to_outcome succeeded = completed
job_row_status_to_outcome JobStatus.failed_user = failed_user
job_row_status_to_outcome JobStatus.failed_provider = failed_provider
job_row_status_to_outcome timed_out = failed_user
job_row_status_to_outcome cancelled = failed_provider
job_row_status_to_outcome queued = failed_provider
job_row_status_to_outcome starting = failed_provider
job_row_status_to_outcome running = failed_provider

abbrev pub in_group : ℕ → Job → Bool
in_group group j = opt_eq j.verification_group_id (some group)

-- `SELECT ... FROM jobs WHERE verification_group_id = $1`
abbrev pub group_jobs : ℕ → Store → List Job
group_jobs group db = where_rows (in_group group) db.jobs

abbrev statuses : List Job → List JobStatus
statuses jobs = map (λ j. j.status) jobs

-- The loop that settles each job of a group. An error that a settlement reports is only logged; one that
-- it throws leaves the loop.
unfoldable pub settle_jobs : Env → (Job → Status) → List Job → Store → Store
unfolding settle_reservation
settle_jobs env settle_as [] db = db
settle_jobs env settle_as (job ∷ jobs) db =
    let (result, db') =
      settle_reservation env job.reservation_id (settle_as job) job.compute_seconds db in
    let rest = settle_jobs env settle_as jobs db' in if is_thrown result then db' else rest

abbrev pub settle_as : Comparison → Job → Status
settle_as same job = job_row_status_to_outcome job.status
settle_as mismatch job = disputed

-- The two first jobs of the group are compared; a complete group has two.
unfoldable pub group_comparison : List Job → Comparison
unfolding compare_job_results
group_comparison [] = mismatch
group_comparison (a ∷ []) = mismatch
group_comparison (a ∷ (b ∷ _)) = compare_job_results a.result_hash b.result_hash

-- `settleVerificationGroup`
unfoldable pub settle_verification_group : Env → ℕ → Store → Store
unfolding settle_jobs group_is_complete group_comparison
settle_verification_group env group db =
    let jobs = group_jobs group db in
    if not (group_is_complete (statuses jobs))
    then db
    else settle_jobs env (settle_as (group_comparison jobs)) jobs db

-- A job of a group with the status of its reservation and its node.
pub record Joined : Type 0 where
  pub job : Job
  pub reservation_status : Status
  pub node_id : ℕ

-- `jobs j JOIN reservations r ON r.reservation_id = j.reservation_id`
unfoldable pub join_jobs : List Job → Store → List Joined
join_jobs [] db = []
join_jobs (j ∷ js) db = elim (find_reservation j.reservation_id db) [
  | none ↦ join_jobs js db
  | some r ↦
      record { job = j; reservation_status = r.status; node_id = r.node_id } ∷ join_jobs js db
]

abbrev pub is_disputed : Joined → Bool
is_disputed j = j.reservation_status =ₛ disputed

abbrev pub resolved : ℕ → Store → Bool
resolved group db = any (λ r. r.verification_group_id == group) db.dispute_resolutions

abbrev pub resolution : ℕ → Joined → Verdict Joined → Resolution
resolution group tiebreaker inconclusive = record {
  verification_group_id = group;
  tiebreaker_reservation_id = tiebreaker.job.reservation_id;
  tiebreaker_job_id = tiebreaker.job.job_id;
  vindicated_reservation_id = none;
  at_fault_reservation_id = none;
}
resolution group tiebreaker (attributed vindicated at_fault) = record {
  verification_group_id = group;
  tiebreaker_reservation_id = tiebreaker.job.reservation_id;
  tiebreaker_job_id = tiebreaker.job.job_id;
  vindicated_reservation_id = some vindicated.job.reservation_id;
  at_fault_reservation_id = some at_fault.job.reservation_id;
}

-- The reputation failure of the provider of the node at fault.
unfoldable pub blame : Verdict Joined → Store → Store
unfolding provider_id_for_node bump_reputation
blame inconclusive db = db
blame (attributed vindicated at_fault) db = elim (provider_id_for_node at_fault.node_id db) [
  | none ↦ db
  | some provider ↦ record db { providers = bump_reputation provider (some failure) db.providers }
]

-- The transaction that records the verdict once.
unfoldable pub record_verdict : ℕ → Joined → Joined → Joined → Store → Store
unfolding blame attribute_fault
record_verdict group a b tiebreaker db =
    let verdict = attribute_fault (λ j. j.job.result_hash) a b tiebreaker.job.result_hash in
    let blamed = blame verdict db in
    if resolved group db then db else record blamed {
      dispute_resolutions = resolution group tiebreaker verdict ∷ blamed.dispute_resolutions;
    }

-- The tiebreaker's own reservation settles like any other, then the verdict is recorded; it is not when
-- the settlement throws.
unfoldable pub resolve_with : Env → ℕ → List Joined → Option Joined → Store → Store
unfolding record_verdict settle_reservation
resolve_with env group (a ∷ (b ∷ [])) (some t) db =
    let (result, db') =
      settle_reservation env t.job.reservation_id (job_row_status_to_outcome t.job.status)
        t.job.compute_seconds db in
    if is_thrown result then db' else record_verdict group a b t db'
resolve_with env group (a ∷ (b ∷ [])) none db = db
resolve_with env group (a ∷ (b ∷ (_ ∷ _))) _ db = db
resolve_with env group (a ∷ []) _ db = db
resolve_with env group [] _ db = db

-- `resolveDisputeTiebreaker`
unfoldable pub resolve_dispute_tiebreaker : Env → ℕ → Store → Store
unfolding resolve_with join_jobs group_is_complete
resolve_dispute_tiebreaker env group db =
    let joined = join_jobs (group_jobs group db) db in
    if not (group_is_complete (map (λ j. j.job.status) joined))
    then db
    else resolve_with env group (where_rows is_disputed joined)
        (first (λ j. not (is_disputed j)) joined) db

-- JOB_RESULT, with the duration in whole seconds as `Math.round` leaves it.
pub record JobResult : Type 0 where
  pub job_id : ℕ
  pub status : ExecStatus
  pub exit_code : Option ℤ
  pub duration_seconds : ℕ
  pub stdout : Option (List ℕ)
  pub stderr : Option (List ℕ)

abbrev pub finished : (Fingerprint → ℕ) → JobResult → Job → Job
finished digest msg j = record j {
  status = map_job_status msg.status;
  exit_code = msg.exit_code;
  compute_seconds = msg.duration_seconds;
  stdout = msg.stdout;
  stderr = msg.stderr;
  result_hash = some (
      compute_result_hash digest (record {
        status = map_job_status msg.status;
        exit_code = msg.exit_code;
        stdout = msg.stdout;
        stderr = msg.stderr;
      }));
}

-- `UPDATE jobs SET ... WHERE job_id=$1`
abbrev pub finish_job : (Fingerprint → ℕ) → JobResult → Store → Store
finish_job digest msg db = record db {
  jobs = update_rows (λ j. j.job_id == msg.job_id) (finished digest msg) db.jobs;
}

-- Settlement of the job's reservation, or of its group, by the size of the group.
unfoldable pub settle_result : Env → JobResult → Job → Store → Store
unfolding settle_reservation settle_verification_group resolve_dispute_tiebreaker
settle_result env msg job db = elim job.verification_group_id [
  | none ↦
      (settle_reservation env job.reservation_id (job_status_to_settlement msg.status)
        msg.duration_seconds db).1
  | some group ↦
      if leb 3 (length (group_jobs group db))
      then resolve_dispute_tiebreaker env group db
      else settle_verification_group env group db
]

-- `onJobResult`; a result for an unknown job is only logged.
unfoldable pub on_job_result : (Fingerprint → ℕ) → Env → JobResult → Store → Store
unfolding settle_result
on_job_result digest env msg db = elim (first (λ j. j.job_id == msg.job_id) db.jobs) [
  | none ↦ db
  | some job ↦ settle_result env msg job (finish_job digest msg db)
]
