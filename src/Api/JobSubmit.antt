-- ===== src/Api/JobSubmit.antt =====
-- POST /reservations/:id/jobs and POST /verification-groups/:groupId/tiebreak of
-- backend/src/api/server.js. A node's answer to a submission is a function of it; the generated ids
-- are fields of the request. The environment and the GPUs of a job only pass through, and so are left out.
pub mod Groups
pub mod Pairs
pub mod Tiebreak
use nodeva.Prelude.{
  ℕ, Bool, true, false, not, ◌==◌, ◌||◌, Option, none, some, List, [], ◌∷◌, any, first, length,
  where_rows, update_rows, if◌then◌else◌, opt_eq, is_some,
}
use nodeva.Prelude.Int.{ℤ}
use nodeva.Reservations.Machine.{Status, confirmed, running, ◌=ₛ◌}
use nodeva.Jobs.Verification.{JobStatus}
use nodeva.Jobs.ImageAllowlist.{
  ImageCheck, allowed, image_required, repo_not_allowed, check_image_allowed,
}
use nodeva.Store.{
  Store, Job, Reservation, Node, find_reservation, set_reservation_status, find_node,
}
use nodeva.Api.Capture.{NodeReply, accepted, offline, timed_out, refused}
use nodeva.Api.Confirm.{owned}
use nodeva.Api.JobResult.{Joined, join_jobs, group_jobs, is_disputed, resolved}

-- JOB_SUBMIT, with the limits of the node.
pub record Submission : Type 0 where
  pub to_node : ℕ
  pub job_id : ℕ
  pub reservation_id : ℕ
  pub image : List ℕ
  pub command : List (List ℕ)
  pub memory_mb : Option ℕ
  pub cpus : Option ℕ

-- `nodeJobLimits`
unfoldable pub node_job_limits : ℕ → Store → Option ℕ × Option ℕ
node_job_limits node_id db = elim (find_node node_id db) [
  | none ↦ (none, none)
  | some n ↦ (some n.ram_mb, some n.cpu_cores)
]

pub data SubmitReply : Type 0 where
  not_found verify_not_found same_node verify_has_job image_not_allowed : SubmitReply
  not_confirmed verify_not_confirmed : Status → SubmitReply
  node_offline node_refused node_unresponsive : SubmitReply
  job_running : ℕ → SubmitReply
  pair_running : ℕ → ℕ → SubmitReply
  pair_degraded : ℕ → SubmitReply
  group_not_found already_resolved not_disputed : SubmitReply

pub record SubmitRequest : Type 0 where
  pub user_id : ℕ
  pub reservation_id : ℕ
  pub image : List ℕ
  pub command : List (List ℕ)
  pub verify_against : Option ℕ
  pub job_id : ℕ
  pub sibling_job_id : ℕ
  pub group_id : ℕ

abbrev pub submission : ℕ → Reservation → List ℕ → List (List ℕ) → Store → Submission
submission job resv image command db =
    let limits = node_job_limits resv.node_id db in
    record {
      to_node = resv.node_id;
      job_id = job;
      reservation_id = resv.reservation_id;
      image = image;
      command = command;
      memory_mb = limits.0;
      cpus = limits.1;
    }

abbrev pub new_job : ℕ → Reservation → List ℕ → List (List ℕ) → Option ℕ → Job
new_job job resv image command group = record {
  job_id = job;
  reservation_id = resv.reservation_id;
  image = image;
  command = command;
  status = JobStatus.running;
  exit_code = none;
  compute_seconds = 0;
  stdout = none;
  stderr = none;
  result_hash = none;
  verification_group_id = group;
}

-- `INSERT INTO jobs` and `UPDATE reservations SET status='running'`
unfoldable pub start_job : Job → Store → Store
start_job job db =
    set_reservation_status job.reservation_id running (record db { jobs = job ∷ db.jobs })

abbrev pub has_job : ℕ → Store → Bool
has_job reservation db = any (λ j. j.reservation_id == reservation) db.jobs

-- `UPDATE jobs SET verification_group_id = NULL WHERE job_id = $1`
abbrev pub leave_group : ℕ → Store → Store
leave_group job db = record db {
  jobs =
      update_rows (λ j. j.job_id == job) (λ j. record j { verification_group_id = none }) db.jobs;
}

-- The second submission of a pair; when it fails the first job goes on alone.
unfoldable pub start_sibling :
    (Submission → NodeReply) → SubmitRequest → Reservation → Store → SubmitReply × Store
unfolding start_job node_job_limits
start_sibling ack req sibling db =
    elim (ack (submission req.sibling_job_id sibling req.image req.command db)) [
      | accepted ↦ (
        pair_running req.job_id req.sibling_job_id,
        start_job (new_job req.sibling_job_id sibling req.image req.command (some req.group_id)) db,
      )
      | offline ↦ (pair_degraded req.job_id, leave_group req.job_id db)
      | timed_out ↦ (pair_degraded req.job_id, leave_group req.job_id db)
      | refused ↦ (pair_degraded req.job_id, leave_group req.job_id db)
    ]

abbrev pub group_of : SubmitRequest → Option Reservation → Option ℕ
group_of req none = none
group_of req (some _) = some req.group_id

unfoldable pub after_start :
    (Submission → NodeReply) → SubmitRequest → Option Reservation → Store → SubmitReply × Store
unfolding start_sibling
after_start ack req none db = (job_running req.job_id, db)
after_start ack req (some sibling) db = start_sibling ack req sibling db

-- The first submission, once every check has passed.
unfoldable pub submit_first :
    (Submission → NodeReply)
    → SubmitRequest
    → Reservation
    → Option Reservation
    → Store
    → SubmitReply × Store
unfolding after_start start_job node_job_limits
submit_first ack req resv sibling db =
    elim (ack (submission req.job_id resv req.image req.command db)) [
      | accepted ↦
          after_start ack req sibling
            (start_job (new_job req.job_id resv req.image req.command (group_of req sibling)) db)
      | offline ↦ (node_offline, db)
      | timed_out ↦ (node_unresponsive, db)
      | refused ↦ (node_refused, db)
    ]

-- The checks on `verify_against_reservation_id`.
unfoldable pub with_sibling :
    (Submission → NodeReply) → SubmitRequest → Reservation → ℕ → Store → SubmitReply × Store
unfolding owned submit_first
with_sibling ack req resv id db = elim (owned req.user_id id db) [
  | none ↦ (verify_not_found, db)
  | some sibling ↦
      if not (sibling.status =ₛ confirmed)
      then (verify_not_confirmed sibling.status, db)
      else if sibling.node_id == resv.node_id
      then (same_node, db)
      else if has_job id db
      then (verify_has_job, db)
      else submit_first ack req resv (some sibling) db
]

-- POST /reservations/:id/jobs
unfoldable pub submit_job :
    List (List ℕ) → (Submission → NodeReply) → SubmitRequest → Store → SubmitReply × Store
unfolding owned with_sibling check_image_allowed
submit_job repos ack req db = elim (owned req.user_id req.reservation_id db) [
  | none ↦ (not_found, db)
  | some resv ↦
      if not (resv.status =ₛ confirmed)
      then (not_confirmed resv.status, db)
      else elim (check_image_allowed repos req.image) [
        | image_required ↦ (image_not_allowed, db)
        | repo_not_allowed _ ↦ (image_not_allowed, db)
        | allowed ↦ elim req.verify_against [
          | none ↦ submit_first ack req resv none db
          | some id ↦ with_sibling ack req resv id db
        ]
      ]
]

-- The checks on the tiebreaker's reservation, and its submission, with the workload of `original`.
unfoldable pub submit_tiebreaker :
    (Submission → NodeReply)
    → ℕ
    → ℕ
    → Joined
    → List Joined
    → Reservation
    → Store
    → SubmitReply × Store
unfolding start_job node_job_limits
submit_tiebreaker ack job group original disputing resv db =
    if not (resv.status =ₛ confirmed)
    then (not_confirmed resv.status, db)
    else if any (λ j. j.node_id == resv.node_id) disputing
    then (same_node, db)
    else if has_job resv.reservation_id db
    then (verify_has_job, db)
    else elim (ack (submission job resv original.job.image original.job.command db)) [
      | accepted ↦ (
        job_running job,
        start_job (new_job job resv original.job.image original.job.command (some group)) db,
      )
      | offline ↦ (node_offline, db)
      | timed_out ↦ (node_unresponsive, db)
      | refused ↦ (node_refused, db)
    ]

-- Two disputing jobs and no others make a group that a third run can decide.
unfoldable pub with_disputing :
    (Submission → NodeReply) → ℕ → ℕ → ℕ → ℕ → List Joined → Store → SubmitReply × Store
unfolding owned submit_tiebreaker
with_disputing ack user group tiebreaker job (a ∷ (b ∷ [])) db = elim (owned user tiebreaker db) [
  | none ↦ (not_found, db)
  | some resv ↦ submit_tiebreaker ack job group a (a ∷ (b ∷ [])) resv db
]
with_disputing ack user group tiebreaker job (a ∷ (b ∷ (_ ∷ _))) db = (not_disputed, db)
with_disputing ack user group tiebreaker job (a ∷ []) db = (not_disputed, db)
with_disputing ack user group tiebreaker job [] db = (not_disputed, db)

-- Whether the reservation of a job belongs to the session's user.
abbrev pub is_users : ℕ → Store → Joined → Bool
is_users user db j = is_some (owned user j.job.reservation_id db)

-- POST /verification-groups/:groupId/tiebreak
unfoldable pub tiebreak : (Submission → NodeReply) → ℕ → ℕ → ℕ → ℕ → Store → SubmitReply × Store
unfolding join_jobs with_disputing
tiebreak ack user group tiebreaker job db =
    let joined = join_jobs (group_jobs group db) db in
    if (length joined == 0) || any (λ j. not (is_users user db j)) joined
    then (group_not_found, db)
    else if resolved group db
    then (already_resolved, db)
    else with_disputing ack user group tiebreaker job (where_rows is_disputed joined) db
