-- ===== src/Api/JobSubmit/Pairs.antt =====
-- Submissions keep the store sound, and a pair whose second node fails settles alone.
use nodeva.Store.Paid.{Pays-around}
use nodeva.Prelude.{
  ℕ, ◌≡◌, ◌≢◌, inl, inr, refl, arith, ap, ◌∙◌, true, false, ◌==◌, Option, none, some, List, [], ◌∷◌,
  first, update_rows,
}
use nodeva.Reservations.Machine.{confirmed, running, ◌=ₛ◌}
use nodeva.Jobs.Verification.{Fingerprint}
use nodeva.Store.{Store, Env, Job, Reservation, find_reservation}
use nodeva.Store.Lifecycle.{
  IsSound, Preserves, Preserves-refl, Preserves-trans, Preserves-IsSound, find-id,
}
use nodeva.Api.Capture.{NodeReply, accepted}
use nodeva.Api.Confirm.Money.{owned-find}
use nodeva.Api.Settlement.{settle_reservation}
use nodeva.Api.JobResult.{
  JobResult, finish_job, job_status_to_settlement, settle_result, on_job_result,
}
use nodeva.Api.JobSubmit.{
  Submission, SubmitRequest, submission, new_job, start_job, leave_group, start_sibling, group_of,
  after_start, submit_job,
}
use nodeva.Api.JobSubmit.Groups.{
  NodeReply-cases, start_job-Preserves, find-other, GoodSibling, submit_job_lem,
}

pub found-own :
    (id : ℕ) (rs : List Reservation) {r : Reservation}
    → first (λ x. x.reservation_id == id) rs ≡ some r
    → first (λ x. x.reservation_id == r.reservation_id) rs ≡ some r
found-own id rs {r} f =
    ap (λ k. first (λ x. x.reservation_id == k) rs) (find-id id rs {r = r} f) ∙ f

left-Preserves : (job : ℕ) (db : Store) → IsSound db → Preserves db (leave_group job db)
left-Preserves job db s =
    let p = Preserves-refl db s in
    record {
      balanced = p.balanced;
      evolved = p.evolved;
      paid = Pays-around db db db (leave_group job db) refl refl p.paid refl refl;
    }

start_sibling-Preserves :
    (ack : Submission → NodeReply) (req : SubmitRequest) (sibling : Reservation) (db : Store)
    → IsSound db
    → find_reservation sibling.reservation_id db ≡ some sibling
    → (sibling.status =ₛ confirmed) ≡ true
    → Preserves db (start_sibling ack req sibling db).1
unfolding start_sibling
start_sibling-Preserves ack req sibling db s f c =
    elim (NodeReply-cases (ack (submission req.sibling_job_id sibling req.image req.command db))) [
      | inl a ↦
          rw (a, start_sibling)
            (start_job-Preserves
              (new_job req.sibling_job_id sibling req.image req.command (some req.group_id)) db
              {resv = sibling} s f c)
      | inr (inl a) ↦ rw (a, start_sibling) (left-Preserves req.job_id db s)
      | inr (inr (inl a)) ↦ rw (a, start_sibling) (left-Preserves req.job_id db s)
      | inr (inr (inr a)) ↦ rw (a, start_sibling) (left-Preserves req.job_id db s)
    ]

-- Two reservations found under one id are one, and so on one node.
siblings-differ :
    (db : Store) (i j : ℕ) {resv sibling : Reservation}
    → find_reservation i db ≡ some resv
    → find_reservation j db ≡ some sibling
    → (sibling.node_id == resv.node_id) ≡ false
    → j ≢ i
siblings-differ db i j {resv} {sibling} a b n = ground arith

after_start-Preserves :
    (ack : Submission → NodeReply) (req : SubmitRequest) (resv : Reservation) (named : Option ℕ)
    (sibling : Option Reservation) (job : Job) (db : Store)
    → IsSound db
    → job.reservation_id ≡ resv.reservation_id
    → find_reservation resv.reservation_id db ≡ some resv
    → (resv.status =ₛ confirmed) ≡ true
    → GoodSibling req named resv sibling db
    → Preserves db (after_start ack req sibling (start_job job db)).1
unfolding after_start start_job
after_start-Preserves ack req resv named none job db s same f c g =
    start_job-Preserves job db {resv = resv} s (rw same f) c
after_start-Preserves ack req resv none (some sibling) job db s same f c g = absurd g
after_start-Preserves ack req resv (some id) (some sibling) job db s same f c (o, sc, n, h) =
    let one = start_job-Preserves job db {resv = resv} s (rw same f) c in
    let next = start_job job db in
    let found = (owned-find req.user_id id db o).0 in
    let apart =
      siblings-differ db resv.reservation_id id {resv = resv} {sibling = sibling} f found n in
    Preserves-trans db next (start_sibling ack req sibling next).1 one (
      start_sibling-Preserves ack req sibling next (Preserves-IsSound db next s one)
        (found-own id next.reservations {r = sibling}
          (find-other job.reservation_id id running db.reservations (rw same apart) ∙ found))
        sc)

-- A submission, of one job or of a pair, accepted or not, keeps every ledger transaction balanced and
-- moves reservations along edges of the lifecycle only.
pub submit_job-Preserves :
    (repos : List (List ℕ)) (ack : Submission → NodeReply) (req : SubmitRequest) (db : Store)
    → IsSound db
    → Preserves db (submit_job repos ack req db).1
submit_job-Preserves repos ack req db s = elim (submit_job_lem repos ack req db) [
  | inl same ↦ rw same (Preserves-refl db s)
  | inr (resv, o, c, _, inl same) ↦ rw same (Preserves-refl db s)
  | inr (resv, o, c, _, inr (sibling, good, a, e)) ↦
      let found = (owned-find req.user_id req.reservation_id db o).0 in
      rw e (
        after_start-Preserves ack req resv req.verify_against sibling
          (new_job req.job_id resv req.image req.command (group_of req sibling)) db s refl
          (found-own req.reservation_id db.reservations {r = resv} found) c good)
]

left-first :
    (id : ℕ) (jobs : List Job) {job : Job}
    → first (λ j. j.job_id == id) jobs ≡ some job
    → first
        (λ j. j.job_id == id)
        (update_rows (λ j. j.job_id == id) (λ j. record j { verification_group_id = none }) jobs)
      ≡ some (record job { verification_group_id = none })
left-first id [] {job} e = cc
left-first id (j ∷ jobs) {job} e = ground (arith, left-first id jobs {job = job})

solo-settles :
    (digest : Fingerprint → ℕ) (env : Env) (msg : JobResult) (job : Job) (db : Store)
    → first (λ j. j.job_id == msg.job_id) db.jobs ≡ some job
    → job.verification_group_id ≡ none
    → on_job_result digest env msg db
      ≡ (settle_reservation env job.reservation_id
          (job_status_to_settlement msg.status)
          msg.duration_seconds
          (finish_job digest msg db)).1
unfolding on_job_result settle_result
solo-settles digest env msg job db f g = rw (f, on_job_result) (rw (g, settle_result))

-- When the second node of a pair does not take its job, the first job no longer waits for it: the
-- result that its node reports settles its reservation at once and on its own outcome.
pub start_sibling_alone :
    (ack : Submission → NodeReply) (req : SubmitRequest) (sibling : Reservation) (db : Store)
    (digest : Fingerprint → ℕ) (env : Env) (msg : JobResult) {job : Job}
    → ack (submission req.sibling_job_id sibling req.image req.command db) ≢ accepted
    → first (λ j. j.job_id == req.job_id) db.jobs ≡ some job
    → msg.job_id ≡ req.job_id
    → let db' = (start_sibling ack req sibling db).1 in
      on_job_result digest env msg db'
      ≡ (settle_reservation env job.reservation_id
          (job_status_to_settlement msg.status)
          msg.duration_seconds
          (finish_job digest msg db')).1
unfolding start_sibling
start_sibling_alone ack req sibling db digest env msg {job} failed f m =
    let alone =
      solo-settles digest env msg (record job { verification_group_id = none })
        (leave_group req.job_id db) (rw m (left-first req.job_id db.jobs f)) refl in
    elim (NodeReply-cases (ack (submission req.sibling_job_id sibling req.image req.command db))) [
      | inl a ↦ absurd (failed a)
      | inr (inl a) ↦ rw (a, start_sibling) alone
      | inr (inr (inl a)) ↦ rw (a, start_sibling) alone
      | inr (inr (inr a)) ↦ rw (a, start_sibling) alone
    ]
