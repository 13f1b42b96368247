-- ===== src/Api/JobSubmit/Groups.antt =====
-- What a submission may do to the store.
use mathlib.Core.Path.{subst}
use nodeva.Store.Moves.{edge-Pays}
use nodeva.Prelude.{
  sym, ℕ, ◌≡◌, ◌≢◌, ◌⊎◌, inl, inr, refl, arith, true, false, ◌==◌, Option, none, some, List, [],
  ◌∷◌, first, Option-cases, Bool-cases,
}
use nodeva.Reservations.Machine.{Status, confirmed, running, can_transition, ◌=ₛ◌}
use nodeva.Jobs.ImageAllowlist.{
  ImageCheck, allowed, image_required, repo_not_allowed, check_image_allowed,
}
use nodeva.Store.{Store, Job, Reservation, find_reservation, set_status}
use nodeva.Store.Lifecycle.{IsSound, Preserves, Advances-Preserves, set_status-Advances}
use nodeva.Api.Capture.{NodeReply, accepted, offline, timed_out, refused}
use nodeva.Api.Confirm.{owned}
use nodeva.Api.JobSubmit.{
  Submission, SubmitReply, SubmitRequest, submission, new_job, start_job, has_job, group_of,
  after_start, submit_first, with_sibling, submit_job,
}

pub NodeReply-cases :
    (a : NodeReply) → (a ≡ accepted) ⊎ ((a ≡ offline) ⊎ ((a ≡ timed_out) ⊎ (a ≡ refused)))
NodeReply-cases accepted = inl refl
NodeReply-cases offline = inr (inl refl)
NodeReply-cases timed_out = inr (inr (inl refl))
NodeReply-cases refused = inr (inr (inr refl))

confirmed-running : (s : Status) → (s =ₛ confirmed) ≡ true → can_transition s running ≡ true
unfolding can_transition
confirmed-running Status.pending e = cc
confirmed-running Status.held e = cc
confirmed-running Status.confirmed e = refl
confirmed-running Status.running e = cc
confirmed-running Status.completed e = cc
confirmed-running Status.cancelled e = cc
confirmed-running Status.expired e = cc
confirmed-running Status.failed_provider e = cc
confirmed-running Status.failed_user e = cc
confirmed-running Status.disputed e = cc

pub start_job-Preserves :
    (job : Job) (db : Store) {resv : Reservation}
    → IsSound db
    → find_reservation job.reservation_id db ≡ some resv
    → (resv.status =ₛ confirmed) ≡ true
    → Preserves db (start_job job db)
unfolding start_job
start_job-Preserves job db {resv} s f c =
    let edge = confirmed-running resv.status c in
    Advances-Preserves db (start_job job db) s.balanced
      (set_status-Advances job.reservation_id running db.reservations {r = resv} s.keyed f edge)
      (edge-Pays job.reservation_id running db (start_job job db) {r = resv} s.keyed f (λ i p. p)
        refl edge (λ e. cc))

-- Another reservation is found as before.
pub find-other :
    (id other : ℕ) (s : Status) (rs : List Reservation)
    → other ≢ id
    → first (λ x. x.reservation_id == other) (set_status id s rs)
      ≡ first (λ x. x.reservation_id == other) rs
find-other id other s [] n = refl
find-other id other s (r ∷ rs) n = ground (arith, find-other id other s rs n)

-- What a submission comes to when the node of `resv` does not take it, and when it does.
abbrev pub Submits :
    (Submission → NodeReply)
    → SubmitRequest
    → Reservation
    → Option Reservation
    → Store
    → SubmitReply × Store
    → Type 0
Submits ack req resv sibling db out =
    (out.1 ≡ db)
    ⊎ ((ack (submission req.job_id resv req.image req.command db) ≡ accepted)
        × (out
            ≡ after_start ack req sibling (
                start_job (new_job req.job_id resv req.image req.command (group_of req sibling))
                  db)))

submit_first_lem :
    (ack : Submission → NodeReply) (req : SubmitRequest) (resv : Reservation)
    (sibling : Option Reservation) (db : Store)
    → Submits ack req resv sibling db (submit_first ack req resv sibling db)
unfolding submit_first
submit_first_lem ack req resv sibling db =
    elim (NodeReply-cases (ack (submission req.job_id resv req.image req.command db))) [
      | inl a ↦ rw (a, submit_first) (inr (refl, refl))
      | inr (inl a) ↦ rw (a, submit_first) (inl refl)
      | inr (inr (inl a)) ↦ rw (a, submit_first) (inl refl)
      | inr (inr (inr a)) ↦ rw (a, submit_first) (inl refl)
    ]

-- The reservation that a request names for verification is a second confirmed one of the same user, on
-- another node, without a job.
abbrev pub IsSibling : SubmitRequest → ℕ → Reservation → Reservation → Store → Type 0
IsSibling req id resv sibling db =
    (owned req.user_id id db ≡ some sibling)
    × ((sibling.status =ₛ confirmed) ≡ true)
    × ((sibling.node_id == resv.node_id) ≡ false)
    × (has_job id db ≡ false)

-- There is a sibling exactly when the request names one.
abbrev pub GoodSibling :
    SubmitRequest → Option ℕ → Reservation → Option Reservation → Store → Type 0
GoodSibling req none resv none db = Unit
GoodSibling req none resv (some sibling) db = ⊥
GoodSibling req (some id) resv none db = ⊥
GoodSibling req (some id) resv (some sibling) db = IsSibling req id resv sibling db

abbrev pub Started :
    (Submission → NodeReply) → SubmitRequest → Reservation → Store → SubmitReply × Store → Type 0
Started ack req resv db out =
    (out.1 ≡ db)
    ⊎ ((sibling : Option Reservation) × GoodSibling req req.verify_against resv sibling db
        × (ack (submission req.job_id resv req.image req.command db) ≡ accepted)
        × (out
            ≡ after_start ack req sibling (
                start_job (new_job req.job_id resv req.image req.command (group_of req sibling))
                  db)))

Submits-Started :
    (ack : Submission → NodeReply) (req : SubmitRequest) (resv : Reservation)
    (sibling : Option Reservation) (db : Store) (out : SubmitReply × Store)
    → GoodSibling req req.verify_against resv sibling db
    → Submits ack req resv sibling db out
    → Started ack req resv db out
Submits-Started ack req resv sibling db out g (inl same) = inl same
Submits-Started ack req resv sibling db out g (inr (a, e)) = inr (sibling, g, a, e)

with_sibling-first :
    (ack : Submission → NodeReply) (req : SubmitRequest) (resv sibling : Reservation) (id : ℕ)
    (db : Store)
    → owned req.user_id id db ≡ some sibling
    → (sibling.status =ₛ confirmed) ≡ true
    → (sibling.node_id == resv.node_id) ≡ false
    → has_job id db ≡ false
    → with_sibling ack req resv id db ≡ submit_first ack req resv (some sibling) db
unfolding with_sibling
with_sibling-first ack req resv sibling id db o c n h = rw (o, with_sibling) (rw (c, n, h))

with_sibling-Started :
    (ack : Submission → NodeReply) (req : SubmitRequest) (resv : Reservation) (id : ℕ) (db : Store)
    → req.verify_against ≡ some id
    → Started ack req resv db (with_sibling ack req resv id db)
unfolding with_sibling
with_sibling-Started ack req resv id db v = elim (Option-cases (owned req.user_id id db)) [
  | inl o ↦ rw (o, with_sibling) (inl refl)
  | inr (sibling, o) ↦ elim (Bool-cases (sibling.status =ₛ confirmed)) [
    | inr c ↦ rw (o, with_sibling) (rw c (inl refl))
    | inl c ↦ elim (Bool-cases (sibling.node_id == resv.node_id)) [
      | inl n ↦ rw (o, with_sibling) (rw (c, n) (inl refl))
      | inr n ↦ elim (Bool-cases (has_job id db)) [
        | inl h ↦ rw (o, with_sibling) (rw (c, n, h) (inl refl))
        | inr h ↦ rw (with_sibling-first ack req resv sibling id db o c n h) (
            Submits-Started ack req resv (some sibling) db
              (submit_first ack req resv (some sibling) db) (rw v (o, c, n, h))
              (submit_first_lem ack req resv (some sibling) db))
      ]
    ]
  ]
]

-- Why a job runs: the reservation is the user's and confirmed, and the image is allowed.
abbrev pub Submitted :
    List (List ℕ) → (Submission → NodeReply) → SubmitRequest → Store → SubmitReply × Store → Type 0
Submitted repos ack req db out =
    (out.1 ≡ db)
    ⊎ ((resv : Reservation) × (owned req.user_id req.reservation_id db ≡ some resv)
        × ((resv.status =ₛ confirmed) ≡ true)
        × (check_image_allowed repos req.image ≡ allowed)
        × Started ack req resv db out)

ImageCheck-cases :
    (i : ImageCheck)
    → (i ≡ allowed) ⊎ ((i ≡ image_required) ⊎ ((r : List ℕ) × (i ≡ repo_not_allowed r)))
ImageCheck-cases allowed = inl refl
ImageCheck-cases image_required = inr (inl refl)
ImageCheck-cases (repo_not_allowed r) = inr (inr (r, refl))

module _ (repos : List (List ℕ)) (ack : Submission → NodeReply) (req : SubmitRequest)
    (resv : Reservation) (db : Store) (o : owned req.user_id req.reservation_id db ≡ some resv)
    (c : (resv.status =ₛ confirmed) ≡ true)
    (i : check_image_allowed repos req.image ≡ allowed) where
  submit_alone :
      req.verify_against ≡ none → submit_job repos ack req db ≡ submit_first ack req resv none db
  unfolding submit_job
  submit_alone v = rw (submit_job, o) (rw (c, i, v) refl)

  submit_pair :
      (id : ℕ)
      → req.verify_against ≡ some id
      → submit_job repos ack req db ≡ with_sibling ack req resv id db
  unfolding submit_job
  submit_pair id v = rw (submit_job, o) (rw (c, i, v) refl)

  submit_allowed : Started ack req resv db (submit_job repos ack req db)
  submit_allowed = elim (Option-cases req.verify_against) [
    | inl v ↦ subst (Started ack req resv db) (sym (submit_alone v)) (
        Submits-Started ack req resv none db (submit_first ack req resv none db) (rw v tt)
          (submit_first_lem ack req resv none db))
    | inr (id, v) ↦
        subst (Started ack req resv db) (sym (submit_pair id v))
          (with_sibling-Started ack req resv id db v)
  ]

pub submit_job_lem :
    (repos : List (List ℕ)) (ack : Submission → NodeReply) (req : SubmitRequest) (db : Store)
    → Submitted repos ack req db (submit_job repos ack req db)
unfolding submit_job
submit_job_lem repos ack req db = elim (Option-cases (owned req.user_id req.reservation_id db)) [
  | inl o ↦ rw (o, submit_job) (inl refl)
  | inr (resv, o) ↦ elim (Bool-cases (resv.status =ₛ confirmed)) [
    | inr c ↦ rw (o, submit_job) (rw c (inl refl))
    | inl c ↦ elim (ImageCheck-cases (check_image_allowed repos req.image)) [
      | inl i ↦ inr (resv, o, c, i, submit_allowed repos ack req resv db o c i)
      | inr (inl i) ↦ rw (o, i, submit_job) (rw c (inl refl))
      | inr (inr (r, i)) ↦ rw (o, i, submit_job) (rw c (inl refl))
    ]
  ]
]
