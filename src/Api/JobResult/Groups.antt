-- ===== src/Api/JobResult/Groups.antt =====
-- What every job result keeps, and what a group of two or three comes to.
use nodeva.Store.Paid.{Pays-around}
use nodeva.Prelude.{
  eqb_refl, ℕ, ◌≡◌, inl, inr, refl, arith, true, not, ◌==◌, List, [], ◌∷◌, Option, none, some,
  first, length, map, where_rows, Bool-cases, Option-cases, leb,
}
use nodeva.Reservations.Machine.{Status}
use nodeva.Jobs.Verification.{
  Fingerprint, group_is_complete, attribute_fault, inconclusive, attributed, Verdict,
}
use nodeva.Store.{Store, Env, Job}
use nodeva.Store.Lifecycle.{
  IsSound, Preserves, Preserves-refl, Preserves-trans, Preserves-IsSound, Advances-Preserves,
}
use nodeva.Api.Settlement.{settle_reservation, is_thrown}
use nodeva.Api.Settlement.Invariant.{
  settle_reservation-Pays, settle_reservation-IsBalanced, settle_reservation-Advances,
}
use nodeva.Api.JobResult.{
  is_disputed, join_jobs, job_row_status_to_outcome, job_status_to_settlement, settle_jobs,
  settle_verification_group, group_jobs, resolved, resolve_dispute_tiebreaker, resolve_with,
  record_verdict, blame, resolution, Joined, JobResult, settle_result, on_job_result, finish_job,
}

pub settle_reservation-Preserves :
    (env : Env) (id : ℕ) (outcome : Status) (seconds : ℕ) (db : Store)
    → IsSound db
    → Preserves db (settle_reservation env id outcome seconds db).1
settle_reservation-Preserves env id outcome seconds db s =
    Advances-Preserves db (settle_reservation env id outcome seconds db).1
      (settle_reservation-IsBalanced env id outcome seconds db s.balanced)
      (settle_reservation-Advances env id outcome seconds db s.balanced s.keyed)
      (settle_reservation-Pays env id outcome seconds db s.balanced s.keyed)

settle_jobs-Preserves :
    (env : Env) (outcome : Job → Status) (jobs : List Job) (db : Store)
    → IsSound db
    → Preserves db (settle_jobs env outcome jobs db)
unfolding settle_jobs
settle_jobs-Preserves env outcome [] db s = Preserves-refl db s
settle_jobs-Preserves env outcome (j ∷ jobs) db s =
    let one =
      settle_reservation-Preserves env j.reservation_id (outcome j) j.compute_seconds db s in
    let settled = settle_reservation env j.reservation_id (outcome j) j.compute_seconds db in
    elim (Bool-cases (is_thrown settled.0)) [
      | inl thrown ↦ rw thrown one
      | inr done ↦ rw done (
          Preserves-trans db settled.1 (settle_jobs env outcome jobs settled.1) one (
            settle_jobs-Preserves env outcome jobs settled.1
              (Preserves-IsSound db settled.1 s one)))
    ]

settle_verification_group-Preserves :
    (env : Env) (group : ℕ) (db : Store)
    → IsSound db
    → Preserves db (settle_verification_group env group db)
unfolding settle_verification_group
settle_verification_group-Preserves env group db s =
    elim (Bool-cases (group_is_complete (map (λ j. j.status) (group_jobs group db)))) [
      | inr wait ↦ rw wait (Preserves-refl db s)
      | inl done ↦ rw done (settle_jobs-Preserves env _ (group_jobs group db) db s)
    ]

record_verdict_books :
    (group : ℕ) (a b t : Joined) (db : Store)
    → ((record_verdict group a b t db).ledger ≡ db.ledger)
      × ((record_verdict group a b t db).reservations ≡ db.reservations)
unfolding record_verdict blame
record_verdict_books group a b t db = ground arith

same_books-Preserves :
    (a b c : Store)
    → Preserves a b
    → c.ledger ≡ b.ledger
    → c.reservations ≡ b.reservations
    → Preserves a c
same_books-Preserves a b c p l r = record {
  balanced = rw l p.balanced;
  evolved = rw r p.evolved;
  paid = Pays-around a a b c refl refl p.paid r l;
}

resolve_with-Preserves :
    (env : Env) (group : ℕ) (original : List Joined) (tiebreaker : Option Joined) (db : Store)
    → IsSound db
    → Preserves db (resolve_with env group original tiebreaker db)
unfolding resolve_with
resolve_with-Preserves env group [] t db s = Preserves-refl db s
resolve_with-Preserves env group (a ∷ []) t db s = Preserves-refl db s
resolve_with-Preserves env group (a ∷ (b ∷ (_ ∷ _))) t db s = Preserves-refl db s
resolve_with-Preserves env group (a ∷ (b ∷ [])) none db s = Preserves-refl db s
resolve_with-Preserves env group (a ∷ (b ∷ [])) (some t) db s =
    let settled =
      settle_reservation env t.job.reservation_id (job_row_status_to_outcome t.job.status)
        t.job.compute_seconds db in
    let one =
      settle_reservation-Preserves env t.job.reservation_id (job_row_status_to_outcome t.job.status)
        t.job.compute_seconds db s in
    let books = record_verdict_books group a b t settled.1 in
    elim (Bool-cases (is_thrown settled.0)) [
      | inl thrown ↦ rw thrown one
      | inr done ↦ rw done (
          same_books-Preserves db settled.1 (record_verdict group a b t settled.1) one books.0
            books.1)
    ]

resolve_dispute_tiebreaker-Preserves :
    (env : Env) (group : ℕ) (db : Store)
    → IsSound db
    → Preserves db (resolve_dispute_tiebreaker env group db)
unfolding resolve_dispute_tiebreaker
resolve_dispute_tiebreaker-Preserves env group db s =
    let joined = join_jobs (group_jobs group db) db in
    elim (Bool-cases (group_is_complete (map (λ j. j.job.status) joined))) [
      | inr wait ↦ rw wait (Preserves-refl db s)
      | inl done ↦ rw done (
          resolve_with-Preserves env group (where_rows is_disputed joined)
            (first (λ j. not (is_disputed j)) joined) db s)
    ]

settle_result-Preserves :
    (env : Env) (msg : JobResult) (job : Job) (db : Store)
    → IsSound db
    → Preserves db (settle_result env msg job db)
unfolding settle_result
settle_result-Preserves env msg job db s = elim (Option-cases job.verification_group_id) [
  | inl solo ↦
      rw (solo, settle_result)
        (settle_reservation-Preserves env job.reservation_id (job_status_to_settlement msg.status)
          msg.duration_seconds db s)
  | inr (group, g) ↦ elim (Bool-cases (leb 3 (length (group_jobs group db)))) [
    | inl three ↦
        rw (g, settle_result) (rw three (resolve_dispute_tiebreaker-Preserves env group db s))
    | inr two ↦ rw (g, settle_result) (rw two (settle_verification_group-Preserves env group db s))
  ]
]

-- Whatever result a node reports, for a job known or unknown, alone or in a group, and however often:
-- every ledger transaction still sums to zero, and each reservation has moved along edges of the
-- lifecycle with nothing but its status changed.
pub on_job_result-Preserves :
    (digest : Fingerprint → ℕ) (env : Env) (msg : JobResult) (db : Store)
    → IsSound db
    → Preserves db (on_job_result digest env msg db)
unfolding on_job_result
on_job_result-Preserves digest env msg db s =
    elim (Option-cases (first (λ j. j.job_id == msg.job_id) db.jobs)) [
      | inl unknown_job ↦ rw (unknown_job, on_job_result) (Preserves-refl db s)
      | inr (job, j) ↦
          let p =
            settle_result-Preserves env msg job (finish_job digest msg db)
              (record { balanced = s.balanced; keyed = s.keyed }) in
          rw (j, on_job_result)
            (record {
              balanced = p.balanced;
              evolved = p.evolved;
              paid = Pays-around db (finish_job digest msg db) _ _ refl refl p.paid refl refl;
            })
    ]

resolution-group :
    (group : ℕ) (t : Joined) (v : Verdict Joined)
    → (resolution group t v).verification_group_id ≡ group
resolution-group group t inconclusive = refl
resolution-group group t (attributed a b) = refl

record_verdict-resolved :
    (group : ℕ) (a b t : Joined) (db : Store)
    → resolved group (record_verdict group a b t db) ≡ true
unfolding record_verdict
record_verdict-resolved group a b t db = elim (Bool-cases (resolved group db)) [
  | inl old ↦ rw old old
  | inr new ↦ rw new (
      rw (
        resolution-group group t (attribute_fault (λ j. j.job.result_hash) a b t.job.result_hash),
        eqb_refl group,
      ))
]

record_verdict-old :
    (group : ℕ) (a b t : Joined) (db : Store)
    → resolved group db ≡ true
    → record_verdict group a b t db ≡ db
unfolding record_verdict
record_verdict-old group a b t db old = rw old

-- Fault is put on record once: after a verdict the group counts as resolved, recording another verdict
-- on it changes nothing, and neither the ledger nor a reservation has moved.
pub record_verdict_once :
    (group : ℕ) (a b t x y z : Joined) (db : Store)
    → let db' = record_verdict group a b t db in
      (resolved group db' ≡ true)
      × (record_verdict group x y z db' ≡ db')
      × (db'.ledger ≡ db.ledger)
      × (db'.reservations ≡ db.reservations)
record_verdict_once group a b t x y z db =
    let done = record_verdict-resolved group a b t db in
    let books = record_verdict_books group a b t db in
    (done, record_verdict-old group x y z (record_verdict group a b t db) done, books.0, books.1)
