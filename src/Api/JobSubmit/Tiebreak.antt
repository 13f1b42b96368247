-- ===== src/Api/JobSubmit/Tiebreak.antt =====
-- A third run of a disputed workload.
use nodeva.Prelude.{
  ℕ, ◌≡◌, inl, inr, not, ◌==◌, ◌||◌, some, List, [], ◌∷◌, any, length, where_rows, Option-cases,
  Bool-cases,
}
use nodeva.Reservations.Machine.{confirmed, ◌=ₛ◌}
use nodeva.Store.{Store, Reservation, find_reservation}
use nodeva.Store.Lifecycle.{IsSound, Preserves, Preserves-refl}
use nodeva.Api.Capture.{NodeReply}
use nodeva.Api.Confirm.{owned}
use nodeva.Api.Confirm.Money.{owned-find}
use nodeva.Api.JobResult.{Joined, join_jobs, group_jobs, is_disputed, resolved}
use nodeva.Api.JobSubmit.{
  Submission, submission, new_job, has_job, is_users, submit_tiebreaker, with_disputing, tiebreak,
}
use nodeva.Api.JobSubmit.Groups.{NodeReply-cases, start_job-Preserves}
use nodeva.Api.JobSubmit.Pairs.{found-own}

submit_tiebreaker-Preserves :
    (ack : Submission → NodeReply) (job group : ℕ) (original : Joined) (disputing : List Joined)
    (resv : Reservation) (db : Store)
    → IsSound db
    → find_reservation resv.reservation_id db ≡ some resv
    → Preserves db (submit_tiebreaker ack job group original disputing resv db).1
unfolding submit_tiebreaker
submit_tiebreaker-Preserves ack job group original disputing resv db s f =
    elim (Bool-cases (resv.status =ₛ confirmed)) [
      | inr c ↦ rw c (Preserves-refl db s)
      | inl c ↦ elim (Bool-cases (any (λ j. j.node_id == resv.node_id) disputing)) [
        | inl n ↦ rw (c, n) (Preserves-refl db s)
        | inr n ↦ elim (Bool-cases (has_job resv.reservation_id db)) [
          | inl h ↦ rw (c, n, h) (Preserves-refl db s)
          | inr h ↦
              elim (NodeReply-cases
                (ack (submission job resv original.job.image original.job.command db))) [
                  | inl a ↦
                      rw (c, n, h, a, submit_tiebreaker)
                        (start_job-Preserves
                          (new_job job resv original.job.image original.job.command (some group)) db
                          {resv = resv} s f c)
                  | inr (inl a) ↦ rw (c, n, h, a, submit_tiebreaker) (Preserves-refl db s)
                  | inr (inr (inl a)) ↦ rw (c, n, h, a, submit_tiebreaker) (Preserves-refl db s)
                  | inr (inr (inr a)) ↦ rw (c, n, h, a, submit_tiebreaker) (Preserves-refl db s)
                ]
        ]
      ]
    ]

with_disputing-Preserves :
    (ack : Submission → NodeReply) (user group tiebreaker job : ℕ) (disputing : List Joined)
    (db : Store)
    → IsSound db
    → Preserves db (with_disputing ack user group tiebreaker job disputing db).1
unfolding with_disputing
with_disputing-Preserves ack user group tiebreaker job [] db s = Preserves-refl db s
with_disputing-Preserves ack user group tiebreaker job (a ∷ []) db s = Preserves-refl db s
with_disputing-Preserves ack user group tiebreaker job (a ∷ (b ∷ (_ ∷ _))) db s =
    Preserves-refl db s
with_disputing-Preserves ack user group tiebreaker job (a ∷ (b ∷ [])) db s =
    elim (Option-cases (owned user tiebreaker db)) [
      | inl o ↦ rw (o, with_disputing) (Preserves-refl db s)
      | inr (resv, o) ↦
          rw (o, with_disputing)
            (submit_tiebreaker-Preserves ack job group a (a ∷ (b ∷ [])) resv db s (
              found-own tiebreaker db.reservations {r = resv}
                (owned-find user tiebreaker db {resv = resv} o).0))
    ]

-- A tiebreaker, started or refused, keeps every ledger transaction balanced and moves reservations
-- along edges of the lifecycle only.
pub tiebreak-Preserves :
    (ack : Submission → NodeReply) (user group tiebreaker job : ℕ) (db : Store)
    → IsSound db
    → Preserves db (tiebreak ack user group tiebreaker job db).1
unfolding tiebreak
tiebreak-Preserves ack user group tiebreaker job db s =
    let joined = join_jobs (group_jobs group db) db in
    elim (Bool-cases ((length joined == 0) || any (λ j. not (is_users user db j)) joined)) [
      | inl missing ↦ rw missing (Preserves-refl db s)
      | inr there ↦ elim (Bool-cases (resolved group db)) [
        | inl old ↦ rw (there, old) (Preserves-refl db s)
        | inr new ↦
            rw (there, new)
              (with_disputing-Preserves ack user group tiebreaker job
                (where_rows is_disputed joined) db s)
      ]
    ]
