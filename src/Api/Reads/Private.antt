-- ===== src/Api/Reads/Private.antt =====
-- What a user can learn by reading.
use nodeva.Prelude.{
  false, true, some, ap, ◌∙◌, ◌&&◌, eqb→eq, Option-cases, ℕ, ◌≡◌, inl, inr, refl, ◌==◌, arith, Bool,
  List, [], ◌∷◌, first, any, where_rows, Bool-cases,
}
use nodeva.Store.{Store, Reservation}
use nodeva.Api.Reads.{owns, is_users, get_reservation, get_job, get_resolution}

-- The store without the reservations of everyone else, and without the jobs and verdicts that hang on
-- those.
abbrev pub only : ℕ → Store → Store
only user db = record db {
  reservations = where_rows (λ r. r.user_id == user) db.reservations;
  jobs = where_rows (λ j. owns user j.reservation_id db) db.jobs;
  dispute_resolutions =
      where_rows (λ d. owns user d.tiebreaker_reservation_id db) db.dispute_resolutions;
}

any-own :
    (user id : ℕ) (rs : List Reservation)
    → any (is_users user id) (where_rows (λ r. r.user_id == user) rs) ≡ any (is_users user id) rs
any-own user id [] = refl
any-own user id (r ∷ rs) = ground (arith, any-own user id rs)

first-own :
    (user id : ℕ) (rs : List Reservation)
    → first (is_users user id) (where_rows (λ r. r.user_id == user) rs)
      ≡ first (is_users user id) rs
first-own user id [] = refl
first-own user id (r ∷ rs) = elim (Bool-cases (r.user_id == user)) [
  | inl mine ↦ elim (Bool-cases (r.reservation_id == id)) [
    | inl hit ↦ rw (mine, hit, mine) refl
    | inr miss ↦ rw (mine, miss) (first-own user id rs)
  ]
  | inr other ↦ elim (Bool-cases (r.reservation_id == id)) [
    | inl hit ↦ rw (other, hit) (first-own user id rs)
    | inr miss ↦ rw (other, miss) (first-own user id rs)
  ]
]

first-same {ℓ} :
    {A : Type ℓ} (p q : A → Bool) (xs : List A) → ((x : A) → p x ≡ q x) → first p xs ≡ first q xs
first-same p q [] h = refl
first-same p q (x ∷ xs) h = rw (h x, first-same p q xs h) refl

-- Rows that are not looked for may go.
first-kept {ℓ} :
    {A : Type ℓ} (p q : A → Bool) (xs : List A)
    → ((x : A) → p x ≡ true → q x ≡ true)
    → first p (where_rows q xs) ≡ first p xs
first-kept p q [] h = refl
first-kept p q (x ∷ xs) h = elim (Bool-cases (p x)) [
  | inl t ↦ rw (h x t, t) refl
  | inr f ↦ elim (Bool-cases (q x)) [
    | inl u ↦ rw (u, f) (first-kept p q xs h)
    | inr u ↦ rw (u, f) (first-kept p q xs h)
  ]
]

and_right : (a b : Bool) → (a && b) ≡ true → b ≡ true
and_right true b e = e
and_right false b e = cc

found_owns :
    (user id : ℕ) (rs : List Reservation) {r : Reservation}
    → first (is_users user id) rs ≡ some r
    → any (is_users user id) rs ≡ true
found_owns user id [] {r} e = cc
found_owns user id (x ∷ rs) {r} e = elim (Bool-cases (is_users user id x)) [
  | inl t ↦ rw t refl
  | inr f ↦ rw f (found_owns user id rs {r = r} (rw f at e))
]

-- The row of a store that is looked up by its own id, where what it hangs on must be the user's.
lookup-only {ℓ} :
    {A : Type ℓ} (user : ℕ) (db : Store) (is_it : A → Bool) (reservation : A → ℕ) (xs : List A)
    → first
        (λ x. is_it x && owns user (reservation x) (only user db))
        (where_rows (λ x. owns user (reservation x) db) xs)
      ≡ first (λ x. is_it x && owns user (reservation x) db) xs
lookup-only user db is_it reservation xs =
    first-same _ _ (where_rows (λ x. owns user (reservation x) db) xs)
      (λ x. ap (λ b. is_it x && b) (any-own user (reservation x) db.reservations))
    ∙ first-kept (λ x. is_it x && owns user (reservation x) db) (λ x. owns user (reservation x) db)
        xs (λ x t. and_right (is_it x) _ t)

get_reservation-only :
    (user id : ℕ) (db : Store) → get_reservation user id (only user db) ≡ get_reservation user id db
unfolding get_reservation
get_reservation-only user id db = elim (Option-cases (first (is_users user id) db.reservations)) [
  | inl n ↦ rw (get_reservation, first-own user id db.reservations, n) refl
  | inr (r, e) ↦
      let mine = found_owns user id db.reservations {r = r} e in
      rw (get_reservation, first-own user id db.reservations, e)
        (ap (λ j. some (r, j))
          (first-kept (λ j. j.reservation_id == id) (λ j. owns user j.reservation_id db) db.jobs
            (λ j t. ap (λ i. owns user i db) (eqb→eq j.reservation_id id t) ∙ mine)))
]

-- Whatever a user asks for by its id, a reservation with its job, a job or the verdict on a group, the
-- answer is the one that a store gives without the reservations of everyone else and all that hangs on
-- them: what is another user's cannot be told from what does not exist.
pub reads-only :
    (user id : ℕ) (db : Store)
    → (get_reservation user id (only user db) ≡ get_reservation user id db)
      × (get_job user id (only user db) ≡ get_job user id db)
      × (get_resolution user id (only user db) ≡ get_resolution user id db)
unfolding get_job get_resolution
reads-only user id db = (
  get_reservation-only user id db,
  lookup-only user db (λ j. j.job_id == id) (λ j. j.reservation_id) db.jobs,
  lookup-only user db (λ d. d.verification_group_id == id) (λ d. d.tiebreaker_reservation_id)
      db.dispute_resolutions,
)
