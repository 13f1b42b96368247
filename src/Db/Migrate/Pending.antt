-- ===== src/Db/Migrate/Pending.antt =====
-- What is still to be done when some files are done.

use nodeva.Prelude.{
  Bool, ℕ, ◌≡◌, inl, inr, refl, sym, ap, ◌∙◌, true, false, not, ◌||◌, List, [], ◌∷◌, ◌++◌,
  where_rows, All, Bool-cases, eqb_refl, arith,
}
use nodeva.Prelude.Sorting.{includes}
use nodeva.Db.Migrate.{DirEntry, migration_files, pending_files}

includes_append :
    (f : ℕ) (xs ys : List ℕ) → includes f (xs ++ ys) ≡ (includes f xs || includes f ys)
includes_append f [] ys = refl
includes_append f (x ∷ xs) ys = ground (arith, includes_append f xs ys)

-- What was pending after `old` and is not pending after `old ++ new`.
where_append :
    (old new xs : List ℕ)
    → where_rows (λ f. not (includes f (old ++ new))) xs
      ≡ where_rows (λ f. not (includes f new)) (where_rows (λ f. not (includes f old)) xs)
where_append old new [] = refl
where_append old new (x ∷ xs) = elim (Bool-cases (includes x old)) [
  | inl t ↦ rw (includes_append x old new, t) (where_append old new xs)
  | inr f ↦ elim (Bool-cases (includes x new)) [
    | inl t ↦ rw (includes_append x old new, f, t) (where_append old new xs)
    | inr g ↦ rw (includes_append x old new, f, g) (ap (◌∷◌ x) (where_append old new xs))
  ]
]

-- No name stands twice.
abbrev pub Distinct : List ℕ → Type 0
Distinct [] = Unit
Distinct (x ∷ xs) = (includes x xs ≡ false) × Distinct xs

includes_later :
    (x : ℕ) (p xs : List ℕ)
    → All (λ f. includes f p ≡ true) xs
    → All (λ f. includes f (x ∷ p) ≡ true) xs
includes_later x p [] h = tt
includes_later x p (f ∷ xs) h = (ground (arith, h.0), includes_later x p xs h.1)

includes_self : (p : List ℕ) → All (λ f. includes f p ≡ true) p
includes_self [] = tt
includes_self (x ∷ p) = (ground (arith, eqb_refl x), includes_later x p p (includes_self p))

includes_apart :
    (x : ℕ) (p r : List ℕ)
    → includes x r ≡ false
    → All (λ f. includes f p ≡ false) r
    → All (λ f. includes f (x ∷ p) ≡ false) r
includes_apart x p [] a h = tt
includes_apart x p (f ∷ r) a h =
    (ground (arith, a, h.0), includes_apart x p r (ground (arith, a)) h.1)

Distinct-apart : (p r : List ℕ) → Distinct (p ++ r) → All (λ f. includes f p ≡ false) r
Distinct-apart [] [] d = tt
Distinct-apart [] (f ∷ r) d = (refl, Distinct-apart [] r d.1)
Distinct-apart (x ∷ p) r d =
    let split = sym (includes_append x p r) ∙ d.0 in
    includes_apart x p r (ground (arith, split)) (Distinct-apart p r d.1)

where_none :
    (p xs ys : List ℕ)
    → All (λ f. includes f p ≡ true) xs
    → where_rows (λ f. not (includes f p)) (xs ++ ys) ≡ where_rows (λ f. not (includes f p)) ys
where_none p [] ys h = refl
where_none p (x ∷ xs) ys h = rw h.0 (where_none p xs ys h.1)

where_all :
    (p xs : List ℕ)
    → All (λ f. includes f p ≡ false) xs
    → where_rows (λ f. not (includes f p)) xs ≡ xs
where_all p [] h = refl
where_all p (x ∷ xs) h = rw h.0 (ap (◌∷◌ x) (where_all p xs h.1))

-- Of what was to be done, what is left when `p` is done.
where_left : (p r : List ℕ) → Distinct (p ++ r) → where_rows (λ f. not (includes f p)) (p ++ r) ≡ r
where_left p r d = where_none p p r (includes_self p) ∙ where_all p r (Distinct-apart p r d)

where_rows-Distinct : (q : ℕ → Bool) (xs : List ℕ) → Distinct xs → Distinct (where_rows q xs)
where_rows-Distinct q [] d = tt
where_rows-Distinct q (x ∷ xs) d = elim (Bool-cases (q x)) [
  | inl t ↦ rw t (absent_where q x xs d.0, where_rows-Distinct q xs d.1)
  | inr f ↦ rw f (where_rows-Distinct q xs d.1)
]
  where
    absent_where :
        (q : ℕ → Bool) (x : ℕ) (xs : List ℕ)
        → includes x xs ≡ false
        → includes x (where_rows q xs) ≡ false
    absent_where q x [] a = refl
    absent_where q x (y ∷ xs) a = ground (arith, absent_where q x xs)

pub pending_after :
    (dir : List DirEntry) (old p r : List ℕ)
    → pending_files dir old ≡ p ++ r
    → Distinct (migration_files dir)
    → pending_files dir (old ++ p) ≡ r
pending_after dir old p r parts d =
    where_append old p (migration_files dir)
    ∙ ap (where_rows (λ f. not (includes f p))) parts
    ∙ where_left p r
        (rw parts at (where_rows-Distinct (λ f. not (includes f old)) (migration_files dir) d))
