-- ===== src/Prelude/Sorting.antt =====
-- `Array.prototype.sort`: stable, here by insertion, and `Array.prototype.includes` on numbers.
use Prim.Native.Nat.{ℕ}
use mathlib.Core.Bool.{Bool, true, false}
use mathlib.Core.List.{List, [], ◌∷◌, Perm}
use mathlib.Core.List.Perm
use mathlib.Core.Logic.{inl, inr}
use mathlib.Core.Path.{◌≡◌}
use nodeva.Prelude.Tests.{if◌then◌else◌, Bool-cases, ◌==◌}
use nodeva.Prelude.Lists.{All, any}

module _ {ℓ} {A : Type ℓ} (le : A → A → Bool) where
  abbrev pub insert_by : A → List A → List A
  insert_by x [] = x ∷ []
  insert_by x (y ∷ ys) = let rest = insert_by x ys in if le x y then x ∷ (y ∷ ys) else y ∷ rest

  abbrev pub sort_by : List A → List A
  sort_by [] = []
  sort_by (x ∷ xs) = insert_by x (sort_by xs)

  -- Each element comes before all later ones.
  abbrev pub Sorted : List A → Type 0
  Sorted [] = Unit
  Sorted (x ∷ xs) = All (λ y. le x y ≡ true) xs × Sorted xs

  insert_by-Perm : (x : A) (xs : List A) → Perm (insert_by x xs) (x ∷ xs)
  insert_by-Perm x [] = Perm.rfl
  insert_by-Perm x (y ∷ ys) = elim (Bool-cases (le x y)) [
    | inl t ↦ rw t Perm.rfl
    | inr f ↦ rw f (Perm.trans (Perm.cons y (insert_by-Perm x ys)) (Perm.swap x y ys))
  ]

  -- Sorting loses nothing and adds nothing.
  pub sort_by-Perm : (xs : List A) → Perm (sort_by xs) xs
  sort_by-Perm [] = Perm.rfl
  sort_by-Perm (x ∷ xs) = Perm.trans (insert_by-Perm x (sort_by xs)) (Perm.cons x (sort_by-Perm xs))

  insert_by-All : (P : A → Type 0) (x : A) (xs : List A) → P x → All P xs → All P (insert_by x xs)
  insert_by-All P x [] p h = (p, tt)
  insert_by-All P x (y ∷ ys) p h = elim (Bool-cases (le x y)) [
    | inl t ↦ rw t (p, h)
    | inr f ↦ rw f (h.0, insert_by-All P x ys p h.1)
  ]

  pub sort_by-All : (P : A → Type 0) (xs : List A) → All P xs → All P (sort_by xs)
  sort_by-All P [] h = tt
  sort_by-All P (x ∷ xs) h = insert_by-All P x (sort_by xs) h.0 (sort_by-All P xs h.1)

  All-trans :
      (x y : A) (zs : List A)
      → ((a b c : A) → le a b ≡ true → le b c ≡ true → le a c ≡ true)
      → le x y ≡ true
      → All (λ z. le y z ≡ true) zs
      → All (λ z. le x z ≡ true) zs
  All-trans x y [] trans e h = tt
  All-trans x y (z ∷ zs) trans e h = (trans x y z e h.0, All-trans x y zs trans e h.1)

  insert_by-Sorted :
      (x : A) (xs : List A)
      → ((a b c : A) → le a b ≡ true → le b c ≡ true → le a c ≡ true)
      → ((a b : A) → le a b ≡ false → le b a ≡ true)
      → Sorted xs
      → Sorted (insert_by x xs)
  insert_by-Sorted x [] trans total s = (tt, tt)
  insert_by-Sorted x (y ∷ ys) trans total s = elim (Bool-cases (le x y)) [
    | inl t ↦ rw t ((t, All-trans x y ys trans t s.0), s)
    | inr f ↦ rw f (
      insert_by-All (λ z. le y z ≡ true) x ys (total x y f) s.0,
      insert_by-Sorted x ys trans total s.1,
    )
  ]

  -- By a total order the result is sorted.
  pub sort_by-Sorted :
      (xs : List A)
      → ((a b c : A) → le a b ≡ true → le b c ≡ true → le a c ≡ true)
      → ((a b : A) → le a b ≡ false → le b a ≡ true)
      → Sorted (sort_by xs)
  sort_by-Sorted [] trans total = tt
  sort_by-Sorted (x ∷ xs) trans total =
      insert_by-Sorted x (sort_by xs) trans total (sort_by-Sorted xs trans total)

abbrev pub includes : ℕ → List ℕ → Bool
includes a xs = any (λ b. b == a) xs
