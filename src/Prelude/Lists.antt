-- ===== src/Prelude/Lists.antt =====
-- Lists over the native numbers, and rows found, updated and quantified by Boolean tests.
use Prim.Native.Nat.{ℕ, suc}
use mathlib.Core.Bool.{Bool, true, false, ◌&&◌, ◌||◌}
use mathlib.Core.Option.{Option, none, some}
use mathlib.Core.List.{List, [], ◌∷◌}
use mathlib.Core.Path.{◌≡◌, refl}
use mathlib.Core.Logic.{inl, inr}
use native.Mathlib.Omega.{arith}
use nodeva.Prelude.Tests.{if◌then◌else◌, Bool-cases}

module _ {ℓ} {A : Type ℓ} where
  abbrev pub length : List A → ℕ
  length [] = 0
  length (x ∷ xs) = suc (length xs)

  -- `xs.filter(p)`, and `SELECT ... WHERE p`.
  abbrev pub where_rows : (A → Bool) → List A → List A
  where_rows p [] = []
  where_rows p (x ∷ xs) = if p x then x ∷ where_rows p xs else where_rows p xs

  -- `xs.find(p)`, and `(SELECT ... WHERE p).rows[0]`.
  abbrev pub first : (A → Bool) → List A → Option A
  first p [] = none
  first p (x ∷ xs) = if p x then some x else first p xs

  -- `xs.some(p)` and `xs.every(p)`.
  abbrev pub any : (A → Bool) → List A → Bool
  any p [] = false
  any p (x ∷ xs) = p x || any p xs

  abbrev pub all : (A → Bool) → List A → Bool
  all p [] = true
  all p (x ∷ xs) = p x && all p xs

  -- `UPDATE ... SET f WHERE p`.
  abbrev pub update_rows : (A → Bool) → (A → A) → List A → List A
  update_rows p f [] = []
  update_rows p f (x ∷ xs) = (if p x then f x else x) ∷ update_rows p f xs

  abbrev pub All {κ} : (A → Type κ) → List A → Type κ
  All P [] = Unit
  All P (x ∷ xs) = P x × All P xs

pub All-where_rows {ℓ κ} :
    {A : Type ℓ} (P : A → Type κ) (p : A → Bool) (xs : List A) → All P xs → All P (where_rows p xs)
All-where_rows P p [] h = tt
All-where_rows P p (x ∷ xs) h = elim (Bool-cases (p x)) [
  | inl t ↦ rw t (h.0, All-where_rows P p xs h.1)
  | inr t ↦ rw t (All-where_rows P p xs h.1)
]

pub All-update_rows {ℓ κ} :
    {A : Type ℓ} (P : A → Type κ) (p : A → Bool) (f : A → A) (xs : List A)
    → ((x : A) → p x ≡ true → P x → P (f x))
    → All P xs
    → All P (update_rows p f xs)
All-update_rows P p f [] g h = tt
All-update_rows P p f (x ∷ xs) g h = elim (Bool-cases (p x)) [
  | inl t ↦ rw t (g x t h.0, All-update_rows P p f xs g h.1)
  | inr t ↦ rw t (h.0, All-update_rows P p f xs g h.1)
]

pub first-All {ℓ κ} :
    {A : Type ℓ} (P : A → Type κ) (p : A → Bool) (xs : List A) {x : A}
    → All P xs
    → first p xs ≡ some x
    → P x
first-All P p [] {x} h e = cc
first-All P p (y ∷ ys) {x} h e = elim (Bool-cases (p y)) [
  | inl t ↦ let same : y ≡ x = ground arith in rw⁻¹ same h.0
  | inr t ↦ first-All P p ys h.1 (ground arith)
]

pub first-update_rows {ℓ} :
    {A : Type ℓ} (p q : A → Bool) (f : A → A) (xs : List A) {x : A}
    → ((y : A) → p (f y) ≡ p y)
    → first p xs ≡ some x
    → first p (update_rows q f xs) ≡ some (if q x then f x else x)
first-update_rows p q f [] {x} same e = cc
first-update_rows p q f (y ∷ ys) {x} same e = elim (Bool-cases (p y)) [
  | inl t ↦
      let is : y ≡ x = ground arith in
      elim (Bool-cases (q y)) [
        | inl u ↦ rw⁻¹ is (rw (u, same y, t) refl)
        | inr u ↦ rw⁻¹ is (rw (u, t) refl)
      ]
  | inr t ↦
      let rest : first p ys ≡ some x = ground arith in
      elim (Bool-cases (q y)) [
        | inl u ↦ rw (u, same y, t) (first-update_rows p q f ys same rest)
        | inr u ↦ rw (u, t) (first-update_rows p q f ys same rest)
      ]
]
