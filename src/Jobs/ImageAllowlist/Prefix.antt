-- ===== src/Jobs/ImageAllowlist/Prefix.antt =====
-- An allowed image names an allowed repository, and nothing else of the text decides.
use nodeva.Prelude.{
  ℕ, zero, suc, ◌-◌, ◌≡◌, ◌⊎◌, inl, inr, refl, arith, true, ltb, List, [], ◌∷◌, ◌++◌, any, ap,
  Bool-cases,
}
use nodeva.Payments.Refunds.{take}
use nodeva.Payments.Razorpay.{bytes_equal}
use nodeva.Payments.Razorpay.Signatures.{bytes_equal_iff}
use nodeva.Jobs.ImageAllowlist.{
  at_sign, colon, slash, drop, index_of, last_index_of, ImageRef, split_ref, parse_image_ref,
  allowed, check_image_allowed,
}

index_of-split :
    (c i : ℕ) (xs : List ℕ) → index_of c xs ≡ suc i → xs ≡ take i xs ++ c ∷ drop (suc i) xs
index_of-split c i [] e = ground arith
index_of-split c zero (x ∷ xs) e = ground arith
index_of-split c (suc i) (x ∷ xs) e = ground (arith, index_of-split c i xs)

last_index_of-split :
    (c i : ℕ) (xs : List ℕ) → last_index_of c xs ≡ suc i → xs ≡ take i xs ++ c ∷ drop (suc i) xs
last_index_of-split c i [] e = ground arith
last_index_of-split c zero (x ∷ xs) e = ground arith
last_index_of-split c (suc i) (x ∷ xs) e = ground (arith, last_index_of-split c i xs)

-- What may follow the repository: nothing, a digest or a tag.
abbrev pub Separated : List ℕ → Type 0
Separated rest = (rest ≡ []) ⊎ ((ref : List ℕ) × ((rest ≡ at_sign ∷ ref) ⊎ (rest ≡ colon ∷ ref)))

abbrev pub Listed : List ℕ → List (List ℕ) → Type 0
Listed repo [] = ⊥
Listed repo (r ∷ rs) = (repo ≡ r) ⊎ Listed repo rs

any-Listed :
    (repo : List ℕ) (repos : List (List ℕ))
    → any (bytes_equal repo) repos ≡ true
    → Listed repo repos
any-Listed repo [] e = cc
any-Listed repo (r ∷ rs) e = elim (Bool-cases (bytes_equal repo r)) [
  | inl same ↦ inl ((bytes_equal_iff repo r).0 same)
  | inr other ↦ inr (any-Listed repo rs (ground (arith, other, e)))
]

append_nil : (xs : List ℕ) → xs ≡ xs ++ []
append_nil [] = refl
append_nil (x ∷ xs) = ap (λ ys. x ∷ ys) (append_nil xs)

-- The repository is a beginning of the image.
abbrev pub Begins : ImageRef → List ℕ → Type 0
Begins p image = (rest : List ℕ) × (image ≡ p.repo ++ rest) × Separated rest

less_one : (i : ℕ) → suc i - 1 ≡ i
less_one i = omega arith

split_ref-Begins :
    (at_index last_colon last_slash : ℕ) (image : List ℕ)
    → index_of at_sign image ≡ at_index
    → last_index_of colon image ≡ last_colon
    → Begins (split_ref at_index last_colon last_slash image) image
unfolding split_ref
split_ref-Begins (suc i) last_colon last_slash image a c = (
  at_sign ∷ drop (suc i) image,
  index_of-split at_sign i image a,
  inr (drop (suc i) image, inl refl),
)
split_ref-Begins zero zero last_slash image a c = ([], ground (arith, append_nil image), inl refl)
split_ref-Begins zero (suc i) last_slash image a c = elim (Bool-cases (ltb last_slash (suc i))) [
  | inr no_tag ↦ rw (no_tag, split_ref) ([], append_nil image, inl refl)
  | inl tag ↦
      rw (tag, split_ref)
        (
          colon ∷ drop (suc i) image,
          rw (less_one i) (last_index_of-split colon i image c),
          inr (drop (suc i) image, inr refl),
        )
]

-- An image that the allowlist admits is an allowed repository, followed by nothing, by '@' and a
-- digest, or by ':' and a tag: no other image reaches a node.
pub check_image_allowed-Begins :
    (repos : List (List ℕ)) (image : List ℕ)
    → check_image_allowed repos image ≡ allowed
    → (p : ImageRef) × Listed p.repo repos × Begins p image
unfolding check_image_allowed parse_image_ref
check_image_allowed-Begins repos [] e = ground arith
check_image_allowed-Begins repos (c ∷ cs) e =
    let image = c ∷ cs in
    let p =
      split_ref (index_of at_sign image) (last_index_of colon image) (last_index_of slash image)
        image in
    (
      p,
      any-Listed p.repo repos (ground (arith, e)),
      split_ref-Begins (index_of at_sign image) (last_index_of colon image)
          (last_index_of slash image) image refl refl,
    )
