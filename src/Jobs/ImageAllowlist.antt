-- ===== src/Jobs/ImageAllowlist.antt =====
-- backend/src/jobs/imageAllowlist.js. A text is the list of its characters' codes; the list of allowed
-- repositories, which the environment can replace, is an argument.
pub mod Prefix
use nodeva.Prelude.{
  ℕ, zero, suc, ◌+◌, ◌-◌, Bool, true, false, not, ◌==◌, ltb, Option, none, some, List, [], ◌∷◌, any,
  if◌then◌else◌,
}
use nodeva.Payments.Refunds.{take}
use nodeva.Payments.Razorpay.{bytes_equal}

abbrev pub at_sign : ℕ
at_sign = 64

abbrev pub colon : ℕ
colon = 58

abbrev pub slash : ℕ
slash = 47

abbrev pub latest : List ℕ
latest = 108 ∷ 97 ∷ 116 ∷ 101 ∷ 115 ∷ 116 ∷ []

-- `s.slice(n)`
abbrev pub drop : ℕ → List ℕ → List ℕ
drop zero xs = xs
drop (suc n) [] = []
drop (suc n) (x ∷ xs) = drop n xs

-- `s.indexOf(c) + 1`, so 0 where the character is absent.
abbrev pub index_of : ℕ → List ℕ → ℕ
index_of c [] = 0
index_of c (x ∷ xs) = if x == c then 1 else (if index_of c xs == 0 then 0 else suc (index_of c xs))

-- `s.lastIndexOf(c) + 1`
abbrev pub last_index_of : ℕ → List ℕ → ℕ
last_index_of c [] = 0
last_index_of c (x ∷ xs) =
    if last_index_of c xs == 0 then (if x == c then 1 else 0) else suc (last_index_of c xs)

pub record ImageRef : Type 0 where
  pub repo : List ℕ
  pub ref : List ℕ
  pub pinned : Bool

-- The three ways to split, by the positions of the first '@', the last ':' and the last '/'.
unfoldable pub split_ref : ℕ → ℕ → ℕ → List ℕ → ImageRef
split_ref (suc i) last_colon last_slash image = record {
  repo = take i image;
  ref = drop (suc i) image;
  pinned = true;
}
split_ref zero last_colon last_slash image =
    if ltb last_slash last_colon
    then record { repo = take (last_colon - 1) image; ref = drop last_colon image; pinned = false }
    else record { repo = image; ref = latest; pinned = false }

-- `parseImageRef`
unfoldable pub parse_image_ref : List ℕ → Option ImageRef
unfolding split_ref
parse_image_ref [] = none
parse_image_ref (c ∷ cs) =
    let image = c ∷ cs in
    some (
      split_ref (index_of at_sign image) (last_index_of colon image) (last_index_of slash image)
        image)

pub data ImageCheck : Type 0 where
  allowed image_required : ImageCheck
  repo_not_allowed : List ℕ → ImageCheck

-- `checkImageAllowed`
unfoldable pub check_image_allowed : List (List ℕ) → List ℕ → ImageCheck
unfolding parse_image_ref bytes_equal
check_image_allowed repos image = elim (parse_image_ref image) [
  | none ↦ image_required
  | some parsed ↦
      if any (bytes_equal parsed.repo) repos then allowed else repo_not_allowed parsed.repo
]
