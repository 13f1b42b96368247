-- ===== src/Auth/Tokens.antt =====
-- backend/src/auth/jwt.js, middleware.js and adminToken.js: the sessions and the admin token. Text is a
-- list of character codes, a header is split at its blanks already, and `jwt.verify` is a parameter that
-- returns the payload's user and email.
pub mod Rotation
use nodeva.Prelude.{
  suc, zero, ℕ, ◌-◌, Bool, true, false, ◌==◌, ◌&&◌, ltb, Option, none, some, List, [], ◌∷◌, ◌++◌,
  length, any, where_rows, get_or, if◌then◌else◌,
}

-- `JWT_SECRET` under 32 characters stops the start.
unfoldable pub require_jwt_secret : Option (List ℕ) → Option (List ℕ)
require_jwt_secret none = none
require_jwt_secret (some secret) = if ltb (length secret) 32 then none else some secret

abbrev pub is_nonempty : List ℕ → Bool
is_nonempty [] = false
is_nonempty (_ ∷ _) = true

-- `requireJwtVerificationSecrets`, on the trimmed parts of `JWT_SECRET_PREVIOUS`.
unfoldable pub verification_secrets : Option (List ℕ) → List (List ℕ) → Option (List (List ℕ))
unfolding require_jwt_secret
verification_secrets current previous = elim (require_jwt_secret current) [
  | none ↦ none
  | some secret ↦ some (secret ∷ where_rows is_nonempty previous)
]

-- The loop of `verifySession`.
unfoldable pub verify_session :
    (List ℕ → List ℕ → Option (ℕ × ℕ)) → List (List ℕ) → List ℕ → Option (ℕ × ℕ)
verify_session verify [] token = none
verify_session verify (secret ∷ secrets) token = elim (verify token secret) [
  | none ↦ verify_session verify secrets token
  | some payload ↦ some payload
]

pub data Gate : Type 0 where
  missing_bearer invalid_session not_found admitted : Gate
  authenticated : ℕ → ℕ → Gate

-- 'Bearer'
abbrev pub bearer : List ℕ
bearer = 66 ∷ 101 ∷ 97 ∷ 114 ∷ 101 ∷ 114 ∷ []

-- `===` on text
unfoldable pub text_eq : List ℕ → List ℕ → Bool
text_eq [] [] = true
text_eq [] (_ ∷ _) = false
text_eq (_ ∷ _) [] = false
text_eq (a ∷ as') (b ∷ bs) = (a == b) && text_eq as' bs

-- `requireAuth`
unfoldable pub require_auth :
    (List ℕ → List ℕ → Option (ℕ × ℕ)) → List (List ℕ) → List (List ℕ) → Gate
unfolding verify_session text_eq
require_auth verify secrets (scheme ∷ (c ∷ cs) ∷ rest) =
    if text_eq scheme bearer
    then elim (verify_session verify secrets (c ∷ cs)) [
      | none ↦ invalid_session
      | some (user, email) ↦ authenticated user email
    ]
    else missing_bearer
require_auth verify secrets _ = missing_bearer

-- `expectedTokens`
unfoldable pub expected_tokens : List ℕ → List (List ℕ) → List (List ℕ)
expected_tokens [] previous = []
expected_tokens (c ∷ cs) previous = (c ∷ cs) ∷ where_rows is_nonempty previous

-- `providedBuf.copy(padded)` into `n` zero bytes.
unfoldable pub padded : ℕ → List ℕ → List ℕ
padded zero bs = []
padded (suc n) [] = 0 ∷ padded n []
padded (suc n) (b ∷ bs) = b ∷ padded n bs

-- `timingSafeEquals`; `crypto.timingSafeEqual` on buffers of one length compares the bytes.
unfoldable pub timing_safe_equals : List ℕ → List ℕ → Bool
unfolding padded text_eq
timing_safe_equals provided expected =
    (length provided == length expected) && text_eq (padded (length expected) provided) expected

-- `extractProvidedToken`: the header `x-admin-token`, or else the rest of a bearer header.
unfoldable pub provided_token : List ℕ → Option (List ℕ) → List ℕ
provided_token [] rest = get_or [] rest
provided_token (c ∷ cs) rest = c ∷ cs

-- `requireAdminToken`
unfoldable pub require_admin_token : List (List ℕ) → List ℕ → Gate
unfolding timing_safe_equals
require_admin_token [] provided = not_found
require_admin_token (c ∷ cs) provided =
    if any (timing_safe_equals provided) (c ∷ cs) then admitted else not_found
