-- ===== src/Auth/Tokens/Rotation.antt =====
-- Rotation of the secrets, and the two gates.
use nodeva.Prelude.{
  ℕ, ◌≡◌, ◌↔◌, ◌⊎◌, refl, inl, inr, arith, Bool, true, false, ◌==◌, Option, List, [], ◌∷◌, length,
  any, Bool-cases, Option-cases, ◌∙◌, ap, sym, eqb→eq, eqb_refl, is_some,
}
use nodeva.Auth.Tokens.{
  verify_session, text_eq, padded, timing_safe_equals, require_admin_token, require_auth, Gate,
  admitted, not_found, authenticated, bearer,
}

text_eq→eq : (xs ys : List ℕ) → text_eq xs ys ≡ true → xs ≡ ys
unfolding text_eq
text_eq→eq [] [] e = refl
text_eq→eq [] (y ∷ ys) e = cc
text_eq→eq (x ∷ xs) [] e = cc
text_eq→eq (x ∷ xs) (y ∷ ys) e = ground (arith, text_eq→eq xs ys)

text_eq_refl : (xs : List ℕ) → text_eq xs xs ≡ true
unfolding text_eq
text_eq_refl [] = refl
text_eq_refl (x ∷ xs) = ground (arith, text_eq_refl xs)

padded_full : (xs : List ℕ) → padded (length xs) xs ≡ xs
unfolding padded
padded_full [] = refl
padded_full (x ∷ xs) = ap (λ ys. x ∷ ys) (padded_full xs)

equals→eq :
    (provided expected : List ℕ) → timing_safe_equals provided expected ≡ true → provided ≡ expected
unfolding timing_safe_equals
equals→eq provided expected e = elim (Bool-cases (length provided == length expected)) [
  | inl l ↦
      let same = eqb→eq (length provided) (length expected) l in
      let texts : text_eq provided expected ≡ true =
        rw⁻¹ (padded_full provided) (rw same (rw l at e)) in
      text_eq→eq provided expected texts
  | inr l ↦ let bad : false ≡ true = rw l at e in cc
]

equals_refl : (xs : List ℕ) → timing_safe_equals xs xs ≡ true
unfolding timing_safe_equals
equals_refl xs = rw (timing_safe_equals, eqb_refl (length xs), padded_full xs) (text_eq_refl xs)

-- A text is one of the texts.
abbrev pub Among : List ℕ → List (List ℕ) → Type 0
Among t [] = ⊥
Among t (x ∷ xs) = (t ≡ x) ⊎ Among t xs

any→Among : (t : List ℕ) (xs : List (List ℕ)) → any (timing_safe_equals t) xs ≡ true → Among t xs
any→Among t [] e = cc
any→Among t (x ∷ xs) e = elim (Bool-cases (timing_safe_equals t x)) [
  | inl b ↦ inl (equals→eq t x b)
  | inr b ↦ inr (any→Among t xs (rw b at e))
]

Among→any : (t : List ℕ) (xs : List (List ℕ)) → Among t xs → any (timing_safe_equals t) xs ≡ true
Among→any t [] m = absurd m
Among→any t (x ∷ xs) (inl e) = rw (e, equals_refl x) refl
Among→any t (x ∷ xs) (inr m) = rw (Among→any t xs m) (ground arith)

-- The admin gate opens exactly for a token that is one of the configured ones, and without any
-- configured token it never opens.
pub require_admin_token_iff :
    (candidates : List (List ℕ)) (provided : List ℕ)
    → (require_admin_token candidates provided ≡ admitted) ↔ Among provided candidates
unfolding require_admin_token
require_admin_token_iff [] provided = (λ e. cc, λ m. absurd m)
require_admin_token_iff (c ∷ cs) provided =
    elim (Bool-cases (any (timing_safe_equals provided) (c ∷ cs))) [
      | inl b ↦ (λ e. any→Among provided (c ∷ cs) b, λ m. rw (require_admin_token, b) refl)
      | inr b ↦ (
        λ e. let bad : not_found ≡ admitted = rw (require_admin_token, b) at e in cc,
        λ m. let bad : true ≡ false = sym (Among→any provided (c ∷ cs) m) ∙ b in cc,
      )
    ]

verify_session-any :
    (verify : List ℕ → List ℕ → Option (ℕ × ℕ)) (secrets : List (List ℕ)) (token : List ℕ)
    → is_some (verify_session verify secrets token) ≡ any (λ s. is_some (verify token s)) secrets
unfolding verify_session
verify_session-any verify [] token = refl
verify_session-any verify (x ∷ xs) token = elim (Option-cases (verify token x)) [
  | inl e ↦ rw (verify_session, e) (verify_session-any verify xs token)
  | inr (p, e) ↦ rw (verify_session, e) refl
]

abbrev pub is_authenticated : Gate → Bool
is_authenticated (authenticated user email) = true
is_authenticated _ = false

-- A request with a bearer token is let in exactly when one of the secrets verifies the token, wherever
-- that secret stands in the list: a secret put in front, as a rotation does, logs nobody out.
pub require_auth-any :
    (verify : List ℕ → List ℕ → Option (ℕ × ℕ)) (secrets : List (List ℕ)) (c : ℕ) (cs : List ℕ)
    (rest : List (List ℕ))
    → is_authenticated (require_auth verify secrets (bearer ∷ (c ∷ cs) ∷ rest))
      ≡ any (λ s. is_some (verify (c ∷ cs) s)) secrets
unfolding require_auth
require_auth-any verify secrets c cs rest =
    (elim (Option-cases (verify_session verify secrets (c ∷ cs))) [
      | inl e ↦ rw (require_auth, text_eq_refl bearer, e) refl
      | inr (p, e) ↦ rw (require_auth, text_eq_refl bearer, e) refl
    ])
    ∙ verify_session-any verify secrets (c ∷ cs)
