-- ===== src/Auth/Accounts/Resets.antt =====
-- Password resets: the link that was mailed last works, once.
use nodeva.Prelude.{
  map, ℕ, ◌+◌, ◌≤◌, ◌<◌, ◌≡◌, ◌≢◌, refl, inl, inr, arith, true, false, ◌==◌, ltb, none, some, List,
  [], ◌∷◌, length, first, All, update_rows, Bool-cases, ◌∙◌, sym, eqb→eq, eqb_refl,
  first-update_rows, if◌then◌else◌,
}
use nodeva.Auth.Accounts.{
  User, active, ResetToken, issue, issued, revoke, Accounts, Crypto, hash_password, logged_in,
  password_updated, invalid_or_expired_token, user_of, login, reset_token_ttl_ms, forgot_password,
  is_usable, check_reset, finish_reset, reset_password,
}

hash_password-long :
    (crypto : Crypto) (salt : ℕ) (p : List ℕ)
    → 8 ≤ length p
    → hash_password crypto salt p ≡ some (crypto.bcrypt_hash salt p)
unfolding hash_password
hash_password-long crypto salt p l =
    let long : ltb (length p) 8 ≡ false = ground arith in rw (hash_password, long) refl

user_of-finish_reset :
    (email hash : ℕ) (t : ResetToken) (db : Accounts) {u : User}
    → user_of email db ≡ some u
    → t.user_id ≡ u.user_id
    → user_of email (finish_reset t hash db) ≡ some (record u { password_hash = hash })
unfolding finish_reset
user_of-finish_reset email hash t db {u} e same =
    first-update_rows (λ x. x.email == email) (λ x. x.user_id == t.user_id) _ db.users (λ y. refl) e
    ∙ rw (same, eqb_refl u.user_id) refl

-- A user who asks for a link and uses it in time with a long enough password gets that password, and
-- logs in with it when the account is active, provided that bcrypt recognises what it hashed.
pub login-reset_password :
    (crypto : Crypto) (now later id salt email : ℕ) (token password : List ℕ) (db : Accounts)
    {u : User}
    → user_of email db ≡ some u
    → u.account_status ≡ active
    → later < now + reset_token_ttl_ms
    → 8 ≤ length password
    → crypto.bcrypt_compare password (crypto.bcrypt_hash salt password) ≡ true
    → let asked = forgot_password crypto now id token email db in
      let done = reset_password crypto later salt asked.0 (some password) asked.2 in
      (done.0 ≡ password_updated)
      × (login crypto email password done.1 ≡ logged_in (crypto.sign u.user_id u.email))
unfolding forgot_password reset_password check_reset login
login-reset_password crypto now later id salt email token password db {u} e act late long same =
    let hash = crypto.bcrypt_hash salt password in
    let fresh : ltb later (now + reset_token_ttl_ms) ≡ true = ground arith in
    let after =
      user_of-finish_reset email hash (issued crypto now id token u)
        (issue crypto now id token u db) e refl in
    rw
      (
        forgot_password,
        e,
        reset_password,
        check_reset,
        eqb_refl (crypto.sha256 token),
        fresh,
        hash_password-long crypto salt password long,
      )
      (refl, rw (login, after, same, act) refl)

used_unusable : (hash now : ℕ) (t : ResetToken) → t.used ≡ true → is_usable hash now t ≡ false
used_unusable hash now t u = elim (Bool-cases (t.token_hash == hash)) [
  | inl a ↦ rw (a, u) refl
  | inr a ↦ rw a refl
]

revoke-used : (user : ℕ) (t : ResetToken) → (t.user_id == user) ≡ true → (revoke user t).used ≡ true
revoke-used user t a = elim (Bool-cases t.used) [ inl b ↦ rw (a, b) refl | inr b ↦ rw (a, b) refl ]

revoke-usable :
    (hash now user : ℕ) (t : ResetToken)
    → is_usable hash now (revoke user t) ≡ true
    → (revoke user t ≡ t) × (t.user_id ≢ user)
revoke-usable hash now user t e = elim (Bool-cases (t.user_id == user)) [
  | inl a ↦
      let bad : false ≡ true =
        sym (used_unusable hash now (revoke user t) (revoke-used user t a)) ∙ e in
      absurd cc
  | inr a ↦ (rw a refl, ground arith)
]

first-revoked :
    (hash now user : ℕ) (ts : List ResetToken) {t : ResetToken}
    → first (is_usable hash now) (map (revoke user) ts) ≡ some t
    → t.user_id ≢ user
first-revoked hash now user [] {t} e = cc
first-revoked hash now user (x ∷ ts) {t} e =
    elim (Bool-cases (is_usable hash now (revoke user x))) [
      | inl b ↦
          let (stays, other) = revoke-usable hash now user x b in
          let found : some (revoke user x) ≡ some t = rw b at e in
          let same : x ≡ t = cc in rw⁻¹ same other
      | inr b ↦ first-revoked hash now user ts {t = t} (rw b at e)
    ]

-- Once a user has asked for a new link, no link from before is usable for that user: what an older token
-- still finds belongs to someone else.
pub check_reset-issue :
    (crypto : Crypto) (now later id : ℕ) (token older : List ℕ) (u : User) (db : Accounts)
    {t : ResetToken}
    → crypto.sha256 older ≢ crypto.sha256 token
    → check_reset crypto later older (issue crypto now id token u db) ≡ some t
    → t.user_id ≢ u.user_id
unfolding check_reset
check_reset-issue crypto now later id token older u db {t} ne e =
    let other : (crypto.sha256 token == crypto.sha256 older) ≡ false = ground arith in
    first-revoked (crypto.sha256 older) later u.user_id db.tokens (rw (check_reset, other) at e)

-- No row but one has the hash.
abbrev pub OneRow : ℕ → ℕ → List ResetToken → Type 0
OneRow hash id = All (λ t. t.token_hash ≡ hash → t.token_id ≡ id)

use_up-usable :
    (hash id now : ℕ) (t : ResetToken)
    → (t.token_hash ≡ hash → t.token_id ≡ id)
    → is_usable hash now (if t.token_id == id then record t { used = true } else t) ≡ false
use_up-usable hash id now t h = elim (Bool-cases (t.token_hash == hash)) [
  | inl a ↦
      let mine : (t.token_id == id) ≡ true = rw (h (eqb→eq t.token_hash hash a)) (eqb_refl id) in
      rw (mine, a) refl
  | inr a ↦ elim (Bool-cases (t.token_id == id)) [ inl b ↦ rw (b, a) refl | inr b ↦ rw (b, a) refl ]
]

first-used :
    (hash id now : ℕ) (ts : List ResetToken)
    → OneRow hash id ts
    → first
        (is_usable hash now)
        (update_rows (λ x. x.token_id == id) (λ x. record x { used = true }) ts)
      ≡ none
first-used hash id now [] h = refl
first-used hash id now (t ∷ ts) h =
    rw (use_up-usable hash id now t h.0) (first-used hash id now ts h.1)

check_reset-finish_reset :
    (crypto : Crypto) (later hash : ℕ) (token : List ℕ) (db : Accounts) (t : ResetToken)
    → OneRow (crypto.sha256 token) t.token_id db.tokens
    → check_reset crypto later token (finish_reset t hash db) ≡ none
unfolding check_reset finish_reset
check_reset-finish_reset crypto later hash token db t h =
    first-used (crypto.sha256 token) t.token_id later db.tokens h

-- A link works once: after a reset with it a second one with the same token is refused, at any time and
-- with any password, when no other row has the token's hash.
pub reset_password_once :
    (crypto : Crypto) (now later salt salt' : ℕ) (token password password' : List ℕ) (db : Accounts)
    {t : ResetToken}
    → check_reset crypto now token db ≡ some t
    → OneRow (crypto.sha256 token) t.token_id db.tokens
    → 8 ≤ length password
    → let done = reset_password crypto now salt (some token) (some password) db in
      (done.0 ≡ password_updated)
      × ((reset_password crypto later salt' (some token) (some password') done.1).0
          ≡ invalid_or_expired_token)
unfolding reset_password
reset_password_once crypto now later salt salt' token password password' db {t} e one long =
    let hash = crypto.bcrypt_hash salt password in
    rw (reset_password, e, hash_password-long crypto salt password long)
      (refl, rw (reset_password, check_reset-finish_reset crypto later hash token db t one) refl)
