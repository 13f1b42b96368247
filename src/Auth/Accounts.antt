-- ===== src/Auth/Accounts.antt =====
-- The /auth routes of backend/src/api/server.js with backend/src/auth/password.js and passwordReset.js.
-- Text is a list of character codes; an email, a name, a hash and a session are numbers. bcrypt, SHA-256
-- and the random bytes are parameters, and `signSession` is the parameter `sign`. A route's awaits come
-- one after another; `check_reset` and `finish_reset` are what POST /auth/reset-password does before
-- and after it waits for the new hash.
pub mod Resets
use nodeva.Prelude.{
  ℕ, ◌+◌, ◌*◌, Bool, true, false, not, ◌==◌, ◌&&◌, ltb, Option, none, some, List, [], ◌∷◌, length,
  first, any, map, update_rows, if◌then◌else◌,
}

pub data AccountStatus : Type 0 where
  active suspended closed : AccountStatus

pub record User : Type 0 where
  pub user_id : ℕ
  pub email : ℕ
  pub password_hash : ℕ
  pub account_status : AccountStatus

-- `password_reset_tokens`; `used` says that `used_at` is set.
pub record ResetToken : Type 0 where
  pub token_id : ℕ
  pub user_id : ℕ
  pub token_hash : ℕ
  pub expires_at : ℕ
  pub used : Bool

pub record Accounts : Type 0 where
  pub users : List User
  pub tokens : List ResetToken

-- bcrypt's `hash` (with the salt it draws) and `compare`, SHA-256, and `signSession` on a user's id and
-- email.
pub record Crypto : Type 0 where
  pub bcrypt_hash : ℕ → List ℕ → ℕ
  pub bcrypt_compare : List ℕ → ℕ → Bool
  pub sha256 : List ℕ → ℕ
  pub sign : ℕ → ℕ → ℕ
  pub dummy_hash : ℕ

pub data AuthReply : Type 0 where
  missing_fields password_too_short email_taken invalid_credentials account_not_active : AuthReply
  reset_link_sent invalid_or_expired_token password_updated : AuthReply
  signed_up logged_in : ℕ → AuthReply

-- `hashPassword`
unfoldable pub hash_password : Crypto → ℕ → List ℕ → Option ℕ
hash_password crypto salt plaintext =
    if ltb (length plaintext) 8 then none else some (crypto.bcrypt_hash salt plaintext)

abbrev pub user_of : ℕ → Accounts → Option User
user_of email db = first (λ u. u.email == email) db.users

-- POST /auth/signup; the email, the password and the name may be missing, and `id` is drawn by the
-- database.
unfoldable pub signup :
    Crypto → ℕ → ℕ → Option ℕ → Option (List ℕ) → Option ℕ → Accounts → AuthReply × Accounts
unfolding hash_password
signup crypto salt id (some email) (some password) (some name) db =
    elim (hash_password crypto salt password) [
      | none ↦ (password_too_short, db)
      | some hash ↦ if any (λ u. u.email == email) db.users then (email_taken, db) else (
        signed_up (crypto.sign id email),
        record db {
          users =
              record { user_id = id; email = email; password_hash = hash; account_status = active }
              ∷ db.users;
        },
      )
    ]
signup crypto salt id _ _ _ db = (missing_fields, db)

abbrev pub is_active : AccountStatus → Bool
is_active active = true
is_active suspended = false
is_active closed = false

-- POST /auth/login
unfoldable pub login : Crypto → ℕ → List ℕ → Accounts → AuthReply
login crypto email password db = elim (user_of email db) [
  | none ↦ invalid_credentials
  | some u ↦
      if not (crypto.bcrypt_compare password u.password_hash)
      then invalid_credentials
      else if not (is_active u.account_status)
      then account_not_active
      else logged_in (crypto.sign u.user_id u.email)
]

abbrev pub reset_token_ttl_ms : ℕ
reset_token_ttl_ms = 60 * 60000

-- The row that is inserted.
abbrev pub issued : Crypto → ℕ → ℕ → List ℕ → User → ResetToken
issued crypto now id token u = record {
  token_id = id;
  user_id = u.user_id;
  token_hash = crypto.sha256 token;
  expires_at = now + reset_token_ttl_ms;
  used = false;
}

-- `UPDATE ... SET used_at = now() WHERE user_id = $1 AND used_at IS NULL`, on one row.
abbrev pub revoke : ℕ → ResetToken → ResetToken
revoke user t = if (t.user_id == user) && not t.used then record t { used = true } else t

-- The older links of the user are used up, and the new one is stored.
abbrev pub issue : Crypto → ℕ → ℕ → List ℕ → User → Accounts → Accounts
issue crypto now id token u db = record db {
  tokens = issued crypto now id token u ∷ map (revoke u.user_id) db.tokens;
}

-- POST /auth/forgot-password at the time `now`, with the token that `generateResetToken` draws and the
-- id that the database draws; the token goes into the mail.
unfoldable pub forgot_password :
    Crypto → ℕ → ℕ → List ℕ → ℕ → Accounts → Option (List ℕ) × AuthReply × Accounts
forgot_password crypto now id token email db = elim (user_of email db) [
  | none ↦ (none, reset_link_sent, db)
  | some u ↦ (some token, reset_link_sent, issue crypto now id token u db)
]

-- `SELECT ... WHERE token_hash = $1 AND used_at IS NULL AND expires_at > now()`
abbrev pub is_usable : ℕ → ℕ → ResetToken → Bool
is_usable hash now t = (t.token_hash == hash) && (not t.used && ltb now t.expires_at)

unfoldable pub check_reset : Crypto → ℕ → List ℕ → Accounts → Option ResetToken
check_reset crypto now token db = first (is_usable (crypto.sha256 token) now) db.tokens

unfoldable pub finish_reset : ResetToken → ℕ → Accounts → Accounts
finish_reset t hash db = record db {
  users =
      update_rows (λ u. u.user_id == t.user_id) (λ u. record u { password_hash = hash }) db.users;
  tokens = update_rows (λ x. x.token_id == t.token_id) (λ x. record x { used = true }) db.tokens;
}

-- POST /auth/reset-password
unfoldable pub reset_password :
    Crypto → ℕ → ℕ → Option (List ℕ) → Option (List ℕ) → Accounts → AuthReply × Accounts
unfolding check_reset hash_password finish_reset
reset_password crypto now salt (some token) (some password) db =
    elim (check_reset crypto now token db) [
      | none ↦ (invalid_or_expired_token, db)
      | some t ↦ elim (hash_password crypto salt password) [
        | none ↦ (password_too_short, db)
        | some hash ↦ (password_updated, finish_reset t hash db)
      ]
    ]
reset_password crypto now salt _ _ db = (missing_fields, db)
