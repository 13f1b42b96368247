-- ===== src/Tests/Logins.antt =====
-- A user who forgets the password, and the gates.
use nodeva.Prelude.{
  ℕ, ◌+◌, ◌≡◌, ◌↔◌, refl, arith, true, false, ◌==◌, none, some, Option, List, [], ◌∷◌, length,
}
use nodeva.Auth.Accounts.{
  User, active, Accounts, Crypto, password_updated, logged_in, login, forgot_password,
  reset_password,
}
use nodeva.Auth.Accounts.Resets.{login-reset_password}
use nodeva.Auth.Tokens.{require_admin_token, admitted}
use nodeva.Auth.Tokens.Rotation.{Among, require_admin_token_iff}

-- Stand-ins that hash a text to its length.
abbrev crypto : Crypto
crypto = record {
  bcrypt_hash = λ salt p. length p;
  bcrypt_compare = λ p hash. length p == hash;
  sha256 = λ t. length t;
  sign = λ user email. user + email;
  dummy_hash = 0;
}

abbrev user : User
user = record { user_id = 7; email = 70; password_hash = 10; account_status = active }

abbrev accounts : Accounts
accounts = record { users = user ∷ []; tokens = [] }

abbrev token : List ℕ
token = 1 ∷ 2 ∷ 3 ∷ []

abbrev password : List ℕ
password = 1 ∷ 2 ∷ 3 ∷ 4 ∷ 5 ∷ 6 ∷ 7 ∷ 8 ∷ 9 ∷ []

login-reset_password_example :
    let asked = forgot_password crypto 1000 1 token 70 accounts in
    let done = reset_password crypto 2000 0 asked.0 (some password) asked.2 in
    (done.0 ≡ password_updated) × (login crypto 70 password done.1 ≡ logged_in 77)
login-reset_password_example =
    login-reset_password crypto 1000 2000 1 0 70 token password accounts refl refl (omega arith)
      (omega arith) refl

abbrev older : List ℕ
older = 1 ∷ 1 ∷ 1 ∷ 1 ∷ []

abbrev admin_tokens : List (List ℕ)
admin_tokens = token ∷ older ∷ []

require_admin_token_iff_example :
    (require_admin_token admin_tokens older ≡ admitted) ↔ Among older admin_tokens
require_admin_token_iff_example = require_admin_token_iff admin_tokens older

-- A stand-in for `jwt.verify`: a token is good for a secret of its length.
abbrev verify : List ℕ → List ℕ → Option (ℕ × ℕ)
verify t secret = elim (length t == length secret) [ true ↦ some (7, 70) | false ↦ none ]
