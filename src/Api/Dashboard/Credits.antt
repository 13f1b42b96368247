-- ===== src/Api/Dashboard/Credits.antt =====
-- Which accounts are a provider's balance, as accounts are looked up and created.
pub mod Settled
use mathlib.Core.Path.{subst}
use nodeva.Prelude.{
  suc, eqb→eq, ◌||◌, ℕ, ◌≡◌, ◌<◌, ◌≤◌, ◌==◌, ◌&&◌, refl, sym, ◌∙◌, ap, arith, Bool, true, false,
  Option, none, some, List, [], ◌∷◌, first, any, All, opt_eq, inl, inr, Bool-cases, Option-cases,
  eqb_refl,
}
use nodeva.Ledger.{
  Ledger, Account, Entry, AccountKind, provider_balance, kind_code, is_account, account_id,
}
use nodeva.Ledger.Balance.{Extends, account_id-Extends}
use nodeva.Api.Dashboard.{is_balance_of, is_credit_of}

-- The primary key of the accounts.
abbrev pub Apart : List Account → Type 0
Apart [] = Unit
Apart (a ∷ xs) = All (λ b. (b.account_id == a.account_id) ≡ false) xs × Apart xs

-- Account ids are distinct, below the next id, and so are those of the entries.
pub record HasAccounts (l : Ledger) : Type 0 where
  pub apart : Apart l.accounts
  pub accounts_below : All (λ a. a.account_id < l.next_id) l.accounts
  pub entries_below : All (λ e. e.account_id < l.next_id) l.entries

found_true {ℓ} :
    {A : Type ℓ} (p : A → Bool) (xs : List A) {a : A} → first p xs ≡ some a → p a ≡ true
found_true p [] {a} e = cc
found_true p (x ∷ xs) {a} e = elim (Bool-cases (p x)) [
  | inl t ↦ let same : x ≡ a = ground arith in rw⁻¹ same t
  | inr t ↦ found_true p xs {a = a} (ground arith)
]

found_below :
    (n : ℕ) (p : Account → Bool) (xs : List Account) {a : Account}
    → All (λ b. b.account_id < n) xs
    → first p xs ≡ some a
    → a.account_id < n
found_below n p [] {a} h e = cc
found_below n p (x ∷ xs) {a} h e = elim (Bool-cases (p x)) [
  | inl t ↦ let same : x ≡ a = ground arith in rw⁻¹ same h.0
  | inr t ↦ found_below n p xs {a = a} h.1 (ground arith)
]

none_there :
    (q i : ℕ) (xs : List Account)
    → All (λ b. (b.account_id == i) ≡ false) xs
    → is_credit_of q xs i ≡ false
none_there q i [] h = refl
none_there q i (a ∷ xs) h = rw h.0 (none_there q i xs h.1)

found_apart :
    (i : ℕ) (p : Account → Bool) (xs : List Account) {a : Account}
    → All (λ b. (b.account_id == i) ≡ false) xs
    → first p xs ≡ some a
    → (a.account_id == i) ≡ false
found_apart i p [] {a} h e = cc
found_apart i p (x ∷ xs) {a} h e = elim (Bool-cases (p x)) [
  | inl t ↦ let same : x ≡ a = ground arith in rw⁻¹ same h.0
  | inr t ↦ found_apart i p xs {a = a} h.1 (ground arith)
]

eqb_sym : (a b : ℕ) → (a == b) ≡ (b == a)
eqb_sym a b = ground arith

or_false : (b : Bool) → (b || false) ≡ b
or_false true = refl
or_false false = refl

-- An account that is found decides whose balance its id is.
is_credit_of-found :
    (q : ℕ) (p : Account → Bool) (xs : List Account) {a : Account}
    → Apart xs
    → first p xs ≡ some a
    → is_credit_of q xs a.account_id ≡ is_balance_of q a
is_credit_of-found q p [] {a} d e = cc
is_credit_of-found q p (x ∷ xs) {a} d e = elim (Bool-cases (p x)) [
  | inl t ↦
      let same : x ≡ a = ground arith in
      let rest = none_there q x.account_id xs d.0 in
      subst (λ y. is_credit_of q (x ∷ xs) y.account_id ≡ is_balance_of q y) same
        (rw (eqb_refl x.account_id, rest) (or_false (is_balance_of q x)))
  | inr t ↦
      let later : first p xs ≡ some a = ground arith in
      let other =
        eqb_sym x.account_id a.account_id ∙ found_apart x.account_id p xs {a = a} d.0 later in
      rw other (is_credit_of-found q p xs {a = a} d.1 later)
]

-- Whether an account with this kind and owner is the balance of `q`.
abbrev pub credits : AccountKind → Option ℕ → ℕ → Bool
credits kind owner q = (kind_code kind == kind_code provider_balance) && opt_eq owner (some q)

and_left : (a b : Bool) → (a && b) ≡ true → a ≡ true
and_left true b e = refl
and_left false b e = e

and_right : (a b : Bool) → (a && b) ≡ true → b ≡ true
and_right true b e = e
and_right false b e = cc

opt_eq→eq : (a b : Option ℕ) → opt_eq a b ≡ true → a ≡ b
opt_eq→eq none none e = refl
opt_eq→eq none (some b) e = cc
opt_eq→eq (some a) none e = cc
opt_eq→eq (some a) (some b) e = ground arith

is_account-credits :
    (kind : AccountKind) (u o : Option ℕ) (q : ℕ) (a : Account)
    → is_account kind u o a ≡ true
    → is_balance_of q a ≡ credits kind o q
is_account-credits kind u o q a e =
    let k = eqb→eq (kind_code a.kind) (kind_code kind) (and_left _ _ e) in
    let w = opt_eq→eq a.owner_provider_id o (and_right _ _ (and_right _ _ e)) in rw (k, w) refl

below_apart :
    (n : ℕ) (xs : List Account)
    → All (λ b. b.account_id < n) xs
    → All (λ b. (b.account_id == n) ≡ false) xs
below_apart n [] h = tt
below_apart n (a ∷ xs) h = (ground (arith, h.0), below_apart n xs h.1)

below_mono {ℓ} :
    {A : Type ℓ} (f : A → ℕ) (m n : ℕ) (xs : List A)
    → m ≤ n
    → All (λ b. f b < m) xs
    → All (λ b. f b < n) xs
below_mono f m n [] le h = tt
below_mono f m n (a ∷ xs) le h = (omega (arith, h.0, le), below_mono f m n xs le h.1)

-- What a lookup of an account comes to: an id below the next one, which is a balance exactly if it was
-- looked up as one, while older ids are what they were.
pub record Looked (kind : AccountKind) (o : Option ℕ) (l : Ledger) (out : ℕ × Ledger) : Type 0 where
  pub has_accounts : HasAccounts out.1
  pub id_below : out.0 < out.1.next_id
  pub id_credits : (q : ℕ) → is_credit_of q out.1.accounts out.0 ≡ credits kind o q
  pub older_same :
      (q j : ℕ) → j < l.next_id → is_credit_of q out.1.accounts j ≡ is_credit_of q l.accounts j

old-Looked :
    (kind : AccountKind) (u o : Option ℕ) (l : Ledger) (a : Account)
    → HasAccounts l
    → first (is_account kind u o) l.accounts ≡ some a
    → Looked kind o l (a.account_id, l)
old-Looked kind u o l a h e = record {
  has_accounts = h;
  id_below = found_below l.next_id (is_account kind u o) l.accounts h.accounts_below e;
  id_credits = λ q.
      is_credit_of-found q (is_account kind u o) l.accounts h.apart e
      ∙ is_account-credits kind u o q a (found_true (is_account kind u o) l.accounts e);
  older_same = λ q j p. refl;
}

new-Looked :
    (kind : AccountKind) (u o : Option ℕ) (l : Ledger)
    → HasAccounts l
    → let a : Account = record {
      account_id = l.next_id;
      kind = kind;
      owner_user_id = u;
      owner_provider_id = o;
    } in
      Looked kind o l (l.next_id, record l { accounts = a ∷ l.accounts; next_id = suc l.next_id })
new-Looked kind u o l h =
    let fresh = below_apart l.next_id l.accounts h.accounts_below in
    let le : l.next_id ≤ suc l.next_id = omega arith in
    record {
      has_accounts = record {
        apart = (fresh, h.apart);
        accounts_below =
            (omega arith, below_mono (λ b. b.account_id) _ _ l.accounts le h.accounts_below);
        entries_below = below_mono (λ b. b.account_id) _ _ l.entries le h.entries_below;
      };
      id_below = omega arith;
      id_credits = λ q.
          rw (eqb_refl l.next_id, none_there q l.next_id l.accounts fresh)
            (or_false (credits kind o q));
      older_same = λ q j p. let other : (l.next_id == j) ≡ false = ground arith in rw other refl;
    }

pub account_id-Looked :
    (kind : AccountKind) (u o : Option ℕ) (l : Ledger)
    → HasAccounts l
    → Looked kind o l (account_id kind u o l)
unfolding account_id
account_id-Looked kind u o l h = elim (Option-cases (first (is_account kind u o) l.accounts)) [
  | inr (a, e) ↦
      subst (Looked kind o l)
        (sym
          (let step : account_id kind u o l ≡ (a.account_id, l) = rw (e, account_id) refl in step))
        (old-Looked kind u o l a h e)
  | inl n ↦
      let step : account_id kind u o l ≡ (
        l.next_id,
        record l {
          accounts =
              record {
                account_id = l.next_id;
                kind = kind;
                owner_user_id = u;
                owner_provider_id = o;
              }
              ∷ l.accounts;
          next_id = suc l.next_id;
        },
      ) =
        rw (n, account_id) refl in
      subst (Looked kind o l) (sym step) (new-Looked kind u o l h)
]
