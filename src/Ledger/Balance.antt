-- ===== src/Ledger/Balance.antt =====
-- What the ledger keeps: transactions that sum to zero, under fresh ids, each posted once.
use nodeva.Prelude.{
  Bool-cases, ◌∙◌, ℕ_discrete, eqb_refl, ℕ, suc, ◌≤◌, ◌<◌, ◌≡◌, ◌≢◌, refl, arith, ◌⊎◌, inl, inr,
  false, List, [], ◌∷◌, Option, if◌then◌else◌,
}
use nodeva.Prelude.Int.{ℤ, pos, ◌+ℤ◌, is_zero, int_laws}
use nodeva.Ledger.{
  ensure_accounts, key_used, Ledger, Entry, ok, err, unique_violation, check_violation, TxnKind,
  AccountKind, account_id, insert_entries, txn_sum, post,
}

-- The sum of the amounts that are to be posted.
abbrev pub total : List (ℕ × ℤ) → ℤ
total [] = pos 0
total ((a, x) ∷ es) = x +ℤ total es

-- Every amount may be stored.
abbrev pub NonZero : List (ℕ × ℤ) → Type 0
NonZero [] = Unit
NonZero ((a, x) ∷ es) = (is_zero x ≡ false) × NonZero es

-- The rows that a posting adds, newest first, above those that were there.
abbrev pub posted : ℕ → List (ℕ × ℤ) → List Entry → List Entry
posted txn [] old = old
posted txn ((a, x) ∷ es) old =
    posted txn es (record { txn_id = txn; account_id = a; amount_paise = x } ∷ old)

-- No entry belongs to a transaction that is still to come, and every transaction sums to zero.
abbrev pub Older : ℕ → List Entry → Type 0
Older n [] = Unit
Older n (e ∷ es) = (e.txn_id < n) × Older n es

pub record IsBalanced (l : Ledger) : Type 0 where
  pub fresh : Older l.next_id l.entries
  pub zero_sums : (txn : ℕ) → txn_sum txn l.entries ≡ pos 0

Older-mono : (m n : ℕ) (es : List Entry) → m ≤ n → Older m es → Older n es
Older-mono m n [] h o = tt
Older-mono m n (e ∷ es) h o = (omega arith, Older-mono m n es h o.1)

txn_sum-Older : (txn : ℕ) (es : List Entry) → Older txn es → txn_sum txn es ≡ pos 0
unfolding txn_sum
txn_sum-Older txn [] o = refl
txn_sum-Older txn (e ∷ es) o = ground (arith, txn_sum-Older txn es o.1)

txn_sum-posted :
    (txn : ℕ) (es : List (ℕ × ℤ)) (old : List Entry)
    → txn_sum txn (posted txn es old) ≡ total es +ℤ txn_sum txn old
unfolding txn_sum
txn_sum-posted txn [] old = omega int_laws
txn_sum-posted txn ((a, x) ∷ es) old =
    rw (txn_sum-posted txn es (record { txn_id = txn; account_id = a; amount_paise = x } ∷ old))
      (rw (eqb_refl txn) (omega int_laws))

txn_sum-posted_other :
    (txn other : ℕ) (es : List (ℕ × ℤ)) (old : List Entry)
    → other ≢ txn
    → txn_sum other (posted txn es old) ≡ txn_sum other old
unfolding txn_sum
txn_sum-posted_other txn other [] old h = refl
txn_sum-posted_other txn other ((a, x) ∷ es) old h = ground (
  arith,
  txn_sum-posted_other txn other es
      (record { txn_id = txn; account_id = a; amount_paise = x } ∷ old) h,
)

Older-posted :
    (n txn : ℕ) (es : List (ℕ × ℤ)) (old : List Entry)
    → txn < n
    → Older n old
    → Older n (posted txn es old)
Older-posted n txn [] old h o = o
Older-posted n txn ((a, x) ∷ es) old h o = Older-posted n txn es _ h (h, o)

insert_entries_lem :
    (txn : ℕ) (es : List (ℕ × ℤ)) (l : Ledger)
    → NonZero es
    → insert_entries txn es l ≡ ok (record l { entries = posted txn es l.entries })
unfolding insert_entries
insert_entries_lem txn [] l h = refl
insert_entries_lem txn ((a, x) ∷ es) l h = rw h.0 (insert_entries_lem txn es _ h.1)

-- The ledger after a posting.
abbrev pub posting : TxnKind → ℕ → List (ℕ × ℤ) → Ledger → Ledger
posting kind reservation es l = record l {
  transactions =
      record { txn_id = l.next_id; kind = kind; reservation_id = reservation } ∷ l.transactions;
  entries = posted l.next_id es l.entries;
  next_id = suc l.next_id;
}

txn_sum-posting :
    (es : List (ℕ × ℤ)) (l : Ledger)
    → IsBalanced l
    → total es ≡ pos 0
    → txn_sum l.next_id (posted l.next_id es l.entries) ≡ pos 0
txn_sum-posting es l b t =
    rw (txn_sum-posted l.next_id es l.entries, t, txn_sum-Older l.next_id l.entries b.fresh)
      (omega int_laws)

-- On a balanced ledger a posting whose amounts are non-zero and sum to zero is never refused by the
-- check at COMMIT: it fails exactly when its key has been used, and otherwise adds its transaction
-- and its rows under a new id and changes nothing else.
pub post_lem :
    (kind : TxnKind) (reservation : ℕ) (es : List (ℕ × ℤ)) (l : Ledger)
    → IsBalanced l
    → NonZero es
    → total es ≡ pos 0
    → post kind reservation es l ≡ (
        if key_used kind reservation l
        then err unique_violation
        else ok (posting kind reservation es l))
unfolding post
post_lem kind reservation es l b n t = elim (Bool-cases (key_used kind reservation l)) [
  | inl used ↦ rw used
  | inr new ↦ rw (new, insert_entries_lem l.next_id es _ n, txn_sum-posting es l b t)
]

posting-zero_sums :
    (kind : TxnKind) (reservation : ℕ) (es : List (ℕ × ℤ)) (l : Ledger)
    → IsBalanced l
    → total es ≡ pos 0
    → (txn : ℕ) → txn_sum txn (posted l.next_id es l.entries) ≡ pos 0
posting-zero_sums kind reservation es l b t txn = elim (ℕ_discrete txn l.next_id) [
  | yes e ↦ rw e (txn_sum-posting es l b t)
  | no e ↦ txn_sum-posted_other l.next_id txn es l.entries e ∙ b.zero_sums txn
]

-- Such a posting keeps every transaction of the ledger at a sum of zero.
pub posting-IsBalanced :
    (kind : TxnKind) (reservation : ℕ) (es : List (ℕ × ℤ)) (l : Ledger)
    → IsBalanced l
    → total es ≡ pos 0
    → IsBalanced (posting kind reservation es l)
posting-IsBalanced kind reservation es l b t = record {
  fresh =
      Older-posted (suc l.next_id) l.next_id es l.entries (omega arith)
        (Older-mono l.next_id (suc l.next_id) l.entries (omega arith) b.fresh);
  zero_sums = posting-zero_sums kind reservation es l b t;
}

-- What creating accounts leaves alone.
pub record Extends (l l' : Ledger) : Type 0 where
  pub same_entries : l'.entries ≡ l.entries
  pub same_transactions : l'.transactions ≡ l.transactions
  pub next_grows : l.next_id ≤ l'.next_id

pub account_id-Extends :
    (kind : AccountKind) (u p : Option ℕ) (l : Ledger) → Extends l (account_id kind u p l).1
unfolding account_id
account_id-Extends kind u p l = ground arith

pub Extends-trans : {a b c : Ledger} → Extends a b → Extends b c → Extends a c
Extends-trans f g = record {
  same_entries = g.same_entries ∙ f.same_entries;
  same_transactions = g.same_transactions ∙ f.same_transactions;
  next_grows = omega arith;
}

pub ensure_accounts-Extends : (user : ℕ) (l : Ledger) → Extends l (ensure_accounts user l)
unfolding ensure_accounts
ensure_accounts-Extends user l =
    Extends-trans
      (Extends-trans (Extends-trans (account_id-Extends _ _ _ l) (account_id-Extends _ _ _ _))
        (account_id-Extends _ _ _ _))
      (account_id-Extends _ _ _ _)

pub Extends-IsBalanced : (l l' : Ledger) → Extends l l' → IsBalanced l → IsBalanced l'
Extends-IsBalanced l l' x b = record {
  fresh = rw x.same_entries (Older-mono l.next_id l'.next_id l.entries x.next_grows b.fresh);
  zero_sums = λ txn. rw x.same_entries (b.zero_sums txn);
}

pub Extends-key_used :
    (kind : TxnKind) (reservation : ℕ) (l l' : Ledger)
    → Extends l l'
    → key_used kind reservation l' ≡ key_used kind reservation l
Extends-key_used kind reservation l l' x = rw x.same_transactions

insert_entries_cases :
    (txn : ℕ) (es : List (ℕ × ℤ)) (l : Ledger)
    → (insert_entries txn es l ≡ ok (record l { entries = posted txn es l.entries }))
      ⊎ (insert_entries txn es l ≡ err check_violation)
unfolding insert_entries
insert_entries_cases txn [] l = inl refl
insert_entries_cases txn ((a, x) ∷ es) l = ground (
  arith,
  insert_entries_cases txn es (record l {
    entries = record { txn_id = txn; account_id = a; amount_paise = x } ∷ l.entries;
  }),
)

-- What a posting can come to, whether or not its amounts may be stored.
pub post_cases :
    (kind : TxnKind) (reservation : ℕ) (es : List (ℕ × ℤ)) (l : Ledger)
    → IsBalanced l
    → total es ≡ pos 0
    → ((key_used kind reservation l ≡ false)
        × (post kind reservation es l ≡ ok (posting kind reservation es l)))
      ⊎ ((post kind reservation es l ≡ err unique_violation)
          ⊎ (post kind reservation es l ≡ err check_violation))
unfolding post
post_cases kind reservation es l b t = elim (Bool-cases (key_used kind reservation l)) [
  | inl used ↦ inr (inl (rw used))
  | inr new ↦
      elim (insert_entries_cases l.next_id es
        (record (posting kind reservation es l) { entries = l.entries })) [
          | inl stored ↦ inl (new, rw (new, stored, txn_sum-posting es l b t))
          | inr zero_amount ↦ inr (inr (rw (new, zero_amount)))
        ]
]
