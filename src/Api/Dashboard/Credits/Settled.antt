-- ===== src/Api/Dashboard/Credits/Settled.antt =====
-- What a settlement adds to the balances that providers see.
use nodeva.Reservations.Machine.{Status, Rule, settlement, can_transition}
use nodeva.Api.Settlement.Outcome.{settle_reservation_pays}
use nodeva.Prelude.{
  ◌++◌, ℕ, ◌≡◌, ◌≢◌, ◌<◌, ◌-◌, ◌==◌, ◌&&◌, ltb, refl, ◌∙◌, ap, arith, Bool, true, false, none, some,
  List, [], ◌∷◌, All, if◌then◌else◌, inl, inr, Bool-cases,
}
use nodeva.Prelude.Int.{ℤ, pos, ◌+ℤ◌, int_laws}
use nodeva.Payments.Settle.{split_total, platform_fee_bps}
use nodeva.Ledger.{
  settle, key_used, Ledger, Entry, user_escrow, provider_balance, platform_revenue, refunds,
  account_id,
}
use nodeva.Ledger.Balance.{IsBalanced, posted, account_id-Extends}
use nodeva.Store.{Env, find_reservation, find_node, Store, Reservation, Node}
use nodeva.Api.Settlement.{
  charge_for, settle_reservation, SettleAccounts, settle_accounts, settle_entries,
}
use nodeva.Api.Settlement.Effects.{
  settle_accounts-Extends, pay_out_frame, settled_store, settled_ledger,
}
use nodeva.Api.Dashboard.{is_credit_of, sum_entries, earned}
use nodeva.Api.Dashboard.Credits.{HasAccounts, account_id-Looked}

-- Of the four accounts of a settlement only the provider's is a balance.
record Credited (provider : ℕ) (l : Ledger) (out : SettleAccounts × Ledger) : Type 0 where
  escrow_no : (q : ℕ) → is_credit_of q out.1.accounts out.0.escrow ≡ false
  provider_is : (q : ℕ) → is_credit_of q out.1.accounts out.0.provider ≡ (provider == q)
  platform_no : (q : ℕ) → is_credit_of q out.1.accounts out.0.platform ≡ false
  refunds_no : (q : ℕ) → is_credit_of q out.1.accounts out.0.refunds ≡ false
  older : (q j : ℕ) → j < l.next_id → is_credit_of q out.1.accounts j ≡ is_credit_of q l.accounts j

settle_accounts-Credited :
    (user provider : ℕ) (l : Ledger)
    → HasAccounts l
    → Credited provider l (settle_accounts user provider l)
unfolding settle_accounts
settle_accounts-Credited user provider l h =
    let s1 = account_id-Looked user_escrow (some user) none l h in
    let l1 = (account_id user_escrow (some user) none l).1 in
    let s2 = account_id-Looked provider_balance none (some provider) l1 s1.has_accounts in
    let l2 = (account_id provider_balance none (some provider) l1).1 in
    let s3 = account_id-Looked platform_revenue none none l2 s2.has_accounts in
    let l3 = (account_id platform_revenue none none l2).1 in
    let s4 = account_id-Looked refunds none none l3 s3.has_accounts in
    let x1 = (account_id-Extends user_escrow (some user) none l).next_grows in
    let x2 = (account_id-Extends provider_balance none (some provider) l1).next_grows in
    let x3 = (account_id-Extends platform_revenue none none l2).next_grows in
    let b1 = s1.id_below in
    let b2 = s2.id_below in
    record {
      escrow_no = λ q.
          s4.older_same q _ (omega (arith, b1, x2, x3))
          ∙ s3.older_same q _ (omega (arith, b1, x2))
          ∙ s2.older_same q _ b1
          ∙ s1.id_credits q;
      provider_is =
          λ q. s4.older_same q _ (omega (arith, b2, x3)) ∙ s3.older_same q _ b2 ∙ s2.id_credits q;
      platform_no = λ q. s4.older_same q _ s3.id_below ∙ s3.id_credits q;
      refunds_no = λ q. s4.id_credits q;
      older = λ q j p.
          s4.older_same q j (omega (arith, p, x1, x2, x3))
          ∙ s3.older_same q j (omega (arith, p, x1, x2))
          ∙ s2.older_same q j (omega (arith, p, x1))
          ∙ s1.older_same q j p;
    }

-- What of some amounts to be posted goes to accounts with a property.
abbrev credited : (ℕ → Bool) → List (ℕ × ℤ) → ℤ
credited c [] = pos 0
credited c ((a, x) ∷ es) = if c a then x +ℤ credited c es else credited c es

sum_entries-posted :
    (c : ℕ → Bool) (txn : ℕ) (es : List (ℕ × ℤ)) (old : List Entry)
    → sum_entries (λ e. true && c e.account_id) (posted txn es old)
      ≡ credited c es +ℤ sum_entries (λ e. true && c e.account_id) old
unfolding sum_entries
sum_entries-posted c txn [] old = omega int_laws
sum_entries-posted c txn ((a, x) ∷ es) old =
    let rest =
      sum_entries-posted c txn es
        (record { txn_id = txn; account_id = a; amount_paise = x } ∷ old) in
    elim (Bool-cases (c a)) [
      | inl t ↦ rw rest (rw t (omega int_laws))
      | inr f ↦ rw rest (rw f refl)
    ]

sum_entries-same :
    (c c' : ℕ → Bool) (n : ℕ) (es : List Entry)
    → ((j : ℕ) → j < n → c j ≡ c' j)
    → All (λ e. e.account_id < n) es
    → sum_entries (λ e. true && c e.account_id) es ≡ sum_entries (λ e. true && c' e.account_id) es
unfolding sum_entries
sum_entries-same c c' n [] same h = refl
sum_entries-same c c' n (e ∷ es) same h =
    rw (same e.account_id h.0, sum_entries-same c c' n es same h.1) refl

credited-parts :
    (c : ℕ → Bool) (p f r x : ℕ) (y z : ℤ) (charged refunded : Bool)
    → c f ≡ false
    → c r ≡ false
    → credited c (
        (if charged then (p, pos x) ∷ (f, y) ∷ [] else [])
        ++ (if refunded then (r, z) ∷ [] else []))
      ≡ (if c p then (if charged then pos x else pos 0) else pos 0)
credited-parts c p f r x y z true true cf cr = elim (Bool-cases (c p)) [
  | inl t ↦ rw (t, cf, cr) (omega int_laws)
  | inr n ↦ rw (n, cf, cr) refl
]
credited-parts c p f r x y z true false cf cr = elim (Bool-cases (c p)) [
  | inl t ↦ rw (t, cf) (omega int_laws)
  | inr n ↦ rw (n, cf) refl
]
credited-parts c p f r x y z false true cf cr = elim (Bool-cases (c p)) [
  | inl t ↦ rw (t, cr) refl
  | inr n ↦ rw (n, cr) refl
]
credited-parts c p f r x y z false false cf cr = elim (Bool-cases (c p)) [
  | inl t ↦ rw t refl
  | inr n ↦ rw n refl
]

no_charge :
    (charge : ℕ)
    → (if ltb 0 charge then pos (split_total charge platform_fee_bps).provider else pos 0)
      ≡ pos (split_total charge platform_fee_bps).provider
unfolding split_total
no_charge charge = ground arith

-- The part of a settlement's entries that credits an account which may be the provider's only.
credited-settle_entries :
    (c : ℕ → Bool) (a : SettleAccounts) (quoted charge : ℕ)
    → c a.escrow ≡ false
    → c a.platform ≡ false
    → c a.refunds ≡ false
    → credited c (settle_entries a quoted charge)
      ≡ (if c a.provider then pos (split_total charge platform_fee_bps).provider else pos 0)
unfolding settle_entries
credited-settle_entries c a quoted charge e f r =
    let parts =
      credited-parts c a.provider a.platform a.refunds
        (split_total charge platform_fee_bps).provider
        (pos (split_total charge platform_fee_bps).platform) (pos (quoted - charge)) (ltb 0 charge)
        (ltb 0 (quoted - charge)) f r in
    rw e (parts ∙ ap (λ t. if c a.provider then t else pos 0) (no_charge charge))

-- On a ledger with proper accounts, the posting of a settlement raises the balance that the provider of
-- the node sees by its part of the charge, and no other provider's.
pub earned-settled_ledger :
    (resv : Reservation) (node : Node) (charge : ℕ) (db : Store) (q : ℕ)
    → HasAccounts db.ledger
    → earned q (λ e. true) (settled_ledger resv node charge db)
      ≡ (if node.provider_id == q
          then pos (split_total charge platform_fee_bps).provider
          else pos 0)
        +ℤ earned q (λ e. true) db.ledger
unfolding earned
earned-settled_ledger resv node charge db q h =
    let (a, l) = settle_accounts resv.user_id node.provider_id db.ledger in
    let k = settle_accounts-Credited resv.user_id node.provider_id db.ledger h in
    let c : ℕ → Bool = is_credit_of q l.accounts in
    let before =
      sum_entries-posted c l.next_id (settle_entries a resv.quoted_paise charge) l.entries in
    let part =
      credited-settle_entries c a resv.quoted_paise charge (k.escrow_no q) (k.platform_no q)
        (k.refunds_no q) in
    let share = pos (split_total charge platform_fee_bps).provider in
    let old =
      ap (sum_entries (λ e. true && c e.account_id))
        (settle_accounts-Extends resv.user_id node.provider_id db.ledger).same_entries
      ∙ sum_entries-same c (is_credit_of q db.ledger.accounts) db.ledger.next_id db.ledger.entries
          (k.older q) h.entries_below in
    before
    ∙ ap (λ t. t +ℤ sum_entries (λ e. true && c e.account_id) l.entries)
        (part ∙ ap (λ b. if b then share else pos 0) (k.provider_is q))
    ∙ ap (λ t. (if node.provider_id == q then share else pos 0) +ℤ t) old

-- What the dashboard shows as available grows with each settlement that does not fail: for an unsettled
-- reservation with a positive quote on a known node, an outcome that has a rule and is an edge away, and
-- a charge other than one paisa, the provider of the node sees its part of the charge more, and every
-- other provider what it saw.
pub earned-settle_reservation :
    (env : Env) (id : ℕ) (outcome : Status) (seconds : ℕ) (db : Store) (q : ℕ) {resv : Reservation}
    {rule : Rule} {node : Node}
    → find_reservation id db ≡ some resv
    → settlement outcome ≡ some rule
    → can_transition resv.status outcome ≡ true
    → find_node resv.node_id db ≡ some node
    → key_used settle resv.reservation_id db.ledger ≡ false
    → 0 < resv.quoted_paise
    → IsBalanced db.ledger
    → HasAccounts db.ledger
    → charge_for rule resv seconds ≢ 1
    → earned q (λ e. true) (settle_reservation env id outcome seconds db).1.ledger
      ≡ (if node.provider_id == q
          then pos (split_total (charge_for rule resv seconds) platform_fee_bps).provider
          else pos 0)
        +ℤ earned q (λ e. true) db.ledger
earned-settle_reservation env id outcome seconds db q {resv} {rule} {node} f r t n k p b h c =
    let charge = charge_for rule resv seconds in
    let paid = (settle_reservation_pays env id outcome seconds db f r t n k p b c).0 in
    let frame =
      pay_out_frame env resv (resv.quoted_paise - charge)
        (settled_store resv node outcome charge db) in
    ap (λ o. earned q (λ e. true) o.1.ledger) paid
    ∙ ap (earned q (λ e. true)) frame.0
    ∙ earned-settled_ledger resv node charge db q h
