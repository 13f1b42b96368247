-- ===== src/Payments/Refunds/Retries.antt =====
-- What the refund queue promises: bounded delays, bounded attempts, and no refund lost.
use nodeva.Prelude.{
  none, some, first, ap, length, false, ℕ, zero, suc, ◌+◌, ◌^◌, ◌≤◌, ◌<◌, ◌≡◌, ◌⊎◌, inl, inr, refl,
  arith, Bool, true, ◌==◌, List, [], ◌∷◌, ◌++◌, any, update_rows, if◌then◌else◌, Bool-cases,
}
use native.Mathlib.Nat.{pow-suc}
use nodeva.Store.{Store, Env, RefundRetry, waiting, succeeded, exhausted}
use nodeva.Payments.Refunds.{
  queue_retry, backoff_ms, base_delay_ms, max_delay_ms, max_attempts, is_waiting, issue_refund,
  refund_done, refund_queued, failed_retry, retried,
}

pow_pos : (n : ℕ) → 1 ≤ 2 ^ n
pow_pos zero = omega arith
pow_pos (suc n) = simp pow-suc (omega (arith, pow_pos n))

pow_mono : (m n : ℕ) → m ≤ n → 2 ^ m ≤ 2 ^ n
pow_mono zero n h = pow_pos n
pow_mono (suc m) zero h = absurd (omega arith)
pow_mono (suc m) (suc n) h = simp pow-suc (omega (arith, pow_mono m n (omega arith)))

-- The delay before a retry is between a minute and an hour and never falls as the attempts grow.
pub backoff_ms_bounds :
    (m n : ℕ)
    → m ≤ n
    → (base_delay_ms ≤ backoff_ms m) × (backoff_ms m ≤ backoff_ms n) × (backoff_ms n ≤ max_delay_ms)
unfolding backoff_ms
backoff_ms_bounds m n h = omega (arith, pow_pos m, pow_mono m n h)

abbrev pub is_of : ℕ → RefundRetry → Bool
is_of payment r = r.payment_id == payment

-- The queue after a refund of `row` has failed: it waits as a new row, or the row that its payment has
-- already waits again, for the amount that it had, with one attempt more.
abbrev pub Requeued : RefundRetry → (rows rows' : List RefundRetry) → Type 0
Requeued row rows rows' =
    ((first (is_of row.payment_id) rows ≡ none) × (rows' ≡ rows ++ row ∷ []))
    ⊎ ((old : RefundRetry) × (first (is_of row.payment_id) rows ≡ some old)
        × (first (is_of row.payment_id) rows'
            ≡ some (record old {
              attempts = old.attempts + 1;
              next_attempt_at = row.next_attempt_at;
              status = waiting;
            }))
        × (length rows' ≡ length rows))

again : ℕ → RefundRetry → RefundRetry
again next r = record r { attempts = r.attempts + 1; next_attempt_at = next; status = waiting }

queue_retry-new :
    (payment : ℕ) (rows : List RefundRetry)
    → any (is_of payment) rows ≡ false
    → first (is_of payment) rows ≡ none
queue_retry-new payment [] h = refl
queue_retry-new payment (r ∷ rows) h = ground (arith, queue_retry-new payment rows)

length-update_rows {ℓ} :
    {A : Type ℓ} (p : A → Bool) (g : A → A) (xs : List A) → length (update_rows p g xs) ≡ length xs
length-update_rows p g [] = refl
length-update_rows p g (x ∷ xs) = ground (arith, length-update_rows p g xs)

queue_retry-old :
    (next payment : ℕ) (rows : List RefundRetry)
    → any (is_of payment) rows ≡ true
    → (old : RefundRetry) × (first (is_of payment) rows ≡ some old)
      × (first (is_of payment) (update_rows (is_of payment) (again next) rows)
          ≡ some (again next old))
      × (length (update_rows (is_of payment) (again next) rows) ≡ length rows)
unfolding again
queue_retry-old next payment [] h = cc
queue_retry-old next payment (r ∷ rows) h = elim (Bool-cases (is_of payment r)) [
  | inl mine ↦
      rw (mine, mine, again)
        (r, refl, refl, ap suc (length-update_rows (is_of payment) (again next) rows))
  | inr other ↦
      let (old, f, g, l) = queue_retry-old next payment rows (rw other at h) in
      rw (other, other) (old, f, g, ap suc l)
]

queue_retry-Requeued :
    (row : RefundRetry) (rows : List RefundRetry)
    → Requeued row rows (queue_retry row.next_attempt_at row rows)
unfolding queue_retry again
queue_retry-Requeued row rows = elim (Bool-cases (any (is_of row.payment_id) rows)) [
  | inl there ↦
      rw (queue_retry, there) (inr (queue_retry-old row.next_attempt_at row.payment_id rows there))
  | inr missing ↦
      rw (queue_retry, missing) (inl (queue_retry-new row.payment_id rows missing, refl))
]

-- The row of a refund of `amount` that has been tried once, and is tried again in a minute.
abbrev pub first_try : ℕ → (payment reservation ref amount : ℕ) → RefundRetry
first_try now payment reservation ref amount = record {
  payment_id = payment;
  reservation_id = reservation;
  gateway_ref = ref;
  amount_paise = amount;
  attempts = 1;
  next_attempt_at = now + 60000;
  status = waiting;
}

-- After an attempt at a refund the gateway has accepted it, and nothing more is queued, or it has not:
-- then the refund waits, to be tried again in a minute, in a row with its payment, its reference and its
-- amount, unless the payment has a row already. That one waits again, with one attempt more and the
-- reference and the amount that it had.
pub issue_refund_never_lost :
    (env : Env) (payment reservation ref amount : ℕ) (db : Store)
    → let (r, db') = issue_refund env payment reservation ref amount db in
      ((r ≡ refund_done)
        × (db'.gateway_refunds ≡ (ref, amount) ∷ db.gateway_refunds)
        × (db'.refund_retries ≡ db.refund_retries))
      ⊎ ((r ≡ refund_queued)
          × (db'.gateway_refunds ≡ db.gateway_refunds)
          × Requeued
              (first_try env.now payment reservation ref amount)
              db.refund_retries
              db'.refund_retries)
unfolding issue_refund backoff_ms
issue_refund_never_lost env payment reservation ref amount db =
    elim (Bool-cases (env.refund_accepted ref amount)) [
      | inl yes' ↦ rw (issue_refund, yes') (inl (refl, refl, refl))
      | inr no' ↦
          rw (issue_refund, no')
            (inr (
              refl,
              refl,
              queue_retry-Requeued (first_try env.now payment reservation ref amount)
                  db.refund_retries,
            ))
    ]

-- Rows that still wait have been tried fewer than ten times.
abbrev pub Capped : RefundRetry → Type 0
Capped r = is_waiting r.status ≡ true → r.attempts < max_attempts

-- A retry of a waiting row leaves a row that has succeeded, one that is exhausted after its tenth
-- attempt at the latest, or one that waits with one attempt more and fewer than ten in all.
pub retried_cases :
    (env : Env) (row : RefundRetry)
    → is_waiting row.status ≡ true
    → row.attempts < max_attempts
    → let row' = retried env row in
      ((row'.status ≡ succeeded) × (env.refund_accepted row.gateway_ref row.amount_paise ≡ true))
      ⊎ (((row'.status ≡ exhausted) × (row'.attempts ≡ max_attempts))
          ⊎ ((is_waiting row'.status ≡ true)
              × (row'.attempts ≡ row.attempts + 1)
              × (row'.attempts < max_attempts)
              × (env.now + base_delay_ms ≤ row'.next_attempt_at)
              × (row'.next_attempt_at ≤ env.now + max_delay_ms)))
unfolding retried failed_retry
retried_cases env row w h =
    let d = backoff_ms_bounds (row.attempts + 1) (row.attempts + 1) (omega arith) in
    ground (arith, d)

-- The row after a number of sweeps that each find it due, by the answers of the gateway.
abbrev pub after_retries : List Env → RefundRetry → RefundRetry
after_retries [] row = row
after_retries (env ∷ envs) row =
    if is_waiting row.status then after_retries envs (retried env row) else row

after_retries_decided :
    (envs : List Env) (row : RefundRetry)
    → is_waiting row.status ≡ false
    → is_waiting (after_retries envs row).status ≡ false
after_retries_decided [] row d = d
after_retries_decided (env ∷ envs) row d = rw d d

-- A row that waits with fewer than ten attempts is decided, for or against, once it has been retried
-- as often as is missing from ten, however the gateway answers.
pub is_waiting-after_retries :
    (envs : List Env) (row : RefundRetry)
    → row.attempts < max_attempts
    → max_attempts ≤ length envs + row.attempts
    → is_waiting (after_retries envs row).status ≡ false
is_waiting-after_retries [] row h l = absurd (omega arith)
is_waiting-after_retries (env ∷ envs) row h l = elim (Bool-cases (is_waiting row.status)) [
  | inl w ↦ rw w (elim (retried_cases env row w h) [
    | inl s ↦ after_retries_decided envs (retried env row) (rw s.0 refl)
    | inr (inl x) ↦ after_retries_decided envs (retried env row) (rw x.0 refl)
    | inr (inr more) ↦
        is_waiting-after_retries envs (retried env row) more.2 (rw more.1 (omega arith))
  ])
  | inr d ↦ rw d d
]
