-- ===== src/Payments/Refunds.antt =====
-- backend/src/payments/refunds.js: a refund is tried at once, and a failed one is queued and retried
-- with a capped exponential backoff. Failures of the database are not modelled.
pub mod Retries
use nodeva.Prelude.{
  ℕ, zero, suc, ◌+◌, ◌*◌, ◌^◌, min, Bool, true, false, not, ◌==◌, ◌&&◌, ltb, leb, List, [], ◌∷◌,
  ◌++◌, any, where_rows, update_rows, if◌then◌else◌,
}
use nodeva.Store.{
  Store, Env, RefundRetry, RetryStatus, waiting, succeeded, exhausted, refunded, set_payment_status,
}

abbrev pub base_delay_ms : ℕ
base_delay_ms = 60000

abbrev pub max_delay_ms : ℕ
max_delay_ms = 3600000

abbrev pub max_attempts : ℕ
max_attempts = 10

-- `backoffMs`
unfoldable pub backoff_ms : ℕ → ℕ
backoff_ms attempts = min (base_delay_ms * 2 ^ attempts) max_delay_ms

abbrev pub is_waiting : RetryStatus → Bool
is_waiting waiting = true
is_waiting succeeded = false
is_waiting exhausted = false

-- The gateway took the refund: the payment is marked, and the refund is on record.
unfoldable pub mark_refunded : ℕ → ℕ → ℕ → Store → Store
mark_refunded payment_id ref amount db =
    set_payment_status payment_id refunded
      (record db { gateway_refunds = (ref, amount) ∷ db.gateway_refunds })

-- `INSERT INTO refund_retries ... ON CONFLICT (payment_id) DO UPDATE`
unfoldable pub queue_retry : ℕ → RefundRetry → List RefundRetry → List RefundRetry
queue_retry next row rows =
    if any (λ r. r.payment_id == row.payment_id) rows
    then update_rows (λ r. r.payment_id == row.payment_id)
        (λ r. record r { attempts = r.attempts + 1; next_attempt_at = next; status = waiting }) rows
    else rows ++ row ∷ []

pub data RefundResult : Type 0 where
  refund_done refund_queued : RefundResult

-- `issueRefund`
unfoldable pub issue_refund : Env → ℕ → ℕ → ℕ → ℕ → Store → RefundResult × Store
unfolding mark_refunded queue_retry backoff_ms
issue_refund env payment_id reservation_id ref amount db =
    if env.refund_accepted ref amount
    then (refund_done, mark_refunded payment_id ref amount db)
    else (
      refund_queued,
      record db {
        refund_retries =
            queue_retry (env.now + backoff_ms 0)
              (record {
                payment_id = payment_id;
                reservation_id = reservation_id;
                gateway_ref = ref;
                amount_paise = amount;
                attempts = 1;
                next_attempt_at = env.now + backoff_ms 0;
                status = waiting;
              })
              db.refund_retries;
      },
    )

-- What a failed retry writes into its row.
unfoldable pub failed_retry : ℕ → RefundRetry → RefundRetry
unfolding backoff_ms
failed_retry now row =
    if leb max_attempts (row.attempts + 1)
    then record row { attempts = row.attempts + 1; status = exhausted }
    else record row {
      attempts = row.attempts + 1;
      next_attempt_at = now + backoff_ms (row.attempts + 1);
    }

-- The row after a retry, by whether the gateway accepts the refund.
unfoldable pub retried : Env → RefundRetry → RefundRetry
unfolding failed_retry
retried env row =
    if env.refund_accepted row.gateway_ref row.amount_paise
    then record row { status = succeeded }
    else failed_retry env.now row

-- One turn of the loop. `payment_id` is unique in the table, so it names the row as `retry_id` does.
unfoldable pub retry_row : Env → RefundRetry → Store → Store
unfolding retried mark_refunded
retry_row env row db =
    let marked =
      if env.refund_accepted row.gateway_ref row.amount_paise
      then mark_refunded row.payment_id row.gateway_ref row.amount_paise db
      else db in
    record marked {
      refund_retries =
          update_rows (λ r. r.payment_id == row.payment_id) (λ _. retried env row)
            marked.refund_retries;
    }

unfoldable pub retry_rows : Env → List RefundRetry → Store → Store
unfolding retry_row
retry_rows env [] db = db
retry_rows env (row ∷ rows) db = retry_rows env rows (retry_row env row db)

-- `status='pending' AND next_attempt_at <= now()`
abbrev pub due : ℕ → RefundRetry → Bool
due now r = is_waiting r.status && leb r.next_attempt_at now

-- `ORDER BY next_attempt_at`
insert_by_due : RefundRetry → List RefundRetry → List RefundRetry
insert_by_due r [] = r ∷ []
insert_by_due r (s ∷ ss) =
    if leb r.next_attempt_at s.next_attempt_at then r ∷ s ∷ ss else s ∷ insert_by_due r ss

unfoldable pub sort_by_due : List RefundRetry → List RefundRetry
unfolding insert_by_due
sort_by_due [] = []
sort_by_due (r ∷ rs) = insert_by_due r (sort_by_due rs)

-- `LIMIT n`
abbrev pub take {ℓ} : {A : Type ℓ} → ℕ → List A → List A
take zero xs = []
take (suc n) [] = []
take (suc n) (x ∷ xs) = x ∷ take n xs

unfoldable pub due_rows : ℕ → List RefundRetry → List RefundRetry
unfolding sort_by_due
due_rows now rows = take 20 (sort_by_due (where_rows (due now) rows))

-- `processRefundRetries`
unfoldable pub process_refund_retries : Env → Store → Store
unfolding due_rows retry_rows
process_refund_retries env db =
    if not env.is_configured then db else retry_rows env (due_rows env.now db.refund_retries) db
