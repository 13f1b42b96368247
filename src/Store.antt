-- ===== src/Store.antt =====
-- The tables of backend/migrations/ that the backend reads and writes, as lists of rows, and the
-- errors that PostgreSQL raises. An id (UUID) is a number, and the ledger's generated ids count up.
pub mod Lifecycle
pub mod Paid
pub mod Moves
use nodeva.Prelude.{
  ℕ, suc, Bool, true, false, ◌==◌, ◌&&◌, Option, none, some, List, [], ◌∷◌, ◌++◌, first,
  update_rows, if◌then◌else◌,
}
use nodeva.Prelude.Int.{ℤ}
use nodeva.Reservations.Machine.{Status}
use nodeva.Marketplace.Scheduler.{NodeStatus}
use nodeva.Jobs.Verification.{JobStatus}
use nodeva.Ledger.{Ledger}

-- `reservations`; `reconciled` says that `reconciled_at` is set.
pub record Reservation : Type 0 where
  pub reservation_id : ℕ
  pub node_id : ℕ
  pub user_id : ℕ
  pub starts_at : ℕ
  pub ends_at : ℕ
  pub price_paise_hr : ℕ
  pub quoted_paise : ℕ
  pub status : Status
  pub receipt_sig : Option ℕ
  pub hold_expires_at : Option ℕ
  pub reconciled : Bool

-- `payments.gateway`
pub data GatewayName : Type 0 where
  razorpay no_gateway : GatewayName

pub data PaymentStatus : Type 0 where
  created captured failed refunded : PaymentStatus

pub record Payment : Type 0 where
  pub payment_id : ℕ
  pub user_id : ℕ
  pub reservation_id : ℕ
  pub gateway : GatewayName
  pub gateway_ref : ℕ
  pub amount_paise : ℕ
  pub status : PaymentStatus

pub data RetryStatus : Type 0 where
  waiting succeeded exhausted : RetryStatus

-- `refund_retries`; `waiting` is the status 'pending'.
pub record RefundRetry : Type 0 where
  pub payment_id : ℕ
  pub reservation_id : ℕ
  pub gateway_ref : ℕ
  pub amount_paise : ℕ
  pub attempts : ℕ
  pub next_attempt_at : ℕ
  pub status : RetryStatus

-- `compute_nodes`
pub record Node : Type 0 where
  pub node_id : ℕ
  pub provider_id : ℕ
  pub public_key : ℕ
  pub gpu_vram_mb : ℕ
  pub cpu_cores : ℕ
  pub ram_mb : ℕ
  pub price_paise_hr : ℕ
  pub status : NodeStatus

pub record Provider : Type 0 where
  pub provider_id : ℕ
  pub user_id : ℕ
  pub rep_jobs_total : ℕ
  pub rep_jobs_failed : ℕ

pub record Job : Type 0 where
  pub job_id : ℕ
  pub reservation_id : ℕ
  pub image : List ℕ
  pub command : List (List ℕ)
  pub status : JobStatus
  pub exit_code : Option ℤ
  pub compute_seconds : ℕ
  pub stdout : Option (List ℕ)
  pub stderr : Option (List ℕ)
  pub result_hash : Option ℕ
  pub verification_group_id : Option ℕ

-- `dispute_resolutions`; an 'inconclusive' verdict names no reservation.
pub record Resolution : Type 0 where
  pub verification_group_id : ℕ
  pub tiebreaker_reservation_id : ℕ
  pub tiebreaker_job_id : ℕ
  pub vindicated_reservation_id : Option ℕ
  pub at_fault_reservation_id : Option ℕ

-- The tables, and beside them the refunds that the gateway has accepted, newest first.
pub record Store : Type 0 where
  pub reservations : List Reservation
  pub payments : List Payment
  pub refund_retries : List RefundRetry
  pub ledger : Ledger
  pub nodes : List Node
  pub providers : List Provider
  pub jobs : List Job
  pub dispute_resolutions : List Resolution
  pub gateway_refunds : List (ℕ × ℕ)

-- What the backend reads of its surroundings: the clock, and the payment gateway with the outcome of
-- `gateway.refund(ref, amount)`.
pub record Env : Type 0 where
  pub now : ℕ
  pub is_configured : Bool
  pub refund_accepted : ℕ → ℕ → Bool

-- `SELECT * FROM reservations WHERE reservation_id = $1`
abbrev pub find_reservation : ℕ → Store → Option Reservation
find_reservation id db = first (λ r. r.reservation_id == id) db.reservations

-- `UPDATE reservations SET status = $2 WHERE reservation_id = $1`
abbrev pub set_status : ℕ → Status → List Reservation → List Reservation
set_status id s = update_rows (λ r. r.reservation_id == id) (λ r. record r { status = s })

abbrev pub set_reservation_status : ℕ → Status → Store → Store
set_reservation_status id s db = record db { reservations = set_status id s db.reservations }

-- `UPDATE payments SET status = $2 WHERE payment_id = $1`
abbrev pub set_payment_status : ℕ → PaymentStatus → Store → Store
set_payment_status id s db = record db {
  payments = update_rows (λ p. p.payment_id == id) (λ p. record p { status = s }) db.payments;
}

abbrev pub find_node : ℕ → Store → Option Node
find_node id db = first (λ n. n.node_id == id) db.nodes
