-- ===== src/Tests/World.antt =====
-- One provider with two nodes, and a user with one reservation.
use nodeva.Prelude.{ℕ, refl, true, false, none, some, List, [], ◌∷◌}
use nodeva.Reservations.Machine.{Status}
use nodeva.Marketplace.Scheduler.{NodeStatus}
use nodeva.Jobs.Verification.{JobStatus}
use nodeva.Ledger.{Ledger, txn_sum}
use nodeva.Ledger.Balance.{IsBalanced}
use nodeva.Store.{Store, Env, Reservation, Node, Job, Payment, razorpay, created}
use nodeva.Store.Lifecycle.{IsSound}

abbrev pub env : Env
env = record { now = 1000; is_configured = true; refund_accepted = λ ref amount. true }

abbrev pub no_books : Ledger
no_books = record { accounts = []; transactions = []; entries = []; next_id = 0 }

abbrev pub node_of : ℕ → Node
node_of id = record {
  node_id = id;
  provider_id = 1;
  public_key = 11;
  gpu_vram_mb = 8192;
  cpu_cores = 8;
  ram_mb = 16384;
  price_paise_hr = 6000;
  status = NodeStatus.online;
}

abbrev pub an_hour : Status → Reservation
an_hour s = record {
  reservation_id = 5;
  node_id = 1;
  user_id = 7;
  starts_at = 0;
  ends_at = 3600000;
  price_paise_hr = 6000;
  quoted_paise = 6000;
  status = s;
  receipt_sig = some 1;
  hold_expires_at = some 5000;
  reconciled = false;
}

abbrev pub an_order : Payment
an_order = record {
  payment_id = 3;
  user_id = 7;
  reservation_id = 5;
  gateway = razorpay;
  gateway_ref = 40;
  amount_paise = 6000;
  status = created;
}

abbrev pub a_job : Job
a_job = record {
  job_id = 8;
  reservation_id = 5;
  image = [];
  command = [];
  status = JobStatus.running;
  exit_code = none;
  compute_seconds = 0;
  stdout = none;
  stderr = none;
  result_hash = none;
  verification_group_id = some 9;
}

abbrev pub store_of : List Reservation → Store
store_of rows = record {
  reservations = rows;
  payments = an_order ∷ [];
  refund_retries = [];
  ledger = no_books;
  nodes = node_of 1 ∷ (node_of 2 ∷ []);
  providers = record { provider_id = 1; user_id = 2; rep_jobs_total = 0; rep_jobs_failed = 0 } ∷ [];
  jobs = a_job ∷ [];
  dispute_resolutions = [];
  gateway_refunds = [];
}

abbrev pub world : Status → Store
world s = store_of (an_hour s ∷ [])

pub no_books-IsBalanced : IsBalanced no_books
unfolding txn_sum
no_books-IsBalanced = record { fresh = tt; zero_sums = λ txn. refl }

pub world-IsSound : (s : Status) → IsSound (world s)
world-IsSound s = record { balanced = no_books-IsBalanced; keyed = (tt, tt) }

abbrev pub offline_node : Node
offline_node = record (node_of 1) { status = NodeStatus.offline }
