-- ===== src/Api/Dashboard.antt =====
-- GET /providers/me/dashboard of backend/src/api/server.js, and the cache of heartbeats that it reads.
-- The columns `created_at` of entries and `updated_at` of reservations are functions of the row.
pub mod Credits
use nodeva.Prelude.{
  ℕ, ◌+◌, ◌-◌, ◌==◌, ◌&&◌, Bool, true, false, not, ltb, leb, opt_eq, Option, none, some, List, [],
  ◌∷◌, ◌++◌, map, any, first, where_rows, if◌then◌else◌,
}
use nodeva.Prelude.Int.{ℤ, pos, ◌+ℤ◌}
use nodeva.Prelude.Sorting.{sort_by}
use nodeva.Reservations.Machine.{disputed, ◌=ₛ◌}
use nodeva.Jobs.Verification.{Fraction}
use nodeva.Payments.Refunds.{take}
use nodeva.Ledger.{Ledger, Account, Entry, provider_balance, kind_code}
use nodeva.Store.{Store, Node, Provider, Job, Reservation, Resolution, find_node}
use nodeva.Api.Nodes.{provider_of, is_draining}
use nodeva.Api.Providers.{Reported, Declared, Mismatch, check_hardware_mismatch}

-- The entry that `onHeartbeat` puts into the cache.
pub record Heartbeat : Type 0 where
  pub reported : Reported
  pub received_at : ℕ

abbrev pub Heartbeats : Type 0
Heartbeats = ℕ → Option Heartbeat

-- `onHeartbeat`
unfoldable pub on_heartbeat : ℕ → Reported → ℕ → Heartbeats → Heartbeats
on_heartbeat node msg now cache id =
    if id == node then some (record { reported = msg; received_at = now }) else cache id

pub record NodeView : Type 0 where
  pub node : Node
  pub online : Bool
  pub age_ms : Option ℕ
  pub hardware_mismatch : Option (List Mismatch)

abbrev pub reported_of : Option Heartbeat → Option Reported
reported_of none = none
reported_of (some hb) = some hb.reported

abbrev pub age_of : ℕ → Option Heartbeat → Option ℕ
age_of now none = none
age_of now (some hb) = some (now - hb.received_at)

unfoldable pub node_view : (ℕ → Bool) → Heartbeats → ℕ → Node → NodeView
unfolding check_hardware_mismatch
node_view is_online cache now n = record {
  node = n;
  online = is_online n.node_id;
  age_ms = age_of now (cache n.node_id);
  hardware_mismatch =
      check_hardware_mismatch
        (record { cpu_cores = n.cpu_cores; ram_mb = n.ram_mb; gpu_vram_mb = n.gpu_vram_mb })
        (reported_of (cache n.node_id));
}

-- `compute_nodes WHERE provider_id = $1 AND status <> 'draining'`, newest first.
unfoldable pub listed_nodes : ℕ → Store → List Node
listed_nodes provider db =
    where_rows (λ n. (n.provider_id == provider) && not (is_draining n.status)) db.nodes

-- `a.kind = 'provider_balance' AND a.owner_provider_id = $1`
abbrev pub is_balance_of : ℕ → Account → Bool
is_balance_of provider a =
    (kind_code a.kind == kind_code provider_balance) && opt_eq a.owner_provider_id (some provider)

-- `JOIN ledger_accounts a ON a.account_id = e.account_id`; `account_id` is the primary key.
abbrev pub is_credit_of : ℕ → List Account → ℕ → Bool
is_credit_of provider accounts id =
    any (λ a. (a.account_id == id) && is_balance_of provider a) accounts

-- `COALESCE(SUM(e.amount_paise) FILTER (WHERE p), 0)`
unfoldable pub sum_entries : (Entry → Bool) → List Entry → ℤ
sum_entries p [] = pos 0
sum_entries p (e ∷ es) = if p e then e.amount_paise +ℤ sum_entries p es else sum_entries p es

-- One bucket: what has reached the provider's balance since some time, by the times of the entries.
unfoldable pub earned : ℕ → (Entry → Bool) → Ledger → ℤ
unfolding sum_entries
earned provider is_recent l =
    sum_entries (λ e. is_recent e && is_credit_of provider l.accounts e.account_id) l.entries

pub record Earnings : Type 0 where
  pub available_paise : ℤ
  pub today_paise : ℤ
  pub week_paise : ℤ
  pub month_paise : ℤ

abbrev pub day_ms : ℕ
day_ms = 86400000

abbrev pub since : (Entry → ℕ) → ℕ → ℕ → Entry → Bool
since created_at now ms e = leb now (created_at e + ms)

unfoldable pub earnings : ℕ → (Entry → ℕ) → ℕ → Ledger → Earnings
unfolding earned
earnings provider created_at now l = record {
  available_paise = earned provider (λ e. true) l;
  today_paise = earned provider (since created_at now day_ms) l;
  week_paise = earned provider (since created_at now 604800000) l;
  month_paise = earned provider (since created_at now 2592000000) l;
}

-- What became of a dispute, for the provider of one of its reservations.
pub data Standing : Type 0 where
  at_fault vindicated unnamed : Standing

pub record Dispute : Type 0 where
  pub reservation_id : ℕ
  pub node_id : ℕ
  pub disputed_at : ℕ
  pub resolution : Option Standing

unfoldable pub standing : ℕ → Resolution → Standing
standing id d =
    if opt_eq d.at_fault_reservation_id (some id)
    then at_fault
    else if opt_eq d.vindicated_reservation_id (some id)
    then vindicated
    else unnamed

-- `LEFT JOIN dispute_resolutions dr ON dr.verification_group_id = j.verification_group_id`, in which
-- a group has one resolution at most.
abbrev pub resolution_of : Job → Store → Option Resolution
resolution_of j db =
    first (λ d. opt_eq (some d.verification_group_id) j.verification_group_id)
      db.dispute_resolutions

-- `reservations r JOIN jobs j ON j.reservation_id = r.reservation_id WHERE r.status = 'disputed'`
pub record DisputedJob : Type 0 where
  pub reservation : Reservation
  pub job : Job

abbrev pub with_jobs : Reservation → List Job → List DisputedJob
with_jobs r [] = []
with_jobs r (j ∷ js) =
    if j.reservation_id == r.reservation_id
    then record { reservation = r; job = j } ∷ with_jobs r js
    else with_jobs r js

unfoldable pub disputed_jobs : List Reservation → List Job → List DisputedJob
disputed_jobs [] jobs = []
disputed_jobs (r ∷ rs) jobs =
    let rest = disputed_jobs rs jobs in
    if r.status =ₛ disputed then with_jobs r jobs ++ rest else rest

-- `JOIN compute_nodes cn ... WHERE cn.provider_id = $1`
abbrev pub on_node_of : ℕ → Store → DisputedJob → Bool
on_node_of provider db d =
    any (λ n. (n.node_id == d.reservation.node_id) && (n.provider_id == provider)) db.nodes

abbrev pub standing_of : ℕ → Option Resolution → Option Standing
standing_of id none = none
standing_of id (some r) = some (standing id r)

unfoldable pub provider_disputes : ℕ → (Reservation → ℕ) → Store → List Dispute
unfolding disputed_jobs standing
provider_disputes provider updated_at db =
    map
      (λ d. record {
        reservation_id = d.reservation.reservation_id;
        node_id = d.reservation.node_id;
        disputed_at = updated_at d.reservation;
        resolution = standing_of d.reservation.reservation_id (resolution_of d.job db);
      })
      (take 20 (
        sort_by (λ a b. leb (updated_at b.reservation) (updated_at a.reservation))
          (where_rows (on_node_of provider db) (disputed_jobs db.reservations db.jobs))))

-- A provider never has more failed jobs than jobs.
abbrev pub reliability : Provider → Option Fraction
reliability p =
    if ltb 0 p.rep_jobs_total
    then some (record { num = p.rep_jobs_total - p.rep_jobs_failed; den = p.rep_jobs_total })
    else none

pub record DashboardView : Type 0 where
  pub provider_id : ℕ
  pub jobs_total : ℕ
  pub jobs_failed : ℕ
  pub reliability : Option Fraction
  pub earnings : Earnings
  pub nodes : List NodeView
  pub disputes : List Dispute

-- GET /providers/me/dashboard; a user without a provider account gets 404.
unfoldable pub dashboard :
    ℕ → (ℕ → Bool) → Heartbeats → ℕ → (Entry → ℕ) → (Reservation → ℕ) → Store → Option DashboardView
unfolding node_view listed_nodes earnings provider_disputes
dashboard user is_online cache now created_at updated_at db = elim (provider_of user db) [
  | none ↦ none
  | some p ↦ some (record {
    provider_id = p.provider_id;
    jobs_total = p.rep_jobs_total;
    jobs_failed = p.rep_jobs_failed;
    reliability = reliability p;
    earnings = earnings p.provider_id created_at now db.ledger;
    nodes = map (node_view is_online cache now) (listed_nodes p.provider_id db);
    disputes = provider_disputes p.provider_id updated_at db;
  })
]
