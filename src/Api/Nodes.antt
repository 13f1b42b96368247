-- ===== src/Api/Nodes.antt =====
-- POST /nodes and POST /nodes/:id/retire of backend/src/api/server.js. The public key is a number with
-- the length that its text decodes to; the GPU's model and the CUDA version only pass through.
pub mod Owners
use nodeva.Prelude.{
  ℕ, Bool, true, false, not, ◌==◌, ◌&&◌, ◌||◌, Option, none, some, List, ◌∷◌, any, first,
  update_rows, if◌then◌else◌,
}
use nodeva.Reservations.Machine.{pending, held, confirmed, running, Status}
use nodeva.Marketplace.Scheduler.{NodeStatus, enrolling, draining, online, offline}
use nodeva.Store.{Store, Node, Provider, Reservation, find_node}

pub record Listing : Type 0 where
  pub public_key : ℕ
  pub key_length : ℕ
  pub gpu_vram_mb : ℕ
  pub cpu_cores : ℕ
  pub ram_mb : ℕ
  pub price_paise_hr : ℕ

pub data EnrollReply : Type 0 where
  not_a_provider bad_key not_positive key_taken still_listed : EnrollReply
  reactivated enrolled : ℕ → EnrollReply

abbrev pub provider_of : ℕ → Store → Option Provider
provider_of user db = first (λ p. p.user_id == user) db.providers

abbrev pub holder_of : ℕ → Store → Option Node
holder_of key db = first (λ n. n.public_key == key) db.nodes

abbrev pub is_draining : NodeStatus → Bool
is_draining draining = true
is_draining enrolling = false
is_draining online = false
is_draining offline = false

-- One of the fields that must be positive is zero.
abbrev pub has_zero : Listing → Bool
has_zero l =
    (l.gpu_vram_mb == 0) || ((l.cpu_cores == 0) || ((l.ram_mb == 0) || (l.price_paise_hr == 0)))

-- `UPDATE compute_nodes SET ... status = 'enrolling' WHERE node_id = $1`
abbrev pub relist : ℕ → Listing → Store → Store
relist id l db = record db {
  nodes =
      update_rows (λ n. n.node_id == id)
        (λ n. record n {
          gpu_vram_mb = l.gpu_vram_mb;
          cpu_cores = l.cpu_cores;
          ram_mb = l.ram_mb;
          price_paise_hr = l.price_paise_hr;
          status = enrolling;
        })
        db.nodes;
}

-- `INSERT INTO compute_nodes`
abbrev pub add_node : ℕ → ℕ → Listing → Store → Store
add_node id provider l db = record db {
  nodes =
      record {
        node_id = id;
        provider_id = provider;
        public_key = l.public_key;
        gpu_vram_mb = l.gpu_vram_mb;
        cpu_cores = l.cpu_cores;
        ram_mb = l.ram_mb;
        price_paise_hr = l.price_paise_hr;
        status = enrolling;
      }
      ∷ db.nodes;
}

-- The end of POST /nodes, by the node that holds the key already.
unfoldable pub enroll_key : ℕ → Provider → Listing → Store → Option Node → EnrollReply × Store
enroll_key id p l db none = (enrolled id, add_node id p.provider_id l db)
enroll_key id p l db (some n) =
    if not (n.provider_id == p.provider_id)
    then (key_taken, db)
    else if not (is_draining n.status)
    then (still_listed, db)
    else (reactivated n.node_id, relist n.node_id l db)

-- POST /nodes, with the generated id of a new row.
unfoldable pub enroll : ℕ → ℕ → Listing → Store → EnrollReply × Store
unfolding enroll_key
enroll id user l db = elim (provider_of user db) [
  | none ↦ (not_a_provider, db)
  | some p ↦
      if not (l.key_length == 32)
      then (bad_key, db)
      else if has_zero l
      then (not_positive, db)
      else enroll_key id p l db (holder_of l.public_key db)
]

pub data RetireReply : Type 0 where
  not_found still_booked retired : RetireReply

-- Whether the node belongs to a provider account of the session's user.
abbrev pub is_own_node : ℕ → Store → Node → Bool
is_own_node user db n =
    any (λ p. (p.provider_id == n.provider_id) && (p.user_id == user)) db.providers

unfoldable pub is_live : Status → Bool
is_live pending = true
is_live held = true
is_live confirmed = true
is_live running = true
is_live _ = false

abbrev pub is_booked : ℕ → List Reservation → Bool
is_booked id = any (λ r. (r.node_id == id) && is_live r.status)

abbrev pub set_draining : ℕ → Store → Store
set_draining id db = record db {
  nodes = update_rows (λ n. n.node_id == id) (λ n. record n { status = draining }) db.nodes;
}

-- POST /nodes/:id/retire
unfoldable pub retire : ℕ → ℕ → Store → RetireReply × Store
unfolding is_live
retire id user db = elim (find_node id db) [
  | none ↦ (not_found, db)
  | some n ↦
      if not (is_own_node user db n)
      then (not_found, db)
      else if is_booked id db.reservations
      then (still_booked, db)
      else (retired, set_draining id db)
]
