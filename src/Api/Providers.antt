-- ===== src/Api/Providers.antt =====
-- POST /providers/me of backend/src/api/server.js, and `checkHardwareMismatch` for the dashboard.
pub mod Honest
use nodeva.Prelude.{
  ℕ, ◌-◌, ◌+◌, ◌*◌, Bool, true, false, not, ◌==◌, leb, Option, none, some, List, [], ◌∷◌, ◌++◌,
  if◌then◌else◌,
}
use nodeva.Store.{Store, Provider}
use nodeva.Api.Nodes.{provider_of}

pub data ProviderReply : Type 0 where
  already_provider created_provider : ℕ → ProviderReply

abbrev pub new_provider : ℕ → ℕ → Provider
new_provider id user = record {
  provider_id = id;
  user_id = user;
  rep_jobs_total = 0;
  rep_jobs_failed = 0;
}

abbrev pub add_provider : ℕ → ℕ → Store → Store
add_provider id user db = record db { providers = new_provider id user ∷ db.providers }

-- `id` is drawn by the database.
unfoldable pub become_provider : ℕ → ℕ → Store → ProviderReply × Store
become_provider id user db = elim (provider_of user db) [
  | some p ↦ (already_provider p.provider_id, db)
  | none ↦ (created_provider id, add_provider id user db)
]

-- What a node declares, and what its last heartbeat reports of it.
pub record Declared : Type 0 where
  pub cpu_cores : ℕ
  pub ram_mb : ℕ
  pub gpu_vram_mb : ℕ

pub record Reported : Type 0 where
  pub cpu_cores : Option ℕ
  pub ram_mb : Option ℕ
  pub vram_total_mb : Option ℕ

pub data Mismatch : Type 0 where
  cpu_mismatch ram_mismatch vram_mismatch : ℕ → ℕ → Mismatch

-- `withinTolerance` at ten percent: `Math.abs(a - b) <= a * 0.1`, which on integers as small as these is
-- the comparison of ten times the difference.
abbrev pub within_tolerance : ℕ → ℕ → Bool
within_tolerance a b = leb (10 * ((a - b) + (b - a))) a

abbrev pub mismatch_if : Bool → Mismatch → List Mismatch
mismatch_if b m = if b then m ∷ [] else []

abbrev pub cpu_part : ℕ → Option ℕ → List Mismatch
cpu_part d none = []
cpu_part d (some r) = mismatch_if (not (r == d)) (cpu_mismatch d r)

abbrev pub ram_part : ℕ → Option ℕ → List Mismatch
ram_part d none = []
ram_part d (some r) = mismatch_if (not (within_tolerance d r)) (ram_mismatch d r)

abbrev pub vram_part : ℕ → Option ℕ → List Mismatch
vram_part d none = []
vram_part d (some r) = mismatch_if (not (within_tolerance d r)) (vram_mismatch d r)

abbrev pub non_empty : List Mismatch → Option (List Mismatch)
non_empty [] = none
non_empty (m ∷ ms) = some (m ∷ ms)

-- `checkHardwareMismatch`
unfoldable pub check_hardware_mismatch : Declared → Option Reported → Option (List Mismatch)
check_hardware_mismatch d none = none
check_hardware_mismatch d (some r) = non_empty (
    cpu_part d.cpu_cores r.cpu_cores
    ++ ram_part d.ram_mb r.ram_mb
    ++ vram_part d.gpu_vram_mb r.vram_total_mb)
