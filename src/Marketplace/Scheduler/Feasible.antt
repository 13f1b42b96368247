-- ===== src/Marketplace/Scheduler/Feasible.antt =====
-- The feasibility filter against the requirements it stands for.
use nodeva.Prelude.{ℕ, ◌≤◌, ◌≡◌, ◌↔◌, true, Option, none, some, arith}
use nodeva.Marketplace.Scheduler.{Candidate, Request, online, feasible, covers_window, windows_of}

-- A price limit, where the request states one.
abbrev pub Affordable : ℕ → Option ℕ → Type 0
Affordable price none = Unit
Affordable price (some limit) = price ≤ limit

-- A node is feasible exactly when it is online, meets each of the three size requirements, is within
-- the price limit if there is one, and one of its windows covers the request.
pub feasible_iff :
    (node : Candidate) (req : Request)
    → (feasible node req ≡ true) ↔ (
        (node.status ≡ online)
        × (req.min_vram_mb ≤ node.gpu_vram_mb)
        × (req.min_cpu_cores ≤ node.cpu_cores)
        × (req.min_ram_mb ≤ node.ram_mb)
        × Affordable node.price_paise_hr req.max_price_paise_hr
        × (covers_window (windows_of node.availability) req.starts_at req.ends_at ≡ true))
unfolding feasible
feasible_iff node req = ground arith
