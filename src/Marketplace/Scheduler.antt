-- ===== src/Marketplace/Scheduler.antt =====
-- backend/src/marketplace/scheduler.js: the hard constraints of a request, and the parts of a
-- provider's windows that are not booked yet. Times are epoch milliseconds.
pub mod Free
pub mod Feasible
use nodeva.Prelude.{
  ℕ, max, Bool, true, false, not, ◌&&◌, Option, none, some, List, [], ◌∷◌, ◌++◌, ltb, leb, any,
  where_rows, if◌then◌else◌,
}

pub record Window : Type 0 where
  pub start : ℕ
  pub end : ℕ

pub data NodeStatus : Type 0 where
  enrolling online draining offline : NodeStatus

abbrev pub is_online : NodeStatus → Bool
is_online online = true
is_online _ = false

pub record Candidate : Type 0 where
  pub status : NodeStatus
  pub gpu_vram_mb : ℕ
  pub cpu_cores : ℕ
  pub ram_mb : ℕ
  pub price_paise_hr : ℕ
  pub availability : Option (List Window)

pub record Request : Type 0 where
  pub min_vram_mb : ℕ
  pub min_cpu_cores : ℕ
  pub min_ram_mb : ℕ
  pub max_price_paise_hr : Option ℕ
  pub starts_at : ℕ
  pub ends_at : ℕ

-- `coversWindow`
unfoldable pub covers_window : List Window → ℕ → ℕ → Bool
covers_window windows starts_at ends_at =
    any (λ w. leb w.start starts_at && leb ends_at w.end) windows

-- `node.availability ?? []`
abbrev pub windows_of : Option (List Window) → List Window
windows_of none = []
windows_of (some ws) = ws

abbrev pub above_limit : ℕ → Option ℕ → Bool
above_limit price none = false
above_limit price (some limit) = ltb limit price

-- `feasible`
unfoldable pub feasible : Candidate → Request → Bool
unfolding covers_window
feasible node req =
    if not (is_online node.status)
    then false
    else if ltb node.gpu_vram_mb req.min_vram_mb
    then false
    else if ltb node.cpu_cores req.min_cpu_cores
    then false
    else if ltb node.ram_mb req.min_ram_mb
    then false
    else if above_limit node.price_paise_hr req.max_price_paise_hr
    then false
    else covers_window (windows_of node.availability) req.starts_at req.ends_at

-- `Array.prototype.sort` by start: stable, here by insertion.
insert_by_start : Window → List Window → List Window
insert_by_start b [] = b ∷ []
insert_by_start b (c ∷ cs) = if leb b.start c.start then b ∷ c ∷ cs else c ∷ insert_by_start b cs

pub sort_by_start : List Window → List Window
unfolding insert_by_start
sort_by_start [] = []
sort_by_start (b ∷ bs) = insert_by_start b (sort_by_start bs)

-- The bookings that touch a window.
abbrev pub touches : Window → Window → Bool
touches w b = ltb b.start w.end && ltb w.start b.end

abbrev gap : ℕ → ℕ → List Window
gap cursor upto = if ltb cursor upto then record { start = cursor; end = upto } ∷ [] else []

-- The loop over the sorted bookings, from `cursor`, with what it pushes.
free_from : ℕ → ℕ → List Window → List Window
free_from end cursor [] = gap cursor end
free_from end cursor (b ∷ bs) =
    let next = max cursor b.end in
    let rest = free_from end next bs in gap cursor b.start ++ (if leb end next then [] else rest)

-- The body of `flatMap` in `subtractBusy`.
unfoldable pub free_parts : Window → List Window → List Window
unfolding free_from sort_by_start
free_parts w busy = free_from w.end w.start (sort_by_start (where_rows (touches w) busy))

-- `subtractBusy`; an empty list of bookings leaves the windows as they are.
unfoldable pub subtract_busy : List Window → List Window → List Window
unfolding free_parts
subtract_busy windows [] = windows
subtract_busy [] (b ∷ busy) = []
subtract_busy (w ∷ windows) (b ∷ busy) = free_parts w (b ∷ busy) ++ subtract_busy windows (b ∷ busy)
