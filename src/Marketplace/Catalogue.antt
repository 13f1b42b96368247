-- ===== src/Marketplace/Catalogue.antt =====
-- backend/src/marketplace/nodeStore.js: what is left of the declared windows of a node after its
-- bookings, the browse catalogue and the candidates of a search. Presence in the hub is a function,
-- and the reliability score and the descriptive columns are left out.
pub mod Offers
use nodeva.Prelude.{
  ℕ, Bool, true, false, not, ◌==◌, ◌&&◌, ltb, leb, Option, none, some, List, [], ◌∷◌, where_rows,
  map, if◌then◌else◌,
}
use nodeva.Marketplace.Scheduler.{
  Window, NodeStatus, is_online, Candidate, Request, subtract_busy, sort_by_start, above_limit,
}
use nodeva.Store.{Store, Reservation, Node}
use nodeva.Api.Booking.{occupies}

-- `node_availability`
pub record Availability : Type 0 where
  pub node_id : ℕ
  pub window : Window

abbrev pub is_sold : ℕ → ℕ → Reservation → Bool
is_sold node from r = (r.node_id == node) && (occupies r.status && leb from r.ends_at)

abbrev pub slots : List Reservation → List Window
slots rs = map (λ r. record { start = r.starts_at; end = r.ends_at }) rs

-- `busySlotsByNode`, at one node.
unfoldable pub busy_slots : ℕ → ℕ → List Reservation → List Window
unfolding occupies
busy_slots node from rs = slots (where_rows (is_sold node from) rs)

abbrev pub windows_from : ℕ → ℕ → List Availability → List Window
windows_from node from rows =
    map (λ a. a.window) (where_rows (λ a. (a.node_id == node) && leb from a.window.end) rows)

-- The free time that the catalogue shows for a node.
unfoldable pub free_windows : ℕ → ℕ → List Availability → Store → List Window
unfolding busy_slots subtract_busy
free_windows node from rows db =
    subtract_busy (sort_by_start (windows_from node from rows))
      (busy_slots node from db.reservations)

pub record Offer : Type 0 where
  pub node : Node
  pub availability : List Window

abbrev pub is_empty : List Window → Bool
is_empty [] = true
is_empty (w ∷ ws) = false

abbrev pub by_price : Offer → List Offer → List Offer
by_price o [] = o ∷ []
by_price o (p ∷ ps) =
    if ltb p.node.price_paise_hr o.node.price_paise_hr then p ∷ by_price o ps else o ∷ (p ∷ ps)

unfoldable pub offers : (ℕ → Bool) → ℕ → List Availability → Store → List Node → List Offer
unfolding free_windows
offers hub now rows db [] = []
offers hub now rows db (n ∷ ns) =
    let free = free_windows n.node_id now rows db in
    let rest = offers hub now rows db ns in
    if is_online n.status && (hub n.node_id && not (is_empty free))
    then by_price (record { node = n; availability = free }) rest
    else rest

-- `browseCatalogue`
unfoldable pub browse_catalogue : (ℕ → Bool) → ℕ → List Availability → Store → List Offer
unfolding offers
browse_catalogue hub now rows db = offers hub now rows db db.nodes

-- The WHERE clause of the search.
abbrev pub is_wanted : Request → Node → Bool
is_wanted req n =
    is_online n.status
    && (leb req.min_vram_mb n.gpu_vram_mb
        && (leb req.min_cpu_cores n.cpu_cores
            && (leb req.min_ram_mb n.ram_mb
                && not (above_limit n.price_paise_hr req.max_price_paise_hr))))

-- The free time of a node around a request.
unfoldable pub searched_windows : ℕ → Request → List Availability → Store → List Window
unfolding busy_slots subtract_busy
searched_windows node req rows db =
    subtract_busy
      (map (λ a. a.window)
        (where_rows
          (λ a.
            (a.node_id == node)
            && (leb req.starts_at a.window.end && leb a.window.start req.ends_at))
          rows))
      (busy_slots node req.starts_at db.reservations)

abbrev pub candidate_of : Request → List Availability → Store → Node → Candidate
candidate_of req rows db n = record {
  status = n.status;
  gpu_vram_mb = n.gpu_vram_mb;
  cpu_cores = n.cpu_cores;
  ram_mb = n.ram_mb;
  price_paise_hr = n.price_paise_hr;
  availability = some (searched_windows n.node_id req rows db);
}

-- `searchCandidates`
unfoldable pub search_candidates : (ℕ → Bool) → Request → List Availability → Store → List Candidate
unfolding searched_windows
search_candidates hub req rows db =
    map (candidate_of req rows db)
      (where_rows (λ n. hub n.node_id) (where_rows (is_wanted req) db.nodes))
