-- ===== src/Tests/Searching.antt =====
-- Search, availability, rate limits and listings.
use nodeva.Prelude.{
  ℕ, ◌≤◌, List, ◌∷◌, [], any, none, refl, false, ◌≡◌, ◌-◌, arith, min, List, [], ◌∷◌,
}
use nodeva.Marketplace.Scheduler.{Window, Request, feasible, covers_window, subtract_busy}
use nodeva.Auth.RateLimit.Windows.{window_end, passes-burst, burst, passes, counted}
use nodeva.Reservations.Machine.{held}
use nodeva.Reservations.Machine.{confirmed}
use nodeva.Store.{Reservation}
use nodeva.Api.Booking.{clashes}
use nodeva.Marketplace.Catalogue.{Availability, searched_windows, busy_slots}
use nodeva.Marketplace.Catalogue.Offers.{feasible-clashes}
use nodeva.Tests.World.{world, an_hour, node_of}

abbrev a_day : List Window
a_day = record { start = 0; end = 86400 } ∷ []

-- The hour after the one that is taken.
abbrev next_hour : Request
next_hour = record {
  min_vram_mb = 4096;
  min_cpu_cores = 4;
  min_ram_mb = 8192;
  max_price_paise_hr = none;
  starts_at = 3600000;
  ends_at = 7200000;
}

abbrev all_day : List Availability
all_day = record { node_id = 1; window = record { start = 0; end = 86400000 } } ∷ []

abbrev a_booking : Reservation
a_booking = record (an_hour held) { reservation_id = 6; starts_at = 3600000; ends_at = 7200000 }

feasible-clashes_example : any (clashes a_booking) (world confirmed).reservations ≡ false
unfolding feasible covers_window searched_windows subtract_busy busy_slots
feasible-clashes_example =
    feasible-clashes next_hour all_day (world confirmed) (node_of 1) a_booking (omega arith) refl
      (refl, refl, refl)

abbrev a_minute : List ℕ
a_minute = 2000 ∷ 31000 ∷ 60999 ∷ []

passes-burst_example :
    let out = burst 7 60000 2 (1000 ∷ a_minute) [] in
    (passes out.0 ≡ min 4 (2 - counted 7 1000 []))
    × ((t : ℕ) → window_end 7 60000 1000 [] ≤ t → counted 7 t out.1 ≡ 0)
passes-burst_example =
    passes-burst 7 60000 2 1000 a_minute [] (omega arith)
      (omega arith, (omega arith, (omega arith, tt)))
