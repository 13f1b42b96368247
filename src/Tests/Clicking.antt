-- ===== src/Tests/Clicking.antt =====
-- The page of the client, with a verified pair and with a late answer.
use nodeva.Prelude.{◌≡◌, refl, false, none, some, List, [], ◌∷◌}
use nodeva.Frontend.App.{
  AppState, Page, Event, user_acts, arrives, found, reserved, authenticates, searches, reserves,
  starts_verification, picks_partner, picks_tab, rent, browse, run_page, on_event, act, after_call,
  after_search, after_primary, after_partner, handle_search, handle_pick_partner, screen,
  reservation_screen, pair_screen, reserve_call,
}
use nodeva.Frontend.App.Screens.{IsApart, run_page-IsApart}
use nodeva.Frontend.App.SignedOut.{screen-late_reservation}

abbrev signed_in : AppState
signed_in = record {
  session = some 7;
  mode = rent;
  last_query = none;
  results = none;
  searching = false;
  reserving_id = none;
  reservation = none;
  verify_primary = none;
  verified_pair = none;
  error = none;
}

abbrev start : Page
start = record { app = signed_in; calls = [] }

-- A search, a first node, a second one, and the two answers.
abbrev pair_booked : List Event
pair_booked =
    user_acts (searches (record { starts_at = 0; ends_at = 3600000 }))
    ∷ arrives 0 (found (1 ∷ 2 ∷ []))
    ∷ user_acts (starts_verification 1)
    ∷ user_acts (picks_partner 1)
    ∷ user_acts (picks_partner 2)
    ∷ arrives 0 (reserved 5)
    ∷ arrives 0 (reserved 6)
    ∷ []

run_page-IsApart_example : IsApart (run_page pair_booked start)
run_page-IsApart_example =
    run_page-IsApart pair_booked start (record { pair_apart = tt; calls_apart = tt })

pair_shown :
    screen (run_page pair_booked start).app
    ≡ pair_screen
        (record { reservation_id = 5; node_id = 1 }, record { reservation_id = 6; node_id = 2 })
unfolding run_page on_event act after_call after_search after_primary after_partner handle_search
    handle_pick_partner screen
pair_shown = refl

abbrev signed_out : Page
signed_out = record { app = record signed_in { session = none; mode = browse }; calls = [] }

abbrev no_sign_in : List Event
no_sign_in = user_acts (reserves 1) ∷ user_acts (picks_tab rent) ∷ arrives 0 (reserved 5) ∷ []

screen-late_reservation_example :
    let p : Page = record { app = signed_in; calls = reserve_call 1 ∷ [] } in
    let s = (run_page (user_acts (authenticates none) ∷ arrives 0 (reserved 5) ∷ []) p).app in
    (s.session ≡ none)
    × (screen s ≡ reservation_screen (record { reservation_id = 5; node_id = 1 }))
screen-late_reservation_example =
    screen-late_reservation (record { app = signed_in; calls = reserve_call 1 ∷ [] }) 0 1 5 refl
