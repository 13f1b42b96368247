-- ===== src/Frontend/App.antt =====
-- frontend/src/App.jsx: its state, its handlers, each cut where it awaits the backend, and which screen is
-- shown. The buttons are those of components/ResultsList.jsx with the conditions that enable them.
pub mod Screens
pub mod SignedOut
use nodeva.Prelude.{
  zero, suc, ◌||◌, ℕ, Bool, true, false, not, ◌==◌, ◌&&◌, Option, none, some, List, [], ◌∷◌, ◌++◌,
  if◌then◌else◌, opt_eq, is_some,
}

pub record Query : Type 0 where
  pub starts_at : ℕ
  pub ends_at : ℕ

-- What `api.reserve` answers with, and the node that was asked for.
pub record Booking : Type 0 where
  pub reservation_id : ℕ
  pub node_id : ℕ

pub data Tab : Type 0 where
  rent browse share : Tab

pub data Message : Type 0 where
  sign_in_first session_expired node_unavailable other_error : Message

pub record AppState : Type 0 where
  pub session : Option ℕ
  pub mode : Tab
  pub last_query : Option Query
  pub results : Option (List ℕ)
  pub searching : Bool
  pub reserving_id : Option ℕ
  pub reservation : Option Booking
  pub verify_primary : Option ℕ
  pub verified_pair : Option (Booking × Booking)
  pub error : Option Message

-- A call that the backend has not answered yet, with what its continuation has captured.
pub data Call : Type 0 where
  search_call : Call
  reserve_call : ℕ → Call
  primary_call : (primary partner : ℕ) → Call
  partner_call : Booking → ℕ → Call

pub data Answer : Type 0 where
  found : List ℕ → Answer
  reserved : ℕ → Answer
  unauthorized conflict failed : Answer

-- The state after a handler has run up to its `await`, and the call that it then waits for.
abbrev pub Step : Type 0
Step = AppState × Option Call

-- `handleAuth`
unfoldable pub handle_auth : Option ℕ → AppState → AppState
handle_auth (some user) s = record s { session = some user }
handle_auth none s = record s {
  session = none;
  reservation = none;
  verified_pair = none;
  verify_primary = none;
}

-- `handleSearch`
unfoldable pub handle_search : Option Query → AppState → Step
handle_search q s = (
  record s {
    searching = true;
    error = none;
    results = none;
    last_query = q;
    verify_primary = none;
  },
  some search_call,
)

unfoldable pub after_search : Answer → AppState → AppState
after_search (found nodes) s = record s { results = some nodes; searching = false }
after_search _ s = record s { error = some other_error; searching = false }

-- `reserveWindow`
unfoldable pub reserve_window : ℕ → AppState → Step
reserve_window node s =
    if is_some s.session
    then (record s { reserving_id = some node; error = none }, some (reserve_call node))
    else (record s { error = some sign_in_first }, none)

unfoldable pub after_reserve : ℕ → Answer → AppState → AppState
unfolding handle_auth
after_reserve node (reserved id) s = record s {
  reservation = some (record { reservation_id = id; node_id = node });
  reserving_id = none;
}
after_reserve node unauthorized s = record (handle_auth none s) {
  error = some session_expired;
  reserving_id = none;
}
after_reserve node conflict s = record s { error = some node_unavailable; reserving_id = none }
after_reserve node _ s = record s { error = some other_error; reserving_id = none }

-- `handlePickPartner`, on a button that is enabled for another node only and while nothing is reserved.
unfoldable pub handle_pick_partner : ℕ → AppState → Step
handle_pick_partner partner s = elim s.verify_primary [
  | none ↦ (s, none)
  | some primary ↦
      if (primary == partner) || is_some s.reserving_id
      then (s, none)
      else if is_some s.session
      then (
        record s { error = none; reserving_id = some primary },
        some (primary_call primary partner),
      )
      else (record s { error = some sign_in_first }, none)
]

unfoldable pub after_pair_failed : Answer → AppState → AppState
unfolding handle_auth
after_pair_failed unauthorized s = record (handle_auth none s) {
  error = some session_expired;
  reserving_id = none;
}
after_pair_failed _ s = record s { error = some other_error; reserving_id = none }

unfoldable pub after_primary : (primary partner : ℕ) → Answer → AppState → Step
unfolding after_pair_failed
after_primary primary partner (reserved id) s = (
  record s { reserving_id = some partner },
  some (partner_call (record { reservation_id = id; node_id = primary }) partner),
)
after_primary primary partner answer s = (after_pair_failed answer s, none)

unfoldable pub after_partner : Booking → ℕ → Answer → AppState → AppState
unfolding after_pair_failed
after_partner a partner (reserved id) s = record s {
  verified_pair = some (a, record { reservation_id = id; node_id = partner });
  verify_primary = none;
  reserving_id = none;
}
after_partner a partner answer s = after_pair_failed answer s

unfoldable pub after_call : Call → Answer → AppState → Step
unfolding after_search after_reserve after_primary after_partner
after_call search_call answer s = (after_search answer s, none)
after_call (reserve_call node) answer s = (after_reserve node answer s, none)
after_call (primary_call primary partner) answer s = after_primary primary partner answer s
after_call (partner_call a partner) answer s = (after_partner a partner answer s, none)

-- What the user does, and the settled screens' callbacks.
pub data Action : Type 0 where
  authenticates : Option ℕ → Action
  picks_tab : Tab → Action
  searches : Query → Action
  reserves : ℕ → Action
  starts_verification : ℕ → Action
  cancels_verification : Action
  picks_partner : ℕ → Action
  reservation_settled pair_settled : Action

unfoldable pub act : Action → AppState → Step
unfolding handle_auth handle_search reserve_window handle_pick_partner
act (authenticates user) s = (handle_auth user s, none)
act (picks_tab tab) s = (record s { mode = tab }, none)
act (searches q) s = handle_search (some q) s
act (reserves node) s = reserve_window node s
act (starts_verification node) s = (record s { error = none; verify_primary = some node }, none)
act cancels_verification s = (record s { verify_primary = none }, none)
act (picks_partner node) s = handle_pick_partner node s
act reservation_settled s =
    let s' = record s { reservation = none } in
    elim s.last_query [ none ↦ (s', none) | some q ↦ handle_search (some q) s' ]
act pair_settled s = handle_search s.last_query (record s { verified_pair = none })

-- The page with the calls in flight; an answer names its call by the position.
pub record Page : Type 0 where
  pub app : AppState
  pub calls : List Call

pub data Event : Type 0 where
  user_acts : Action → Event
  arrives : ℕ → Answer → Event

abbrev pub call_at : ℕ → List Call → Option Call
call_at i [] = none
call_at zero (c ∷ cs) = some c
call_at (suc i) (c ∷ cs) = call_at i cs

abbrev pub without : ℕ → List Call → List Call
without i [] = []
without zero (c ∷ cs) = cs
without (suc i) (c ∷ cs) = c ∷ without i cs

abbrev pub waiting_for : Option Call → List Call → List Call
waiting_for none cs = cs
waiting_for (some c) cs = c ∷ cs

abbrev pub page_of : List Call → Step → Page
page_of cs (s, c) = record { app = s; calls = waiting_for c cs }

unfoldable pub on_event : Event → Page → Page
unfolding act after_call
on_event (user_acts a) p = page_of p.calls (act a p.app)
on_event (arrives i answer) p = elim (call_at i p.calls) [
  | none ↦ p
  | some c ↦ page_of (without i p.calls) (after_call c answer p.app)
]

unfoldable pub run_page : List Event → Page → Page
unfolding on_event
run_page [] p = p
run_page (e ∷ es) p = run_page es (on_event e p)

pub data Screen : Type 0 where
  provider_dashboard browse_nodes search_form : Screen
  pair_screen : Booking × Booking → Screen
  reservation_screen : Booking → Screen

abbrev pub is_share : Tab → Bool
is_share share = true
is_share rent = false
is_share browse = false

abbrev pub browse_or_search : Tab → Screen
browse_or_search browse = browse_nodes
browse_or_search rent = search_form
browse_or_search share = search_form

-- What `main` renders.
unfoldable pub screen : AppState → Screen
screen s =
    if is_share s.mode && is_some s.session then provider_dashboard else elim s.verified_pair [
      | some pair ↦ pair_screen pair
      | none ↦ elim s.reservation [ some r ↦ reservation_screen r | none ↦ browse_or_search s.mode ]
    ]
