-- ===== src/Frontend/App/SignedOut.antt =====
-- What the page shows when nobody is signed in.
use mathlib.Core.Path.{subst}
use nodeva.Prelude.{sym, ℕ, ◌≡◌, refl, none, some, [], ◌∷◌, inl, inr, Bool-cases, All}
use nodeva.Frontend.App.{
  is_share, AppState, Call, search_call, reserve_call, primary_call, partner_call, reserved, Step,
  after_call, authenticates, act, Page, Event, user_acts, arrives, call_at, without, on_event,
  run_page, handle_auth, after_reserve, screen, reservation_screen,
}

abbrev IsSearch : Call → Type 0
IsSearch search_call = Unit
IsSearch (reserve_call n) = ⊥
IsSearch (primary_call a b) = ⊥
IsSearch (partner_call a b) = ⊥

-- Nobody is signed in and no booking is held, as after a sign-out.
abbrev pub IsHidden : AppState → Type 0
IsHidden s = (s.session ≡ none) × (s.reservation ≡ none) × (s.verified_pair ≡ none)

pub record IsSignedOut (p : Page) : Type 0 where
  pub hidden : IsHidden p.app
  pub only_searches : All IsSearch p.calls

-- The event is no sign-in.
abbrev pub IsNoSignIn : Event → Type 0
IsNoSignIn (user_acts (authenticates (some user))) = ⊥
IsNoSignIn (user_acts _) = Unit
IsNoSignIn (arrives i answer) = Unit

abbrev StepHidden : Step → Type 0
StepHidden (s, none) = IsHidden s
StepHidden (s, some c) = IsHidden s × IsSearch c

-- A booking in flight breaks this: when its answer arrives after the sign-out, the page shows the
-- reservation although nobody is signed in.
pub screen-late_reservation :
    (p : Page) (i node id : ℕ)
    → call_at i p.calls ≡ some (reserve_call node)
    → let s = (run_page (user_acts (authenticates none) ∷ arrives i (reserved id) ∷ []) p).app in
      (s.session ≡ none)
      × (screen s ≡ reservation_screen (record { reservation_id = id; node_id = node }))
unfolding screen run_page on_event act after_call after_reserve handle_auth
screen-late_reservation p i node id e =
    let out = handle_auth none p.app in
    let late : AppState = record out {
      reservation = some (record { reservation_id = id; node_id = node });
      reserving_id = none;
    } in
    let step : run_page (user_acts (authenticates none) ∷ arrives i (reserved id) ∷ []) p
        ≡ record { app = late; calls = without i p.calls } =
      rw (run_page, on_event, e) refl in
    subst
      (λ q.
        (q.app.session ≡ none)
        × (screen q.app ≡ reservation_screen (record { reservation_id = id; node_id = node })))
      (sym step)
      (refl, elim (Bool-cases (is_share p.app.mode)) [ inl t ↦ rw t refl | inr f ↦ rw f refl ])
