-- ===== src/Frontend/App/Screens.antt =====
-- What the page can show, however clicks and answers interleave.
use nodeva.Prelude.{
  ℕ, zero, suc, ◌≡◌, ◌==◌, false, Option, none, some, List, [], ◌∷◌, inl, inr, Bool-cases,
  Option-cases, All, is_some,
}
use nodeva.Frontend.App.{
  AppState, Booking, Call, search_call, reserve_call, primary_call, partner_call, Answer, found,
  reserved, unauthorized, conflict, failed, Step, after_call, Action, authenticates, picks_tab,
  searches, reserves, starts_verification, cancels_verification, picks_partner, reservation_settled,
  pair_settled, act, Page, Event, user_acts, arrives, call_at, without, page_of, on_event, run_page,
  handle_auth, handle_search, reserve_window, handle_pick_partner, after_search, after_reserve,
  after_primary, after_partner, after_pair_failed,
}

-- The two nodes of a pair differ, in the state and in what a pending call will make of it.
abbrev pub PairApart : Option (Booking × Booking) → Type 0
PairApart none = Unit
PairApart (some (a, b)) = (a.node_id == b.node_id) ≡ false

abbrev pub CallApart : Call → Type 0
CallApart search_call = Unit
CallApart (reserve_call node) = Unit
CallApart (primary_call primary partner) = (primary == partner) ≡ false
CallApart (partner_call a partner) = (a.node_id == partner) ≡ false

pub record IsApart (p : Page) : Type 0 where
  pub pair_apart : PairApart p.app.verified_pair
  pub calls_apart : All CallApart p.calls

abbrev StepApart : Step → Type 0
StepApart (s, none) = PairApart s.verified_pair
StepApart (s, some c) = PairApart s.verified_pair × CallApart c

page_of-IsApart :
    (cs : List Call) (o : Step) → All CallApart cs → StepApart o → IsApart (page_of cs o)
page_of-IsApart cs (s, none) h k = record { pair_apart = k; calls_apart = h }
page_of-IsApart cs (s, some c) h k = record { pair_apart = k.0; calls_apart = (k.1, h) }

pick_partner-StepApart :
    (partner : ℕ) (s : AppState)
    → PairApart s.verified_pair
    → StepApart (handle_pick_partner partner s)
unfolding handle_pick_partner
pick_partner-StepApart partner s h = elim (Option-cases s.verify_primary) [
  | inl n ↦ rw (n, handle_pick_partner) h
  | inr (primary, e) ↦ elim (Bool-cases (primary == partner)) [
    | inl t ↦ rw (e, t, handle_pick_partner) h
    | inr f ↦ elim (Bool-cases (is_some s.reserving_id)) [
      | inl busy ↦ rw (e, f, busy, handle_pick_partner) h
      | inr free ↦ elim (Bool-cases (is_some s.session)) [
        | inl signed ↦ rw (e, f, free, signed, handle_pick_partner) (h, f)
        | inr out ↦ rw (e, f, free, out, handle_pick_partner) h
      ]
    ]
  ]
]

act-StepApart : (a : Action) (s : AppState) → PairApart s.verified_pair → StepApart (act a s)
unfolding act handle_auth handle_search reserve_window
act-StepApart (authenticates none) s h = tt
act-StepApart (authenticates (some u)) s h = h
act-StepApart (picks_tab t) s h = h
act-StepApart (searches q) s h = (h, tt)
act-StepApart (reserves node) s h = elim (Bool-cases (is_some s.session)) [
  | inl t ↦ rw t (h, tt)
  | inr f ↦ rw f h
]
act-StepApart (starts_verification node) s h = h
act-StepApart cancels_verification s h = h
act-StepApart (picks_partner node) s h = pick_partner-StepApart node s h
act-StepApart reservation_settled s h = elim (Option-cases s.last_query) [
  | inl n ↦ rw (n, act) h
  | inr (q, e) ↦ rw (e, act) (h, tt)
]
act-StepApart pair_settled s h = (tt, tt)

after_call-StepApart :
    (c : Call) (answer : Answer) (s : AppState)
    → CallApart c
    → PairApart s.verified_pair
    → StepApart (after_call c answer s)
unfolding after_call after_search after_reserve after_primary after_partner after_pair_failed
    handle_auth
after_call-StepApart search_call (found ns) s k h = h
after_call-StepApart search_call (reserved id) s k h = h
after_call-StepApart search_call unauthorized s k h = h
after_call-StepApart search_call conflict s k h = h
after_call-StepApart search_call failed s k h = h
after_call-StepApart (reserve_call n) (found ns) s k h = h
after_call-StepApart (reserve_call n) (reserved id) s k h = h
after_call-StepApart (reserve_call n) unauthorized s k h = tt
after_call-StepApart (reserve_call n) conflict s k h = h
after_call-StepApart (reserve_call n) failed s k h = h
after_call-StepApart (primary_call a b) (found ns) s k h = h
after_call-StepApart (primary_call a b) (reserved id) s k h = (h, k)
after_call-StepApart (primary_call a b) unauthorized s k h = tt
after_call-StepApart (primary_call a b) conflict s k h = h
after_call-StepApart (primary_call a b) failed s k h = h
after_call-StepApart (partner_call a b) (found ns) s k h = h
after_call-StepApart (partner_call a b) (reserved id) s k h = k
after_call-StepApart (partner_call a b) unauthorized s k h = tt
after_call-StepApart (partner_call a b) conflict s k h = h
after_call-StepApart (partner_call a b) failed s k h = h

pub call_at-All :
    (P : Call → Type 0) (i : ℕ) (cs : List Call) {c : Call} → All P cs → call_at i cs ≡ some c → P c
call_at-All P i [] {c} h e = cc
call_at-All P zero (d ∷ cs) {c} h e = let same : d ≡ c = cc in rw⁻¹ same h.0
call_at-All P (suc i) (d ∷ cs) {c} h e = call_at-All P i cs h.1 e

pub without-All : (P : Call → Type 0) (i : ℕ) (cs : List Call) → All P cs → All P (without i cs)
without-All P i [] h = tt
without-All P zero (c ∷ cs) h = h.1
without-All P (suc i) (c ∷ cs) h = (h.0, without-All P i cs h.1)

on_event-IsApart : (e : Event) (p : Page) → IsApart p → IsApart (on_event e p)
unfolding on_event
on_event-IsApart (user_acts a) p k =
    page_of-IsApart p.calls (act a p.app) k.calls_apart (act-StepApart a p.app k.pair_apart)
on_event-IsApart (arrives i answer) p k = elim (Option-cases (call_at i p.calls)) [
  | inl n ↦ rw (n, on_event) k
  | inr (c, e) ↦
      rw (e, on_event)
        (page_of-IsApart (without i p.calls) (after_call c answer p.app)
          (without-All CallApart i p.calls k.calls_apart)
          (after_call-StepApart c answer p.app (call_at-All CallApart i p.calls k.calls_apart e)
            k.pair_apart))
]

-- However clicks and answers interleave, a verified pair is of two different nodes.
pub run_page-IsApart : (es : List Event) (p : Page) → IsApart p → IsApart (run_page es p)
unfolding run_page
run_page-IsApart [] p k = k
run_page-IsApart (e ∷ es) p k = run_page-IsApart es (on_event e p) (on_event-IsApart e p k)
