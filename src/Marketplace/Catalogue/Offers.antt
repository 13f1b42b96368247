-- ===== src/Marketplace/Catalogue/Offers.antt =====
-- A search offers only time that a booking would be given.
use nodeva.Prelude.{
  ℕ, ◌≡◌, ◌<◌, refl, arith, true, false, List, [], ◌∷◌, any, ◌≤◌, ◌⊎◌, inl, inr, Bool-cases,
}
use nodeva.Marketplace.Scheduler.{Request, feasible}
use nodeva.Marketplace.Scheduler.Feasible.{feasible_iff}
use nodeva.Marketplace.Scheduler.Free.{subtract_busy_iff, Disjoint}
use nodeva.Store.{Store, Reservation, Node}
use nodeva.Api.Booking.{clashes}
use nodeva.Marketplace.Catalogue.{Availability, busy_slots, is_sold, searched_windows, candidate_of}

-- The booking of a window of a node.
abbrev pub Asks : Reservation → ℕ → ℕ → ℕ → Type 0
Asks r at_node s e = (r.node_id ≡ at_node) × (r.starts_at ≡ s) × (r.ends_at ≡ e)

apart-clashes :
    (r old : Reservation) (at_node s e : ℕ)
    → Asks r at_node s e
    → (old.ends_at ≤ s) ⊎ (e ≤ old.starts_at)
    → clashes r old ≡ false
unfolding clashes
apart-clashes r old at_node s e asks (inl before) = ground arith
apart-clashes r old at_node s e asks (inr after) = ground arith

unsold-clashes :
    (r old : Reservation) (at_node s e : ℕ)
    → Asks r at_node s e
    → is_sold at_node s old ≡ false
    → clashes r old ≡ false
unfolding clashes
unsold-clashes r old at_node s e asks unsold = ground arith

kept :
    (at_node s e : ℕ) (old : Reservation) (rs : List Reservation)
    → is_sold at_node s old ≡ true
    → Disjoint (busy_slots at_node s (old ∷ rs)) s e
    → ((old.ends_at ≤ s) ⊎ (e ≤ old.starts_at)) × Disjoint (busy_slots at_node s rs) s e
unfolding busy_slots
kept at_node s e old rs sold = rw sold (λ d. d)

dropped :
    (at_node s e : ℕ) (old : Reservation) (rs : List Reservation)
    → is_sold at_node s old ≡ false
    → Disjoint (busy_slots at_node s (old ∷ rs)) s e
    → Disjoint (busy_slots at_node s rs) s e
unfolding busy_slots
dropped at_node s e old rs unsold = rw unsold (λ d. d)

Disjoint-clashes :
    (r : Reservation) (rs : List Reservation) (at_node s e : ℕ)
    → Asks r at_node s e
    → Disjoint (busy_slots at_node s rs) s e
    → any (clashes r) rs ≡ false
unfolding busy_slots
Disjoint-clashes r [] at_node s e asks d = refl
Disjoint-clashes r (old ∷ rs) at_node s e asks d = elim (Bool-cases (is_sold at_node s old)) [
  | inl sold ↦
      let d' : ((old.ends_at ≤ s) ⊎ (e ≤ old.starts_at)) × Disjoint (busy_slots at_node s rs) s e =
        kept at_node s e old rs sold d in
      rw (apart-clashes r old at_node s e asks d'.0) (Disjoint-clashes r rs at_node s e asks d'.1)
  | inr unsold ↦
      rw (unsold-clashes r old at_node s e asks unsold)
        (Disjoint-clashes r rs at_node s e asks (dropped at_node s e old rs unsold d))
]

-- When a node that a search found is feasible for the request, a booking of just that time on that
-- node clashes with no reservation, so that the exclusion constraint does not refuse it.
pub feasible-clashes :
    (req : Request) (rows : List Availability) (db : Store) (node : Node) (r : Reservation)
    → req.starts_at < req.ends_at
    → feasible (candidate_of req rows db node) req ≡ true
    → Asks r node.node_id req.starts_at req.ends_at
    → any (clashes r) db.reservations ≡ false
unfolding searched_windows
feasible-clashes req rows db node r w f asks =
    let (_, _, _, _, _, covered) = (feasible_iff (candidate_of req rows db node) req).0 f in
    let (_, free) =
      (subtract_busy_iff _ (busy_slots node.node_id req.starts_at db.reservations) req.starts_at
          req.ends_at w).0
        covered in
    Disjoint-clashes r db.reservations node.node_id req.starts_at req.ends_at asks free
