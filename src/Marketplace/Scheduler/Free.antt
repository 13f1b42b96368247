-- ===== src/Marketplace/Scheduler/Free.antt =====
-- `subtractBusy` against the points in time that it stands for.
use nodeva.Prelude.{
  ℕ, ◌≤◌, ◌<◌, ◌≡◌, ◌⊎◌, inl, inr, arith, max, true, List, [], ◌∷◌, ◌++◌, where_rows, ◌↔◌,
}
use nodeva.Marketplace.Scheduler.{
  Window, covers_window, insert_by_start, sort_by_start, touches, gap, free_from, free_parts,
  subtract_busy,
}

-- The windows hold the whole of a request.
abbrev pub Covers : List Window → ℕ → ℕ → Type 0
Covers [] s e = ⊥
Covers (w ∷ ws) s e = ((w.start ≤ s) × (e ≤ w.end)) ⊎ Covers ws s e

-- No booking overlaps the request.
abbrev pub Disjoint : List Window → ℕ → ℕ → Type 0
Disjoint [] s e = Unit
Disjoint (b ∷ bs) s e = ((b.end ≤ s) ⊎ (e ≤ b.start)) × Disjoint bs s e

covers_window_iff : (ws : List Window) (s e : ℕ) → (covers_window ws s e ≡ true) ↔ Covers ws s e
unfolding covers_window
covers_window_iff [] s e = ground arith
covers_window_iff (w ∷ ws) s e = ground (arith, covers_window_iff ws s e)

Covers-append_left : (xs ys : List Window) (s e : ℕ) → Covers xs s e → Covers (xs ++ ys) s e
Covers-append_left [] ys s e h = absurd h
Covers-append_left (x ∷ xs) ys s e (inl h) = inl h
Covers-append_left (x ∷ xs) ys s e (inr h) = inr (Covers-append_left xs ys s e h)

Covers-append_right : (xs ys : List Window) (s e : ℕ) → Covers ys s e → Covers (xs ++ ys) s e
Covers-append_right [] ys s e h = h
Covers-append_right (x ∷ xs) ys s e h = inr (Covers-append_right xs ys s e h)

Covers-append_cases :
    (xs ys : List Window) (s e : ℕ) → Covers (xs ++ ys) s e → Covers xs s e ⊎ Covers ys s e
Covers-append_cases [] ys s e h = inr h
Covers-append_cases (x ∷ xs) ys s e (inl h) = inl (inl h)
Covers-append_cases (x ∷ xs) ys s e (inr h) = elim (Covers-append_cases xs ys s e h) [
  | inl a ↦ inl (inr a)
  | inr b ↦ inr b
]

-- The loop keeps every request that no booking overlaps, in whatever order the bookings come.
free_from_complete :
    (end cursor : ℕ) (bs : List Window) (s e : ℕ)
    → s < e
    → cursor ≤ s
    → e ≤ end
    → Disjoint bs s e
    → Covers (free_from end cursor bs) s e
unfolding free_from
free_from_complete end cursor [] s e h c k d = ground arith
free_from_complete end cursor (b ∷ bs) s e h c k d =
    ground (arith, free_from_complete end (max cursor b.end) bs s e)

-- The bookings come in the order of their starts.
abbrev StartsFrom : ℕ → List Window → Type 0
StartsFrom n [] = Unit
StartsFrom n (b ∷ bs) = (n ≤ b.start) × StartsFrom b.start bs

insert_by_start-StartsFrom :
    (n : ℕ) (b : Window) (bs : List Window)
    → n ≤ b.start
    → StartsFrom n bs
    → StartsFrom n (insert_by_start b bs)
unfolding insert_by_start
insert_by_start-StartsFrom n b [] h s = ground arith
insert_by_start-StartsFrom n b (c ∷ cs) h s =
    ground (arith, insert_by_start-StartsFrom c.start b cs)

sort_by_start-StartsFrom : (bs : List Window) → StartsFrom 0 (sort_by_start bs)
unfolding sort_by_start
sort_by_start-StartsFrom [] = tt
sort_by_start-StartsFrom (b ∷ bs) =
    insert_by_start-StartsFrom 0 b (sort_by_start bs) (omega arith) (sort_by_start-StartsFrom bs)

-- Sorting and filtering by `touches` change which bookings are met, not whether they are in the way.
insert_by_start-Disjoint :
    (b : Window) (bs : List Window) (s e : ℕ)
    → Disjoint (insert_by_start b bs) s e ↔ (((b.end ≤ s) ⊎ (e ≤ b.start)) × Disjoint bs s e)
unfolding insert_by_start
insert_by_start-Disjoint b [] s e = (λ h. h, λ h. h)
insert_by_start-Disjoint b (c ∷ cs) s e = ground (arith, insert_by_start-Disjoint b cs s e)

sort_by_start-Disjoint :
    (bs : List Window) (s e : ℕ) → Disjoint (sort_by_start bs) s e ↔ Disjoint bs s e
unfolding sort_by_start
sort_by_start-Disjoint [] s e = (λ h. h, λ h. h)
sort_by_start-Disjoint (b ∷ bs) s e =
    ground (arith, sort_by_start-Disjoint bs s e, insert_by_start-Disjoint b (sort_by_start bs) s e)

touching-Disjoint :
    (w : Window) (bs : List Window) (s e : ℕ)
    → w.start ≤ s
    → e ≤ w.end
    → Disjoint (where_rows (touches w) bs) s e ↔ Disjoint bs s e
touching-Disjoint w [] s e h k = (λ d. d, λ d. d)
touching-Disjoint w (b ∷ bs) s e h k = ground (arith, touching-Disjoint w bs s e h k)

abbrev EndsBelow : ℕ → List Window → Type 0
EndsBelow end [] = Unit
EndsBelow end (b ∷ bs) = (b.start < end) × EndsBelow end bs

touching-EndsBelow : (w : Window) (bs : List Window) → EndsBelow w.end (where_rows (touches w) bs)
touching-EndsBelow w [] = tt
touching-EndsBelow w (b ∷ bs) = ground (arith, touching-EndsBelow w bs)

insert_by_start-EndsBelow :
    (end : ℕ) (b : Window) (bs : List Window)
    → b.start < end
    → EndsBelow end bs
    → EndsBelow end (insert_by_start b bs)
unfolding insert_by_start
insert_by_start-EndsBelow end b [] h k = ground arith
insert_by_start-EndsBelow end b (c ∷ cs) h k = ground (arith, insert_by_start-EndsBelow end b cs)

sort_by_start-EndsBelow :
    (end : ℕ) (bs : List Window) → EndsBelow end bs → EndsBelow end (sort_by_start bs)
unfolding sort_by_start
sort_by_start-EndsBelow end [] h = tt
sort_by_start-EndsBelow end (b ∷ bs) h =
    insert_by_start-EndsBelow end b (sort_by_start bs) h.0 (sort_by_start-EndsBelow end bs h.1)

before-Disjoint : (n : ℕ) (bs : List Window) (s e : ℕ) → StartsFrom n bs → e ≤ n → Disjoint bs s e
before-Disjoint n [] s e h k = tt
before-Disjoint n (b ∷ bs) s e h k =
    (inr (omega arith), before-Disjoint b.start bs s e h.1 (omega arith))

-- Over sorted bookings whatever the loop pushes lies past the cursor and clear of each booking.
free_from_sound :
    (end cursor n : ℕ) (bs : List Window) (s e : ℕ)
    → StartsFrom n bs
    → EndsBelow end bs
    → Covers (free_from end cursor bs) s e
    → (cursor ≤ s) × (e ≤ end) × Disjoint bs s e
unfolding free_from
free_from_sound end cursor n [] s e h k c = ground arith
free_from_sound end cursor n (b ∷ bs) s e h k c =
    elim (Covers-append_cases (gap cursor b.start) _ s e c) [
      | inl before ↦ ground (arith, before-Disjoint b.start bs s e h.1)
      | inr after ↦ ground (arith, free_from_sound end (max cursor b.end) b.start bs s e h.1 k.1)
    ]

free_parts_iff :
    (w : Window) (busy : List Window) (s e : ℕ)
    → s < e
    → Covers (free_parts w busy) s e ↔ ((w.start ≤ s) × (e ≤ w.end) × Disjoint busy s e)
unfolding free_parts
free_parts_iff w busy s e h = (sound, complete)
  where
    touching : List Window
    touching = where_rows (touches w) busy

    sound :
        Covers (free_from w.end w.start (sort_by_start touching)) s e
        → (w.start ≤ s) × (e ≤ w.end) × Disjoint busy s e
    sound c =
        let r =
          free_from_sound w.end w.start 0 (sort_by_start touching) s e
            (sort_by_start-StartsFrom touching)
            (sort_by_start-EndsBelow w.end touching (touching-EndsBelow w busy)) c in
        (
          r.0,
          r.1,
          (touching-Disjoint w busy s e r.0 r.1).0 ((sort_by_start-Disjoint touching s e).0 r.2),
        )

    complete :
        (w.start ≤ s) × (e ≤ w.end) × Disjoint busy s e
        → Covers (free_from w.end w.start (sort_by_start touching)) s e
    complete r =
        free_from_complete w.end w.start (sort_by_start touching) s e h r.0 r.1
          ((sort_by_start-Disjoint touching s e).1 ((touching-Disjoint w busy s e r.0 r.1).1 r.2))

subtract_busy-Covers :
    (windows busy : List Window) (s e : ℕ)
    → s < e
    → Covers (subtract_busy windows busy) s e ↔ (Covers windows s e × Disjoint busy s e)
unfolding subtract_busy
subtract_busy-Covers windows [] s e h = (λ c. (c, tt), λ c. c.0)
subtract_busy-Covers [] (b ∷ busy) s e h = (λ c. absurd c, λ c. c.0)
subtract_busy-Covers (w ∷ windows) (b ∷ busy) s e h =
    step (subtract_busy-Covers windows (b ∷ busy) s e h)
  where
    step :
        Covers (subtract_busy windows (b ∷ busy)) s e
          ↔ (Covers windows s e × Disjoint (b ∷ busy) s e)
        → Covers (free_parts w (b ∷ busy) ++ subtract_busy windows (b ∷ busy)) s e
          ↔ (Covers (w ∷ windows) s e × Disjoint (b ∷ busy) s e)
    step ih = (sound, complete)
      where
        sound :
            Covers (free_parts w (b ∷ busy) ++ subtract_busy windows (b ∷ busy)) s e
            → Covers (w ∷ windows) s e × Disjoint (b ∷ busy) s e
        sound c = elim (Covers-append_cases (free_parts w (b ∷ busy)) _ s e c) [
          | inl here ↦ let r = (free_parts_iff w (b ∷ busy) s e h).0 here in (inl (r.0, r.1), r.2)
          | inr there ↦ let r = ih.0 there in (inr r.0, r.1)
        ]

        complete :
            Covers (w ∷ windows) s e × Disjoint (b ∷ busy) s e
            → Covers (free_parts w (b ∷ busy) ++ subtract_busy windows (b ∷ busy)) s e
        complete (inl c, d) =
            Covers-append_left _ _ s e ((free_parts_iff w (b ∷ busy) s e h).1 (c.0, c.1, d))
        complete (inr c, d) = Covers-append_right (free_parts w (b ∷ busy)) _ s e (ih.1 (c, d))

-- For a request of positive length: after the bookings are taken out, one of the windows that are
-- left covers it exactly when one of the declared windows does and no booking overlaps it.
pub subtract_busy_iff :
    (windows busy : List Window) (s e : ℕ)
    → s < e
    → (covers_window (subtract_busy windows busy) s e ≡ true)
      ↔ ((covers_window windows s e ≡ true) × Disjoint busy s e)
subtract_busy_iff windows busy s e h = (
  λ c.
      let r = covered.0 ((covers_window_iff _ s e).0 c) in
      ((covers_window_iff windows s e).1 r.0, r.1),
  λ c. (covers_window_iff _ s e).1 (covered.1 ((covers_window_iff windows s e).0 c.0, c.1)),
)
  where
    covered : Covers (subtract_busy windows busy) s e ↔ (Covers windows s e × Disjoint busy s e)
    covered = subtract_busy-Covers windows busy s e h
