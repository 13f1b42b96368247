-- ===== src/Scripts/Simulation/Counts.antt =====
-- The generator stays within its bounds, and the counters of a pass fit together.

use nodeva.Prelude.{
  ℕ, zero, suc, ◌≡◌, ◌≤◌, ◌<◌, ◌+◌, min, inl, inr, refl, arith, Bool, true, false, Option, none,
  some, List, [], ◌∷◌, Bool-cases, if◌then◌else◌,
}
use nodeva.Jobs.Verification.{Thresholds}
use nodeva.Marketplace.Scheduler.{Request}
use nodeva.Marketplace.Rank.{
  Doubles, Ranked, RankedResult, Mode, rank, cheapest, best_value, fastest,
}
use nodeva.Scripts.Simulation.{
  word, mulberry32, below, at, request_of, generate_request, Stats, no_stats, one_if, same_mode,
  least_quoted, count_pick, update_mode, backtest_step, backtest, run_backtest,
}

word-bound : (a : ℕ) → word a < 4294967296
word-bound a = omega arith

mulberry32-bound : (s : ℕ) → ((mulberry32 s).0 < 4294967296) × ((mulberry32 s).1 < 4294967296)
unfolding mulberry32
mulberry32-bound s = (word-bound _, word-bound _)

at_three {ℓ} : {A : Type ℓ} (a b c : A) (i : ℕ) → i < 3 → (x : A) × (at (a ∷ b ∷ c ∷ []) i ≡ some x)
at_three a b c zero h = (a, refl)
at_three a b c (suc zero) h = (b, refl)
at_three a b c (suc (suc zero)) h = (c, refl)
at_three a b c (suc (suc (suc i))) h = absurd (omega arith)

at_vram :
    (i : ℕ)
    → i < 4
    → (x : ℕ) × (at (8192 ∷ 12288 ∷ 16384 ∷ 20480 ∷ []) i ≡ some x) × (8192 ≤ x) × (x ≤ 20480)
at_vram zero h = (8192, refl, omega arith, omega arith)
at_vram (suc zero) h = (12288, refl, omega arith, omega arith)
at_vram (suc (suc zero)) h = (16384, refl, omega arith, omega arith)
at_vram (suc (suc (suc zero))) h = (20480, refl, omega arith, omega arith)
at_vram (suc (suc (suc (suc i)))) h = absurd (omega arith)

-- From every state of the generator, also one beyond 32 bits, a whole request is drawn: no position
-- falls outside its list, the limit of its price is from 3,000 up to but not including 12,000 paise an
-- hour and the video memory from 8 to 20 gigabytes, and the next state has 32 bits.
pub generate_request_bounds :
    (s : ℕ)
    → (req : Request) × (mode : Mode) × (price : ℕ) × ((generate_request s).0 ≡ some (req, mode))
      × ((generate_request s).1 < 4294967296)
      × (req.max_price_paise_hr ≡ some price)
      × (3000 ≤ price)
      × (price < 12000)
      × (8192 ≤ req.min_vram_mb)
      × (req.min_vram_mb ≤ 20480)
unfolding generate_request
generate_request_bounds s =
    let b1 = mulberry32-bound s in
    let s1 = (mulberry32 s).1 in
    let b2 = mulberry32-bound s1 in
    let s2 = (mulberry32 s1).1 in
    let b3 = mulberry32-bound s2 in
    let s3 = (mulberry32 s2).1 in
    let b4 = mulberry32-bound s3 in
    let s4 = (mulberry32 s3).1 in
    let b5 = mulberry32-bound s4 in
    let (vram, v, v_low, v_high) = at_vram (below (mulberry32 s).0 4) (omega (arith, b1.0)) in
    let (cores, c) = at_three 4 8 16 (below (mulberry32 s1).0 3) (omega (arith, b2.0)) in
    let (ram, r) = at_three 8192 16384 32768 (below (mulberry32 s2).0 3) (omega (arith, b3.0)) in
    let (mode, m) =
      at_three cheapest best_value fastest (below (mulberry32 s4).0 3) (omega (arith, b5.0)) in
    let price = 3000 + below (mulberry32 s3).0 9000 in
    (
      record {
        min_vram_mb = vram;
        min_cpu_cores = cores;
        min_ram_mb = ram;
        max_price_paise_hr = some price;
        starts_at = 0;
        ends_at = 3600000;
      },
      mode,
      price,
      rw (v, c, r, m, request_of) refl,
      b5.1,
      refl,
      omega arith,
      omega (arith, b4.0),
      v_low,
      v_high,
    )

-- The counters of a mode fit together.
pub record IsConsistent (s : Stats) : Type 0 where
  pub all_failed : s.recommended_and_failed + s.not_recommended_and_failed ≡ s.failed
  pub failed_picked : s.failed ≤ s.picked
  pub flagged_failed : s.recommended_and_failed ≤ s.recommended
  pub recommended_picked : s.recommended ≤ s.picked
  pub least_paid : s.total_cheapest_feasible_paise ≤ s.total_quoted_paise

no_stats-IsConsistent : IsConsistent no_stats
no_stats-IsConsistent = record {
  all_failed = refl;
  failed_picked = omega arith;
  flagged_failed = omega arith;
  recommended_picked = omega arith;
  least_paid = omega arith;
}

module _ {ℓ} {D : Type ℓ} (d : Doubles D) (truth : Ranked D → D) where
  least_quoted-le : (m : ℕ) (rs : List (RankedResult D)) → least_quoted d truth m rs ≤ m
  least_quoted-le m [] = omega arith
  least_quoted-le m (r ∷ rs) =
      let rest = least_quoted-le (min m r.quoted_paise) rs in omega (arith, rest)

  counted :
      (failed recommended : Bool) (quoted least : ℕ) (s : Stats)
      → least ≤ quoted
      → IsConsistent s
      → IsConsistent (record {
        picked = s.picked + 1;
        failed = s.failed + one_if failed;
        recommended = s.recommended + one_if recommended;
        recommended_and_failed =
            s.recommended_and_failed + (if recommended then one_if failed else 0);
        not_recommended_and_failed =
            s.not_recommended_and_failed + (if recommended then 0 else one_if failed);
        total_quoted_paise = s.total_quoted_paise + quoted;
        total_cheapest_feasible_paise = s.total_cheapest_feasible_paise + least;
      })
  counted true true quoted least s h k = record {
    all_failed = omega (arith, k.all_failed);
    failed_picked = omega (arith, k.failed_picked);
    flagged_failed = omega (arith, k.flagged_failed);
    recommended_picked = omega (arith, k.recommended_picked);
    least_paid = omega (arith, h, k.least_paid);
  }
  counted true false quoted least s h k = record {
    all_failed = omega (arith, k.all_failed);
    failed_picked = omega (arith, k.failed_picked);
    flagged_failed = omega (arith, k.flagged_failed);
    recommended_picked = omega (arith, k.recommended_picked);
    least_paid = omega (arith, h, k.least_paid);
  }
  counted false true quoted least s h k = record {
    all_failed = omega (arith, k.all_failed);
    failed_picked = omega (arith, k.failed_picked);
    flagged_failed = omega (arith, k.flagged_failed);
    recommended_picked = omega (arith, k.recommended_picked);
    least_paid = omega (arith, h, k.least_paid);
  }
  counted false false quoted least s h k = record {
    all_failed = omega (arith, k.all_failed);
    failed_picked = omega (arith, k.failed_picked);
    flagged_failed = omega (arith, k.flagged_failed);
    recommended_picked = omega (arith, k.recommended_picked);
    least_paid = omega (arith, h, k.least_paid);
  }

  update_mode-IsConsistent :
      (mode : Mode) (f : Stats → Stats) (per_mode : Mode → Stats)
      → ((s : Stats) → IsConsistent s → IsConsistent (f s))
      → ((m : Mode) → IsConsistent (per_mode m))
      → (m : Mode) → IsConsistent (update_mode d truth mode f per_mode m)
  update_mode-IsConsistent mode f per_mode step k m = elim (Bool-cases (same_mode m mode)) [
    | inl t ↦ rw t (step (per_mode m) (k m))
    | inr n ↦ rw n (k m)
  ]

  backtest_step-IsConsistent :
      (thresholds : Thresholds) (mode : Mode) (state : ℕ) (per_mode : Mode → Stats)
      (ranked : Option (List (RankedResult D)))
      → ((m : Mode) → IsConsistent (per_mode m))
      → (m : Mode)
      → IsConsistent ((backtest_step d truth thresholds mode state per_mode ranked).1 m)
  unfolding backtest_step count_pick
  backtest_step-IsConsistent thresholds mode state per_mode none k m = k m
  backtest_step-IsConsistent thresholds mode state per_mode (some []) k m = k m
  backtest_step-IsConsistent thresholds mode state per_mode (some (top ∷ rest)) k m =
      update_mode-IsConsistent mode (count_pick d truth thresholds (mulberry32 state).0 top rest)
        per_mode (λ s c. counted _ _ top.quoted_paise _ s (least_quoted-le top.quoted_paise rest) c)
        k m

  backtest-IsConsistent :
      (providers : List (Ranked D)) (thresholds : Thresholds) (reqs : List (Request × Mode))
      (state : ℕ) (per_mode : Mode → Stats)
      → ((m : Mode) → IsConsistent (per_mode m))
      → (m : Mode) → IsConsistent (backtest d truth providers thresholds reqs state per_mode m)
  unfolding backtest
  backtest-IsConsistent providers thresholds [] state per_mode k m = k m
  backtest-IsConsistent providers thresholds ((req, mode) ∷ reqs) state per_mode k m =
      backtest-IsConsistent providers thresholds reqs _ _
        (backtest_step-IsConsistent thresholds mode state per_mode
          (rank d providers req (some mode)) k)
        m

  -- The counts of a backtest fit together, for every mode, over any providers and requests: each failed
  -- job was flagged or not, no more failed or were flagged than were picked, recall and precision do
  -- not exceed one, and the picks cost no less than the cheapest feasible nodes.
  pub run_backtest-IsConsistent :
      (providers : List (Ranked D)) (requests : List (Request × Mode)) (thresholds : Thresholds)
      (mode : Mode)
      → IsConsistent (run_backtest d truth providers requests thresholds mode)
  unfolding run_backtest
  run_backtest-IsConsistent providers requests thresholds mode =
      backtest-IsConsistent providers thresholds requests 12648430 (λ m. no_stats)
        (λ m. no_stats-IsConsistent) mode
