-- ===== src/Scripts/Simulation.antt =====
-- backend/scripts/scheduler_simulation.js: the generator of random numbers, the requests that it makes,
-- and one pass of the backtest. The synthetic population and the printed report are left out; the field
-- `_trueReliability` of a node is a function of the node.
pub mod Counts
use Prim.Native.Nat.{bit_xor, bit_or}
use nodeva.Prelude.{
  ℕ, zero, suc, ◌+◌, ◌*◌, ◌/◌, ◌%◌, ◌^◌, Bool, true, false, not, ltb, min, Option, none, some, List,
  [], ◌∷◌, if◌then◌else◌,
}
use nodeva.Jobs.Verification.{Fraction, Reason, Thresholds, recommend_verification}
use nodeva.Marketplace.Scheduler.{Request}
use nodeva.Marketplace.Rank.{
  Doubles, Ranked, RankedResult, Mode, cheapest, best_value, fastest, rank,
}

-- A 32-bit integer; a signed one is the number with the same bits.
abbrev pub word : ℕ → ℕ
word a = a % 2 ^ 32

abbrev pub xor_shifted : ℕ → ℕ → ℕ
xor_shifted t n = bit_xor t (t / 2 ^ n)

-- One call of the function that `mulberry32` returns: its result times 2 ^ 32, and the next state.
unfoldable pub mulberry32 : ℕ → ℕ × ℕ
mulberry32 state =
    let a = word (word state + 1831565813) in
    let t = word (xor_shifted a 15 * bit_or 1 a) in
    let u = word (bit_xor (word (t + word (xor_shifted t 7 * bit_or 61 t))) t) in
    (word (xor_shifted u 14), a)

-- `Math.floor(rand() * k)`; the product of so small a `k` is exact.
abbrev pub below : ℕ → ℕ → ℕ
below roll k = (roll * k) / 2 ^ 32

-- `[...][i]`, where a position out of range is `undefined`.
abbrev pub at {ℓ} : {A : Type ℓ} → List A → ℕ → Option A
at [] i = none
at (x ∷ xs) zero = some x
at (x ∷ xs) (suc i) = at xs i

abbrev pub request_of : Option ℕ → Option ℕ → Option ℕ → ℕ → Option Mode → Option (Request × Mode)
request_of (some vram) (some cores) (some ram) price (some mode) = some (
  record {
    min_vram_mb = vram;
    min_cpu_cores = cores;
    min_ram_mb = ram;
    max_price_paise_hr = some price;
    starts_at = 0;
    ends_at = 3600000;
  },
  mode,
)
request_of _ _ _ _ _ = none

-- `generateRequest`, with the next state; `none` would be a request with an undefined part.
unfoldable pub generate_request : ℕ → Option (Request × Mode) × ℕ
unfolding mulberry32
generate_request s0 =
    let (r1, s1) = mulberry32 s0 in
    let (r2, s2) = mulberry32 s1 in
    let (r3, s3) = mulberry32 s2 in
    let (r4, s4) = mulberry32 s3 in
    let (r5, s5) = mulberry32 s4 in
    (
      request_of (at (8192 ∷ 12288 ∷ 16384 ∷ 20480 ∷ []) (below r1 4))
          (at (4 ∷ 8 ∷ 16 ∷ []) (below r2 3)) (at (8192 ∷ 16384 ∷ 32768 ∷ []) (below r3 3))
          (3000 + below r4 9000) (at (cheapest ∷ best_value ∷ fastest ∷ []) (below r5 3)),
      s5,
    )

-- The counters of one mode.
pub record Stats : Type 0 where
  pub picked : ℕ
  pub failed : ℕ
  pub recommended : ℕ
  pub recommended_and_failed : ℕ
  pub not_recommended_and_failed : ℕ
  pub total_quoted_paise : ℕ
  pub total_cheapest_feasible_paise : ℕ

abbrev pub no_stats : Stats
no_stats = record {
  picked = 0;
  failed = 0;
  recommended = 0;
  recommended_and_failed = 0;
  not_recommended_and_failed = 0;
  total_quoted_paise = 0;
  total_cheapest_feasible_paise = 0;
}

abbrev pub is_any : List Reason → Bool
is_any [] = false
is_any (r ∷ rs) = true

abbrev one_if : Bool → ℕ
one_if true = 1
one_if false = 0

abbrev pub same_mode : Mode → Mode → Bool
same_mode cheapest cheapest = true
same_mode best_value best_value = true
same_mode fastest fastest = true
same_mode _ _ = false

module _ {ℓ} {D : Type ℓ} (d : Doubles D) (true_reliability : Ranked D → D) where
  -- `Math.min(...ranked.map(r => r.quoted_paise))`
  abbrev pub least_quoted : ℕ → List (RankedResult D) → ℕ
  least_quoted m [] = m
  least_quoted m (r ∷ rs) = least_quoted (min m r.quoted_paise) rs

  -- What a pass counts for one request, by what was picked and the roll that decides its outcome.
  unfoldable pub count_pick :
      Thresholds → ℕ → RankedResult D → List (RankedResult D) → Stats → Stats
  unfolding recommend_verification
  count_pick thresholds roll top rest s =
      let failed =
        not (
          d.leq (d.of_fraction (record { num = roll; den = 2 ^ 32 }))
            (true_reliability top.node)) in
      let recommended = is_any (
        recommend_verification top.node.rep_jobs_total top.node.reliability (some top.quoted_paise)
          thresholds) in
      record {
        picked = s.picked + 1;
        failed = s.failed + one_if failed;
        recommended = s.recommended + one_if recommended;
        recommended_and_failed =
            s.recommended_and_failed + (if recommended then one_if failed else 0);
        not_recommended_and_failed =
            s.not_recommended_and_failed + (if recommended then 0 else one_if failed);
        total_quoted_paise = s.total_quoted_paise + top.quoted_paise;
        total_cheapest_feasible_paise =
            s.total_cheapest_feasible_paise + least_quoted top.quoted_paise rest;
      }

  abbrev pub update_mode : Mode → (Stats → Stats) → (Mode → Stats) → Mode → Stats
  update_mode mode f per_mode m = if same_mode m mode then f (per_mode m) else per_mode m

  -- The body of the loop over the requests; only a pick draws from the generator.
  unfoldable pub backtest_step :
      Thresholds → Mode → ℕ → (Mode → Stats) → Option (List (RankedResult D)) → ℕ × (Mode → Stats)
  unfolding mulberry32 count_pick
  backtest_step thresholds mode state per_mode none = (state, per_mode)
  backtest_step thresholds mode state per_mode (some []) = (state, per_mode)
  backtest_step thresholds mode state per_mode (some (top ∷ rest)) =
      let (roll, next) = mulberry32 state in
      (next, update_mode mode (count_pick thresholds roll top rest) per_mode)

  unfoldable pub backtest :
      List (Ranked D) → Thresholds → List (Request × Mode) → ℕ → (Mode → Stats) → Mode → Stats
  unfolding backtest_step rank
  backtest providers thresholds [] state per_mode = per_mode
  backtest providers thresholds ((req, mode) ∷ reqs) state per_mode =
      let (next, per_mode') =
        backtest_step thresholds mode state per_mode (rank d providers req (some mode)) in
      backtest providers thresholds reqs next per_mode'

  -- `runBacktest`, up to the fractions of its summary.
  unfoldable pub run_backtest : List (Ranked D) → List (Request × Mode) → Thresholds → Mode → Stats
  unfolding backtest
  run_backtest providers requests thresholds =
      backtest providers thresholds requests 12648430 (λ m. no_stats)

-- The fractions of the summary: of the failed jobs, those flagged; of the flagged, those failed.
abbrev pub fraction_of : ℕ → ℕ → Option Fraction
fraction_of a zero = none
fraction_of a (suc n) = some (record { num = a; den = suc n })

abbrev pub recall : Stats → Option Fraction
recall s = fraction_of s.recommended_and_failed s.failed

abbrev pub precision : Stats → Option Fraction
precision s = fraction_of s.recommended_and_failed s.recommended
