-- ===== src/Marketplace/Rank.antt =====
-- The scores and the ranking of backend/src/marketplace/scheduler.js. The arithmetic of JavaScript's
-- numbers is a parameter.
pub mod Dominance
use nodeva.Prelude.{
  ℕ, Bool, true, false, not, ◌&&◌, Option, none, some, List, [], ◌∷◌, map, where_rows, get_or,
  if◌then◌else◌,
}
use nodeva.Prelude.Sorting.{sort_by}
use nodeva.Jobs.Verification.{Fraction, Reason, recommend_verification, default_thresholds}
use nodeva.Marketplace.Scheduler.{Candidate, Request, feasible}

-- Double-precision numbers: whole numbers, fractions and the literals n / 100 as the nearest double,
-- the four operations, the comparison `<=`, `Math.ceil` and `Math.round`.
pub record Doubles {ℓ} (D : Type ℓ) : Type ℓ where
  pub of_nat : ℕ → D
  pub of_fraction : Fraction → D
  pub hundredths : ℕ → D
  pub add : D → D → D
  pub sub : D → D → D
  pub mul : D → D → D
  pub div : D → D → D
  pub leq : D → D → Bool
  pub ceil : D → ℕ
  pub round : D → ℕ

-- One row of the search: the columns that a ranking reads.
pub record Ranked {ℓ} (D : Type ℓ) : Type ℓ where
  pub candidate : Candidate
  pub perf_score : Option D
  pub reliability : Option Fraction
  pub latency_ms : Option D
  pub rep_jobs_total : Option ℕ

pub data Mode : Type 0 where
  cheapest best_value fastest : Mode

-- Percents.
pub record Weights : Type 0 where
  pub cost : ℕ
  pub perf : ℕ
  pub reliability : ℕ
  pub latency : ℕ

-- `MODES`
abbrev pub modes : Mode → Weights
modes cheapest = record { cost = 70; perf = 5; reliability = 20; latency = 5 }
modes best_value = record { cost = 35; perf = 30; reliability = 25; latency = 10 }
modes fastest = record { cost = 5; perf = 60; reliability = 20; latency = 15 }

pub record RankedResult {ℓ} (D : Type ℓ) : Type ℓ where
  pub node : Ranked D
  pub score : D
  pub quoted_paise : ℕ
  pub expected_cost_paise : ℕ
  pub verification_reasons : List Reason

module _ {ℓ} {D : Type ℓ} (d : Doubles D) where
  abbrev pub zero_of : D
  zero_of = d.of_nat 0

  -- `Math.min` and `Math.max` of two.
  abbrev pub least : D → D → D
  least a b = if d.leq a b then a else b

  abbrev pub greatest : D → D → D
  greatest a b = if d.leq a b then b else a

  -- `clamp`
  unfoldable pub clamp : D → D → D → D
  clamp v lo hi = least hi (greatest lo v)

  -- `expectedCostPaise`
  unfoldable pub expected_cost_paise : Ranked D → D → D
  unfolding clamp
  expected_cost_paise node hours =
      let half : Fraction = record { num = 1; den = 2 } in
      let r =
        clamp (d.of_fraction (get_or half node.reliability)) (d.hundredths 1) (d.hundredths 100) in
      d.div (d.mul (d.of_nat node.candidate.price_paise_hr) hours) r

  -- `Math.min(...values)` and `Math.max(...values)` of one value and more.
  abbrev pub min_of : D → List D → D
  min_of m [] = m
  min_of m (v ∷ vs) = min_of (least v m) vs

  abbrev pub max_of : D → List D → D
  max_of m [] = m
  max_of m (v ∷ vs) = max_of (greatest m v) vs

  abbrev pub same : D → D → Bool
  same a b = d.leq a b && d.leq b a

  -- One value on the scale from the least to the greatest.
  unfoldable pub scaled : Bool → D → D → D → D
  scaled lower_is_better low high v =
      let t = d.div (d.sub v low) (d.sub high low) in
      if same high low
      then d.hundredths 50
      else if lower_is_better
      then d.sub (d.hundredths 100) t
      else t

  -- `normalize`
  unfoldable pub normalize : List D → Bool → List D
  unfolding scaled
  normalize [] lower_is_better = []
  normalize (v ∷ vs) lower_is_better =
      map (scaled lower_is_better (min_of v vs) (max_of v vs)) (v ∷ vs)

  abbrev pub hours_of : Request → D
  hours_of req = d.div (d.sub (d.of_nat req.ends_at) (d.of_nat req.starts_at)) (d.of_nat 3600000)

  abbrev pub perf_of : Ranked D → D
  perf_of n = get_or zero_of n.perf_score

  abbrev pub reliability_of : Ranked D → D
  reliability_of n = d.of_fraction (get_or (record { num = 1; den = 2 }) n.reliability)

  abbrev pub latency_of : Ranked D → D
  latency_of n = get_or zero_of n.latency_ms

  abbrev pub score_of : Weights → D → D → D → D → D
  score_of w cost perf reliability latency =
      d.add
        (d.add (d.add (d.mul (d.hundredths w.cost) cost) (d.mul (d.hundredths w.perf) perf))
          (d.mul (d.hundredths w.reliability) reliability))
        (d.mul (d.hundredths w.latency) latency)

  -- What `rank` returns for one node of the pool.
  unfoldable pub entry : D → Ranked D → D → RankedResult D
  unfolding expected_cost_paise
  entry hours n score =
      let quoted = d.ceil (d.mul (d.of_nat n.candidate.price_paise_hr) hours) in
      record {
        node = n;
        score = score;
        quoted_paise = quoted;
        expected_cost_paise = d.round (expected_cost_paise n hours);
        verification_reasons =
            recommend_verification n.rep_jobs_total n.reliability (some quoted) default_thresholds;
      }

  -- The `map` over the pool and the four normalized columns at one index.
  abbrev pub entries :
      D
      → Weights
      → List (Ranked D)
      → (cost perf reliability latency : List D) → List (RankedResult D)
  entries hours w (n ∷ ns) (c ∷ cs) (p ∷ ps) (r ∷ rs) (l ∷ ls) =
      entry hours n (score_of w c p r l) ∷ entries hours w ns cs ps rs ls
  entries hours w _ _ _ _ _ = []

  -- `rank`; the texts that name no mode are `none`, and throw.
  unfoldable pub rank : List (Ranked D) → Request → Option Mode → Option (List (RankedResult D))
  unfolding normalize entry
  rank nodes req none = none
  rank nodes req (some mode) =
      let pool = where_rows (λ n. feasible n.candidate req) nodes in
      let hours = hours_of req in
      some (
        sort_by (λ a b. d.leq b.score a.score)
          (entries hours (modes mode) pool
            (normalize (map (λ n. expected_cost_paise n hours) pool) true)
            (normalize (map perf_of pool) false) (normalize (map reliability_of pool) false)
            (normalize (map latency_of pool) true)))
