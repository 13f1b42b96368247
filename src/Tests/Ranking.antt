-- ===== src/Tests/Ranking.antt =====
-- A ranking, in numbers with three decimals.
use mathlib.Core.List.{Perm}
use native.Mathlib.Nat.{
  mul_comm, mul-le-mul_left, mul-le-mul_right, div-mul-le_self, le-div_iff_mul-le,
}
use nodeva.Prelude.{
  Option, ℕ, ◌≡◌, ◌≤◌, ◌<◌, ◌+◌, ◌-◌, ◌*◌, ◌/◌, refl, ap, arith, true, false, none, some, List, [],
  ◌∷◌, leb, leb→le, ceil_div, map, where_rows,
}
use nodeva.Prelude.Sorting.{Sorted}
use nodeva.Marketplace.Scheduler.{covers_window, Request, Window, feasible, online}
use nodeva.Marketplace.Rank.{
  normalize, scaled, entry, expected_cost_paise, clamp, Doubles, Ranked, RankedResult, rank,
  best_value,
}
use nodeva.Marketplace.Rank.Dominance.{IsRounding}
use nodeva.Marketplace.Rank.Dominance.Scores.{Fair, by_score, rank_lem}

abbrev pub thousandths : Doubles ℕ
thousandths = record {
  of_nat = λ n. 1000 * n;
  of_fraction = λ f. (f.num * 1000) / f.den;
  hundredths = λ n. 10 * n;
  add = λ a b. a + b;
  sub = λ a b. a - b;
  mul = λ a b. (a * b) / 1000;
  div = λ a b. (a * 1000) / b;
  leq = λ a b. leb a b;
  ceil = λ a. ceil_div a 1000;
  round = λ a. (a + 500) / 1000;
}

div_mono : (a b c : ℕ) → 0 < c → a ≤ b → a / c ≤ b / c
div_mono a b c p h =
    let low = div-mul-le_self a c in (le-div_iff_mul-le p).1 (omega (arith, low, h))

div_anti : (a b c : ℕ) → 0 < a → a ≤ b → c / b ≤ c / a
div_anti a b c p h =
    let low = div-mul-le_self c b in
    let less = mul-le-mul_left (c / b) h in (le-div_iff_mul-le p).1 (omega (arith, low, less))

le→leb : (a b : ℕ) → a ≤ b → leb a b ≡ true
le→leb a b h = ground arith

not_leb : (a b : ℕ) → leb a b ≡ false → b < a
not_leb a b h = ground arith

thousandths-IsRounding : IsRounding thousandths
thousandths-IsRounding = record {
  leq_refl = λ a. ground arith;
  leq_trans = λ a b c p q. ground arith;
  leq_total = λ a b p. ground arith;
  of_nat_mono = λ m n h. ground arith;
  literal_mono = λ m n h. ground arith;
  literal_zero = refl;
  cent_positive = refl;
  add_mono = λ a b x y p q. ground arith;
  sub_mono = λ a b c p. ground arith;
  sub_anti = λ a b c p. ground arith;
  sub_positive = λ a b p. ground arith;
  mul_comm = λ a b. ap (λ t. t / 1000) (mul_comm a b);
  mul_mono = λ c a b p q.
      le→leb _ _ (div_mono (c * a) (c * b) 1000 (omega arith) (mul-le-mul_left c (leb→le a b q)));
  mul_nonnegative = λ a b p q. le→leb 0 _ (omega arith);
  div_mono = λ a b c p q.
      le→leb _ _
        (div_mono (a * 1000) (b * 1000) c (not_leb c 0 p) (mul-le-mul_right 1000 (leb→le a b q)));
  div_anti = λ a b c p q r. le→leb _ _ (div_anti a b (c * 1000) (not_leb a 0 q) (leb→le a b r));
}

abbrev all_morning : List Window
all_morning = record { start = 0; end = 36000000 } ∷ []

abbrev a_node : ℕ → ℕ → ℕ → Ranked ℕ
a_node price perf failures = record {
  candidate = record {
    status = online;
    gpu_vram_mb = 8192;
    cpu_cores = 8;
    ram_mb = 16384;
    price_paise_hr = price;
    availability = some all_morning;
  };
  perf_score = some (1000 * perf);
  reliability = some (record { num = 10 - failures; den = 10 });
  latency_ms = none;
  rep_jobs_total = some 10;
}

abbrev pub two_hours : Request
two_hours = record {
  min_vram_mb = 4096;
  min_cpu_cores = 4;
  min_ram_mb = 8192;
  max_price_paise_hr = some 6000;
  starts_at = 3600000;
  ends_at = 10800000;
}

-- The third costs more than the limit.
abbrev pub three_nodes : List (Ranked ℕ)
three_nodes = a_node 4000 50 4 ∷ a_node 3500 60 1 ∷ a_node 9000 90 0 ∷ []

rank_lem_example :
    (out : List (RankedResult ℕ)) × (rank thousandths three_nodes two_hours (some best_value)
      ≡ some out)
    × Perm (map (λ e. e.node) out) (where_rows (λ n. feasible n.candidate two_hours) three_nodes)
    × Sorted (by_score thousandths) out
    × Fair thousandths out
rank_lem_example = rank_lem thousandths thousandths-IsRounding three_nodes two_hours best_value refl

abbrev scores : Option (List (RankedResult ℕ)) → List ℕ
scores none = []
scores (some rs) = map (λ r. r.score) rs

-- The better of two nodes gets the full score, the other what the equal latencies give.
two_scores : scores (rank thousandths three_nodes two_hours (some best_value)) ≡ 950 ∷ 50 ∷ []
unfolding rank normalize scaled entry expected_cost_paise clamp feasible covers_window
two_scores = refl
