-- ===== src/Marketplace/Rank/Dominance/Scores.antt =====
-- The result of a ranking: the feasible nodes by falling score, and no node below a worse one's score.
use mathlib.Core.Path.{subst}
use mathlib.Core.List.{Perm}
use mathlib.Core.List.Perm
use nodeva.Prelude.{
  ◌≡◌, ◌≤◌, Bool, true, false, some, List, [], ◌∷◌, refl, ap, map, where_rows, All,
}
use nodeva.Prelude.Sorting.{sort_by, Sorted, sort_by-Perm, sort_by-Sorted, sort_by-All}
use nodeva.Marketplace.Scheduler.{Request, feasible}
use nodeva.Marketplace.Rank.{
  Doubles, Ranked, Weights, Mode, modes, RankedResult, min_of, max_of, scaled, normalize, hours_of,
  perf_of, reliability_of, latency_of, score_of, expected_cost_paise, entry, entries, rank,
}
use nodeva.Marketplace.Rank.Dominance.{
  IsRounding, min_of-max_of, scaled_mono, expected_cost_paise_mono, score_of_mono,
}

-- No dearer, no slower, no less reliable and no farther.
pub record Dominates {ℓ} {D : Type ℓ} (d : Doubles D) (x y : Ranked D) : Type 0 where
  pub price : x.candidate.price_paise_hr ≤ y.candidate.price_paise_hr
  pub perf : d.leq (perf_of d y) (perf_of d x) ≡ true
  pub reliability : d.leq (reliability_of d y) (reliability_of d x) ≡ true
  pub latency : d.leq (latency_of d x) (latency_of d y) ≡ true

module _ {ℓ} {D : Type ℓ} (d : Doubles D) where
  -- Where a node stands on one scale of a pool.
  place : Bool → (Ranked D → D) → List (Ranked D) → Ranked D → D
  place lower f [] n = d.hundredths 50
  place lower f (m ∷ ms) n =
      scaled d lower (min_of d (f m) (map f ms)) (max_of d (f m) (map f ms)) (f n)

  map-map :
      (g : D → D) (f : Ranked D → D) (ns : List (Ranked D))
      → map g (map f ns) ≡ map (λ n. g (f n)) ns
  map-map g f [] = refl
  map-map g f (n ∷ ns) = ap (◌∷◌ (g (f n))) (map-map g f ns)

  normalize-map :
      (lower : Bool) (f : Ranked D → D) (pool : List (Ranked D))
      → normalize d (map f pool) lower ≡ map (place lower f pool) pool
  unfolding normalize place
  normalize-map lower f [] = refl
  normalize-map lower f (m ∷ ms) =
      ap (◌∷◌ (scaled d lower (min_of d (f m) (map f ms)) (max_of d (f m) (map f ms)) (f m)))
        (map-map (scaled d lower (min_of d (f m) (map f ms)) (max_of d (f m) (map f ms))) f ms)

  -- The score of a node within a pool.
  score_in : Weights → D → List (Ranked D) → Ranked D → D
  score_in w hours pool n =
      score_of d w (place true (λ m. expected_cost_paise d m hours) pool n)
        (place false (perf_of d) pool n) (place false (reliability_of d) pool n)
        (place true (latency_of d) pool n)

  entries-map :
      (hours : D) (w : Weights) (c p r l : Ranked D → D) (ns : List (Ranked D))
      → entries d hours w ns (map c ns) (map p ns) (map r ns) (map l ns)
        ≡ map (λ n. entry d hours n (score_of d w (c n) (p n) (r n) (l n))) ns
  entries-map hours w c p r l [] = refl
  entries-map hours w c p r l (n ∷ ns) =
      ap (◌∷◌ (entry d hours n (score_of d w (c n) (p n) (r n) (l n))))
        (entries-map hours w c p r l ns)

  abbrev pub by_score : RankedResult D → RankedResult D → Bool
  by_score a b = d.leq b.score a.score

  abbrev pool_of : List (Ranked D) → Request → List (Ranked D)
  pool_of nodes req = where_rows (λ n. feasible n.candidate req) nodes

  scored : Mode → Request → List (Ranked D) → List (RankedResult D)
  scored mode req pool =
      map (λ n. entry d (hours_of d req) n (score_in (modes mode) (hours_of d req) pool n)) pool

  rank-scored :
      (nodes : List (Ranked D)) (req : Request) (mode : Mode)
      → rank d nodes req (some mode) ≡ some (sort_by by_score (scored mode req (pool_of nodes req)))
  unfolding rank scored score_in
  rank-scored nodes req mode =
      let pool = pool_of nodes req in
      rw
        (
          normalize-map true (λ m. expected_cost_paise d m (hours_of d req)) pool,
          normalize-map false (perf_of d) pool,
          normalize-map false (reliability_of d) pool,
          normalize-map true (latency_of d) pool,
          entries-map (hours_of d req) (modes mode)
              (place true (λ m. expected_cost_paise d m (hours_of d req)) pool)
              (place false (perf_of d) pool) (place false (reliability_of d) pool)
              (place true (latency_of d) pool) pool,
        )
        refl

  All-map :
      (P : RankedResult D → Type 0) (f : Ranked D → RankedResult D) (ns : List (Ranked D))
      → ((n : Ranked D) → P (f n))
      → All P (map f ns)
  All-map P f [] h = tt
  All-map P f (n ∷ ns) h = (h n, All-map P f ns h)

  nodes-scored :
      (f : Ranked D → D) (hours : D) (ns : List (Ranked D))
      → map (λ e. e.node) (map (λ n. entry d hours n (f n)) ns) ≡ ns
  unfolding entry
  nodes-scored f hours [] = refl
  nodes-scored f hours (n ∷ ns) = ap (◌∷◌ n) (nodes-scored f hours ns)

  -- A node that dominates another has no lower score.
  abbrev pub Fair : List (RankedResult D) → Type 0
  Fair out = All (λ a. All (λ b. Dominates d a.node b.node → d.leq b.score a.score ≡ true) out) out

  module _ (laws : IsRounding d) where
    place_mono :
        (f : Ranked D → D) (pool : List (Ranked D)) (x y : Ranked D)
        → d.leq (f x) (f y) ≡ true
        → (d.leq (place false f pool x) (place false f pool y) ≡ true)
          × (d.leq (place true f pool y) (place true f pool x) ≡ true)
    unfolding place
    place_mono f [] x y h = (laws.leq_refl (d.hundredths 50), laws.leq_refl (d.hundredths 50))
    place_mono f (m ∷ ms) x y h =
        scaled_mono d laws (min_of d (f m) (map f ms)) (max_of d (f m) (map f ms)) (f x) (f y)
          (min_of-max_of d laws (f m) (map f ms)) h

    score_in_mono :
        (w : Weights) (hours : D) (pool : List (Ranked D)) (x y : Ranked D)
        → d.leq (d.of_nat 0) hours ≡ true
        → Dominates d x y
        → d.leq (score_in w hours pool y) (score_in w hours pool x) ≡ true
    unfolding score_in
    score_in_mono w hours pool x y h better =
        score_of_mono d laws w _ _ _ _ _ _ _ _
          (place_mono (λ m. expected_cost_paise d m hours) pool x y
            (expected_cost_paise_mono d laws x y hours h better.price better.reliability)).1
          (place_mono (perf_of d) pool y x better.perf).0
          (place_mono (reliability_of d) pool y x better.reliability).0
          (place_mono (latency_of d) pool x y better.latency).1

    scored-Fair :
        (mode : Mode) (req : Request) (pool : List (Ranked D))
        → d.leq (d.of_nat 0) (hours_of d req) ≡ true
        → Fair (sort_by by_score (scored mode req pool))
    unfolding scored entry
    scored-Fair mode req pool h = sort_by-All by_score _ (scored mode req pool) (
        All-map _ _ pool (λ x. sort_by-All by_score _ (scored mode req pool) (
          All-map _ _ pool
            (λ y better. score_in_mono (modes mode) (hours_of d req) pool x y h better))))

    -- A ranking returns the feasible nodes, each as often as it was given, by falling score; and for a
    -- request that lasts no negative time, a node that is no dearer, no slower, no less reliable and no
    -- farther than another never scores below it, whatever the mode and whatever else is in the pool.
    pub rank_lem :
        (nodes : List (Ranked D)) (req : Request) (mode : Mode)
        → d.leq (d.of_nat 0) (hours_of d req) ≡ true
        → (out : List (RankedResult D)) × (rank d nodes req (some mode) ≡ some out)
          × Perm (map (λ e. e.node) out) (where_rows (λ n. feasible n.candidate req) nodes)
          × Sorted by_score out
          × Fair out
    unfolding scored
    rank_lem nodes req mode h =
        let pool = pool_of nodes req in
        let out = sort_by by_score (scored mode req pool) in
        (
          out,
          rank-scored nodes req mode,
          subst (λ t. Perm (map (λ e. e.node) out) t)
              (nodes-scored (score_in (modes mode) (hours_of d req) pool) (hours_of d req) pool)
              (Perm.map (λ e. e.node) (sort_by-Perm by_score (scored mode req pool))),
          sort_by-Sorted by_score (scored mode req pool)
              (λ a b c p q. laws.leq_trans c.score b.score a.score q p)
              (λ a b f. laws.leq_total b.score a.score f),
          scored-Fair mode req pool h,
        )
