-- ===== src/Marketplace/Rank/Dominance.antt =====
-- What the ranking does with nodes of which one is better on every count.
pub mod Scores
use nodeva.Prelude.{
  sym, ◌∙◌, arith, ◌≢◌, ℕ, ◌≡◌, ◌≤◌, Bool, true, false, List, [], ◌∷◌, Bool-cases, inl, inr, refl,
  map, ap,
}
use nodeva.Marketplace.Rank.{
  Doubles, Ranked, Weights, least, greatest, clamp, expected_cost_paise, min_of, max_of, same,
  scaled, zero_of, perf_of, reliability_of, latency_of, score_of,
}

-- What IEEE 754 says of numbers that are finite: the comparison is a total order, rounding is monotone,
-- so are the operations, and a difference of different numbers is not zero.
pub record IsRounding {ℓ} {D : Type ℓ} (d : Doubles D) : Type ℓ where
  pub leq_refl : (a : D) → d.leq a a ≡ true
  pub leq_trans : (a b c : D) → d.leq a b ≡ true → d.leq b c ≡ true → d.leq a c ≡ true
  pub leq_total : (a b : D) → d.leq a b ≡ false → d.leq b a ≡ true
  pub of_nat_mono : (m n : ℕ) → m ≤ n → d.leq (d.of_nat m) (d.of_nat n) ≡ true
  pub literal_mono : (m n : ℕ) → m ≤ n → d.leq (d.hundredths m) (d.hundredths n) ≡ true
  pub literal_zero : d.leq (d.of_nat 0) (d.hundredths 0) ≡ true
  pub cent_positive : d.leq (d.hundredths 1) (d.of_nat 0) ≡ false
  pub add_mono :
      (a b x y : D) → d.leq a b ≡ true → d.leq x y ≡ true → d.leq (d.add a x) (d.add b y) ≡ true
  pub sub_mono : (a b c : D) → d.leq a b ≡ true → d.leq (d.sub a c) (d.sub b c) ≡ true
  pub sub_anti : (a b c : D) → d.leq a b ≡ true → d.leq (d.sub c b) (d.sub c a) ≡ true
  pub sub_positive : (a b : D) → d.leq a b ≡ false → d.leq (d.sub a b) (d.of_nat 0) ≡ false
  pub mul_comm : (a b : D) → d.mul a b ≡ d.mul b a
  pub mul_mono :
      (c a b : D)
      → d.leq (d.of_nat 0) c ≡ true
      → d.leq a b ≡ true
      → d.leq (d.mul c a) (d.mul c b) ≡ true
  pub mul_nonnegative :
      (a b : D)
      → d.leq (d.of_nat 0) a ≡ true
      → d.leq (d.of_nat 0) b ≡ true
      → d.leq (d.of_nat 0) (d.mul a b) ≡ true
  pub div_mono :
      (a b c : D)
      → d.leq c (d.of_nat 0) ≡ false
      → d.leq a b ≡ true
      → d.leq (d.div a c) (d.div b c) ≡ true
  pub div_anti :
      (a b c : D)
      → d.leq (d.of_nat 0) c ≡ true
      → d.leq a (d.of_nat 0) ≡ false
      → d.leq a b ≡ true
      → d.leq (d.div c b) (d.div c a) ≡ true

bool_apart : true ≢ false
bool_apart e = absurd cc

module _ {ℓ} {D : Type ℓ} (d : Doubles D) (laws : IsRounding d) where
  least-left : (a b : D) → d.leq (least d a b) a ≡ true
  least-left a b = elim (Bool-cases (d.leq a b)) [
    | inl t ↦ rw t (laws.leq_refl a)
    | inr f ↦ rw f (laws.leq_total a b f)
  ]

  least-right : (a b : D) → d.leq (least d a b) b ≡ true
  least-right a b = elim (Bool-cases (d.leq a b)) [
    | inl t ↦ rw (t, t) refl
    | inr f ↦ rw f (laws.leq_refl b)
  ]

  least-greatest-lower :
      (c a b : D) → d.leq c a ≡ true → d.leq c b ≡ true → d.leq c (least d a b) ≡ true
  least-greatest-lower c a b p q = elim (Bool-cases (d.leq a b)) [ inl t ↦ rw t p | inr f ↦ rw f q ]

  least_mono : (c a b : D) → d.leq a b ≡ true → d.leq (least d c a) (least d c b) ≡ true
  least_mono c a b h =
      least-greatest-lower (least d c a) c b (least-left c a)
        (laws.leq_trans (least d c a) a b (least-right c a) h)

  greatest-left : (a b : D) → d.leq a (greatest d a b) ≡ true
  greatest-left a b = elim (Bool-cases (d.leq a b)) [
    | inl t ↦ rw (t, t) refl
    | inr f ↦ rw f (laws.leq_refl a)
  ]

  greatest-right : (a b : D) → d.leq b (greatest d a b) ≡ true
  greatest-right a b = elim (Bool-cases (d.leq a b)) [
    | inl t ↦ rw t (laws.leq_refl b)
    | inr f ↦ rw f (laws.leq_total a b f)
  ]

  greatest-least-upper :
      (c a b : D) → d.leq a c ≡ true → d.leq b c ≡ true → d.leq (greatest d a b) c ≡ true
  greatest-least-upper c a b p q = elim (Bool-cases (d.leq a b)) [ inl t ↦ rw t q | inr f ↦ rw f p ]

  greatest_mono : (c a b : D) → d.leq a b ≡ true → d.leq (greatest d c a) (greatest d c b) ≡ true
  greatest_mono c a b h =
      greatest-least-upper (greatest d c b) c a (greatest-left c b)
        (laws.leq_trans a b (greatest d c b) h (greatest-right c b))

  clamp_mono : (a b lo hi : D) → d.leq a b ≡ true → d.leq (clamp d a lo hi) (clamp d b lo hi) ≡ true
  unfolding clamp
  clamp_mono a b lo hi h =
      least_mono hi (greatest d lo a) (greatest d lo b) (greatest_mono lo a b h)

  clamp-low : (v lo hi : D) → d.leq lo hi ≡ true → d.leq lo (clamp d v lo hi) ≡ true
  unfolding clamp
  clamp-low v lo hi h = least-greatest-lower lo hi (greatest d lo v) h (greatest-left lo v)

  min_of-low : (m : D) (vs : List D) → d.leq (min_of d m vs) m ≡ true
  min_of-low m [] = laws.leq_refl m
  min_of-low m (v ∷ vs) =
      laws.leq_trans (min_of d (least d v m) vs) (least d v m) m (min_of-low (least d v m) vs)
        (least-right v m)

  max_of-high : (m : D) (vs : List D) → d.leq m (max_of d m vs) ≡ true
  max_of-high m [] = laws.leq_refl m
  max_of-high m (v ∷ vs) =
      laws.leq_trans m (greatest d m v) (max_of d (greatest d m v) vs) (greatest-left m v)
        (max_of-high (greatest d m v) vs)

  -- The least of some numbers is at most the greatest.
  pub min_of-max_of : (m : D) (vs : List D) → d.leq (min_of d m vs) (max_of d m vs) ≡ true
  min_of-max_of m vs =
      laws.leq_trans (min_of d m vs) m (max_of d m vs) (min_of-low m vs) (max_of-high m vs)

  -- On a scale on which more is better, more is no worse.
  pub scaled_mono :
      (low high a b : D)
      → d.leq low high ≡ true
      → d.leq a b ≡ true
      → (d.leq (scaled d false low high a) (scaled d false low high b) ≡ true)
        × (d.leq (scaled d true low high b) (scaled d true low high a) ≡ true)
  unfolding scaled
  scaled_mono low high a b r h = elim (Bool-cases (d.leq high low)) [
    | inl t ↦ rw (t, r) (laws.leq_refl (d.hundredths 50), laws.leq_refl (d.hundredths 50))
    | inr f ↦
        let steps =
          laws.div_mono (d.sub a low) (d.sub b low) (d.sub high low) (laws.sub_positive high low f)
            (laws.sub_mono a b low h) in
        rw f (steps, laws.sub_anti _ _ (d.hundredths 100) steps)
  ]

  clamped_positive :
      (v : D) → d.leq (clamp d v (d.hundredths 1) (d.hundredths 100)) (d.of_nat 0) ≡ false
  clamped_positive v =
      let r = clamp d v (d.hundredths 1) (d.hundredths 100) in
      let low =
        clamp-low v (d.hundredths 1) (d.hundredths 100) (laws.literal_mono 1 100 (omega arith)) in
      elim (Bool-cases (d.leq r (d.of_nat 0))) [
        | inr f ↦ f
        | inl t ↦ absurd (
            bool_apart
              (sym (laws.leq_trans (d.hundredths 1) r (d.of_nat 0) low t) ∙ laws.cent_positive))
      ]

  -- A cheaper and more reliable node is expected to cost no more.
  pub expected_cost_paise_mono :
      (x y : Ranked D) (hours : D)
      → d.leq (d.of_nat 0) hours ≡ true
      → x.candidate.price_paise_hr ≤ y.candidate.price_paise_hr
      → d.leq (reliability_of d y) (reliability_of d x) ≡ true
      → d.leq (expected_cost_paise d x hours) (expected_cost_paise d y hours) ≡ true
  unfolding expected_cost_paise
  expected_cost_paise_mono x y hours h p r =
      let rx = clamp d (reliability_of d x) (d.hundredths 1) (d.hundredths 100) in
      let ry = clamp d (reliability_of d y) (d.hundredths 1) (d.hundredths 100) in
      let nx = d.of_nat x.candidate.price_paise_hr in
      let ny = d.of_nat y.candidate.price_paise_hr in
      let prices : d.leq (d.mul nx hours) (d.mul ny hours) ≡ true =
        rw (laws.mul_comm nx hours, laws.mul_comm ny hours)
          (laws.mul_mono hours nx ny h (laws.of_nat_mono _ _ p)) in
      let paid = laws.mul_nonnegative ny hours (laws.of_nat_mono 0 _ (omega arith)) h in
      laws.leq_trans _ (d.div (d.mul ny hours) rx) _
        (laws.div_mono (d.mul nx hours) (d.mul ny hours) rx (clamped_positive (reliability_of d x))
          prices)
        (laws.div_anti ry rx (d.mul ny hours) paid (clamped_positive (reliability_of d y)) (
          clamp_mono (reliability_of d y) (reliability_of d x) (d.hundredths 1) (d.hundredths 100)
            r))

  weight_positive : (k : ℕ) → d.leq (d.of_nat 0) (d.hundredths k) ≡ true
  weight_positive k =
      laws.leq_trans (d.of_nat 0) (d.hundredths 0) (d.hundredths k) laws.literal_zero
        (laws.literal_mono 0 k (omega arith))

  -- Better on each scale, better in the sum.
  pub score_of_mono :
      (w : Weights) (c c' p p' r r' l l' : D)
      → d.leq c c' ≡ true
      → d.leq p p' ≡ true
      → d.leq r r' ≡ true
      → d.leq l l' ≡ true
      → d.leq (score_of d w c p r l) (score_of d w c' p' r' l') ≡ true
  score_of_mono w c c' p p' r r' l l' hc hp hr hl =
      laws.add_mono _ _ _ _
        (laws.add_mono _ _ _ _
          (laws.add_mono _ _ _ _
            (laws.mul_mono (d.hundredths w.cost) c c' (weight_positive w.cost) hc)
            (laws.mul_mono (d.hundredths w.perf) p p' (weight_positive w.perf) hp))
          (laws.mul_mono (d.hundredths w.reliability) r r' (weight_positive w.reliability) hr))
        (laws.mul_mono (d.hundredths w.latency) l l' (weight_positive w.latency) hl)
