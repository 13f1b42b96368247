-- ===== src/Payments/Settle/Bounds.antt =====
-- What the settlement math promises: exact splits, quotes that never shave the provider, and metered
-- bills between the floor and the quote.
use nodeva.Prelude.{mul_mono, ℕ, ◌+◌, ◌*◌, ◌≤◌, ◌<◌, ◌≡◌, ◌⊎◌, refl, max, arith, ceil_div}
use nodeva.Prelude.Int.{pos}
use nodeva.Payments.Settle.{
  ok, Split, split_total, split, window_seconds, quote, metered_charge, platform_fee_bps,
  minimum_minutes,
}

-- `ceil_div` is the least number of parts of size `d` that hold `n`.
ceil_60 : (n : ℕ) → (n ≤ ceil_div n 60 * 60) × (ceil_div n 60 * 60 < n + 60)
ceil_60 n = omega arith

ceil_10000 : (n : ℕ) → (n ≤ ceil_div n 10000 * 10000) × (ceil_div n 10000 * 10000 < n + 10000)
ceil_10000 n = omega arith

pub ceil_60_mono : (m n : ℕ) → m ≤ n → ceil_div m 60 ≤ ceil_div n 60
ceil_60_mono m n h = omega arith

-- Nothing is invented or destroyed: for a fee of at most 100% the two parts add up to the total.
pub split_exact :
    (total fee_bps : ℕ)
    → fee_bps ≤ 10000
    → let s = split_total total fee_bps in s.provider + s.platform ≡ total
unfolding split_total
split_exact total fee_bps h =
    let p : total * fee_bps ≤ total * 10000 = grind arith in
    omega (arith, ceil_10000 (total * fee_bps))

-- At the fee of the platform a split of a non-negative total succeeds and is exact, and the
-- platform's part is the least whole number of paise that is no less than a tenth of the total.
pub split_fee :
    (total : ℕ)
    → (s : Split) × (split (pos total) platform_fee_bps ≡ ok s)
      × (s.provider + s.platform ≡ total)
      × (total ≤ s.platform * 10)
      × (s.platform * 10 < total + 10)
unfolding split
split_fee total =
    (split_total total platform_fee_bps, refl, ground arith, ground arith, ground arith)

pub charge_for_minutes :
    (price minutes seconds : ℕ)
    → seconds ≤ minutes * 60
    → minutes * 60 < seconds + 60
    → let q = ceil_div (price * minutes) 60 in
      (price * seconds ≤ q * 3600) × (q * 3600 < price * (seconds + 60) + 3600)
charge_for_minutes price minutes seconds h k =
    let low : price * seconds ≤ price * (minutes * 60) = mul_mono price seconds (minutes * 60) h in
    let high : price * (minutes * 60) ≤ price * (seconds + 60) =
      mul_mono price (minutes * 60) (seconds + 60) (omega arith) in
    omega (arith, ceil_60 (price * minutes))

-- A longer window never costs less.
pub quote_mono :
    (price starts_at ends_at later : ℕ) {p q : ℕ}
    → ends_at ≤ later
    → quote price starts_at ends_at ≡ ok p
    → quote price starts_at later ≡ ok q
    → p ≤ q
unfolding quote
quote_mono price starts_at ends_at later h e k =
    let s = window_seconds starts_at ends_at in
    let t = window_seconds starts_at later in
    let more : s ≤ t = ground arith in
    let minutes : ceil_div s 60 ≤ ceil_div t 60 = ceil_60_mono s t more in
    let paise : price * ceil_div s 60 ≤ price * ceil_div t 60 =
      mul_mono price (ceil_div s 60) (ceil_div t 60) minutes in
    ground (arith, ceil_60_mono (price * ceil_div s 60) (price * ceil_div t 60) paise)

-- A metered bill never exceeds the quote; below the quote it covers the computed seconds and five
-- minutes at the hourly price; and more computing never lowers it.
pub metered_charge_bounds :
    (quoted price seconds more : ℕ)
    → seconds ≤ more
    → let bill = metered_charge quoted price seconds in
      (bill ≤ quoted)
      × ((bill ≡ quoted) ⊎ ((price * seconds ≤ bill * 3600) × (price * 5 ≤ bill * 60)))
      × (bill ≤ metered_charge quoted price more)
unfolding metered_charge
metered_charge_bounds quoted price seconds more h = (omega arith, covered, growing)
  where
    covered :
        let bill = metered_charge quoted price seconds in
        (bill ≡ quoted) ⊎ ((price * seconds ≤ bill * 3600) × (price * 5 ≤ bill * 60))
    covered =
        let m = max minimum_minutes (ceil_div seconds 60) in
        let whole = mul_mono price seconds (m * 60) (omega arith) in
        let floor = mul_mono price 5 m (omega arith) in
        ground (arith, whole, floor, ceil_60 (price * m))

    growing : metered_charge quoted price seconds ≤ metered_charge quoted price more
    growing =
        let m = max minimum_minutes (ceil_div seconds 60) in
        let k = max minimum_minutes (ceil_div more 60) in
        let le : m ≤ k = omega arith in
        let paise : price * m ≤ price * k = mul_mono price m k le in
        omega (arith, ceil_60_mono (price * m) (price * k) paise)
