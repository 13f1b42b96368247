-- ===== src/Payments/Settle.antt =====
-- backend/src/payments/settle.js. Amounts are whole paise, times are epoch milliseconds. The source
-- divides doubles; on the safe integers that the schema admits, `Math.ceil` and `Math.round` of the
-- quotient are the whole-number formulas written here.
pub mod Bounds
use nodeva.Prelude.{ℕ, ◌+◌, ◌-◌, ◌*◌, ◌/◌, ◌==◌, Bool, leb, ltb, min, max, if◌then◌else◌, ceil_div}
use nodeva.Prelude.Int.{ℤ, pos, negsuc}

pub data Quoted (A : Type 0) : Type 0 where
  ok : A → Quoted A
  bad_total : Quoted A
  empty_window : Quoted A

-- `PLATFORM_FEE_BPS`
abbrev pub platform_fee_bps : ℕ
platform_fee_bps = 1000

pub record Split : Type 0 where
  pub provider : ℕ
  pub platform : ℕ
  pub total : ℕ

-- The two halves of a total that has passed the check; a fee above 100% does not occur.
unfoldable pub split_total : ℕ → ℕ → Split
split_total total fee_bps =
    let platform = ceil_div (total * fee_bps) 10000 in
    record { provider = total - platform; platform = platform; total = total }

-- `split`, which throws on a negative total.
unfoldable pub split : ℤ → ℕ → Quoted Split
unfolding split_total
split (pos total) fee_bps = ok (split_total total fee_bps)
split (negsuc n) fee_bps = bad_total

-- `Math.round((endsAt - startsAt) / 1000)`, where a negative difference, like one that rounds to
-- zero, is refused by the caller.
unfoldable pub window_seconds : ℕ → ℕ → ℕ
window_seconds starts_at ends_at =
    if leb ends_at starts_at then 0 else (ends_at - starts_at + 500) / 1000

-- `quote`
unfoldable pub quote : ℕ → ℕ → ℕ → Quoted ℕ
unfolding window_seconds
quote price_paise_hr starts_at ends_at =
    let seconds = window_seconds starts_at ends_at in
    let minutes = ceil_div seconds 60 in
    if leb seconds 0 then empty_window else ok (ceil_div (price_paise_hr * minutes) 60)

-- `minimumMinutes`
abbrev pub minimum_minutes : ℕ
minimum_minutes = 5

-- `meteredCharge`
unfoldable pub metered_charge : ℕ → ℕ → ℕ → ℕ
metered_charge quoted_paise price_paise_hr compute_seconds =
    let billable_minutes = max minimum_minutes (ceil_div compute_seconds 60) in
    let metered = ceil_div (price_paise_hr * billable_minutes) 60 in min metered quoted_paise
