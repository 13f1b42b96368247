-- ===== src/Auth/RateLimit.antt =====
-- backend/src/auth/rateLimit.js: fixed-window counters by key, for one limiter. The map is a list of
-- buckets with distinct keys. The sweep of expired buckets is `sweep`.
pub mod Windows
use nodeva.Prelude.{
  ℕ, ◌+◌, ◌-◌, ◌*◌, Bool, true, false, not, ◌==◌, ltb, leb, Option, none, some, List, [], ◌∷◌,
  first, where_rows, if◌then◌else◌, ceil_div,
}

pub record Bucket : Type 0 where
  pub key : ℕ
  pub count : ℕ
  pub reset_at : ℕ

abbrev pub bucket_of : ℕ → List Bucket → Option Bucket
bucket_of key = first (λ b. b.key == key)

-- `buckets.set(key, bucket)`
unfoldable pub put : Bucket → List Bucket → List Bucket
put b [] = b ∷ []
put b (c ∷ cs) = if c.key == b.key then b ∷ cs else c ∷ put b cs

abbrev fresh : ℕ → ℕ → ℕ → Bucket
fresh key now window_ms = record { key = key; count = 0; reset_at = now + window_ms }

-- The bucket that a hit counts in.
unfoldable pub current : ℕ → ℕ → ℕ → List Bucket → Bucket
current key now window_ms buckets = elim (bucket_of key buckets) [
  | none ↦ fresh key now window_ms
  | some b ↦ if leb b.reset_at now then fresh key now window_ms else b
]

pub record Hit : Type 0 where
  pub limited : Bool
  pub retry_after_ms : ℕ
  pub buckets : List Bucket

-- `hit`
unfoldable pub hit : ℕ → ℕ → ℕ → ℕ → List Bucket → Hit
unfolding current put
hit key window_ms max now buckets =
    let b = current key now window_ms buckets in
    record {
      limited = ltb max (b.count + 1);
      retry_after_ms = b.reset_at - now;
      buckets = put (record b { count = b.count + 1 }) buckets;
    }

pub data Answer : Type 0 where
  passed : Answer
  too_many_requests : ℕ → Answer

-- The middleware of `rateLimit`; a request without a key passes.
unfoldable pub rate_limit : ℕ → ℕ → Option ℕ → ℕ → List Bucket → Answer × List Bucket
unfolding hit
rate_limit window_ms max none now buckets = (passed, buckets)
rate_limit window_ms max (some key) now buckets =
    let h = hit key window_ms max now buckets in
    if h.limited
    then (too_many_requests (ceil_div h.retry_after_ms 1000), h.buckets)
    else (passed, h.buckets)

-- The periodic removal of expired buckets.
unfoldable pub sweep : ℕ → List Bucket → List Bucket
sweep now = where_rows (λ b. not (leb b.reset_at now))
