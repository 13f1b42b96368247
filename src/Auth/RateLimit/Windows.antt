-- ===== src/Auth/RateLimit/Windows.antt =====
-- Within one window a key passes at most `max` times.
use nodeva.Prelude.{
  All, length, ltb, sym, none, if◌then◌else◌, ap, ℕ, suc, ◌+◌, ◌-◌, ◌≤◌, ◌<◌, ◌≡◌, ◌≢◌, ◌↔◌, inl,
  inr, refl, arith, Bool, true, false, min, some, List, [], ◌∷◌, Option-cases, Bool-cases, ◌∙◌,
}
use nodeva.Auth.RateLimit.{
  Bucket, bucket_of, put, current, hit, Answer, passed, too_many_requests, rate_limit,
}

bucket_of-put_self :
    (b : Bucket) (key : ℕ) (bs : List Bucket) → b.key ≡ key → bucket_of key (put b bs) ≡ some b
unfolding put
bucket_of-put_self b key [] k = ground arith
bucket_of-put_self b key (c ∷ cs) k = ground (arith, bucket_of-put_self b key cs k)

bucket_of-put_other :
    (b : Bucket) (key : ℕ) (bs : List Bucket)
    → key ≢ b.key
    → bucket_of key (put b bs) ≡ bucket_of key bs
unfolding put
bucket_of-put_other b key [] h = ground arith
bucket_of-put_other b key (c ∷ cs) h = ground (arith, bucket_of-put_other b key cs h)

bucket_of-key : (key : ℕ) (bs : List Bucket) {b : Bucket} → bucket_of key bs ≡ some b → b.key ≡ key
bucket_of-key key [] {b} e = cc
bucket_of-key key (c ∷ cs) {b} e = ground (arith, bucket_of-key key cs {b = b})

current-key : (key now window_ms : ℕ) (bs : List Bucket) → (current key now window_ms bs).key ≡ key
unfolding current
current-key key now window_ms bs = elim (Option-cases (bucket_of key bs)) [
  | inl e ↦ rw (e, current)
  | inr (b, e) ↦ rw (e, current) (ground (arith, bucket_of-key key bs e))
]

-- How many hits of the open window are counted for a key.
abbrev pub counted : ℕ → ℕ → List Bucket → ℕ
counted key now bs = (current key now 0 bs).count

current-count :
    (key window_ms now : ℕ) (bs : List Bucket)
    → (current key now window_ms bs).count ≡ counted key now bs
unfolding current
current-count key window_ms now bs = elim (Option-cases (bucket_of key bs)) [
  | inl e ↦ rw (e, current, counted)
  | inr (b, e) ↦ rw (e, current, counted) (ground arith)
]

current-reset_at :
    (key window_ms now : ℕ) (bs : List Bucket)
    → 0 < window_ms
    → now < (current key now window_ms bs).reset_at
unfolding current
current-reset_at key window_ms now bs w = elim (Option-cases (bucket_of key bs)) [
  | inl e ↦ rw (e, current) (omega arith)
  | inr (b, e) ↦ rw (e, current) (ground arith)
]

counted-bucket :
    (key now : ℕ) (bs : List Bucket) {b : Bucket}
    → bucket_of key bs ≡ some b
    → now < b.reset_at
    → counted key now bs ≡ b.count
unfolding current
counted-bucket key now bs {b} e h = rw (e, counted, current) (ground arith)

counted-same_bucket :
    (key now : ℕ) (bs cs : List Bucket)
    → bucket_of key bs ≡ bucket_of key cs
    → counted key now bs ≡ counted key now cs
unfolding current
counted-same_bucket key now bs cs e = elim (Option-cases (bucket_of key cs)) [
  | inl n ↦ rw (e, n, counted, current)
  | inr (b, n) ↦ rw (e, n, counted, current)
]

-- A hit counts for its own key and for no other, and is answered "too many" exactly when the open
-- window had counted the maximum already. Without a key nothing is counted.
pub hit_counts :
    (key window_ms limit now other : ℕ) (bs : List Bucket)
    → 0 < window_ms
    → other ≢ key
    → let h = hit key window_ms limit now bs in
      ((h.limited ≡ true) ↔ (limit ≤ counted key now bs))
      × (counted key now h.buckets ≡ counted key now bs + 1)
      × (counted other now h.buckets ≡ counted other now bs)
unfolding hit current
hit_counts key window_ms limit now other bs w ne =
    let b = current key now window_ms bs in
    let b' : Bucket = record b { count = b.count + 1 } in
    let k = current-key key now window_ms bs in
    let n = current-count key window_ms now bs in
    let stored : bucket_of key (put b' bs) ≡ some b' = bucket_of-put_self b' key bs k in
    (
      ground (arith, n),
      counted-bucket key now (put b' bs) stored (current-reset_at key window_ms now bs w)
          ∙ ap (λ c. c + 1) n,
      counted-same_bucket other now (put b' bs) bs
          (bucket_of-put_other b' other bs (λ e. ne (e ∙ k))),
    )

-- Requests of one key at the given moments, with their answers and the buckets after them.
abbrev pub burst : ℕ → ℕ → ℕ → List ℕ → List Bucket → List Answer × List Bucket
burst key window_ms limit [] bs = ([], bs)
burst key window_ms limit (now ∷ times) bs =
    let r = rate_limit window_ms limit (some key) now bs in
    let rest = burst key window_ms limit times r.1 in (r.0 ∷ rest.0, rest.1)

abbrev pub passes : List Answer → ℕ
passes [] = 0
passes (passed ∷ as') = suc (passes as')
passes (too_many_requests _ ∷ as') = passes as'

abbrev passed_one : Bool → ℕ
passed_one true = 0
passed_one false = 1

rate_limit-hit :
    (key window_ms limit now : ℕ) (bs : List Bucket)
    → let h = hit key window_ms limit now bs in
      let r = rate_limit window_ms limit (some key) now bs in
      (r.1 ≡ h.buckets)
      × ((as' : List Answer) → passes (r.0 ∷ as') ≡ passed_one h.limited + passes as')
unfolding rate_limit
rate_limit-hit key window_ms limit now bs =
    elim (Bool-cases (hit key window_ms limit now bs).limited) [
      | inl l ↦ rw l (refl, λ as'. omega arith)
      | inr l ↦ rw l (refl, λ as'. omega arith)
    ]

-- One request that counts in the bucket `b`.
one_hit :
    (key window_ms limit now : ℕ) (bs : List Bucket) (b : Bucket)
    → current key now window_ms bs ≡ b
    → let r = rate_limit window_ms limit (some key) now bs in
      ((as' : List Answer) → passes (r.0 ∷ as') ≡ passed_one (ltb limit (b.count + 1)) + passes as')
      × (bucket_of key r.1 ≡ some (record b { count = b.count + 1 }))
unfolding hit
one_hit key window_ms limit now bs b e =
    let (next, one) = rate_limit-hit key window_ms limit now bs in
    let k : b.key ≡ key = ap (λ c. c.key) (sym e) ∙ current-key key now window_ms bs in
    (
      (λ as'. one as' ∙ ap (λ (c : Bucket). passed_one (ltb limit (c.count + 1)) + passes as') e),
      ap (bucket_of key) next
          ∙ ap (λ (c : Bucket). bucket_of key (put (record c { count = c.count + 1 }) bs)) e
          ∙ bucket_of-put_self (record b { count = b.count + 1 }) key bs k,
    )

false-true : false ≡ true → ⊥
false-true e = cc

passes_step :
    (n limit c : ℕ) (b : Bool)
    → (b ≡ true) ↔ (limit ≤ c)
    → passed_one b + min n (limit - (c + 1)) ≡ min (suc n) (limit - c)
passes_step n limit c true l = let full = l.0 refl in omega arith
passes_step n limit c false l = let below : limit ≤ c → ⊥ = λ e. false-true (l.1 e) in omega arith

-- The end of the window that a request at `now` falls into: of the one that is open, or of a new one.
abbrev pub window_end : ℕ → ℕ → ℕ → List Bucket → ℕ
window_end key window_ms now bs = elim (bucket_of key bs) [
  | none ↦ now + window_ms
  | some b ↦ if ltb now b.reset_at then b.reset_at else now + window_ms
]

current-window_end :
    (key window_ms now : ℕ) (bs : List Bucket)
    → (current key now window_ms bs).reset_at ≡ window_end key window_ms now bs
unfolding current
current-window_end key window_ms now bs = elim (Option-cases (bucket_of key bs)) [
  | inl e ↦ rw (e, current, window_end)
  | inr (b, e) ↦ rw (e, current, window_end) (ground arith)
]

current-open :
    (key window_ms now : ℕ) (bs : List Bucket) {b : Bucket}
    → bucket_of key bs ≡ some b
    → now < b.reset_at
    → current key now window_ms bs ≡ b
unfolding current
current-open key window_ms now bs {b} e h = rw (e, current) (ground arith)

counted-closed :
    (key now : ℕ) (bs : List Bucket) {b : Bucket}
    → bucket_of key bs ≡ some b
    → b.reset_at ≤ now
    → counted key now bs ≡ 0
unfolding current
counted-closed key now bs {b} e h = rw (e, counted, current) (ground arith)

limited_iff : (limit c : ℕ) → (ltb limit (c + 1) ≡ true) ↔ (limit ≤ c)
limited_iff limit c = ground arith

-- Requests at moments before the end of the open window, whose bucket is `b`.
burst-open :
    (key window_ms limit : ℕ) (times : List ℕ) (bs : List Bucket) (b : Bucket)
    → bucket_of key bs ≡ some b
    → All (λ t. t < b.reset_at) times
    → let out = burst key window_ms limit times bs in
      (passes out.0 ≡ min (length times) (limit - b.count))
      × ((c : Bucket) × (bucket_of key out.1 ≡ some c) × (c.reset_at ≡ b.reset_at))
burst-open key window_ms limit [] bs b e a = (omega arith, (b, e, refl))
burst-open key window_ms limit (now ∷ times) bs b e a =
    let counts = one_hit key window_ms limit now bs b (current-open key window_ms now bs e a.0) in
    let b' : Bucket = record b { count = b.count + 1 } in
    let rest =
      burst-open key window_ms limit times (rate_limit window_ms limit (some key) now bs).1 b'
        counts.1 a.1 in
    (
      counts.0 _
          ∙ ap (λ m. passed_one (ltb limit (b.count + 1)) + m) rest.0
          ∙ passes_step (length times) limit b.count _ (limited_iff limit b.count),
      rest.1,
    )

-- Of the requests of one key within one window, the first of them and any others before the window's
-- end, exactly as many pass as the maximum still allows, whatever had been counted before. The window
-- is the one that was open, or one of full length from the first request; once it has ended nothing
-- counts as used.
pub passes-burst :
    (key window_ms limit start : ℕ) (times : List ℕ) (bs : List Bucket)
    → 0 < window_ms
    → All (λ t. t < window_end key window_ms start bs) times
    → let out = burst key window_ms limit (start ∷ times) bs in
      (passes out.0 ≡ min (suc (length times)) (limit - counted key start bs))
      × ((t : ℕ) → window_end key window_ms start bs ≤ t → counted key t out.1 ≡ 0)
passes-burst key window_ms limit start times bs w a =
    let b = current key start window_ms bs in
    let b' : Bucket = record b { count = b.count + 1 } in
    let ends = current-window_end key window_ms start bs in
    let n = current-count key window_ms start bs in
    let counts = one_hit key window_ms limit start bs b refl in
    let within : All (λ t. t < b'.reset_at) times = rw ends a in
    let (rest, (c, found, same_end)) =
      burst-open key window_ms limit times (rate_limit window_ms limit (some key) start bs).1 b'
        counts.1 within in
    (
      counts.0 _
          ∙ ap (λ m. passed_one (ltb limit (b.count + 1)) + m) rest
          ∙ passes_step (length times) limit b.count _ (limited_iff limit b.count)
          ∙ ap (λ k. min (suc (length times)) (limit - k)) n,
      λ t late. counted-closed key t _ found (omega (arith, same_end, ends, late)),
    )
