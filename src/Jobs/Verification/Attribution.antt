-- ===== src/Jobs/Verification/Attribution.antt =====
-- What two and three runs of one workload can establish.
use nodeva.Prelude.{ℕ, ◌≡◌, ◌↔◌, ◌⊎◌, ◌<◌, ◌≤◌, ◌*◌, refl, arith, Option, none, some, [], get_or}
use nodeva.Jobs.Verification.{
  same, mismatch, compare_job_results, compute_result_hash, Fingerprint, fingerprint, Output,
  inconclusive, attributed, attribute_fault, recommend_verification, Fraction, Thresholds,
}

-- Two results match exactly when both have a hash and the hashes are equal.
pub compare_job_results_iff :
    (a b : Option ℕ) → (compare_job_results a b ≡ same) ↔ ((h : ℕ) × (a ≡ some h) × (b ≡ some h))
unfolding compare_job_results
compare_job_results_iff none b = ground arith
compare_job_results_iff (some a) none = ground arith
compare_job_results_iff (some a) (some b) = (λ e. (a, refl, ground arith), λ h. ground arith)

-- Of two jobs whose results differ the tiebreaker matches at most one: if it matches one of them, the
-- other is at fault, and if it matches neither, fault is attributed to nobody.
pub attribute_fault_majority {ℓ} :
    {J : Type ℓ} (hash : J → Option ℕ) (a b : J) (tiebreaker : Option ℕ)
    → compare_job_results (hash a) (hash b) ≡ mismatch
    → ((compare_job_results (hash a) tiebreaker ≡ same)
        × (compare_job_results (hash b) tiebreaker ≡ mismatch)
        × (attribute_fault hash a b tiebreaker ≡ attributed a b))
      ⊎ (((compare_job_results (hash a) tiebreaker ≡ mismatch)
            × (compare_job_results (hash b) tiebreaker ≡ same)
            × (attribute_fault hash a b tiebreaker ≡ attributed b a))
          ⊎ ((compare_job_results (hash a) tiebreaker ≡ mismatch)
              × (compare_job_results (hash b) tiebreaker ≡ mismatch)
              × (attribute_fault hash a b tiebreaker ≡ inconclusive)))
unfolding attribute_fault compare_job_results
attribute_fault_majority hash a b tiebreaker h = ground arith

-- Unless the digest collides on these two, two jobs with hashed outputs match exactly when their
-- status, exit code and, a missing text counting as the empty one, both output texts are equal.
pub compute_result_hash-same :
    (digest : Fingerprint → ℕ) (p q : Output)
    → (digest (fingerprint p) ≡ digest (fingerprint q) → fingerprint p ≡ fingerprint q)
    → (compare_job_results
          (some (compute_result_hash digest p))
          (some (compute_result_hash digest q))
        ≡ same)
      ↔ ((p.status ≡ q.status)
          × (p.exit_code ≡ q.exit_code)
          × (get_or [] p.stdout ≡ get_or [] q.stdout)
          × (get_or [] p.stderr ≡ get_or [] q.stderr))
unfolding compare_job_results compute_result_hash
compute_result_hash-same digest p q injective = ground (arith, injective)

-- Verification is recommended for a booking unless the provider has as many jobs as the threshold asks
-- for, a reliability no lower than its threshold, and the price stays below the high-value threshold.
pub recommend_verification_iff :
    (jobs quoted : ℕ) (r : Fraction) (t : Thresholds)
    → (recommend_verification (some jobs) (some r) (some quoted) t ≡ []) ↔ (
        (t.new_provider_jobs ≤ jobs)
        × (t.low_reliability.num * r.den ≤ r.num * t.low_reliability.den)
        × (quoted < t.high_value_paise))
unfolding recommend_verification
recommend_verification_iff jobs quoted r t = ground arith
