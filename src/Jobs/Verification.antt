-- ===== src/Jobs/Verification.antt =====
-- backend/src/jobs/verification.js. The hash (SHA-256 over JSON text) is a parameter, and a hash is a
-- number. A reliability is a fraction, compared exactly where the source compares doubles.
pub mod Attribution
use nodeva.Prelude.{
  ℕ, ◌+◌, ◌*◌, Bool, true, false, not, ◌&&◌, ◌==◌, ltb, leb, Option, none, some, List, [], ◌∷◌,
  ◌++◌, length, all, if◌then◌else◌, get_or,
}
use nodeva.Prelude.Int.{ℤ}

-- `jobs.status`
pub data JobStatus : Type 0 where
  queued starting running succeeded failed_user failed_provider timed_out cancelled : JobStatus

-- `TERMINAL_JOB_STATUSES`
unfoldable pub job_terminal : JobStatus → Bool
job_terminal queued = false
job_terminal starting = false
job_terminal running = false
job_terminal _ = true

-- What a job did, with the fields that may be null.
pub record Output : Type 0 where
  pub status : JobStatus
  pub exit_code : Option ℤ
  pub stdout : Option (List ℕ)
  pub stderr : Option (List ℕ)

-- `{ status, exit_code ?? null, stdout ?? '', stderr ?? '' }`
pub record Fingerprint : Type 0 where
  pub status : JobStatus
  pub exit_code : Option ℤ
  pub stdout : List ℕ
  pub stderr : List ℕ

abbrev pub fingerprint : Output → Fingerprint
fingerprint o = record {
  status = o.status;
  exit_code = o.exit_code;
  stdout = get_or [] o.stdout;
  stderr = get_or [] o.stderr;
}

-- `computeResultHash`, over the digest of a serialised fingerprint.
unfoldable pub compute_result_hash : (Fingerprint → ℕ) → Output → ℕ
compute_result_hash digest o = digest (fingerprint o)

pub data Comparison : Type 0 where
  same mismatch : Comparison

-- `compareJobResults`, on the two result hashes.
unfoldable pub compare_job_results : Option ℕ → Option ℕ → Comparison
compare_job_results (some a) (some b) = if a == b then same else mismatch
compare_job_results (some a) none = mismatch
compare_job_results none _ = mismatch

-- `groupIsComplete`, on the statuses of the group.
unfoldable pub group_is_complete : List JobStatus → Bool
unfolding job_terminal
group_is_complete statuses = leb 2 (length statuses) && all job_terminal statuses

pub data Verdict {ℓ} (J : Type ℓ) : Type ℓ where
  inconclusive : Verdict J
  attributed : J → J → Verdict J

abbrev is_same : Comparison → Bool
is_same same = true
is_same mismatch = false

abbrev verdict_of {ℓ} : {J : Type ℓ} → J → J → Bool → Bool → Verdict J
verdict_of a b true true = inconclusive
verdict_of a b false false = inconclusive
verdict_of a b true false = attributed a b
verdict_of a b false true = attributed b a

-- `attributeFaultFromTiebreaker`: `attributed vindicated at_fault`.
unfoldable pub attribute_fault {ℓ} : {J : Type ℓ} → (J → Option ℕ) → J → J → Option ℕ → Verdict J
unfolding compare_job_results
attribute_fault hash a b tiebreaker =
    verdict_of a b (is_same (compare_job_results (hash a) tiebreaker))
      (is_same (compare_job_results (hash b) tiebreaker))

pub record Fraction : Type 0 where
  pub num : ℕ
  pub den : ℕ

pub record Thresholds : Type 0 where
  pub new_provider_jobs : ℕ
  pub low_reliability : Fraction
  pub high_value_paise : ℕ

-- `DEFAULT_VERIFICATION_THRESHOLDS`
abbrev pub default_thresholds : Thresholds
default_thresholds = record {
  new_provider_jobs = 5;
  low_reliability = record { num = 9; den = 10 };
  high_value_paise = 10000;
}

pub data Reason : Type 0 where
  new_provider low_reliability high_value_job : Reason

abbrev pub below : Fraction → Fraction → Bool
below r t = ltb (r.num * t.den) (t.num * r.den)

abbrev reason_if : Bool → Reason → List Reason
reason_if true r = r ∷ []
reason_if false r = []

-- `shouldRecommendVerification`: the reasons; verification is recommended when there is one.
unfoldable pub recommend_verification :
    Option ℕ → Option Fraction → Option ℕ → Thresholds → List Reason
recommend_verification rep_jobs_total reliability quoted_paise t =
    let is_new = ltb (get_or 0 rep_jobs_total) t.new_provider_jobs in
    let unreliable = below (get_or (record { num = 1; den = 1 }) reliability) t.low_reliability in
    reason_if is_new new_provider
    ++ (reason_if (not is_new && unreliable) low_reliability
        ++ reason_if (leb t.high_value_paise (get_or 0 quoted_paise)) high_value_job)
