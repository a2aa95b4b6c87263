-- ===== src/RateLimiter/Results.antt =====
-- What Allow of ratelimiter.go answers.
use gateway_pro.Prelude.{if◌then◌else◌, ℤ, text_eq, Text, Option, none, some}

-- nil, an ErrRateLimited with its RetryAfter in nanoseconds, or a run-time panic. `limited none` is a
-- duration that Go leaves open, the conversion of an infinity.
pub data Verdict : Type 0 where
  allowed : Verdict
  limited : Option ℤ → Verdict
  panics : Verdict

-- A `map[string]` of buckets.
abbrev pub Buckets {ℓ} : Type ℓ → Type ℓ
Buckets B = Text → Option B

module _ {ℓ} {B : Type ℓ} where
  abbrev pub bucket_or : B → Option B → B
  bucket_or b none = b
  bucket_or b (some c) = c

  abbrev pub put : Text → B → Buckets B → Buckets B
  put key b buckets k = if text_eq k key then some b else buckets k
