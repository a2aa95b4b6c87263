-- ===== src/RateLimiter/Keys.antt =====
-- Keys of ratelimiter.go do not affect one another.
use gateway_pro.Prelude.{Bool-cases, text_eq, Text, text_eq_iff, ℕ, ◌≡◌, sym, ◌≢◌, inl, inr}
use gateway_pro.RateLimiter.Results.{Buckets, put}
use gateway_pro.RateLimiter.Sliding
use gateway_pro.RateLimiter.Sliding.{SlidingWindow}
use gateway_pro.RateLimiter.TokenBucket
use gateway_pro.RateLimiter.TokenBucket.{TokenBucket}

put_ne {ℓ} :
    {B : Type ℓ} (key other : Text) (b : B) (buckets : Buckets B)
    → key ≢ other
    → put key b buckets other ≡ buckets other
put_ne key other b buckets ne = elim (Bool-cases (text_eq other key)) [
  | inl same ↦ absurd (ne (sym ((text_eq_iff other key).0 same)))
  | inr differ ↦ rw differ
]

-- What the sliding window answers a call for one key does not depend on a call for another key
-- before it.
pub sliding_keys :
    (key other : Text) (t t' : ℕ) (l : SlidingWindow)
    → key ≢ other
    → (Sliding.allow other t' (Sliding.allow key t l).0).1 ≡ (Sliding.allow other t' l).1
unfolding Sliding.allow
sliding_keys key other t t' l ne = rw (put_ne key other _ l.buckets ne)

-- What the token bucket answers a call for one key does not depend on a call for another key
-- before it.
pub token_keys :
    (key other : Text) (t t' : ℕ) (l : TokenBucket)
    → key ≢ other
    → (TokenBucket.allow other t' (TokenBucket.allow key t l).0).1
      ≡ (TokenBucket.allow other t' l).1
unfolding TokenBucket.allow
token_keys key other t t' l ne = rw (put_ne key other _ l.buckets ne)
