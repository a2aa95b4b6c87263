-- ===== src/RateLimiter/Examples.antt =====
-- Concrete runs of ratelimiter.go.
use gateway_pro.Prelude.{
  ◌+ℤ◌, ◌-ℤ◌, pos, pos_part, ◌≤ℤ◌, text_eq, codes, ℕ, ◌+◌, ◌-◌, ◌*◌, ◌≤◌, ◌≡◌, refl, ◌≢◌, ◌↔◌,
  false, none, List, [], ◌∷◌, arith,
}
use gateway_pro.Http.{Request, get}
use gateway_pro.RateLimiter.Results.{allowed, panics}
use gateway_pro.RateLimiter.Sliding
use gateway_pro.RateLimiter.Sliding.{SlidingWindow}
use gateway_pro.RateLimiter.Sliding.Bound
use gateway_pro.RateLimiter.Sliding.Bound.{Spaced, sliding_bound}
use gateway_pro.RateLimiter.Sliding.Retry.{panics_iff, retry_after}
use gateway_pro.RateLimiter.TokenBucket.{TokenBucket, billion, full}
use gateway_pro.RateLimiter.TokenBucket.Bound as Bound'
use gateway_pro.RateLimiter.TokenBucket.Bound.{token_bound}
use gateway_pro.RateLimiter.{key_fn}

abbrev request : Request
request = record {
  method = codes "GET";
  path = codes "/api";
  host = codes "gateway";
  remote_addr = codes "10.0.0.1:4711";
  tls = false;
  header = ("X-User-ID", codes "ada") ∷ [];
}

keys :
    (key_fn (codes "user") request ≡ codes "user:ada")
    × (key_fn (codes "api_key") request ≡ codes "apikey:anonymous")
    × (key_fn (codes "ip") request ≡ codes "ip:10.0.0.1:4711")
unfolding key_fn get text_eq
keys = (refl, refl, refl)

-- Two in 100 nanoseconds: the third and fourth calls are refused, the fifth comes late enough.
abbrev times : List ℕ
times = 5 ∷ 10 ∷ 20 ∷ 105 ∷ 106 ∷ []

sliding_run : (Bound.run (pos 2) (pos 100) times [] []).1 ≡ 106 ∷ 10 ∷ 5 ∷ []
unfolding Bound.run Sliding.admit ◌-ℤ◌ ◌+ℤ◌
sliding_run = refl

sliding_bound_example : Spaced 2 100 (Bound.run (pos 2) (pos 100) times [] []).1
sliding_bound_example = sliding_bound 2 100 times (omega arith)

-- A configured rate of 0 makes the first request panic.
panics_iff_example :
    ((Sliding.admit (pos 0) (pos 100) 5 []).1 ≡ panics)
    ↔ ((Sliding.evict 5 (pos 100) [] ≡ []) × (pos 0 ≤ℤ pos 0))
panics_iff_example = panics_iff (pos 0) (pos 100) 5 []

first_panics : (Sliding.admit (pos 0) (pos 100) 5 []).1 ≡ panics
unfolding Sliding.admit
first_panics = refl

retry_after_example :
    (n : ℕ) × (pos 85 ≡ pos n)
    × ((Sliding.admit
          (pos 2)
          (pos 100)
          (20 + n)
          (Sliding.admit (pos 2) (pos 100) 20 (5 ∷ 10 ∷ [])).0).1
        ≢ allowed)
    × ((Sliding.admit
          (pos 2)
          (pos 100)
          (20 + n + 1)
          (Sliding.admit (pos 2) (pos 100) 20 (5 ∷ 10 ∷ [])).0).1
        ≡ allowed)
unfolding Sliding.admit ◌-ℤ◌ ◌+ℤ◌
retry_after_example = retry_after 2 100 20 (5 ∷ 10 ∷ []) (pos 85) (omega arith) refl

token_bound_example :
    let (b, k) = Bound'.run (pos 2) (pos 1) (5 ∷ 10 ∷ []) (full (pos 1) 0) in
    (k * billion + pos_part b.tokens ≤ 1 * billion + 2 * (b.last_fill - 0))
    × (pos 0 ≤ℤ b.tokens)
    × (pos_part b.tokens ≤ 1 * billion)
token_bound_example = token_bound 2 1 0 (5 ∷ 10 ∷ []) (omega arith)

abbrev bucket : TokenBucket
bucket = record { buckets = λ k. none; rate = pos 2; burst = pos 1; key_by = codes "ip" }
