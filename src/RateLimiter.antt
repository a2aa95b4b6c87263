-- ===== src/RateLimiter.antt =====
-- internal/ratelimiter/ratelimiter.go: the key of a request, the strategies, and New.
pub mod Results
pub mod Sliding
pub mod TokenBucket
pub mod Redis
pub mod Keys
mod Examples
use gateway_pro.Prelude.{
  if◌then◌else◌, ℤ, text_eq, Text, codes, is_empty, ℕ, Bool, not, Option, none, some, List, ◌++◌,
}
use gateway_pro.Config.{RateLimitConfig}
use gateway_pro.Http.{Request, get}
use Results.{Verdict, allowed}
use Sliding.{SlidingWindow}
use Redis.{RedisLimiter}

-- One branch of buildKeyFn.
abbrev key_of : Text → Text → Text
key_of scheme value = if is_empty value then scheme ++ codes "anonymous" else scheme ++ value

-- buildKeyFn
unfoldable pub key_fn : Text → Request → Text
key_fn key_by r =
    let xff = get r.header "X-Forwarded-For" in
    if text_eq key_by (codes "api_key")
    then key_of (codes "apikey:") (get r.header "X-API-Key")
    else if text_eq key_by (codes "user")
    then key_of (codes "user:") (get r.header "X-User-ID")
    else if is_empty xff
    then codes "ip:" ++ r.remote_addr
    else codes "ip:" ++ xff

pub data Limiter : Type 0 where
  noop : Limiter
  sliding : SlidingWindow → Limiter
  token_bucket : TokenBucket.TokenBucket → Limiter
  redis : RedisLimiter → Limiter

-- Allow of the interface Limiter. `reply` is what the Redis script returns for a key, if Redis
-- answers.
unfoldable pub allow : (Text → Option (List ℤ)) → ℕ → Request → Limiter → Limiter × Verdict
allow reply now r noop = (noop, allowed)
allow reply now r (sliding l) =
    let (l', v) = Sliding.allow (key_fn l.key_by r) now l in (sliding l', v)
allow reply now r (token_bucket l) =
    let (l', v) = TokenBucket.allow (key_fn l.key_by r) now l in (token_bucket l', v)
allow reply now r (redis l) =
    (redis l, Redis.allow (reply (codes "rl:" ++ key_fn l.cfg.key_by r)) now l)

-- What `time.ParseDuration` and `redis.ParseURL` answer is given: a duration in nanoseconds, and
-- whether the URL is accepted.
module _ (parse_duration : Text → Option ℤ) (parse_url : Text → Bool) where
  abbrev new_sliding : RateLimitConfig → Option Limiter
  new_sliding c = elim (parse_duration c.window) [
    | none ↦ none
    | some window ↦ some (
        sliding (record { buckets = λ k. none; rate = c.rate; window = window; key_by = c.key_by }))
  ]

  -- `none` is an error.
  unfoldable pub new : Option RateLimitConfig → Option Limiter
  new none = some noop
  new (some c) =
      if not (is_empty c.redis_url)
      then (if parse_url c.redis_url
          then some (redis (Redis.new c (parse_duration c.window)))
          else none)
      else if text_eq c.algorithm (codes "sliding_window")
      then new_sliding c
      else some (
          token_bucket
            (record { buckets = λ k. none; rate = c.rate; burst = c.burst; key_by = c.key_by }))
