-- ===== src/RateLimiter/Redis.antt =====
-- redisLimiter of ratelimiter.go. What the script replies is an argument: `none` if the call fails or
-- times out, and otherwise the numbers that it returns. Script models the script on the commands of
-- Redis that it calls.
pub mod Script
pub mod Window
pub mod Admitted
pub mod Burst
mod Examples
use gateway_pro.Prelude.{
  if◌then◌else◌, ◌+ℤ◌, ◌-ℤ◌, ◌*ℤ◌, ℤ, pos, negsuc, is_zero_ℤ, ℕ, suc, ◌/◌, Option, none, some, List,
  [], ◌∷◌,
}
use gateway_pro.Config.{RateLimitConfig}
use gateway_pro.RateLimiter.Results.{Verdict, allowed, limited, panics}

pub record RedisLimiter : Type 0 where
  pub cfg : RateLimitConfig
  pub window : ℤ

abbrev pub million : ℕ
million = 1_000_000

-- Duration.Milliseconds cuts towards zero.
pub milliseconds : ℤ → ℤ
milliseconds (pos n) = pos (n / million)
milliseconds (negsuc n) = pos 0 -ℤ pos (suc n / million)

-- newRedisLimiter, after `redis.ParseURL`: an unreadable or zero window becomes a second.
pub new : RateLimitConfig → Option ℤ → RedisLimiter
new c none = record { cfg = c; window = pos 1_000_000_000 }
new c (some w) = record { cfg = c; window = if is_zero_ℤ w then pos 1_000_000_000 else w }

-- `res[1]`, which panics if the reply is shorter.
pub err_rate_limited : List ℤ → ℕ → RedisLimiter → Verdict
unfolding milliseconds
err_rate_limited [] now l = panics
err_rate_limited (oldest ∷ rest) now l =
    limited (some ((oldest +ℤ milliseconds l.window -ℤ pos (now / million)) *ℤ pos million))

-- Redis unavailable: fail open. `now` is in nanoseconds, and `UnixMilli` cuts it.
unfoldable pub allow : Option (List ℤ) → ℕ → RedisLimiter → Verdict
unfolding err_rate_limited
allow none now l = allowed
allow (some []) now l = panics
allow (some (code ∷ rest)) now l = if is_zero_ℤ code then err_rate_limited rest now l else allowed
