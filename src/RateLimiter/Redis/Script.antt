-- ===== src/RateLimiter/Redis/Script.antt =====
-- slidingWindowLua of ratelimiter.go, on the commands of Redis that it calls. The clock of Redis, in
-- milliseconds, is taken to be that of the gateway.
use gateway_pro.Prelude.{
  ltb, ◌==◌, if◌then◌else◌, length, get_elem?, keep, ◌-ℤ◌, ℤ, pos, negsuc, ltb_ℤ, leb_ℤ, Text, ℕ,
  suc, ◌+◌, ◌*◌, ◌/◌, ◌≤◌, ◌<◌, ◌≡◌, Bool, Option, none, some, List, [], ◌∷◌,
}
use gateway_pro.RateLimiter.Results.{Verdict}
use gateway_pro.RateLimiter.Redis
use gateway_pro.RateLimiter.Redis.{RedisLimiter, million, milliseconds}

-- Scores, each its own member, in their order and without repetition, with one more.
abbrev pub insert_score : ℕ → List ℕ → List ℕ
insert_score n [] = n ∷ []
insert_score n (x ∷ xs) =
    let rest = insert_score n xs in
    if ltb n x then n ∷ x ∷ xs else if n == x then x ∷ xs else x ∷ rest

abbrev pub above : ℤ → ℕ → Bool
above cutoff x = ltb_ℤ cutoff (pos x)

-- ZREMRANGEBYSCORE from '-inf', ZCARD, the score that ZRANGE 0 0 WITHSCORES gives, ZADD of a member
-- that is its score, and EXPIRE in seconds, each at a time; and the scores that a key holds at a time.
-- The laws are what the commands are documented to do.
pub record Commands : Type 1 where
  pub Store : Type 0
  pub zremrangebyscore : ℕ → Text → ℤ → Store → Store
  pub zcard : ℕ → Text → Store → ℕ
  pub first_score : ℕ → Text → Store → Option ℕ
  pub zadd : ℕ → Text → ℕ → Store → Store
  pub expire : ℕ → Text → ℤ → Store → Store
  pub scores : ℕ → Text → Store → List ℕ
  pub zremrangebyscore_law :
      (now later : ℕ) (key : Text) (cutoff : ℤ) (s : Store)
      → now ≤ later
      → scores later key (zremrangebyscore now key cutoff s)
        ≡ keep (above cutoff) (scores later key s)
  pub zcard_law : (now : ℕ) (key : Text) (s : Store) → zcard now key s ≡ length (scores now key s)
  pub first_score_law :
      (now : ℕ) (key : Text) (s : Store) → first_score now key s ≡ get_elem? (scores now key s) 0
  pub zadd_law :
      (now : ℕ) (key : Text) (n : ℕ) (s : Store)
      → scores now key (zadd now key n s) ≡ insert_score n (scores now key s)
  pub expire_law :
      (now later : ℕ) (key : Text) (seconds : ℕ) (s : Store)
      → now ≤ later
      → 0 < seconds
      → scores later key (expire now key (pos seconds) s)
        ≡ (if ltb later (now + 1000 * seconds) then scores now key s else [])

-- `math.ceil(window/1000)`
unfoldable pub ceil_seconds : ℤ → ℤ
ceil_seconds (pos n) = pos ((n + 999) / 1000)
ceil_seconds (negsuc n) = pos 0 -ℤ pos (suc n / 1000)

module _ (c : Commands) where
  open c use {Store, zremrangebyscore, zcard, first_score, zadd, expire}

  -- `{0, oldest[2]}`; the table ends before a nil.
  unfoldable pub refusal : Option ℕ → List ℤ
  refusal none = pos 0 ∷ []
  refusal (some oldest) = pos 0 ∷ pos oldest ∷ []

  -- The script: its reply and the store.
  unfoldable pub script : ℕ → ℤ → ℤ → Text → Store → List ℤ × Store
  unfolding refusal ceil_seconds
  script now window limit key s =
      let s' = zremrangebyscore now key (pos now -ℤ window) s in
      if leb_ℤ limit (pos (zcard now key s'))
      then (refusal (first_score now key s'), s')
      else (pos 1 ∷ pos 0 ∷ [], expire now key (ceil_seconds window) (zadd now key now s'))

  -- Allow of redisLimiter, for the key `key`, when Redis answers.
  unfoldable pub allow_with : RedisLimiter → Text → ℕ → Store → Verdict × Store
  unfolding script
  allow_with l key now s =
      let (reply, s') = script (now / million) (milliseconds l.window) l.cfg.rate key s in
      (Redis.allow (some reply) now l, s')
