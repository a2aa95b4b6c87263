-- ===== src/RateLimiter/TokenBucket.antt =====
-- localTokenBucket of ratelimiter.go. The code's float64 counts tokens; here a count is exact, in
-- billionths of a token, so that `elapsed.Seconds() * rate` is nanoseconds times `rate`. Rounding
-- and overflow of floats are left out.
pub mod Bound
use gateway_pro.Prelude.{
  if◌then◌else◌, ◌+ℤ◌, ◌-ℤ◌, ◌*ℤ◌, ℤ, pos, negsuc, pos_part, sub_ℕ, ltb_ℤ, Text, ℕ, zero, suc, ◌/◌,
  Option, none, some,
}
use gateway_pro.RateLimiter.Results.{Verdict, allowed, limited, Buckets, bucket_or, put}

pub record TbBucket : Type 0 where
  pub tokens : ℤ
  pub last_fill : ℕ

pub record TokenBucket : Type 0 where
  pub buckets : Buckets TbBucket
  pub rate : ℤ
  pub burst : ℤ
  pub key_by : Text

abbrev pub billion : ℕ
billion = 1_000_000_000

-- The helper `min` of the package.
pub min_ℤ : ℤ → ℤ → ℤ
min_ℤ a b = if ltb_ℤ a b then a else b

-- `(1-bucket.tokens)/l.rate*1e9`, cut towards zero to nanoseconds. At rate 0 it is an infinity.
pub wait : ℤ → ℤ → Option ℤ
wait tokens (pos zero) = none
wait tokens (pos (suc r)) = some (pos (pos_part (pos billion -ℤ tokens) / suc r))
wait tokens (negsuc r) = some (pos 0 -ℤ pos (pos_part (pos billion -ℤ tokens) / suc r))

pub refill : ℤ → ℤ → ℕ → TbBucket → ℤ
unfolding min_ℤ
refill rate burst now b = min_ℤ (burst *ℤ pos billion) (b.tokens +ℤ sub_ℕ now b.last_fill *ℤ rate)

-- Allow after the refill, and the whole of it, on the bucket of the request's key.
pub spend : ℤ → ℕ → ℤ → TbBucket × Verdict
unfolding wait
spend rate now tokens =
    if ltb_ℤ tokens (pos billion)
    then (record { tokens = tokens; last_fill = now }, limited (wait tokens rate))
    else (record { tokens = tokens -ℤ pos billion; last_fill = now }, allowed)

unfoldable pub admit : ℤ → ℤ → ℕ → TbBucket → TbBucket × Verdict
unfolding refill spend
admit rate burst now b = spend rate now (refill rate burst now b)

-- getOrCreate: a new bucket is full.
abbrev pub full : ℤ → ℕ → TbBucket
full burst now = record { tokens = burst *ℤ pos billion; last_fill = now }

-- A new bucket's `lastFill` is taken to be the time of the call that creates it.
unfoldable pub allow : Text → ℕ → TokenBucket → TokenBucket × Verdict
unfolding admit
allow key now l =
    let (b, v) = admit l.rate l.burst now (bucket_or (full l.burst now) (l.buckets key)) in
    (record l { buckets = put key b l.buckets }, v)
