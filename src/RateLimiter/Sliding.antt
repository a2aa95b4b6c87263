-- ===== src/RateLimiter/Sliding.antt =====
-- localSlidingWindow of ratelimiter.go. Each call holds its bucket's mutex from the reading of the
-- clock on, so calls of one key are steps in the order of their times.
pub mod Bound
pub mod Retry
use gateway_pro.Prelude.{
  if◌then◌else◌, length, ◌+ℤ◌, ◌-ℤ◌, ℤ, pos, ltb_ℤ, leb_ℤ, Text, ℕ, Bool, some, List, [], ◌∷◌, ◌++◌,
}
use gateway_pro.RateLimiter.Results.{Verdict, allowed, limited, panics, Buckets, bucket_or, put}

-- `rate` is an int and `window` a time.Duration.
pub record SlidingWindow : Type 0 where
  pub buckets : Buckets (List ℕ)
  pub rate : ℤ
  pub window : ℤ
  pub key_by : Text

-- `t.Before(now.Add(-l.window))`
pub expired : ℕ → ℤ → ℕ → Bool
expired now window t = ltb_ℤ (pos t) (pos now -ℤ window)

pub evict : ℕ → ℤ → List ℕ → List ℕ
unfolding expired
evict now window [] = []
evict now window (t ∷ ts) = if expired now window t then evict now window ts else t ∷ ts

-- `bucket.timestamps[0]` panics on an empty slice; otherwise
-- `oldest.Add(l.window).Sub(now)` is the time to wait.
unfoldable pub refuse : ℕ → ℤ → List ℕ → Verdict
refuse now window [] = panics
refuse now window (oldest ∷ ts) = limited (some (pos oldest +ℤ window -ℤ pos now))

-- Allow, on the bucket of the request's key.
unfoldable pub admit : ℤ → ℤ → ℕ → List ℕ → List ℕ × Verdict
unfolding evict refuse
admit rate window now ts =
    let ts' = evict now window ts in
    if leb_ℤ rate (pos (length ts'))
    then (ts', refuse now window ts')
    else (ts' ++ now ∷ [], allowed)

unfoldable pub allow : Text → ℕ → SlidingWindow → SlidingWindow × Verdict
unfolding admit
allow key now l =
    let (ts, v) = admit l.rate l.window now (bucket_or [] (l.buckets key)) in
    (record l { buckets = put key ts l.buckets }, v)
