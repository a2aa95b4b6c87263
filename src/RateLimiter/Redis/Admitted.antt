-- ===== src/RateLimiter/Redis/Admitted.antt =====
-- What the Redis limiter admits, over many calls of one key.
use gateway_pro.Prelude.{
  keep, ℤ, pos, Text, ℕ, suc, ◌/◌, ◌<◌, ◌≡◌, refl, sym, ap, subst, ◌∙◌, some, List, [], ◌∷◌, map,
  arith,
}
use gateway_pro.RateLimiter.Results.{Verdict, allowed, limited, panics}
use gateway_pro.RateLimiter.Sliding
use gateway_pro.RateLimiter.Sliding.{evict}
use gateway_pro.RateLimiter.Sliding.Bound.{is_recent, Timely, Spaced, run, sliding_bound}
use gateway_pro.RateLimiter.Redis
use gateway_pro.RateLimiter.Redis.{RedisLimiter, million, milliseconds, err_rate_limited}
use gateway_pro.RateLimiter.Redis.Script.{Commands, script, allow_with}
use gateway_pro.RateLimiter.Redis.Window.{Answers, Sim, script-admit}

-- The milliseconds of the calls, after `t`, are all different and in order.
abbrev pub Rising : ℕ → List ℕ → Type 0
Rising t [] = Unit
Rising t (now ∷ times) = (t < now / million) × Rising (now / million) times

Rising-Timely :
    (t : ℕ) (times : List ℕ) → Rising t times → Timely t (map (λ now. now / million) times)
Rising-Timely t [] h = tt
Rising-Timely t (now ∷ times) (lt, h) = (omega (arith, lt), Rising-Timely (now / million) times h)

module _ (c : Commands) (l : RedisLimiter) (key : Text) where
  -- The milliseconds at which calls of the key are admitted, the newest first.
  unfoldable pub admissions : List ℕ → c.Store → List ℕ → List ℕ
  unfolding allow_with
  admissions [] s log = log
  admissions (now ∷ times) s log =
      let (v, s') = allow_with c l key now s in
      admissions times s' (elim v [ allowed ↦ now / million ∷ log | _ ↦ log ])

  module _ (v r : ℕ) (window : milliseconds l.window ≡ pos (suc v))
      (rate : l.cfg.rate ≡ pos r) where
    logged_alike :
        (now m : ℕ) (reply : List ℤ) (verdict : Verdict) (log : List ℕ)
        → Answers c v r key m reply verdict
        → elim (Redis.allow (some reply) now l) as (λ _. List ℕ) [ allowed ↦ m ∷ log | _ ↦ log ]
          ≡ elim verdict as (λ _. List ℕ) [ allowed ↦ m ∷ log | _ ↦ log ]
    unfolding Redis.allow err_rate_limited
    logged_alike now m reply allowed log a = rw (a, Redis.allow) refl
    logged_alike now m reply (limited wait) log (oldest, a, _) = rw (a, Redis.allow) refl
    logged_alike now m reply panics log a = rw (a, Redis.allow) refl

    admissions-run :
        (t : ℕ) (times : List ℕ) (s : c.Store) (ts log : List ℕ)
        → Rising t times
        → Sim c v r key t s ts
        → admissions times s log ≡ (run (pos r) (pos v) (map (λ now. now / million) times) ts log).1
    unfolding admissions run
    admissions-run t [] s ts log h sim = refl
    admissions-run t (now ∷ times) s ts log (lt, h) sim =
        let m = now / million in
        let (reply, s') = script c m (milliseconds l.window) l.cfg.rate key s in
        let (ts', verdict) = Sliding.admit (pos r) (pos v) m ts in
        let step : Answers c v r key m reply verdict × Sim c v r key m s' ts' =
          rw (window, rate) (script-admit c v r key t m s ts lt sim) in
        ap (λ xs. admissions times s' xs) (logged_alike now m reply verdict log step.0)
        ∙ admissions-run m times s' ts' (elim verdict [ allowed ↦ m ∷ log | _ ↦ log ]) h step.1

    -- With the time of every call cut to whole milliseconds, as the Redis limiter reads it: for a
    -- natural rate `r`, a window of `suc v` milliseconds, a key that is empty, and calls of which
    -- each falls into a later millisecond than the one before, the Redis limiter admits exactly the
    -- calls that localSlidingWindow admits if it counts in the same whole milliseconds, with a window
    -- of `v` of them; and so it admits at most `r` within any `suc v` consecutive milliseconds of the
    -- clock.
    pub redis_bound :
        (times : List ℕ) (s : c.Store)
        → Rising 0 times
        → ((later : ℕ) → c.scores later key s ≡ [])
        → (admissions times s [] ≡ (run (pos r) (pos v) (map (λ now. now / million) times) [] []).1)
          × Spaced r v (admissions times s [])
    redis_bound times s h empty =
        let start : Sim c v r key 0 s [] = record {
          in_order = tt;
          past = tt;
          agree = λ later le. ap (keep (is_recent v later)) (empty later);
        } in
        let same = admissions-run 0 times s [] [] h start in
        (
          same,
          subst (Spaced r v) (sym same)
              (sliding_bound r v (map (λ now. now / million) times) (Rising-Timely 0 times h)),
        )
