-- ===== src/RateLimiter/Redis/Burst.antt =====
-- Calls of one key within one millisecond.
use gateway_pro.Prelude.{
  ltb, lt→ltb, length, keep, All, ◌-ℤ◌, pos, leb_ℤ, Text, ℕ, suc, ◌+◌, ◌*◌, ◌/◌, ◌<◌, ◌≡◌, refl, ap,
  sym, subst, ◌∙◌, true, false, List, [], ◌∷◌, arith,
}
use gateway_pro.RateLimiter.Results.{Verdict, allowed}
use gateway_pro.RateLimiter.Sliding.Bound.{is_recent}
use gateway_pro.RateLimiter.Redis
use gateway_pro.RateLimiter.Redis.{RedisLimiter, million, milliseconds}
use gateway_pro.RateLimiter.Redis.Script.{insert_score, Commands, ceil_seconds, script, allow_with}
use gateway_pro.RateLimiter.Redis.Window.{keep-above}

module _ (c : Commands) (l : RedisLimiter) (key : Text) where
  -- What calls at the given times, in nanoseconds, are answered.
  unfoldable pub answers : List ℕ → c.Store → List Verdict
  unfolding allow_with
  answers [] s = []
  answers (now ∷ times) s = let (v, s') = allow_with c l key now s in v ∷ answers times s'

  module _ (v r : ℕ) (window : milliseconds l.window ≡ pos (suc v))
      (rate : l.cfg.rate ≡ pos r) where
    -- The key holds `now`, and room for another.
    abbrev Roomy : ℕ → List ℕ → c.Store → Type 0
    Roomy now xs s =
        (c.scores now key s ≡ xs)
        × (keep (is_recent v now) xs ≡ xs)
        × (insert_score now xs ≡ xs)
        × (length xs < r)

    -- A call that finds `xs` recent scores, and room, is admitted and leaves its own score behind.
    call_admitted :
        (now : ℕ) (xs : List ℕ) (s : c.Store)
        → keep (is_recent v (now / million)) (c.scores (now / million) key s) ≡ xs
        → length xs < r
        → ((allow_with c l key now s).0 ≡ allowed)
          × (c.scores (now / million) key (allow_with c l key now s).1
              ≡ insert_score (now / million) xs)
    unfolding allow_with script Redis.allow ceil_seconds
    call_admitted now xs s recent room =
        let m = now / million in
        let s' = c.zremrangebyscore m key (pos m -ℤ pos (suc v)) s in
        let kept : c.scores m key s' ≡ xs =
          c.zremrangebyscore_law m m key (pos m -ℤ pos (suc v)) s (omega arith)
          ∙ keep-above v m (c.scores m key s)
          ∙ recent in
        let counted : c.zcard m key s' ≡ length xs =
          c.zcard_law m key s' ∙ ap (length {A = ℕ}) kept in
        let free : leb_ℤ (pos r) (pos (length xs)) ≡ false = ground (arith, room) in
        let soon : ltb m (m + 1000 * ((suc v + 999) / 1000)) ≡ true = lt→ltb _ _ (omega arith) in
        let after : c.scores m key (c.expire m key (pos ((suc v + 999) / 1000)) (c.zadd m key m s'))
            ≡ insert_score m xs =
          c.expire_law m m key ((suc v + 999) / 1000) (c.zadd m key m s') (omega arith)
            (omega arith)
          ∙ rw soon (c.zadd_law m key m s')
          ∙ ap (insert_score m) kept in
        rw (allow_with, script, window, rate, counted, free) (refl, after)

    call-Roomy :
        (now : ℕ) (xs : List ℕ) (s : c.Store)
        → Roomy (now / million) xs s
        → ((allow_with c l key now s).0 ≡ allowed)
          × Roomy (now / million) xs (allow_with c l key now s).1
    call-Roomy now xs s (held, recent, again, room) =
        let (ok, after) =
          call_admitted now xs s (ap (keep (is_recent v (now / million))) held ∙ recent) room in
        (ok, (after ∙ again, recent, again, room))

    answers-Roomy :
        (m : ℕ) (times : List ℕ) (xs : List ℕ) (s : c.Store)
        → All (λ now. now / million ≡ m) times
        → Roomy m xs s
        → All (λ a. a ≡ allowed) (answers times s)
    unfolding answers
    answers-Roomy m [] xs s together room = tt
    answers-Roomy m (now ∷ times) xs s together room =
        let (ok, room') = call-Roomy now xs s (subst (λ k. Roomy k xs s) (sym together.0) room) in
        (
          ok,
          answers-Roomy m times xs _ together.1
              (subst (λ k. Roomy k xs (allow_with c l key now s).1) together.0 room'),
        )

    -- A natural rate above one, a window of at least a millisecond, and a key that is empty: of calls
    -- whose times, in nanoseconds, all fall into one millisecond, however many they are, all are
    -- admitted.
    pub burst_admitted :
        (m : ℕ) (times : List ℕ) (s : c.Store)
        → 1 < r
        → All (λ now. now / 1000000 ≡ m) times
        → c.scores m key s ≡ []
        → All (λ a. a ≡ allowed) (answers times s)
    unfolding answers
    burst_admitted m [] s two together empty = tt
    burst_admitted m (now ∷ times) s two together empty =
        let k = now / million in
        let same : k ≡ m = together.0 in
        let empty' : c.scores k key s ≡ [] = subst (λ t. c.scores t key s ≡ []) (sym same) empty in
        let (ok, after) =
          call_admitted now [] s (ap (keep (is_recent v k)) empty') (omega (arith, two)) in
        let room : Roomy k (k ∷ []) (allow_with c l key now s).1 =
          (after, ground arith, ground arith, omega (arith, two)) in
        (
          ok,
          answers-Roomy m times (k ∷ []) (allow_with c l key now s).1 together.1
              (subst (λ t. Roomy t (k ∷ []) (allow_with c l key now s).1) same room),
        )
