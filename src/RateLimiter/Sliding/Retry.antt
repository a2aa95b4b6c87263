-- ===== src/RateLimiter/Sliding/Retry.antt =====
-- The answers of localSlidingWindow of ratelimiter.go: panics, and RetryAfter.
use gateway_pro.Prelude.{
  if◌then◌else◌, length, ◌+ℤ◌, ◌-ℤ◌, ℤ, pos, ◌≤ℤ◌, leb_ℤ, eq_of_parts, int_laws, ℕ, suc, ◌+◌, ◌-◌,
  ◌≤◌, ◌≡◌, refl, ap, ◌∙◌, ◌≢◌, ◌↔◌, some, List, [], ◌∷◌, ◌++◌, arith,
}
use gateway_pro.RateLimiter.Results.{Verdict, allowed, limited, panics}
use gateway_pro.RateLimiter.Sliding.{evict, refuse, admit}
use gateway_pro.RateLimiter.Sliding.Bound.{expired_iff}

-- The body of Allow after the eviction, on what it leaves.
decide_on : ℤ → ℤ → ℕ → List ℕ → List ℕ × Verdict
unfolding refuse
decide_on rate window now l =
    if leb_ℤ rate (pos (length l)) then (l, refuse now window l) else (l ++ now ∷ [], allowed)

admit_lem :
    (rate window : ℤ) (now : ℕ) (ts : List ℕ)
    → admit rate window now ts ≡ decide_on rate window now (evict now window ts)
unfolding admit decide_on
admit_lem rate window now ts = refl

panics_on :
    (rate window : ℤ) (now : ℕ) (l : List ℕ)
    → ((decide_on rate window now l).1 ≡ panics) ↔ ((l ≡ []) × (rate ≤ℤ pos 0))
unfolding decide_on
panics_on rate window now [] = ground arith
panics_on rate window now (t ∷ l) = ground arith

-- A call panics exactly when nothing is left in the bucket and the configured rate is not positive:
-- the code then reads the oldest of no time stamps.
pub panics_iff :
    (rate window : ℤ) (now : ℕ) (ts : List ℕ)
    → ((admit rate window now ts).1 ≡ panics) ↔ ((evict now window ts ≡ []) × (rate ≤ℤ pos 0))
panics_iff rate window now ts =
    rw (admit_lem rate window now ts) (panics_on rate window now (evict now window ts))

record Refused (r w now : ℕ) (l : List ℕ) (d : ℤ) (oldest : ℕ) (rest : List ℕ) : Type 0 where
  left : l ≡ oldest ∷ rest
  enough : r ≤ suc (length rest)
  delay : d ≡ pos oldest +ℤ pos w -ℤ pos now
  result : decide_on (pos r) (pos w) now l ≡ (oldest ∷ rest, limited (some d))

Refused-on :
    (r w now : ℕ) (l : List ℕ) (d : ℤ)
    → (decide_on (pos r) (pos w) now l).1 ≡ limited (some d)
    → (oldest : ℕ) × (rest : List ℕ) × Refused r w now l d oldest rest
unfolding decide_on
Refused-on r w now [] d e = absurd (ground arith)
Refused-on r w now (t ∷ l) d e = (t, l, ground arith)

evict_head :
    (now w : ℕ) (ts rest : List ℕ) (oldest : ℕ)
    → evict now (pos w) ts ≡ oldest ∷ rest
    → (now ≤ oldest + w) × (suc (length rest) ≤ length ts)
unfolding evict
evict_head now w [] rest oldest e = absurd (cc)
evict_head now w (t ∷ ts) rest oldest e =
    ground (arith, expired_iff w now t, evict_head now w ts rest oldest)

length-evict-le : (now : ℕ) (w : ℤ) (ts : List ℕ) → length (evict now w ts) ≤ length ts
unfolding evict
length-evict-le now w [] = omega arith
length-evict-le now w (t ∷ ts) = ground (arith, length-evict-le now w ts)

refused_again :
    (r w oldest : ℕ) (rest : List ℕ)
    → r ≤ suc (length rest)
    → (admit (pos r) (pos w) (oldest + w) (oldest ∷ rest)).1 ≢ allowed
unfolding admit refuse
refused_again r w oldest rest h = ground (arith, expired_iff w (oldest + w) oldest)

admitted_then :
    (r w oldest : ℕ) (rest : List ℕ)
    → suc (length rest) ≤ r
    → (admit (pos r) (pos w) (oldest + w + 1) (oldest ∷ rest)).1 ≡ allowed
unfolding admit
admitted_then r w oldest rest h =
    ground
      (arith, expired_iff w (oldest + w + 1) oldest, length-evict-le (oldest + w + 1) (pos w) rest)

-- A refusal at `now`, for a natural rate and window, with no more time stamps than `rate` in the
-- bucket, says how long to wait: the time is not negative, at its end the same call is still
-- refused, and a nanosecond later it is admitted.
pub retry_after :
    (r w now : ℕ) (ts : List ℕ) (d : ℤ)
    → length ts ≤ r
    → (admit (pos r) (pos w) now ts).1 ≡ limited (some d)
    → (n : ℕ) × (d ≡ pos n)
      × ((admit (pos r) (pos w) (now + n) (admit (pos r) (pos w) now ts).0).1 ≢ allowed)
      × ((admit (pos r) (pos w) (now + n + 1) (admit (pos r) (pos w) now ts).0).1 ≡ allowed)
retry_after r w now ts d h e =
    let (oldest, rest, f) =
      Refused-on r w now (evict now (pos w) ts) d (rw (admit_lem (pos r) (pos w) now ts) at e) in
    let (fresh, fewer) = evict_head now w ts rest oldest f.left in
    let n = oldest + w - now in
    let at_end : now + n ≡ oldest + w = omega arith in
    let left : (admit (pos r) (pos w) now ts).0 ≡ oldest ∷ rest =
      ap (λ p. p.0) (admit_lem (pos r) (pos w) now ts ∙ f.result) in
    (
      n,
      f.delay ∙ eq_of_parts _ _ (omega (int_laws, fresh)),
      rw (left, at_end) (refused_again r w oldest rest f.enough),
      rw (left, at_end) (admitted_then r w oldest rest (omega (arith, fewer))),
    )
