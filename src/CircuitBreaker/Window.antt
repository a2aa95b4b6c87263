-- ===== src/CircuitBreaker/Window.antt =====
-- The rolling window of circuitbreaker.go: `record` against a filter on the time stamps.
use gateway_pro.Prelude.{
  ℕ, ◌+◌, ◌≤◌, ◌<◌, ◌≡◌, refl, ap, ◌∙◌, Bool, List, [], ◌∷◌, ◌++◌, All, All-append, arith, leb,
  keep, length, length-append,
}
use gateway_pro.CircuitBreaker.{observed, Observation, Breaker, rolling_window, evict, record_at}

-- Taken in the last `rolling_window` nanoseconds.
abbrev pub is_recent : ℕ → Observation → Bool
is_recent now o = leb now (o.at + rolling_window)

-- The time stamps never fall along the list.
abbrev pub InOrder : List Observation → Type 0
InOrder [] = Unit
InOrder (o ∷ os) = All (λ (p : Observation). o.at ≤ p.at) os × InOrder os

abbrev pub Past : ℕ → List Observation → Type 0
Past now = All (λ o. o.at ≤ now)

keep-All_recent :
    (now t : ℕ) (os : List Observation)
    → now ≤ t + rolling_window
    → All (λ o. t ≤ o.at) os
    → keep (is_recent now) os ≡ os
keep-All_recent now t [] h a = refl
keep-All_recent now t (o ∷ os) h a = ground (arith, keep-All_recent now t os h a.1)

evict-eq-keep :
    (now : ℕ) (os : List Observation) → InOrder os → evict now os ≡ keep (is_recent now) os
unfolding evict
evict-eq-keep now [] s = refl
evict-eq-keep now (o ∷ os) s = ground (arith, evict-eq-keep now os s.1, keep-All_recent now o.at os)

InOrder-concat :
    (os : List Observation) (o : Observation) → InOrder os → Past o.at os → InOrder (os ++ o ∷ [])
InOrder-concat [] o s p = (tt, tt)
InOrder-concat (x ∷ os) o s p =
    (All-append _ os (o ∷ []) s.0 (p.0, tt), InOrder-concat os o s.1 p.1)

InOrder-evict : (now : ℕ) (os : List Observation) → InOrder os → InOrder (evict now os)
unfolding evict
InOrder-evict now [] s = tt
InOrder-evict now (o ∷ os) s = ground (arith, InOrder-evict now os s.1)

Past-evict : (now t : ℕ) (os : List Observation) → Past t os → Past t (evict now os)
unfolding evict
Past-evict now t [] s = tt
Past-evict now t (o ∷ os) s = ground (arith, Past-evict now t os s.1)

pub Past-mono : {s t : ℕ} (os : List Observation) → s ≤ t → Past s os → Past t os
Past-mono [] h p = tt
Past-mono (o ∷ os) h p = (omega arith, Past-mono os h p.1)

-- The observation that is being recorded is never evicted.
evict-concat :
    (now : ℕ) (ok : Bool) (os : List Observation)
    → evict now (os ++ observed now ok ∷ []) ≡ evict now os ++ observed now ok ∷ []
unfolding evict
evict-concat now ok [] = ground arith
evict-concat now ok (x ∷ os) = ground (arith, evict-concat now ok os)

module _ (b : Breaker) (ok : Bool) (now : ℕ) (s : InOrder b.window) (p : Past now b.window) where
  -- Recording in a window whose time stamps do not fall and are not later than `now` leaves exactly
  -- the observations of the last ten seconds, the new one among them, in their order.
  pub record_at-window :
      (record_at ok now b).window ≡ keep (is_recent now) b.window ++ observed now ok ∷ []
  unfolding record_at
  record_at-window =
      evict-concat now ok b.window
      ∙ ap (λ w. w ++ observed now ok ∷ []) (evict-eq-keep now b.window s)

  pub record_at-InOrder : InOrder (record_at ok now b).window
  unfolding record_at
  record_at-InOrder =
      InOrder-evict now (b.window ++ observed now ok ∷ [])
        (InOrder-concat b.window (observed now ok) s p)

  pub record_at-Past : Past now (record_at ok now b).window
  unfolding record_at
  record_at-Past =
      Past-evict now now (b.window ++ observed now ok ∷ [])
        (All-append _ b.window _ p (omega arith, tt))

-- A recorded window is never empty, so that the division in `maybeTrip` has a positive divisor.
pub record_at-nonempty :
    (b : Breaker) (ok : Bool) (now : ℕ) → 0 < length (record_at ok now b).window
unfolding record_at
record_at-nonempty b ok now = omega (
  arith,
  ap length (evict-concat now ok b.window),
  length-append (evict now b.window) (observed now ok ∷ []),
)
