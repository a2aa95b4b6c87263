-- ===== src/CircuitBreaker/Invariant.antt =====
-- What holds of a breaker of circuitbreaker.go between two calls.
use gateway_pro.Prelude.{
  ℕ, ◌≤◌, ◌≡◌, ◌≢◌, ◌⊎◌, refl, List, [], ◌∷◌, true, false, some, arith, pos, ◌≤ℤ◌, Bool,
}
use gateway_pro.Config.{CircuitBreakerConfig}
use gateway_pro.CircuitBreaker.{
  State, state_closed, state_open, state_half_open, Breaker, new, with_defaults, record_at,
  maybe_trip, allow_in, record_success_in, record_failure_in,
}
use gateway_pro.CircuitBreaker.Window.{InOrder, Past, Past-mono, record_at-InOrder, record_at-Past}
use gateway_pro.CircuitBreaker.Diagram.{Event, allows, succeeds, fails, step, run, Timely}

-- At time `now`. Only a closed breaker keeps observations; a half-open one has admitted no more
-- counted probes than its limit, and none of them has failed.
pub record Inv (cfg : CircuitBreakerConfig) (now : ℕ) (b : Breaker) : Type 0 where
  pub same_cfg : b.cfg ≡ cfg
  pub in_order : InOrder b.window
  pub past : Past now b.window
  pub opened : b.open_at ≤ now
  pub forgotten : b.state ≢ state_closed → b.window ≡ []
  pub probes :
      b.state ≡ state_half_open
      → (b.half_open_total ≡ 0) ⊎ (pos b.half_open_total ≤ℤ cfg.half_open_requests)
  pub unfailed : b.state ≡ state_half_open → b.half_open_failures ≡ 0

Inv-mono : (cfg : CircuitBreakerConfig) (s t : ℕ) (b : Breaker) → s ≤ t → Inv cfg s b → Inv cfg t b
Inv-mono cfg s t b h v = record {
  same_cfg = v.same_cfg;
  in_order = v.in_order;
  past = Past-mono b.window h v.past;
  opened = omega arith;
  forgotten = v.forgotten;
  probes = v.probes;
  unfailed = v.unfailed;
}

module _ (cfg : CircuitBreakerConfig) (now : ℕ) where
  allow-Inv :
      (s : State) (b : Breaker) → b.state ≡ s → Inv cfg now b → Inv cfg now (allow_in s now b).0
  unfolding allow_in
  allow-Inv state_closed b e v = v
  allow-Inv state_open b e v = ground (arith, v.forgotten)
  allow-Inv state_half_open b e v = ground (arith, v.forgotten, v.probes, v.unfailed)

  record-Inv :
      (ok : Bool) (b : Breaker)
      → b.state ≡ state_closed
      → Inv cfg now b
      → Inv cfg now (record_at ok now b)
  record-Inv ok b e v = record {
    same_cfg = unfold record_at in v.same_cfg;
    in_order = record_at-InOrder b ok now v.in_order v.past;
    past = record_at-Past b ok now v.in_order v.past;
    opened = unfold record_at in v.opened;
    forgotten = λ h. absurd (unfold record_at in h e);
    probes = unfold record_at in v.probes;
    unfailed = unfold record_at in v.unfailed;
  }

  maybe_trip-Inv : (b : Breaker) → Inv cfg now b → Inv cfg now (maybe_trip now b)
  unfolding maybe_trip
  maybe_trip-Inv b v = ground (arith, v.forgotten, v.probes, v.unfailed)

  success-Inv :
      (s : State) (b : Breaker)
      → b.state ≡ s
      → Inv cfg now b
      → Inv cfg now (record_success_in s now b)
  unfolding record_success_in
  success-Inv state_closed b e v = record-Inv true b e v
  success-Inv state_open b e v = v
  success-Inv state_half_open b e v = ground (arith, v.forgotten, v.probes, v.unfailed)

  failure-Inv :
      (s : State) (b : Breaker)
      → b.state ≡ s
      → Inv cfg now b
      → Inv cfg now (record_failure_in s now b)
  unfolding record_failure_in
  failure-Inv state_closed b e v = maybe_trip-Inv (record_at false now b) (record-Inv false b e v)
  failure-Inv state_open b e v = v
  failure-Inv state_half_open b e v = ground (arith, v.forgotten)

-- Every call keeps the invariant.
step-Inv :
    (cfg : CircuitBreakerConfig) (now : ℕ) (e : Event) (b : Breaker)
    → Inv cfg now b
    → Inv cfg now (step now e b)
unfolding step
step-Inv cfg now allows b v = allow-Inv cfg now b.state b refl v
step-Inv cfg now succeeds b v = success-Inv cfg now b.state b refl v
step-Inv cfg now fails b v = failure-Inv cfg now b.state b refl v

run-Inv :
    (cfg : CircuitBreakerConfig) (t : ℕ) (es : List (ℕ × Event)) (b : Breaker)
    → Timely t es
    → Inv cfg t b
    → (end : ℕ) × Inv cfg end (run es b)
unfolding run
run-Inv cfg t [] b h v = (t, v)
run-Inv cfg t ((now, e) ∷ es) b h v =
    run-Inv cfg now es (step now e b) h.1 (step-Inv cfg now e b (Inv-mono cfg t now b h.0 v))

new-Inv :
    (c : CircuitBreakerConfig) (b : Breaker) → new (some c) ≡ some b → Inv (with_defaults c) 0 b
unfolding new
new-Inv c b e = ground arith

-- Whatever calls a new breaker receives at times that do not fall, in any order, the invariant
-- `Inv` holds afterwards for the configuration with its defaults: the window is in order, it is
-- empty unless the breaker is closed, and a half-open breaker has counted no failure and no more
-- probes than its limit, if any.
pub new-run-Inv :
    (c : CircuitBreakerConfig) (b : Breaker) (es : List (ℕ × Event))
    → new (some c) ≡ some b
    → Timely 0 es
    → (end : ℕ) × Inv (with_defaults c) end (run es b)
new-run-Inv c b es e h = run-Inv (with_defaults c) 0 es b h (new-Inv c b e)
