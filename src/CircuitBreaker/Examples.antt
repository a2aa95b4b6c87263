-- ===== src/CircuitBreaker/Examples.antt =====
-- Concrete runs of circuitbreaker.go.
use gateway_pro.Prelude.{
  All, ◌*ℤ◌, wrap64, pos, ℕ, ◌*◌, ◌≡◌, refl, true, false, none, List, [], ◌∷◌, arith,
}
use gateway_pro.Config.{CircuitBreakerConfig}
use gateway_pro.CircuitBreaker.{
  state_closed, state_open, state_half_open, Breaker, observed, second, new, with_defaults,
  open_elapsed, allow, allow_b,
}
use gateway_pro.CircuitBreaker.Invariant.{Inv, new-run-Inv}
use gateway_pro.CircuitBreaker.Diagram.{Event, allows, succeeds, fails, step, run}
use gateway_pro.CircuitBreaker.Trip.{open_stays}
use gateway_pro.CircuitBreaker.Probes.{Cycle, Admits, half_open-Admits, probe-Cycle}

-- Two requests at least, half of them failed; two probes.
abbrev two_of_two : CircuitBreakerConfig
two_of_two = record {
  failure_threshold = pos 50;
  min_requests = pos 2;
  open_duration_seconds = pos 30;
  half_open_requests = pos 2;
}

abbrev fresh : Breaker
fresh = record {
  cfg = two_of_two;
  state = state_closed;
  open_at = 0;
  window = [];
  half_open_total = 0;
  half_open_failures = 0;
}

abbrev one_success : Breaker
one_success = record fresh { window = observed 5 true ∷ [] }

abbrev tripped : Breaker
tripped = record fresh { state = state_open; open_at = 8 }

-- One failure of two requests trips the breaker; after 31 seconds a probe goes through.
abbrev story : List (ℕ × Event)
story = (5, succeeds) ∷ (8, fails) ∷ (9, allows) ∷ (31 * second, allows) ∷ []

story_state : (run story fresh).state ≡ state_half_open
unfolding run step ◌*ℤ◌ wrap64
story_state = refl

nil_admits : allow 3 none ≡ (none, true)
unfolding allow
nil_admits = refl

defaults_of_zero :
    with_defaults (record two_of_two { half_open_requests = pos 0 })
    ≡ record two_of_two { half_open_requests = pos 5 }
unfolding with_defaults
defaults_of_zero = refl

new-run-Inv_example : (end : ℕ) × Inv (with_defaults two_of_two) end (run story fresh)
unfolding new with_defaults
new-run-Inv_example = new-run-Inv two_of_two fresh story refl (omega arith)

abbrev early : List (ℕ × Event)
early = (9, allows) ∷ (10, succeeds) ∷ []

open_stays_example :
    (run early tripped ≡ tripped)
    × All (λ e. (allow_b e.0 tripped).1 ≡ false) early
    × ((allow_b (31 * second) (run early tripped)).1 ≡ true)
    × ((allow_b (31 * second) (run early tripped)).0.state ≡ state_half_open)
open_stays_example =
    open_stays tripped 30 (31 * second) early refl refl (omega arith)
      (omega arith, (omega arith, tt)) (omega arith)

probe-Cycle_example : Cycle 2 (31 * second) tripped (32 * second ∷ 33 * second ∷ 34 * second ∷ [])
unfolding open_elapsed ◌*ℤ◌ wrap64
probe-Cycle_example =
    probe-Cycle 2 (31 * second) (32 * second ∷ 33 * second ∷ 34 * second ∷ []) tripped refl refl
      refl

half_open-Admits_example : Admits 2 (record tripped { state = state_half_open }) (40 ∷ 41 ∷ 42 ∷ [])
half_open-Admits_example =
    half_open-Admits 2 (40 ∷ 41 ∷ 42 ∷ []) (record tripped { state = state_half_open }) refl refl
      (omega arith)
