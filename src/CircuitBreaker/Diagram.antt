-- ===== src/CircuitBreaker/Diagram.antt =====
-- The state diagram of docs/architecture.md, and the events that drive circuitbreaker.go.
use gateway_pro.Prelude.{ℕ, ◌≤◌, List, [], ◌∷◌, arith}
use gateway_pro.CircuitBreaker.{
  State, state_closed, state_open, state_half_open, Breaker, allow_b, record_success_b,
  record_failure_b, allow_in, record_success_in, record_failure_in,
}

-- A call of Allow, RecordSuccess or RecordFailure.
pub data Event : Type 0 where
  allows succeeds fails : Event

unfoldable pub step : ℕ → Event → Breaker → Breaker
unfolding allow_in record_success_in record_failure_in
step now allows b = (allow_b now b).0
step now succeeds b = record_success_b now b
step now fails b = record_failure_b now b

unfoldable pub run : List (ℕ × Event) → Breaker → Breaker
run [] b = b
run ((now, e) ∷ es) b = run es (step now e b)

-- The clock does not run backwards.
abbrev pub Timely : ℕ → List (ℕ × Event) → Type 0
Timely t [] = Unit
Timely t ((now, e) ∷ es) = (t ≤ now) × Timely now es

-- The arrows of the diagram, each with the call that may take it.
pub data Arrow : Event → State → State → Type 0 where
  stay : {e : Event} {s : State} → Arrow e s s
  trip : Arrow fails state_closed state_open
  probe : Arrow allows state_open state_half_open
  recover : Arrow succeeds state_half_open state_closed
  reopen : Arrow fails state_half_open state_open

-- Every call, in every state and at every time, takes an arrow of the diagram or stays where it is.
step-Arrow : (now : ℕ) (e : Event) (b : Breaker) → Arrow e b.state (step now e b).state
unfolding step allow_in record_success_in record_failure_in
step-Arrow now e b = grind (arith, stay, trip, probe, recover, reopen)
