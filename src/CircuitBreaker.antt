-- ===== src/CircuitBreaker.antt =====
-- internal/circuitbreaker/circuitbreaker.go: the three-state circuit breaker of one backend.
-- Each method runs under the breaker's mutex, so it is one step on the record. `now` is what
-- `time.Now()` returns during the call, in nanoseconds. A nil `*Breaker` is `none`.
pub mod Window
pub mod Invariant
pub mod Diagram
pub mod Trip
pub mod Probes
mod Examples
use gateway_pro.Prelude.{
  ℕ, suc, ◌+◌, ◌*◌, ◌/◌, Bool, true, false, Option, none, some, List, [], ◌∷◌, ◌++◌, Text, codes,
  length, ltb, if◌then◌else◌, ℤ, pos, sub_ℕ, ltb_ℤ, leb_ℤ, is_zero_ℤ, ◌*ℤ◌, wrap64,
}
use gateway_pro.Config.{CircuitBreakerConfig}

pub data State : Type 0 where
  state_closed state_open state_half_open : State

-- state.String
pub string : State → Text
string state_closed = codes "closed"
string state_open = codes "open"
string state_half_open = codes "half-open"

pub record Observation : Type 0 where
  pub at : ℕ
  pub success : Bool

-- `half_open_total` and `half_open_failures` only count up from 0, one for a request that was
-- admitted, so they are kept as natural numbers.
pub record Breaker : Type 0 where
  pub cfg : CircuitBreakerConfig
  pub state : State
  pub open_at : ℕ
  pub window : List Observation
  pub half_open_total : ℕ
  pub half_open_failures : ℕ

abbrev pub second : ℕ
second = 1_000_000_000

abbrev pub rolling_window : ℕ
rolling_window = 10 * second

abbrev default_to : ℕ → ℤ → ℤ
default_to n a = if is_zero_ℤ a then pos n else a

-- The zero fields get their defaults. (The code writes them to the caller's config and copies that.)
pub with_defaults : CircuitBreakerConfig → CircuitBreakerConfig
with_defaults c = record {
  failure_threshold = default_to 50 c.failure_threshold;
  min_requests = default_to 20 c.min_requests;
  open_duration_seconds = default_to 30 c.open_duration_seconds;
  half_open_requests = default_to 5 c.half_open_requests;
}

pub new : Option CircuitBreakerConfig → Option Breaker
unfolding with_defaults
new none = none
new (some c) = some (record {
  cfg = with_defaults c;
  state = state_closed;
  open_at = 0;
  window = [];
  half_open_total = 0;
  half_open_failures = 0;
})

pub transition_to : State → ℕ → Breaker → Breaker
transition_to state_open now b = record b { state = state_open; open_at = now; window = [] }
transition_to state_half_open now b = record b {
  state = state_half_open;
  half_open_total = 0;
  half_open_failures = 0;
}
transition_to state_closed now b = record b { state = state_closed; window = [] }

-- `for i < len(b.window) && b.window[i].at.Before(cutoff) { i++ }` and the reslicing. An instant is
-- before `now - rollingWindow` when `at + rollingWindow < now`.
pub evict : ℕ → List Observation → List Observation
evict now [] = []
evict now (o ∷ os) = if ltb (o.at + rolling_window) now then evict now os else o ∷ os

abbrev pub observed : ℕ → Bool → Observation
observed now ok = record { at = now; success = ok }

-- Breaker.record
pub record_at : Bool → ℕ → Breaker → Breaker
unfolding evict
record_at ok now b = record b { window = evict now (b.window ++ observed now ok ∷ []) }

pub failures : List Observation → ℕ
failures [] = 0
failures (o ∷ os) = if o.success then failures os else suc (failures os)

-- `failures * 100 / total`, with `total` the window's length: `record_at` leaves it positive.
pub failure_pct : List Observation → ℕ
unfolding failures
failure_pct w = failures w * 100 / length w

pub maybe_trip : ℕ → Breaker → Breaker
unfolding failure_pct transition_to
maybe_trip now b =
    if ltb_ℤ (pos (length b.window)) b.cfg.min_requests
    then b
    else if leb_ℤ b.cfg.failure_threshold (pos (failure_pct b.window))
    then transition_to state_open now b
    else b

-- ErrCircuitOpen is the only error of Allow: `true` means that the request may proceed.
-- time.Since(b.openAt) is `now - openAt`; the limit is a product of two int64.
pub open_elapsed : ℕ → Breaker → Bool
open_elapsed now b =
    ltb_ℤ (wrap64 (b.cfg.open_duration_seconds *ℤ pos second)) (sub_ℕ now b.open_at)

pub allow_in : State → ℕ → Breaker → Breaker × Bool
unfolding transition_to open_elapsed
allow_in state_closed now b = (b, true)
allow_in state_open now b =
    if open_elapsed now b then (transition_to state_half_open now b, true) else (b, false)
allow_in state_half_open now b =
    if ltb_ℤ (pos b.half_open_total) b.cfg.half_open_requests
    then (record b { half_open_total = suc b.half_open_total }, true)
    else (b, false)

pub record_success_in : State → ℕ → Breaker → Breaker
unfolding record_at transition_to
record_success_in state_closed now b = record_at true now b
record_success_in state_open now b = b
record_success_in state_half_open now b =
    if leb_ℤ b.cfg.half_open_requests (sub_ℕ b.half_open_total b.half_open_failures)
    then transition_to state_closed now b
    else b

pub record_failure_in : State → ℕ → Breaker → Breaker
unfolding record_at maybe_trip transition_to
record_failure_in state_closed now b = maybe_trip now (record_at false now b)
record_failure_in state_open now b = b
record_failure_in state_half_open now b =
    transition_to state_open now (record b { half_open_failures = suc b.half_open_failures })

-- The methods, on a breaker that is there.
abbrev pub allow_b : ℕ → Breaker → Breaker × Bool
allow_b now b = allow_in b.state now b

abbrev pub record_success_b : ℕ → Breaker → Breaker
record_success_b now b = record_success_in b.state now b

abbrev pub record_failure_b : ℕ → Breaker → Breaker
record_failure_b now b = record_failure_in b.state now b

-- The methods as the callers see them, with their nil checks.
unfoldable pub allow : ℕ → Option Breaker → Option Breaker × Bool
unfolding allow_in
allow now none = (none, true)
allow now (some b) = let (b', admitted) = allow_b now b in (some b', admitted)

pub record_success : ℕ → Option Breaker → Option Breaker
unfolding record_success_in
record_success now none = none
record_success now (some b) = some (record_success_b now b)

pub record_failure : ℕ → Option Breaker → Option Breaker
unfolding record_failure_in
record_failure now none = none
record_failure now (some b) = some (record_failure_b now b)

-- Breaker.State
unfoldable pub state_text : Option Breaker → Text
unfolding string
state_text none = codes "disabled"
state_text (some b) = string b.state
