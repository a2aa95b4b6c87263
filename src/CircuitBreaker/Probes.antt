-- ===== src/CircuitBreaker/Probes.antt =====
-- The half-open state of circuitbreaker.go: how many probes it admits, and what closes it.
use gateway_pro.Prelude.{
  ltb, if◌then◌else◌, length, pos, ℕ, suc, ◌+◌, ◌-◌, ◌≤◌, min, ◌≡◌, refl, ap, ◌∙◌, ◌↔◌, Bool, true,
  false, List, [], ◌∷◌, arith,
}
use gateway_pro.CircuitBreaker.{
  State, state_closed, state_open, state_half_open, Breaker, open_elapsed, allow_b,
  record_success_b, record_failure_b, allow_in, record_success_in, record_failure_in,
}

-- Calls of Allow in a row: the breaker after them, and how many were admitted.
pub admitted : List ℕ → Breaker → Breaker × ℕ
admitted [] b = (b, 0)
admitted (now ∷ ts) b =
    let (b', ok) = allow_b now b in let (b'', n) = admitted ts b' in (b'', count ok n)
  where
    count : Bool → ℕ → ℕ
    count true n = suc n
    count false n = n

allow_half_open :
    (s : State) (n now : ℕ) (b : Breaker)
    → s ≡ state_half_open
    → b.cfg.half_open_requests ≡ pos n
    → allow_in s now b ≡ (
        if ltb b.half_open_total n
        then (record b { half_open_total = suc b.half_open_total }, true)
        else (b, false))
unfolding allow_in
allow_half_open state_half_open n now b e c = ground arith
allow_half_open state_closed n now b e c = cc
allow_half_open state_open n now b e c = cc

-- Admission by a half-open breaker with `n` for its allowance, of calls at the times `ts`.
pub record Admits (n : ℕ) (b : Breaker) (ts : List ℕ) : Type 0 where
  pub count : (admitted ts b).1 ≡ min (length ts) (n - b.half_open_total)
  pub same_cfg : (admitted ts b).0.cfg ≡ b.cfg
  pub half_open : (admitted ts b).0.state ≡ state_half_open
  pub total : (admitted ts b).0.half_open_total ≡ b.half_open_total + (admitted ts b).1
  pub failed : (admitted ts b).0.half_open_failures ≡ b.half_open_failures

-- A half-open breaker with a natural allowance, not exceeded yet, admits probes up to it and then
-- none, at any times, for as long as no result is reported, and stays half-open.
pub half_open-Admits :
    (n : ℕ) (ts : List ℕ) (b : Breaker)
    → b.state ≡ state_half_open
    → b.cfg.half_open_requests ≡ pos n
    → b.half_open_total ≤ n
    → Admits n b ts
unfolding admitted
half_open-Admits n [] b e c h = ground arith
half_open-Admits n (now ∷ ts) b e c h = ground (
  arith,
  allow_half_open b.state n now b e c,
  half_open-Admits n ts b,
  half_open-Admits n ts (record b { half_open_total = suc b.half_open_total }),
)

-- Reports that reach a half-open breaker.
success_half_open :
    (s : State) (n now : ℕ) (b : Breaker)
    → s ≡ state_half_open
    → b.state ≡ state_half_open
    → b.cfg.half_open_requests ≡ pos n
    → b.half_open_failures ≡ 0
    → ((record_success_in s now b).state ≡ state_closed) ↔ (n ≤ b.half_open_total)
unfolding record_success_in
success_half_open state_half_open n now b e e' c f = ground arith
success_half_open state_closed n now b e e' c f = cc
success_half_open state_open n now b e e' c f = cc

failure_half_open :
    (s : State) (now : ℕ) (b : Breaker)
    → s ≡ state_half_open
    → ((record_failure_in s now b).state ≡ state_open) × ((record_failure_in s now b).open_at ≡ now)
unfolding record_failure_in
failure_half_open state_half_open now b e = (refl, refl)
failure_half_open state_closed now b e = cc
failure_half_open state_open now b e = cc

open_probe :
    (s : State) (now : ℕ) (b : Breaker)
    → s ≡ state_open
    → open_elapsed now b ≡ true
    → allow_in s now b
      ≡ (record b { state = state_half_open; half_open_total = 0; half_open_failures = 0 }, true)
unfolding allow_in
open_probe state_open now b e h = ground arith
open_probe state_closed now b e h = cc
open_probe state_half_open now b e h = cc

abbrev probing : Breaker → Breaker
probing b = record b { state = state_half_open; half_open_total = 0; half_open_failures = 0 }

admitted_from_open :
    (now : ℕ) (ts : List ℕ) (b : Breaker)
    → b.state ≡ state_open
    → open_elapsed now b ≡ true
    → admitted (now ∷ ts) b ≡ ((admitted ts (probing b)).0, suc (admitted ts (probing b)).1)
unfolding admitted
admitted_from_open now ts b e h = ground (arith, open_probe b.state now b e h)

-- What becomes of an open breaker whose open duration has passed at `now`, when the calls of Allow
-- at `now` and then at the times `ts` come before any report. `n` is `half_open_requests`.
pub record Cycle (n now : ℕ) (b : Breaker) (ts : List ℕ) : Type 0 where
  pub count : (admitted (now ∷ ts) b).1 ≡ suc (min (length ts) n)
  pub half_open : (admitted (now ∷ ts) b).0.state ≡ state_half_open
  pub closes :
      (later : ℕ)
      → ((record_success_b later (admitted (now ∷ ts) b).0).state ≡ state_closed) ↔ (n ≤ length ts)
  pub reopens :
      (later : ℕ)
      → ((record_failure_b later (admitted (now ∷ ts) b).0).state ≡ state_open)
        × ((record_failure_b later (admitted (now ∷ ts) b).0).open_at ≡ later)

-- Of an open breaker whose open duration has passed at `now`, with a natural `n` for its
-- half_open_requests: the call at `now` is admitted without being counted, so up to `n + 1`
-- requests pass before a report. A single success closes the breaker exactly when at least `n`
-- further calls were made, whatever becomes of the other probes, and a single failure opens it
-- again for a full open duration.
pub probe-Cycle :
    (n now : ℕ) (ts : List ℕ) (b : Breaker)
    → b.state ≡ state_open
    → open_elapsed now b ≡ true
    → b.cfg.half_open_requests ≡ pos n
    → Cycle n now b ts
probe-Cycle n now ts b e h c = record {
  count = rw first (ground (arith, a.count));
  half_open = rw first a.half_open;
  closes = λ later. rw first (
      ground (
        arith,
        success_half_open rest.state n later rest a.half_open a.half_open limit a.failed,
        a.count,
        a.total,
      ));
  reopens = λ later. rw first (failure_half_open rest.state later rest a.half_open);
}
  where
    a : Admits n (probing b) ts
    a = half_open-Admits n ts (probing b) refl c (omega arith)

    rest : Breaker
    rest = (admitted ts (probing b)).0

    first : admitted (now ∷ ts) b ≡ (rest, suc (admitted ts (probing b)).1)
    first = admitted_from_open now ts b e h

    limit : rest.cfg.half_open_requests ≡ pos n
    limit = ap (λ g. g.half_open_requests) a.same_cfg ∙ c
