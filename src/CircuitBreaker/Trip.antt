-- ===== src/CircuitBreaker/Trip.antt =====
-- When a closed breaker of circuitbreaker.go trips, and how long it stays open.
use gateway_pro.Prelude.{
  ℕ, ◌*◌, ◌≤◌, ◌<◌, ◌≡◌, ◌↔◌, refl, List, [], ◌∷◌, true, false, arith, pos, ◌≤ℤ◌, length, pos_part,
  ◌^◌, ◌+◌, wrap64, ◌*ℤ◌, wrap64_of_Int64, ltb_ℤ, sub_ℕ, ap, ◌∙◌, All-map, All,
}
use gateway_pro.CircuitBreaker.{
  state_open, state_half_open, Observation, Breaker, failures, record_failure_in, second,
  transition_to, open_elapsed, allow_b, allow_in, record_success_in,
}
use gateway_pro.CircuitBreaker.Diagram.{Event, step, run}

abbrev pub ShouldTrip : Breaker → List Observation → Type 0
ShouldTrip b w =
    (b.cfg.min_requests ≤ℤ pos (length w))
    × (pos_part b.cfg.failure_threshold * length w ≤ failures w * 100)

in_nanoseconds : (d : ℕ) → pos d *ℤ pos second ≡ pos (d * 1000000000)
unfolding ◌*ℤ◌
in_nanoseconds d = ground arith

elapsed_lem :
    (now d : ℕ) (b : Breaker)
    → b.cfg.open_duration_seconds ≡ pos d
    → d * 1000000000 < 2 ^ 63
    → open_elapsed now b ≡ ltb_ℤ (pos (d * 1000000000)) (sub_ℕ now b.open_at)
unfolding open_elapsed
elapsed_lem now d b e small =
    ap (λ x. ltb_ℤ (wrap64 (x *ℤ pos second)) (sub_ℕ now b.open_at)) e
    ∙ ap (λ x. ltb_ℤ (wrap64 x) (sub_ℕ now b.open_at)) (in_nanoseconds d)
    ∙ ap (λ x. ltb_ℤ x (sub_ℕ now b.open_at))
        (wrap64_of_Int64 (pos (d * 1000000000)) (omega (arith, small), omega arith))

elapsed_iff :
    (now d : ℕ) (b : Breaker)
    → b.cfg.open_duration_seconds ≡ pos d
    → d * 1000000000 < 2 ^ 63
    → (open_elapsed now b ≡ true) ↔ (b.open_at + d * 1000000000 < now)
elapsed_iff now d b e small = rw (elapsed_lem now d b e small) (ground arith)

open_step :
    (now : ℕ) (e : Event) (b : Breaker)
    → b.state ≡ state_open
    → open_elapsed now b ≡ false
    → (step now e b ≡ b) × ((allow_b now b).1 ≡ false)
unfolding step allow_in record_success_in record_failure_in
open_step now e b o h = ground arith

open_run :
    (b : Breaker) (es : List (ℕ × Event))
    → b.state ≡ state_open
    → All (λ e. open_elapsed e.0 b ≡ false) es
    → (run es b ≡ b) × All (λ e. (allow_b e.0 b).1 ≡ false) es
unfolding run
open_run b [] o h = (refl, tt)
open_run b ((now, e) ∷ es) o h =
    let (same, refused) = open_step now e b o h.0 in
    let (rest, all_refused) = open_run b es o h.1 in (rw same rest, (refused, all_refused))

-- A breaker that opened at `open_at` with an open duration of `d` seconds, which fit into 64 bits of
-- nanoseconds: whatever is called until that time has passed, its last nanosecond included, every
-- Allow is refused and no call changes the breaker; and an Allow at any later time is admitted and
-- makes it half-open.
pub open_stays :
    (b : Breaker) (d now : ℕ) (es : List (ℕ × Event))
    → b.state ≡ state_open
    → b.cfg.open_duration_seconds ≡ pos d
    → d * 1000000000 < 2 ^ 63
    → All (λ e. e.0 ≤ b.open_at + d * 1000000000) es
    → b.open_at + d * 1000000000 < now
    → (run es b ≡ b)
      × All (λ e. (allow_b e.0 b).1 ≡ false) es
      × ((allow_b now (run es b)).1 ≡ true)
      × ((allow_b now (run es b)).0.state ≡ state_half_open)
unfolding allow_in transition_to
open_stays b d now es o duration small early late =
    let stays : (t : ℕ) → t ≤ b.open_at + d * 1000000000 → open_elapsed t b ≡ false =
      λ t before. ground (arith, elapsed_iff t d b duration small) in
    let passed : open_elapsed now b ≡ true = (elapsed_iff now d b duration small).1 late in
    let (same, refused) = open_run b es o (
      All-map (λ e. e.0 ≤ b.open_at + d * 1000000000) (λ e. open_elapsed e.0 b ≡ false) es
        (λ e before. stays e.0 before) early) in
    let (admits, state) : ((allow_b now (run es b)).1 ≡ true)
        × ((allow_b now (run es b)).0.state ≡ state_half_open) =
      rw (same, o, allow_in, passed, transition_to) (refl, refl) in
    (same, refused, admits, state)
