-- ===== src/Proxy/Overlap.antt =====
-- serveProxy of gateway.go a step at a time, so that requests that overlap can be followed: between
-- two steps of one request other requests move, and the health checker sets flags. A step is what
-- one mutex or one atomic makes indivisible.
pub mod Alone
pub mod InFlight
mod Examples
use gateway_pro.Prelude.{leb, if◌then◌else◌, ℕ, Bool, false, not, Option}
use gateway_pro.Http.{Request}
use gateway_pro.CircuitBreaker
use gateway_pro.LoadBalancer.Heap.{
  Heap, Pick, picked, no_healthy_backend, panics, set_alive, inc, dec,
}
use gateway_pro.LoadBalancer.Balancer
use gateway_pro.RateLimiter
use gateway_pro.RateLimiter.Results.{Verdict, allowed, limited}
use gateway_pro.Proxy.{
  Route, Outcome, responds, fails, Reply, status, aborted, Surroundings, put_breaker,
}

-- How far a request has come: before the rate limiter, the balancer, the circuit breaker's Allow,
-- `backend.Inc()`, the round trip, the circuit breaker's record, SetAlive, the deferred
-- `backend.Dec()`, and at its end.
pub data Stage : Type 0 where
  arrived admitted : Stage
  chosen passed counted : ℕ → Stage
  answered recorded : ℕ → Outcome → Stage
  leaving : ℕ → Reply → Stage
  finished : Reply → Stage

pub after_limit : Verdict → Stage
after_limit allowed = admitted
after_limit (limited retry) = finished (status 429)
after_limit Verdict.panics = finished aborted

pub after_pick : Pick → Stage
after_pick (picked p) = chosen p
after_pick no_healthy_backend = finished (status 503)
after_pick panics = finished aborted

-- `resp.StatusCode >= 500` or an error, as the circuit breaker and the alive flag see it.
pub succeeds : Outcome → Bool
succeeds (responds code) = not (leb 500 code)
succeeds fails = false

pub record_outcome : ℕ → Outcome → Option CircuitBreaker.Breaker → Option CircuitBreaker.Breaker
unfolding succeeds
record_outcome later o cb =
    if succeeds o
    then CircuitBreaker.record_success later cb
    else CircuitBreaker.record_failure later cb

pub reply_to : Outcome → Reply
reply_to (responds code) = status code
reply_to fails = status 502

-- What requests share: the backends and the route.
pub record Shared : Type 0 where
  pub heap : Heap
  pub route : Route

pub advance : Surroundings → Request → Stage → Shared → Stage × Shared
unfolding after_limit after_pick succeeds record_outcome reply_to
advance e r arrived s =
    let (rl, verdict) = RateLimiter.allow e.redis_reply e.now r s.route.rl in
    (after_limit verdict, record s { route = record s.route { rl = rl } })
advance e r admitted s =
    let (lb, pick) = Balancer.next s.heap s.route.lb r in
    (after_pick pick, record s { route = record s.route { lb = lb } })
advance e r (chosen p) s =
    let url = (s.heap.cell p).url in
    let (cb, ok) = CircuitBreaker.allow e.now (s.route.breakers url) in
    (
      if ok then passed p else finished (status 503),
      record s { route = put_breaker url cb s.route },
    )
advance e r (passed p) s = (counted p, record s { heap = inc p s.heap })
advance e r (counted p) s =
    (if e.parses (s.heap.cell p).url then answered p (e.outcome p) else leaving p (status 502), s)
advance e r (answered p o) s =
    let url = (s.heap.cell p).url in
    (
      recorded p o,
      record s {
        route = put_breaker url (record_outcome e.later o (s.route.breakers url)) s.route;
      },
    )
advance e r (recorded p o) s =
    (leaving p (reply_to o), record s { heap = set_alive p (succeeds o) s.heap })
advance e r (leaving p reply) s = (finished reply, record s { heap = dec p s.heap })
advance e r (finished reply) s = (finished reply, s)
