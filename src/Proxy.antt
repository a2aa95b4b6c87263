-- ===== src/Proxy.antt =====
-- internal/proxy/gateway.go: the routes, ServeHTTP's choice of one, and serveProxy. The child
-- modules hold what is proved of them.
pub mod Match
pub mod Serve
pub mod Sent
pub mod Rewrite
pub mod Readiness
pub mod Overlap
pub mod Handler
pub mod Build
pub mod Server
mod Examples
use gateway_pro.Prelude.{
  ltb, leb, if◌then◌else◌, length, drop, ℤ, text_eq, has_prefix, Text, codes, is_empty, ℕ, Bool,
  true, false, ◌||◌, Option, none, some, List, [], ◌∷◌, ◌++◌,
}
use gateway_pro.Http.{Request, Header, get, set}
use gateway_pro.CircuitBreaker
use gateway_pro.CircuitBreaker.{Breaker}
use gateway_pro.LoadBalancer.Heap.{
  Heap, Pick, picked, no_healthy_backend, panics, set_alive, inc, dec,
}
use gateway_pro.LoadBalancer.Balancer
use gateway_pro.LoadBalancer.Balancer.{Balancer}
use gateway_pro.RateLimiter
use gateway_pro.RateLimiter.{Limiter}
use gateway_pro.RateLimiter.Results.{Verdict, allowed, limited}

-- `breakers` gives nil both for a URL that is not in the map and for a disabled breaker.
pub record Route : Type 0 where
  pub prefix : Text
  pub strip : Bool
  pub lb : Balancer
  pub rl : Limiter
  pub breakers : Text → Option Breaker

-- The body of the loop of ServeHTTP; `matched` is the route found so far.
pub longer : Route → Option Route → Option Route
longer rt none = some rt
longer rt (some m) = if ltb (length m.prefix) (length rt.prefix) then some rt else some m

pub match_from : Text → Option Route → List Route → Option Route
unfolding longer
match_from path matched [] = matched
match_from path matched (rt ∷ rts) =
    match_from path (if has_prefix path rt.prefix then longer rt matched else matched) rts

-- The route that ServeHTTP dispatches to; at `none` it answers 404.
pub match_route : List Route → Text → Option Route
unfolding match_from
match_route routes path = match_from path none routes

-- What comes back from the upstream: a response with its status, or a transport error.
pub data Outcome : Type 0 where
  responds : ℕ → Outcome
  fails : Outcome

-- What the client sees: a status, or a connection that a panic of the handler aborts.
pub data Reply : Type 0 where
  status : ℕ → Reply
  aborted : Reply

-- The effects of serveProxy: the backends, the route, the reply, and the backend that the request
-- was sent to.
pub record Served : Type 0 where
  pub heap : Heap
  pub route : Route
  pub reply : Reply
  pub sent : Option ℕ

abbrev pub put_breaker : Text → Option Breaker → Route → Route
put_breaker url cb rt = record rt { breakers = λ u. if text_eq u url then cb else rt.breakers u }

-- ErrorHandler
pub handle_error : ℕ → ℕ → Served → Served
handle_error later p s =
    let url = (s.heap.cell p).url in
    record s {
      heap = set_alive p false s.heap;
      route = put_breaker url (CircuitBreaker.record_failure later (s.route.breakers url)) s.route;
      reply = status 502;
    }

-- ModifyResponse, for a response with status `code`.
pub modify_response : ℕ → ℕ → ℕ → Served → Served
modify_response later code p s =
    let url = (s.heap.cell p).url in
    if leb 500 code
    then record s {
      heap = set_alive p false s.heap;
      route = put_breaker url (CircuitBreaker.record_failure later (s.route.breakers url)) s.route;
      reply = status code;
    }
    else record s {
      heap = set_alive p true s.heap;
      route = put_breaker url (CircuitBreaker.record_success later (s.route.breakers url)) s.route;
      reply = status code;
    }

-- httputil.ReverseProxy calls one of the two. The header X-Gateway-Backend of the response, and the
-- headers of a 429, are left out.
pub round_trip : ℕ → Outcome → ℕ → Served → Served
unfolding handle_error modify_response
round_trip later (responds code) p s = modify_response later code p (record s { sent = some p })
round_trip later fails p s = handle_error later p (record s { sent = some p })

-- What the call depends on and does not decide: the Redis reply, the clock at the start and at the
-- upstream's answer, whether `url.Parse` accepts a URL, and the answer of each backend.
pub record Surroundings : Type 0 where
  pub redis_reply : Text → Option (List ℤ)
  pub now : ℕ
  pub later : ℕ
  pub parses : Text → Bool
  pub outcome : ℕ → Outcome

-- From `backend.Inc()` on, with the deferred `backend.Dec()`.
pub forward : Surroundings → ℕ → Served → Served
unfolding round_trip
forward e p s =
    let s' = record s { heap = inc p s.heap } in
    let s'' =
      if e.parses (s.heap.cell p).url
      then round_trip e.later (e.outcome p) p s'
      else record s' { reply = status 502 } in
    record s'' { heap = dec p s''.heap }

-- After the circuit breaker check.
abbrev pub checked : Surroundings → ℕ → Heap → Route → Served
checked e p h rt =
    let url = (h.cell p).url in
    record {
      heap = h;
      route = put_breaker url (CircuitBreaker.allow e.now (rt.breakers url)).0 rt;
      reply = status 503;
      sent = none;
    }

-- From the circuit breaker check on.
pub guard : Surroundings → ℕ → Heap → Route → Served
unfolding forward
guard e p h rt =
    if (CircuitBreaker.allow e.now (rt.breakers (h.cell p).url)).1
    then forward e p (checked e p h rt)
    else checked e p h rt

-- From the picking of a backend on.
pub dispatch : Surroundings → Pick → Heap → Route → Served
unfolding guard
dispatch e (picked p) h rt = guard e p h rt
dispatch e no_healthy_backend h rt = record {
  heap = h;
  route = rt;
  reply = status 503;
  sent = none;
}
dispatch e panics h rt = record { heap = h; route = rt; reply = aborted; sent = none }

-- serveProxy after the rate limiter's answer.
pub admit_request : Surroundings → Verdict → Request → Heap → Route → Served
unfolding dispatch
admit_request e allowed r h rt =
    let (lb, pick) = Balancer.next h rt.lb r in dispatch e pick h (record rt { lb = lb })
admit_request e (limited retry) r h rt = record {
  heap = h;
  route = rt;
  reply = status 429;
  sent = none;
}
admit_request e Verdict.panics r h rt = record {
  heap = h;
  route = rt;
  reply = aborted;
  sent = none;
}

pub serve_proxy : Surroundings → Request → Heap → Route → Served
unfolding admit_request
serve_proxy e r h rt =
    let (rl, verdict) = RateLimiter.allow e.redis_reply e.now r rt.rl in
    admit_request e verdict r h (record rt { rl = rl })

-- readyzHandler: its status.
pub any_alive : Heap → List ℕ → Bool
any_alive h [] = false
any_alive h (p ∷ ps) = (h.cell p).alive || any_alive h ps

pub any_ready : Heap → List Route → Bool
unfolding any_alive
any_ready h [] = false
any_ready h (rt ∷ rts) = any_alive h (Balancer.backends rt.lb) || any_ready h rts

pub readyz : Heap → List Route → ℕ
unfolding any_ready
readyz h routes = if any_ready h routes then 200 else 503

-- `scheme`
pub scheme : Request → Text
scheme r = if r.tls then codes "https" else codes "http"

-- `strings.TrimPrefix`, and the Director's path.
pub trim_prefix : Text → Text → Text
trim_prefix path prefix = if has_prefix path prefix then drop (length prefix) path else path

pub stripped : Text → Text → Text
unfolding trim_prefix
stripped prefix path =
    let rest = trim_prefix path prefix in if is_empty rest then codes "/" else rest

-- The Director's headers. `split_host_port` is the host of `net.SplitHostPort`, if it succeeds.
module _ (split_host_port : Text → Option Text) where
  pub forwarded_for : Request → Header
  forwarded_for r = elim (split_host_port r.remote_addr) [
    | none ↦ r.header
    | some client_ip ↦
        let prior = get r.header "X-Forwarded-For" in
        set r.header "X-Forwarded-For"
          (if is_empty prior then client_ip else prior ++ codes ", " ++ client_ip)
  ]

  -- The target's scheme and host, which `url.Parse` yields, are left out.
  pub director : Route → Request → Request
  unfolding forwarded_for scheme stripped
  director rt r = record r {
    path = if rt.strip then stripped rt.prefix r.path else r.path;
    header = set (set (forwarded_for r) "X-Forwarded-Host" r.host) "X-Forwarded-Proto" (scheme r);
  }
