-- ===== src/Proxy/Sent.antt =====
-- Which requests reach an upstream.
use gateway_pro.Prelude.{
  if◌then◌else◌, Bool-cases, length, ℕ, ◌^◌, ◌<◌, ◌≡◌, refl, sym, ap, subst, ◌↔◌, inl, inr, true,
  none, some, Memᴰ, arith,
}
use gateway_pro.Http.{Request}
use gateway_pro.CircuitBreaker
use gateway_pro.LoadBalancer.Heap.{Heap, Pick, picked, no_healthy_backend, panics, Sound}
use gateway_pro.LoadBalancer.Balancer
use gateway_pro.LoadBalancer.Balancer.{next-Sound}
use gateway_pro.RateLimiter
use gateway_pro.RateLimiter.Results.{Verdict, allowed, limited}
use gateway_pro.Proxy.{
  Route, Served, Surroundings, Outcome, responds, fails, handle_error, modify_response, round_trip,
  forward, checked, guard, dispatch, admit_request, serve_proxy,
}

-- The circuit breaker of the backend `p` admits the request, and its URL parses.
abbrev pub Passes : Surroundings → Heap → Route → ℕ → Type 0
Passes e h rt p =
    ((CircuitBreaker.allow e.now (rt.breakers (h.cell p).url)).1 ≡ true)
    × (e.parses (h.cell p).url ≡ true)

round_trip-sent :
    (later : ℕ) (o : Outcome) (p : ℕ) (s : Served) → (round_trip later o p s).sent ≡ some p
unfolding round_trip handle_error modify_response
round_trip-sent later fails p s = refl
round_trip-sent later (responds code) p s = ground arith

forward-sent :
    (e : Surroundings) (p : ℕ) (s : Served)
    → s.sent ≡ none
    → (forward e p s).sent ≡ (if e.parses (s.heap.cell p).url then some p else none)
unfolding forward
forward-sent e p s idle = elim (Bool-cases (e.parses (s.heap.cell p).url)) [
  | inl ok ↦ rw ok (round_trip-sent e.later (e.outcome p) p _)
  | inr bad ↦ rw bad idle
]

guard-sent :
    (e : Surroundings) (p q : ℕ) (h : Heap) (rt : Route)
    → ((guard e p h rt).sent ≡ some q) ↔ ((p ≡ q) × Passes e h rt p)
unfolding guard
guard-sent e p q h rt =
    elim (Bool-cases (CircuitBreaker.allow e.now (rt.breakers (h.cell p).url)).1) [
      | inr other ↦ rw other (ground arith)
      | inl ok ↦ rw (ok, forward-sent e p (checked e p h rt) refl) (ground arith)
    ]

dispatch-sent :
    (e : Surroundings) (k : Pick) (q : ℕ) (h : Heap) (rt : Route)
    → ((dispatch e k h rt).sent ≡ some q) ↔ ((k ≡ picked q) × Passes e h rt q)
unfolding dispatch
dispatch-sent e (picked p) q h rt =
    let (forth, back) = guard-sent e p q h rt in
    (
      (λ s.
          let (same, passes) = forth s in
          (ap picked same, subst (λ r. Passes e h rt r) same passes)),
      (λ c.
          let same : p ≡ q = ground arith in
          back (same, subst (λ r. Passes e h rt r) (sym same) c.1)),
    )
dispatch-sent e no_healthy_backend q h rt = ground arith
dispatch-sent e panics q h rt = ground arith

admit_request-sent :
    (e : Surroundings) (v : Verdict) (r : Request) (q : ℕ) (h : Heap) (rt : Route)
    → ((admit_request e v r h rt).sent ≡ some q)
      ↔ ((v ≡ allowed) × ((Balancer.next h rt.lb r).1 ≡ picked q) × Passes e h rt q)
unfolding admit_request
admit_request-sent e allowed r q h rt =
    let (forth, back) =
      dispatch-sent e (Balancer.next h rt.lb r).1 q h
        (record rt { lb = (Balancer.next h rt.lb r).0 }) in
    (
      (λ s. let (k, passes) = forth s in (refl, k, passes)),
      (λ c. let (v, k, passes) = c in back (k, passes)),
    )
admit_request-sent e (limited retry) r q h rt = ground arith
admit_request-sent e Verdict.panics r q h rt = ground arith

-- A request is sent to a backend exactly if the rate limiter allows it, the balancer picks that
-- backend, the backend's circuit breaker admits the request, and its URL parses.
pub serve_proxy-sent :
    (e : Surroundings) (r : Request) (h : Heap) (rt : Route) (q : ℕ)
    → ((serve_proxy e r h rt).sent ≡ some q) ↔ (
        ((RateLimiter.allow e.redis_reply e.now r rt.rl).1 ≡ allowed)
        × ((Balancer.next h rt.lb r).1 ≡ picked q)
        × Passes e h rt q)
unfolding serve_proxy
serve_proxy-sent e r h rt q = admit_request-sent e _ r q h _

-- A request is sent to a live backend of the route only, for fewer than 2 ^ 32 backends.
serve_proxy-live :
    (e : Surroundings) (r : Request) (h : Heap) (rt : Route) (q : ℕ)
    → length (Balancer.backends rt.lb) < 2 ^ 32
    → (serve_proxy e r h rt).sent ≡ some q
    → Memᴰ q (Balancer.backends rt.lb) × ((h.cell q).alive ≡ true)
serve_proxy-live e r h rt q few s =
    let (verdict, pick, passes) = (serve_proxy-sent e r h rt q).0 s in
    subst (Sound h (Balancer.backends rt.lb)) pick (next-Sound h rt.lb r few)
