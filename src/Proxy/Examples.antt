-- ===== src/Proxy/Examples.antt =====
-- Concrete runs of gateway.go.
use gateway_pro.Prelude.{
  take, pos, has_prefix, Text, codes, ◌≡◌, refl, ◌↔◌, ◌⊎◌, true, false, Option, none, some, [], ◌∷◌,
  ◌++◌, arith, All, Memᴰ,
}
use gateway_pro.Http.{Request}
use gateway_pro.CircuitBreaker
use gateway_pro.LoadBalancer.Heap.{Heap, Backend, healthy, picked}
use gateway_pro.LoadBalancer.LeastConn
use gateway_pro.LoadBalancer.Balancer
use gateway_pro.LoadBalancer.Balancer.{Balancer, least_conn}
use gateway_pro.RateLimiter
use gateway_pro.RateLimiter.{Limiter, noop}
use gateway_pro.RateLimiter.Results.{allowed}
use gateway_pro.Proxy.{
  Route, readyz, Surroundings, responds, match_route, stripped, serve_proxy, guard, forward,
  round_trip, modify_response,
}
use gateway_pro.Proxy.Match.{Best, Unmatched, match_route_lem}
use gateway_pro.Proxy.Serve.{judged, serve_proxy-alive}
use gateway_pro.Proxy.Sent.{Passes, serve_proxy-sent}
use gateway_pro.Proxy.Readiness.{Few, Serves, readyz_iff}
use gateway_pro.Proxy.Rewrite.{Rooted, stripped-Rooted, forwarded_list}

abbrev backend : Backend
backend = record { url = codes "http://a"; weight = pos 1; alive = true; inflight = pos 3 }

abbrev heap : Heap
heap = record { cell = λ p. backend; next = 1 }

abbrev api : Route
api = record {
  prefix = codes "/api";
  strip = true;
  lb = least_conn (record { backends = 0 ∷ [] });
  rl = noop;
  breakers = λ u. none;
}

abbrev users : Route
users = record api { prefix = codes "/api/users" }

abbrev request : Request
request = record {
  method = codes "GET";
  path = codes "/api/users/7";
  host = codes "gateway";
  remote_addr = codes "10.0.0.1:4711";
  tls = false;
  header = ("X-Forwarded-For", codes "9.9.9.9") ∷ [];
}

-- The backend answers 500.
abbrev surroundings : Surroundings
surroundings = record {
  redis_reply = λ k. none;
  now = 5;
  later = 9;
  parses = λ u. true;
  outcome = λ p. responds 500;
}

users_matches : match_route (api ∷ users ∷ []) (codes "/api/users/7") ≡ some users
unfolding match_route has_prefix
users_matches = refl

match_route_lem_example :
    ((rt : Route)
      → match_route (api ∷ users ∷ []) (codes "/api/users/7") ≡ some rt
      → Best (codes "/api/users/7") (api ∷ users ∷ []) rt)
    × (match_route (api ∷ users ∷ []) (codes "/api/users/7") ≡ none
        → Unmatched (codes "/api/users/7") (api ∷ users ∷ []))
match_route_lem_example = match_route_lem (api ∷ users ∷ []) (codes "/api/users/7")

sent_run : (serve_proxy surroundings request heap api).sent ≡ some 0
unfolding serve_proxy guard forward round_trip modify_response RateLimiter.allow Balancer.next
    LeastConn.next healthy CircuitBreaker.allow
sent_run = refl

serve_proxy-alive_example :
    ((serve_proxy surroundings request heap api).heap.cell 0).alive
    ≡ judged surroundings (serve_proxy surroundings request heap api).sent 0 true
serve_proxy-alive_example = serve_proxy-alive surroundings request heap api 0

serve_proxy-sent_example : ((serve_proxy surroundings request heap api).sent ≡ some 0) ↔ (
    ((RateLimiter.allow (λ k. none) 5 request noop).1 ≡ allowed)
    × ((Balancer.next heap api.lb request).1 ≡ picked 0)
    × Passes surroundings heap api 0)
serve_proxy-sent_example = serve_proxy-sent surroundings request heap api 0

stripped-Rooted_example :
    (stripped (codes "/api") (codes "/api" ++ codes "x") ≡ codes "x")
    × (Rooted (stripped (codes "/api") (codes "/api" ++ codes "x"))
        ↔ ((codes "x" ≡ []) ⊎ Rooted (codes "x")))
stripped-Rooted_example = stripped-Rooted (codes "/api") (codes "x")

abbrev split_host_port : Text → Option Text
split_host_port t = some (take 8 t)

forwarded_run :
    forwarded_list (split_host_port (codes "10.0.0.1:4711")) (codes "9.9.9.9")
    ≡ codes "9.9.9.9, 10.0.0.1"
forwarded_run = refl

routes-Few : All Few (api ∷ users ∷ [])
unfolding Balancer.backends
routes-Few = (omega arith, (omega arith, tt))

readyz_iff_example :
    ((readyz heap (api ∷ users ∷ []) ≡ 200)
      ↔ ((rt : Route) × Memᴰ rt (api ∷ users ∷ []) × Serves heap request rt))
    × ((readyz heap (api ∷ users ∷ []) ≡ 200) ⊎ (readyz heap (api ∷ users ∷ []) ≡ 503))
readyz_iff_example = readyz_iff heap (api ∷ users ∷ []) request routes-Few
