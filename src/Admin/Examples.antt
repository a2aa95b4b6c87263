-- ===== src/Admin/Examples.antt =====
-- The pages of the admin server on concrete states.
use gateway_pro.Prelude.{
  ℤ, pos, Text, codes, ℕ, ◌/◌, String, ◌≡◌, refl, true, false, none, some, [], ◌∷◌, ◌++◌, map,
}
use gateway_pro.Tracing.{TraceStore, new_trace_store}
use gateway_pro.Tracing.Recent.{add_all, last}
use gateway_pro.Middleware.{TraceSpan}
use gateway_pro.LoadBalancer.Heap.{Heap}
use gateway_pro.LoadBalancer.Balancer
use gateway_pro.LoadBalancer.Balancer.{least_conn}
use gateway_pro.RateLimiter.{noop}
use gateway_pro.CircuitBreaker
use gateway_pro.Proxy.Build.{Built}
use gateway_pro.Admin.{
  traces_handler, flag_text, backend_text, separator, backends_from, route_text, routes_from,
  backends_handler,
}
use gateway_pro.Admin.Pages.{shown, traces_handler_lem}

abbrev span : TraceSpan
span = record {
  trace_id = codes "ab";
  path = codes "/api";
  method = codes "GET";
  status_code = 200;
  duration = 5000000;
  start_time = 7;
}

-- Milliseconds, rounded down.
abbrev millis : ℕ → ℕ
millis d = d / 1000000

traces_handler_lem_example :
    (ts : TraceStore TraceSpan) × (add_all (span ∷ span ∷ []) (new_trace_store (pos 100)) ≡ some ts)
    × (traces_handler millis ts ≡ map (shown millis) (last 100 (span ∷ span ∷ [])))
traces_handler_lem_example = traces_handler_lem millis (span ∷ span ∷ [])

abbrev heap : Heap
heap = record {
  cell = λ p. record { url = codes "a"; weight = pos 1; alive = true; inflight = pos 0 };
  next = 2;
}

abbrev quote : Text → Text
quote t = codes "\"" ++ t ++ codes "\""

abbrev decimal : ℤ → Text
decimal i = codes "0"

abbrev route : Built
route = record {
  route = record {
    prefix = codes "/p";
    strip = false;
    lb = least_conn (record { backends = 0 ∷ 1 ∷ [] });
    rl = noop;
    breakers = λ u. none;
  };
  timeout = pos 30;
  checker = 0;
  settings = record { traced = false; label = codes "/p"; skip_paths = none };
}

abbrev backend : String
backend = "{\"url\":\"a\",\"alive\":true,\"inflight\":0,\"circuit_breaker\":\"disabled\"}"

one_route :
    backends_handler quote decimal heap (route ∷ [])
    ≡ codes "[{\"route\":\"/p\",\"backends\":["
      ++ (codes backend ++ (codes "," ++ (codes backend ++ codes "]}]")))
unfolding backends_handler routes_from route_text backends_from backend_text separator flag_text
    Balancer.backends CircuitBreaker.state_text
one_route = refl
