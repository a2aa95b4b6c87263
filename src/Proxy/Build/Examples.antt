-- ===== src/Proxy/Build/Examples.antt =====
-- A gateway of two routes that is reloaded, first with a faulty and then with a good configuration.
use gateway_pro.Prelude.{
  ℤ, pos, text_eq, Text, codes, String, ◌≡◌, refl, Bool, true, false, Option, none, some, List, [],
  ◌∷◌, map,
}
use gateway_pro.Config.{RateLimitConfig, RouteConfig, Config}
use gateway_pro.LoadBalancer.Balancer
use gateway_pro.RateLimiter
use gateway_pro.Proxy.Build.{
  World, Attempt, built, failed, Gateway, new_gateway, reload, reloads, build_routes, build_from,
  build_route, finish_route, auth_settings, start, stop, stop_removed, has_route,
}

abbrev no_duration : Text → Option ℤ
no_duration t = none

abbrev no_url : Text → Bool
no_url t = false

abbrev no_key : Text → Bool
no_key t = false

abbrev route_to : String → Option RateLimitConfig → RouteConfig
route_to prefix limit = record {
  path_prefix = codes prefix;
  backends = record { url = codes "http://a"; weight = pos 1 } ∷ [];
  lb_algorithm = codes "least_conn";
  rate_limit = limit;
  circuit_breaker = none;
  timeout_seconds = pos 30;
  strip_prefix = false;
}

abbrev config_of : List RouteConfig → Config
config_of routes = record {
  server = record { addr = []; read_timeout_seconds = pos 30; write_timeout_seconds = pos 30 };
  admin = record { addr = [] };
  routes = routes;
  logging = record { level = []; format = [] };
  auth = record { enabled = false; jwks_url = []; public_key_path = []; skip_paths = [] };
  tracing = record { enabled = false; exporter = []; service_name = [] };
}

abbrev bad_window : RateLimitConfig
bad_window = record {
  algorithm = codes "sliding_window";
  rate = pos 1;
  burst = pos 1;
  window = codes "soon";
  key_by = [];
  redis_url = [];
}

abbrev two_routes : Config
two_routes = config_of (route_to "/a" none ∷ route_to "/b" none ∷ [])

abbrev one_route : Config
one_route = config_of (route_to "/a" none ∷ [])

abbrev faulty : Config
faulty = config_of (route_to "/a" none ∷ route_to "/c" (some bad_window) ∷ [])

abbrev nothing : World
nothing = record {
  heap = record {
    cell = λ p. record { url = []; weight = pos 0; alive = false; inflight = pos 0 };
    next = 0;
  };
  checkers = record { running = λ n. false; next = 0 };
}

abbrev made : Attempt Gateway × World
made = new_gateway no_duration no_url no_key none false two_routes nothing

abbrev empty : Gateway
empty = record { routes = []; auth_config = none; traced = false }

abbrev gateway_of : Attempt Gateway → Gateway
gateway_of (built gw) = gw
gateway_of (failed j why) = empty

abbrev gateway : Gateway
gateway = gateway_of made.0

-- After the two reloads, the checker of `/b` has stopped; those of the first `/a` and of the `/a` of
-- the failed reload still run, and belong to no route any more.
leftover :
    let (gw, w) = reloads no_duration no_url no_key (faulty ∷ one_route ∷ []) gateway made.1 in
    (map (λ n. w.checkers.running n) (0 ∷ 1 ∷ 2 ∷ 3 ∷ []) ≡ true ∷ false ∷ true ∷ true ∷ [])
    × (map (λ b. b.checker) gw.routes ≡ 3 ∷ [])
unfolding reloads reload build_routes build_from build_route finish_route auth_settings start stop
    stop_removed has_route RateLimiter.new Balancer.new Balancer.strategy new_gateway text_eq
leftover = (refl, refl)
