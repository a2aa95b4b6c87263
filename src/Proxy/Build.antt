-- ===== src/Proxy/Build.antt =====
-- buildRoutes, buildRoute, NewGateway and Reload of gateway.go, with the health checkers that they
-- start and stop.
pub mod Fresh
pub mod Parts
pub mod Exact
pub mod Stopping
pub mod Reloads
pub mod Guards
pub mod Current
mod Examples
use gateway_pro.Prelude.{
  ◌==◌, if◌then◌else◌, ◌*ℤ◌, wrap64, ℤ, pos, text_eq, Text, ℕ, suc, Bool, false, not, ◌&&◌, ◌||◌,
  Option, none, some, List, [], ◌∷◌, ◌++◌,
}
use gateway_pro.Config.{BackendConfig, CircuitBreakerConfig, RouteConfig, AuthConfig, Config}
use gateway_pro.CircuitBreaker
use gateway_pro.CircuitBreaker.{Breaker}
use gateway_pro.LoadBalancer.Heap.{Heap}
use gateway_pro.LoadBalancer.Balancer
use gateway_pro.LoadBalancer.Balancer.{Balancer}
use gateway_pro.RateLimiter
use gateway_pro.RateLimiter.{Limiter}
use gateway_pro.Proxy.{Route}
use gateway_pro.Proxy.Handler.{Settings}

-- The checkers that health.New has started, by number, and whether the goroutine of each runs.
pub record Checkers : Type 0 where
  pub running : ℕ → Bool
  pub next : ℕ

-- health.New
pub start : Checkers → Checkers
start k = record { running = λ i. (i == k.next) || k.running i; next = suc k.next }

-- Stop
pub stop : ℕ → Checkers → Checkers
stop j k = record k { running = λ i. not (i == j) && k.running i }

pub record World : Type 0 where
  pub heap : Heap
  pub checkers : Checkers

-- A `route`: besides what serveProxy works on, the timeout in nanoseconds, its checker and what its
-- handler was made from.
pub record Built : Type 0 where
  pub route : Route
  pub timeout : ℤ
  pub checker : ℕ
  pub settings : Settings

-- The errors: of ratelimiter.New, and of NewAuthMiddleware.
pub data Failure : Type 0 where
  rate_limit_failed auth_failed : Failure

pub data Attempt {ℓ} (A : Type ℓ) : Type ℓ where
  built : A → Attempt A
  failed : ℕ → Failure → Attempt A

-- The loop that fills `breakers`.
pub build_breakers :
    Option CircuitBreakerConfig
    → List BackendConfig
    → (Text → Option Breaker)
    → Text
    → Option Breaker
build_breakers cfg [] m = m
build_breakers cfg (b ∷ bs) m =
    build_breakers cfg bs (λ u. if text_eq u b.url then CircuitBreaker.new cfg else m u)

pub record Gateway : Type 0 where
  pub routes : List Built
  pub auth_config : Option AuthConfig
  pub traced : Bool

-- newPrefixes[prefix]
pub has_route : Text → List Built → Bool
has_route prefix [] = false
has_route prefix (b ∷ bs) = text_eq prefix b.route.prefix || has_route prefix bs

-- The loop of Reload over the old routes.
pub stop_removed : List Built → List Built → Checkers → Checkers
unfolding has_route stop
stop_removed routes [] k = k
stop_removed routes (b ∷ old) k =
    stop_removed routes old (if has_route b.route.prefix routes then k else stop b.checker k)

-- The answers of `time.ParseDuration` and `redis.ParseURL`, and whether loadPublicKey loads the key
-- of a path.
module _ (parse_duration : Text → Option ℤ) (parse_url : Text → Bool) (loads : Text → Bool) where
  -- The last part of buildRoute, at route `i`: whether the handler's chain can be built, and with
  -- which skip paths.
  unfoldable pub auth_settings : ℕ → Option AuthConfig → Attempt (Option (List Text))
  auth_settings i none = built none
  auth_settings i (some a) =
      if a.enabled
      then (if loads a.public_key_path then built (some a.skip_paths) else failed i auth_failed)
      else built none

  -- buildRoute after ratelimiter.New; the checker is started before the chain is built.
  unfoldable pub finish_route :
      ℕ → Gateway → RouteConfig → Balancer → Limiter → World → Attempt Built × World
  unfolding auth_settings build_breakers start
  finish_route i gw c lb rl w =
      let w' = record w { checkers = start w.checkers } in
      elim (auth_settings i gw.auth_config) [
        | failed j why ↦ (failed j why, w')
        | built skip_paths ↦ (
          built (record {
            route = record {
              prefix = c.path_prefix;
              strip = c.strip_prefix;
              lb = lb;
              rl = rl;
              breakers = build_breakers c.circuit_breaker c.backends (λ u. none);
            };
            timeout = wrap64 (c.timeout_seconds *ℤ pos 1000000000);
            checker = w.checkers.next;
            settings = record {
              traced = gw.traced;
              label = c.path_prefix;
              skip_paths = skip_paths;
            };
          }),
          w',
        )
      ]

  unfoldable pub build_route : ℕ → Gateway → RouteConfig → World → Attempt Built × World
  unfolding finish_route
  build_route i gw c w =
      let (lb, h) = Balancer.new c.lb_algorithm c.backends w.heap in
      let w' = record w { heap = h } in
      elim (RateLimiter.new parse_duration parse_url c.rate_limit) [
        | none ↦ (failed i rate_limit_failed, w')
        | some rl ↦ finish_route i gw c lb rl w'
      ]

  -- The loop from route `i` on, with the routes built so far.
  unfoldable pub build_from :
      ℕ → Gateway → List RouteConfig → List Built → World → Attempt (List Built) × World
  unfolding build_route
  build_from i gw [] done w = (built done, w)
  build_from i gw (c ∷ cs) done w =
      let (r, w') = build_route i gw c w in
      elim r [
        | failed j why ↦ (failed j why, w')
        | built b ↦ build_from (suc i) gw cs (done ++ b ∷ []) w'
      ]

  unfoldable pub build_routes : Gateway → List RouteConfig → World → Attempt (List Built) × World
  unfolding build_from
  build_routes gw cs w = build_from 0 gw cs [] w

  -- NewGateway
  unfoldable pub new_gateway : Option AuthConfig → Bool → Config → World → Attempt Gateway × World
  unfolding build_routes
  new_gateway auth_config traced cfg w =
      let gw : Gateway = record { routes = []; auth_config = auth_config; traced = traced } in
      let (r, w') = build_routes gw cfg.routes w in
      elim r [
        | failed j why ↦ (failed j why, w')
        | built routes ↦ (built (record gw { routes = routes }), w')
      ]

  -- Reload: the gateway after it, the error if it returns one, and the world.
  pub reload : Config → Gateway → World → (Gateway × Option (ℕ × Failure)) × World
  unfolding build_routes stop_removed
  reload cfg gw w =
      let (r, w') = build_routes gw cfg.routes w in
      elim r [
        | failed j why ↦ ((gw, some (j, why)), w')
        | built routes ↦ (
          (record gw { routes = routes }, none),
          record w' { checkers = stop_removed routes gw.routes w'.checkers },
        )
      ]

  -- main's loop over the configurations that the watcher delivers; an error is logged.
  pub reloads : List Config → Gateway → World → Gateway × World
  unfolding reload
  reloads [] gw w = (gw, w)
  reloads (cfg ∷ cfgs) gw w = let ((gw', err), w') = reload cfg gw w in reloads cfgs gw' w'
