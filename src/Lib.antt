-- ===== src/Lib.antt =====
-- A model of gateway-pro, an HTTP API gateway in Go, and theorems about it.
--
-- A request is matched to a route by the longest prefix of its path, passes the route's rate limiter,
-- gets a backend from the route's load balancer, passes that backend's circuit breaker, and is sent
-- on. What the backend answers goes back into its circuit breaker and its alive flag.
--
-- The parts and their files:
--   Prelude         shared names: tests, lists, int64 arithmetic, texts as lists of bytes
--   Config          the types of internal/config/config.go
--   Validate        validate of internal/config/config.go; Settled: what it guarantees,
--                   Accepted: what it accepts
--   Watcher         load and LoadAndWatch of internal/config/config.go; Events for what can happen to
--                   the goroutine, Delivery for what it delivers
--   Http            the requests and headers of net/http, as far as the gateway uses them
--   CircuitBreaker  internal/circuitbreaker/circuitbreaker.go; Window, Invariant, Diagram, Trip and
--                   Probes hold what is proved of it
--   LoadBalancer    internal/loadbalancer/loadbalancer.go: Heap for the backends, one module for each
--                   of roundRobin, leastConn, weighted and ipHash, Merge for mergeBackends (Merged), Balancer
--                   for the interface and New
--   RateLimiter     internal/ratelimiter/ratelimiter.go: Sliding, TokenBucket, Keys, and Redis: Script
--                   for the Lua script over the commands of Redis, Window and Admitted for how it
--                   compares with the local sliding window, Burst for the calls of one millisecond
--   Proxy           internal/proxy/gateway.go: Match for ServeHTTP, Serve and Sent for serveProxy,
--                   Rewrite for the Director, Readiness for /readyz; Overlap for serveProxy a step at a time
--                   (Alone, InFlight), Handler for the handler that buildRoute makes (Secured,
--                   Logged, Users), Build for buildRoutes, NewGateway, Reload and the loop over the reloads
--                   of cmd/gateway/main.go (Fresh, Parts, Exact, Stopping, Reloads,
--                   Guards, Current), Server for the whole
--                   gateway within Recovery, between requests and reloads (Guarded, Authenticated,
--                   Position)
--   Middleware      internal/middleware/middleware.go, Tracing of tracing.go and the handler of
--                   auth.go as wrappers of a handler: Order for Chain, Effects and Observe for what
--                   each of them changes and leaves behind; Export for NewTracingMiddleware of
--                   tracing.go (Collected)
--   Auth            internal/middleware/auth.go: the handler and validateToken; Passes: what it
--                   lets through; Keys for NewAuthMiddleware, loadPublicKey and the cryptography
--                   (Signed)
--   Health          internal/health/health.go: checkOne and checkAll; Rounds: what a round concludes;
--                   Running for run, Update and Stop
--   Tracing         internal/middleware/tracing.go: the trace store, newHex and the trace headers
--                   (Recent, Parts, Continue); Exporter for spanExporter: Events, Delivery for its
--                   batches, Shutdown for Stop
--   Startup         main of cmd/gateway/main.go up to the gateway: Ready for its outcomes, Signed for
--                   what authentication then guards, Held for the key that it holds, Current for what is served while the
--                   configuration's file changes
--   Admin           the pages of the admin server: tracesHandler of internal/admin/traces.go and
--                   backendsHandler of internal/proxy/gateway.go
--
-- How state is modelled. Each type with methods is a record, each method a function from it to it,
-- named as in the source. Pointers to backends are indices into a heap (LoadBalancer/Heap.antt),
-- because balancers, the proxy and mergeBackends share them. A method that holds a mutex is one
-- step. serveProxy is modelled twice: as one step, and in Proxy/Overlap as the steps between which
-- other requests and the health checker run. The goroutines of the watcher, of the exporter and of a health
-- checker are the cases of their select, taken in any order. `time.Now()` is an argument, a natural number of
-- nanoseconds. An int is an integer whose wrap-around at 64 bits is written out where the program
-- adds to it; the round-robin counter and the FNV hash are unsigned and wrap at 2 ^ 64 and 2 ^ 32.
-- A run-time panic is a value. All loops are structural recursion, so no definition needs fuel; the
-- goroutine's endless loops take the list of the cases that come up, and the exporter's Stop is
-- shown to return once enough of them are receives.
--
-- Parameters, because they are code outside the repository: the commands of Redis, an interface with
-- laws that state their documented behaviour and that an association list satisfies; the results of
-- time.ParseDuration, redis.ParseURL, url.Parse and net.SplitHostPort; the draws of random numbers;
-- os.ReadFile, os.ExpandEnv and yaml.Unmarshal; PEM, X.509, base64, JSON, SHA-256 and RSA; the
-- comparisons and quotients of float64, fmt's %q and %d; and what an upstream answers to a request or
-- a health check. For the gateway as a whole the reply of Redis and the tools of authentication are
-- parameters of each request: the reply is a function of the key that redisLimiter asks for, and the
-- tools of authentication hold its key, which NewAuthMiddleware parses anew at every reload. In
-- Proxy/Server the key comes with the request, and whether a key loads comes with the reload;
-- Startup/Held keeps the key beside the gateway, from reload to reload, and takes the key's file to be
-- the same for all routes of one reload. ReverseProxy is taken to call
-- its Director, and then ModifyResponse on a response or ErrorHandler on an error, as net/http/httputil
-- documents. The channels of fsnotify are taken to close only by Close of its watcher.
--
-- Not modelled: float64 rounding in the token bucket (its tokens are exact, so the nanosecond at which
-- a token is whole again can differ), an upstream's answer of status 101 (the writer that the
-- gateway hands to ReverseProxy cannot be hijacked, and ErrorHandler then runs after ModifyResponse), response bodies but that
-- of /backends, most response headers, the durations in logs and metrics, the encoding of /traces as
-- JSON, the registration of the admin pages, and of cmd/gateway/main.go the flags, the signals, the
-- servers with their timeouts, and the shutdown.
pub mod Prelude
pub mod Config
pub mod Http
pub mod Validate
pub mod Watcher
pub mod CircuitBreaker
pub mod LoadBalancer
pub mod RateLimiter
pub mod Proxy
pub mod Tracing
pub mod Middleware
pub mod Auth
pub mod Health
pub mod Startup
pub mod Admin
