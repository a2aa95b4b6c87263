-- ===== src/Admin.antt =====
-- The pages of the admin server: tracesHandler of internal/admin/traces.go, and backendsHandler
-- of internal/proxy/gateway.go.
pub mod Pages
mod Examples
use gateway_pro.Prelude.{
  ltb, if◌then◌else◌, ℤ, Text, codes, ℕ, suc, Bool, true, false, List, [], ◌∷◌, ◌++◌,
}
use gateway_pro.Tracing.{TraceStore, get_all}
use gateway_pro.Middleware.{TraceSpan}
use gateway_pro.CircuitBreaker
use gateway_pro.LoadBalancer.Heap.{Heap}
use gateway_pro.LoadBalancer.Balancer
use gateway_pro.Proxy.Build.{Built}

-- `F` are the float64 numbers of milliseconds.
pub record MiddlewareTiming {ℓ} (F : Type ℓ) : Type ℓ where
  pub name : Text
  pub duration : F

pub record TraceResponse {ℓ} (F : Type ℓ) : Type ℓ where
  pub trace_id : Text
  pub path : Text
  pub method : Text
  pub status_code : ℕ
  pub duration : F
  pub start_time : ℕ
  pub timings : List (MiddlewareTiming F)

-- `float64(d.Nanoseconds()) / 1e6`
module _ {ℓ} {F : Type ℓ} (millis : ℕ → F) where
  -- The inner loop, over the entries of the span's Timings: a map with the key `total` only.
  pub timings_of : TraceSpan → List (MiddlewareTiming F)
  timings_of span = record { name = codes "total"; duration = millis span.duration } ∷ []

  pub response_of : TraceSpan → TraceResponse F
  unfolding timings_of
  response_of span = record {
    trace_id = span.trace_id;
    path = span.path;
    method = span.method;
    status_code = span.status_code;
    duration = millis span.duration;
    start_time = span.start_time;
    timings = timings_of span;
  }

  -- The loop of tracesHandler.
  pub responses : List TraceSpan → List (TraceResponse F)
  unfolding response_of
  responses [] = []
  responses (span ∷ spans) = response_of span ∷ responses spans

  -- tracesHandler: what is encoded as JSON.
  pub traces_handler : TraceStore TraceSpan → List (TraceResponse F)
  unfolding responses
  traces_handler ts = responses (get_all ts)

-- fmt's `%q` of a text and `%d` of an integer.
module _ (quote : Text → Text) (decimal : ℤ → Text) where
  -- `%v` of a bool
  pub flag_text : Bool → Text
  flag_text true = codes "true"
  flag_text false = codes "false"

  -- The object of a backend.
  pub backend_text : Heap → Built → ℕ → Text
  unfolding flag_text
  backend_text h rt p =
      let b = h.cell p in
      codes "{\"url\":"
      ++ quote b.url
      ++ codes ",\"alive\":"
      ++ flag_text b.alive
      ++ codes ",\"inflight\":"
      ++ decimal b.inflight
      ++ codes ",\"circuit_breaker\":"
      ++ quote (CircuitBreaker.state_text (rt.route.breakers b.url))
      ++ codes "}"

  -- `if i > 0 { fmt.Fprint(w, ",") }`
  pub separator : ℕ → Text
  separator i = if ltb 0 i then codes "," else []

  -- The loop over a route's backends, at index `j`.
  pub backends_from : Heap → Built → ℕ → List ℕ → Text
  unfolding separator backend_text
  backends_from h rt j [] = []
  backends_from h rt j (p ∷ ps) =
      separator j ++ (backend_text h rt p ++ backends_from h rt (suc j) ps)

  pub route_text : Heap → Built → Text
  unfolding backends_from
  route_text h rt =
      codes "{\"route\":"
      ++ (quote rt.route.prefix
          ++ (codes ",\"backends\":["
              ++ (backends_from h rt 0 (Balancer.backends rt.route.lb) ++ codes "]}")))

  -- The loop over the routes, at index `i`.
  pub routes_from : Heap → ℕ → List Built → Text
  unfolding separator route_text
  routes_from h i [] = []
  routes_from h i (rt ∷ rts) = separator i ++ (route_text h rt ++ routes_from h (suc i) rts)

  -- backendsHandler: the body that it writes.
  pub backends_handler : Heap → List Built → Text
  unfolding routes_from
  backends_handler h routes = codes "[" ++ (routes_from h 0 routes ++ codes "]")
