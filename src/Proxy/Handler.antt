-- ===== src/Proxy/Handler.antt =====
-- The handler that buildRoute of gateway.go makes for a route: serveProxy in its middleware.
pub mod Secured
pub mod Logged
pub mod Users
mod Examples
use gateway_pro.Prelude.{
  if◌then◌else◌, Text, ℕ, Bool, true, false, Option, none, some, List, [], ◌∷◌, ◌++◌,
}
use gateway_pro.LoadBalancer.Heap.{Heap}
use gateway_pro.Auth.{Tools}
use gateway_pro.Middleware.{
  Handler, Middleware, Arrival, write_header, chain, request_id, tracing, logger, metrics, auth,
}
use gateway_pro.Proxy.{Route, status, aborted, Surroundings, serve_proxy}

-- What serveProxy works on, and the backends that requests were sent to.
pub record Site : Type 0 where
  pub heap : Heap
  pub route : Route
  pub sent : List ℕ

pub log_sent : Option ℕ → List ℕ → List ℕ
log_sent none ps = ps
log_sent (some p) ps = ps ++ p ∷ []

-- `core`: http.Error and the reverse proxy write the status; an aborted request has panicked.
pub core : Surroundings → Handler Site
unfolding log_sent
core e r w o s =
    let served = serve_proxy e r s.heap s.route in
    let site : Site = record {
      heap = served.heap;
      route = served.route;
      sent = log_sent served.sent s.sent;
    } in
    elim served.reply [
      | status code ↦ record {
        writer = write_header code w;
        observed = o;
        state = site;
        panicked = false;
      }
      | aborted ↦ record { writer = w; observed = o; state = site; panicked = true }
    ]

-- What buildRoute adds to the chain: whether there is a trace store, the label of Metrics, and the
-- skip paths if authentication is enabled.
pub record Settings : Type 0 where
  pub traced : Bool
  pub label : Text
  pub skip_paths : Option (List Text)

pub auth_part : Tools → Option (List Text) → List (Middleware Site)
auth_part tools none = []
auth_part tools (some skip_paths) = auth tools skip_paths ∷ []

pub middlewares : Arrival → Tools → Settings → List (Middleware Site)
unfolding auth_part
middlewares a tools c =
    (request_id a ∷ [])
    ++ (if c.traced then tracing a ∷ [] else [])
    ++ (logger ∷ metrics c.label ∷ [])
    ++ auth_part tools c.skip_paths

-- `rt.handler`
pub route_handler : Arrival → Tools → Settings → Surroundings → Handler Site
unfolding middlewares core
route_handler a tools c e = chain (core e) (middlewares a tools c)
