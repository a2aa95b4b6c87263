-- ===== src/Validate.antt =====
-- validate and load of internal/config/config.go.
pub mod Settled
pub mod Accepted
mod Examples
use gateway_pro.Prelude.{
  ◌==◌, if◌then◌else◌, length, ℤ, pos, is_zero_ℤ, Text, codes, is_empty, ℕ, suc, Bool, ◌&&◌, List,
  [], ◌∷◌,
}
use gateway_pro.Config.{
  BackendConfig, RouteConfig, ServerConfig, AdminConfig, AuthConfig, TracingConfig, Config,
}

-- The errors of validate: a route's index or prefix, or none of these.
pub data Invalid : Type 0 where
  path_prefix_required : ℕ → Invalid
  backend_required : Text → Invalid
  auth_key_required : Invalid

pub data Result {ℓ} (A : Type ℓ) : Type ℓ where
  ok : A → Result A
  error : Invalid → Result A

unfoldable pub text_or : Text → Text → Text
text_or value t = if is_empty t then value else t

unfoldable pub int_or : ℕ → ℤ → ℤ
int_or n i = if is_zero_ℤ i then pos n else i

unfoldable pub default_weight : BackendConfig → BackendConfig
unfolding int_or
default_weight b = record b { weight = int_or 1 b.weight }

-- The loop over a route's backends.
unfoldable pub default_weights : List BackendConfig → List BackendConfig
unfolding default_weight
default_weights [] = []
default_weights (b ∷ bs) = default_weight b ∷ default_weights bs

-- The defaults of a route, after its checks.
unfoldable pub default_route : RouteConfig → RouteConfig
unfolding default_weights text_or int_or
default_route r = record r {
  backends = default_weights r.backends;
  lb_algorithm = text_or (codes "round_robin") r.lb_algorithm;
  timeout_seconds = int_or 30 r.timeout_seconds;
}

unfoldable pub validate_route : ℕ → RouteConfig → Result RouteConfig
unfolding default_route
validate_route i r =
    if is_empty r.path_prefix
    then error (path_prefix_required i)
    else if length r.backends == 0
    then error (backend_required r.path_prefix)
    else ok (default_route r)

-- The loop over the routes, at index `i`.
unfoldable pub validate_routes : ℕ → List RouteConfig → Result (List RouteConfig)
unfolding validate_route
validate_routes i [] = ok []
validate_routes i (r ∷ rs) = elim (validate_route i r) [
  | error e ↦ error e
  | ok r' ↦ elim (validate_routes (suc i) rs) [ error e ↦ error e | ok rs' ↦ ok (r' ∷ rs') ]
]

unfoldable pub default_server : ServerConfig → ServerConfig
unfolding text_or int_or
default_server s = record {
  addr = text_or (codes ":8080") s.addr;
  read_timeout_seconds = int_or 30 s.read_timeout_seconds;
  write_timeout_seconds = int_or 30 s.write_timeout_seconds;
}

unfoldable pub default_admin : AdminConfig → AdminConfig
unfolding text_or
default_admin a = record { addr = text_or (codes ":9090") a.addr }

unfoldable pub default_tracing : TracingConfig → TracingConfig
unfolding text_or
default_tracing t =
    if t.enabled
    then record {
      enabled = t.enabled;
      service_name = text_or (codes "gateway-pro") t.service_name;
      exporter = text_or (codes "stdout") t.exporter;
    }
    else t

unfoldable pub missing_key : AuthConfig → Bool
missing_key a = a.enabled && (is_empty a.jwks_url && is_empty a.public_key_path)

-- The checks after the loop.
unfoldable pub finish : Config → List RouteConfig → Result Config
unfolding missing_key default_server default_admin default_tracing
finish c rs =
    if missing_key c.auth
    then error auth_key_required
    else ok (record c {
      server = default_server c.server;
      admin = default_admin c.admin;
      routes = rs;
      tracing = default_tracing c.tracing;
    })

-- validate. The code writes to the configuration while it goes; after an error nobody reads it.
unfoldable pub validate : Config → Result Config
unfolding validate_routes finish
validate c = elim (validate_routes 0 c.routes) [ error e ↦ error e | ok rs ↦ finish c rs ]
