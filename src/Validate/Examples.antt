-- ===== src/Validate/Examples.antt =====
-- A concrete run of validate.
use gateway_pro.Prelude.{pos, codes, ◌≡◌, refl, true, false, none, [], ◌∷◌}
use gateway_pro.Config.{RouteConfig, Config}
use gateway_pro.Validate.{ok, validate}
use gateway_pro.Validate.Accepted.{Judged, validate-ok}
use gateway_pro.Validate.Settled.{Settled, validate-Settled}

abbrev route : RouteConfig
route = record {
  path_prefix = codes "/api";
  backends = record { url = codes "http://a"; weight = pos 0 } ∷ [];
  lb_algorithm = [];
  rate_limit = none;
  circuit_breaker = none;
  timeout_seconds = pos 0;
  strip_prefix = false;
}

abbrev settled_route : RouteConfig
settled_route = record route {
  backends = record { url = codes "http://a"; weight = pos 1 } ∷ [];
  lb_algorithm = codes "round_robin";
  timeout_seconds = pos 30;
}

abbrev config : Config
config = record {
  server = record { addr = []; read_timeout_seconds = pos 0; write_timeout_seconds = pos 5 };
  admin = record { addr = [] };
  routes = route ∷ [];
  logging = record { level = []; format = [] };
  auth = record { enabled = false; jwks_url = []; public_key_path = []; skip_paths = [] };
  tracing = record { enabled = true; exporter = []; service_name = [] };
}

abbrev settled : Config
settled = record config {
  server = record {
    addr = codes ":8080";
    read_timeout_seconds = pos 30;
    write_timeout_seconds = pos 5;
  };
  admin = record { addr = codes ":9090" };
  routes = settled_route ∷ [];
  tracing = record {
    enabled = true;
    exporter = codes "stdout";
    service_name = codes "gateway-pro";
  };
}

validate_run : validate config ≡ ok settled
unfolding validate
validate_run = refl

validate-Settled_example : Settled settled × (validate settled ≡ ok settled)
validate-Settled_example = validate-Settled config settled validate_run

validate-ok_example : Judged config (validate config)
validate-ok_example = validate-ok config
