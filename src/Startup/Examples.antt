-- ===== src/Startup/Examples.antt =====
-- A configuration with authentication and one route that main starts with.
use gateway_pro.Prelude.{
  if◌then◌else◌, Option, pos, text_eq, has_prefix, Text, codes, ◌≡◌, refl, ◌⊎◌, true, false, none,
  some, List, [], ◌∷◌,
}
use gateway_pro.Config.{Config}
use gateway_pro.Http.{Request}
use gateway_pro.Tracing.{new_trace_store}
use gateway_pro.Auth.{Claims, valid, is_skipped, extract_bearer}
use gateway_pro.Auth.Keys.{
  ok, parse_public_key, parse_rsa_public_key, parse_block, load_public_key, tools_of,
}
use gateway_pro.Auth.Keys.Signed.{SignedBy}
use gateway_pro.LoadBalancer.Balancer
use gateway_pro.RateLimiter
use gateway_pro.Middleware.{Arrival, Writer}
use gateway_pro.Health
use gateway_pro.Proxy.{Surroundings, responds}
use gateway_pro.Validate.{
  validate, validate_routes, validate_route, default_route, default_weights, default_weight, finish,
  missing_key, default_server, default_admin, default_tracing, text_or, int_or,
}
use gateway_pro.Watcher.Events.{Event, notices, fires, receives, Log, nothing_yet, happen, watch}
use gateway_pro.Proxy.Build.Current.{Serves, current}
use gateway_pro.Startup.Current.{start_up-Serves}
use gateway_pro.Watcher.{
  Watcher, notice, send, receive, reload_file, new_watcher, load, check, load_and_watch,
}
use gateway_pro.Proxy.Build.{
  reloads, World, Attempt, built, failed, Gateway, new_gateway, build_routes, build_from,
  build_route, finish_route, auth_settings,
}
use gateway_pro.Proxy.Server.{main_handler}
use gateway_pro.Startup.{
  System, Started, running, trace_store, stores, auth_config, key_loads, open_gateway, start_up,
}
use gateway_pro.Startup.Ready.{Ready, start_up-Ready}
use gateway_pro.Startup.Signed.{first_plant, nothing_observed}
use gateway_pro.Startup.Held.{
  Occurrence, requested, reloaded, checked, Standing, occur_all, Origin, start_up-SignedBy,
}

abbrev api : Config
api = record {
  server = record { addr = []; read_timeout_seconds = pos 30; write_timeout_seconds = pos 30 };
  admin = record { addr = [] };
  routes =
      record {
        path_prefix = codes "/api";
        backends = record { url = codes "http://a"; weight = pos 1 } ∷ [];
        lb_algorithm = codes "least_conn";
        rate_limit = none;
        circuit_breaker = none;
        timeout_seconds = pos 0;
        strip_prefix = false;
      }
      ∷ [];
  logging = record { level = []; format = [] };
  auth = record {
    enabled = true;
    jwks_url = [];
    public_key_path = codes "key.pem";
    skip_paths = codes "/health" ∷ [];
  };
  tracing = record { enabled = true; exporter = []; service_name = [] };
}

abbrev ada : Claims
ada = record { sub = codes "ada"; exp = pos 100 }

abbrev sys : System Text
sys = record {
  expand_env = λ t. t;
  unmarshal = λ t. if text_eq t (codes "api") then some api else none;
  parse_duration = λ t. none;
  parse_url = λ t. false;
  libraries = record {
    read_file = λ path. if text_eq path (codes "key.pem") then some (codes "PEM") else none;
    pem_decode = λ contents. some (codes "RSA PUBLIC KEY", codes "K");
    parse_pkix = λ bytes. none;
    parse_pkcs1 = λ bytes. some bytes;
    base64_decode = λ s. some s;
    unmarshal_header = λ h. if text_eq h (codes "h") then some (codes "RS256") else none;
    unmarshal_claims = λ c. if text_eq c (codes "c") then some ada else none;
    sha256 = λ m. m;
    verify_pkcs1v15 = λ key digest sig. text_eq sig (codes "s");
    equal_fold = text_eq;
    trim_space = λ s. s;
  };
}

abbrev world : World
world = record {
  heap = record {
    cell = λ p. record { url = []; weight = pos 0; alive = false; inflight = pos 0 };
    next = 0;
  };
  checkers = record { running = λ n. false; next = 0 };
}

abbrev completed : Config
completed = record api {
  server = record {
    addr = codes ":8080";
    read_timeout_seconds = pos 30;
    write_timeout_seconds = pos 30;
  };
  admin = record { addr = codes ":9090" };
  routes =
      record {
        path_prefix = codes "/api";
        backends = record { url = codes "http://a"; weight = pos 1 } ∷ [];
        lb_algorithm = codes "least_conn";
        rate_limit = none;
        circuit_breaker = none;
        timeout_seconds = pos 30;
        strip_prefix = false;
      }
      ∷ [];
  tracing = record {
    enabled = true;
    exporter = codes "stdout";
    service_name = codes "gateway-pro";
  };
}

abbrev made : Attempt Gateway × World
made =
    new_gateway sys.parse_duration sys.parse_url (key_loads sys) (some api.auth) true completed
      world

abbrev gateway_of : Attempt Gateway → Gateway
gateway_of (built gw) = gw
gateway_of (failed j why) = record { routes = []; auth_config = none; traced = false }

abbrev begun : Started
begun = record {
  cfg = completed;
  watcher = new_watcher;
  traces = some (new_trace_store (pos 100));
  gateway = gateway_of made.0;
  world = made.1;
}

main_runs : start_up sys (some (codes "api")) true world ≡ running begun
unfolding start_up open_gateway trace_store stores auth_config key_loads load_and_watch load check
    validate validate_routes validate_route default_route default_weights default_weight finish
    missing_key default_server default_admin default_tracing text_or int_or load_public_key
    parse_block parse_public_key parse_rsa_public_key text_eq new_gateway build_routes build_from
    build_route finish_route auth_settings RateLimiter.new Balancer.new Balancer.strategy
main_runs = refl

key_loaded : load_public_key sys.libraries (codes "key.pem") ≡ ok (codes "K")
unfolding load_public_key parse_block parse_public_key parse_rsa_public_key text_eq
key_loaded = refl

abbrev get_api : Request
get_api = record {
  method = codes "GET";
  path = codes "/api";
  host = codes "gateway";
  remote_addr = codes "10.0.0.1:4711";
  tls = false;
  header = ("Authorization", codes "Bearer h.c.s") ∷ [];
}

abbrev arrival : Arrival
arrival = record {
  fresh_id = codes "1";
  fresh_trace = codes "2";
  fresh_span = codes "3";
  start = 5;
  duration = 4;
}

abbrev surroundings : Surroundings
surroundings = record {
  redis_reply = λ k. none;
  now = 5;
  later = 9;
  parses = λ u. true;
  outcome = λ p. responds 200;
}

abbrev writer : Writer
writer = record { header = []; written = none }

api_guarded : is_skipped (codes "/health" ∷ []) (codes "/api") ≡ false
unfolding is_skipped has_prefix
api_guarded = refl

-- The key's file once its contents have been replaced.
abbrev replaced : Text → Option Text
replaced path = none

-- A request with no good token, a reload without routes, and a check of a backend that is down.
abbrev before : List Occurrence
before =
    requested arrival (pos 500) surroundings get_api writer
    ∷ reloaded replaced (record completed { routes = [] })
    ∷ checked (λ u. true) (λ u. Health.failed) (0 ∷ [])
    ∷ []

start_up-Ready_example :
    Ready sys (some (codes "api")) true (start_up sys (some (codes "api")) true world)
start_up-Ready_example = start_up-Ready sys (some (codes "api")) true world

abbrev standing : Standing Text
standing =
    occur_all sys (codes "key.pem") before
      (record { observed = nothing_observed begun; plant = first_plant begun; key = codes "K" })

start_up-SignedBy_example :
    let t = tools_of sys.libraries standing.key (pos 99) in
    Origin sys (codes "key.pem") before (codes "K") standing.key
    × (((main_handler arrival t surroundings get_api writer standing.observed standing.plant).state
          ≡ standing.plant)
        ⊎ ((token : Text) × (c : Claims) × (extract_bearer t get_api ≡ valid token)
            × SignedBy sys.libraries standing.key (pos 99) token c))
start_up-SignedBy_example =
    start_up-SignedBy sys (some (codes "api")) true world begun before (codes "K") (pos 99) arrival
      surroundings get_api writer main_runs refl key_loaded api_guarded

-- The file is saved again, loaded and received.
abbrev saved : List Event
saved = notices true 0 ∷ fires 200000000 (some (codes "api")) ∷ receives ∷ []

abbrev saved_log : Log
saved_log = record { loads = completed ∷ []; received = completed ∷ []; writes = 1; firings = 1 }

abbrev idle : Watcher
idle = record { debounce = none; updates = none; done = false; running = true }

saved_watched :
    watch sys.expand_env sys.unmarshal saved new_watcher nothing_yet ≡ some (idle, saved_log)
unfolding watch happen new_watcher notice send receive load check reload_file validate
    validate_routes validate_route default_route default_weights default_weight finish missing_key
    default_server default_admin default_tracing text_or int_or text_eq
saved_watched = refl

start_up-Serves_example :
    let (gw, w') =
      reloads sys.parse_duration sys.parse_url
        (key_loads sys)
        (completed ∷ [])
        begun.gateway
        begun.world in
    Serves sys.parse_duration sys.parse_url
      (key_loads sys)
      (current sys.parse_duration sys.parse_url
        (key_loads sys)
        (completed ∷ [])
        begun.gateway
        begun.world
        completed)
      gw
      w'
start_up-Serves_example =
    start_up-Serves sys (some (codes "api")) true world begun saved idle saved_log main_runs
      saved_watched
