-- ===== src/Proxy/Handler/Examples.antt =====
-- A concrete request through the chain of a route that is traced, with a store for two spans.
use gateway_pro.Prelude.{
  pos, text_eq, codes, true, false, none, some, [], ◌∷◌, ◌++◌, Text, has_prefix, ◌≡◌, refl, ◌⊎◌,
}
use gateway_pro.Http.{Request, get, set}
use gateway_pro.LoadBalancer.Balancer.{least_conn}
use gateway_pro.RateLimiter
use gateway_pro.RateLimiter.{noop, sliding}
use gateway_pro.Auth
use gateway_pro.Auth.{
  Claims, Tools, valid, is_skipped, extract_bearer, at_space, segments, validate_parts,
  validate_claims, validate_token,
}
use gateway_pro.Auth.Passes.{Proves}
use gateway_pro.Tracing.{new_trace_store}
use gateway_pro.Middleware.{Arrival, Writer, Observed}
use gateway_pro.Proxy.{Surroundings, responds}
use gateway_pro.Proxy.Handler.{Site, Settings}
use gateway_pro.Proxy.Handler.Users.{named, users_apart}

abbrev request : Request
request = record {
  method = codes "GET";
  path = codes "/api";
  host = codes "gateway";
  remote_addr = codes "10.0.0.1:4711";
  tls = false;
  header = ("X-User-ID", codes "root") ∷ [];
}

abbrev site : Site
site = record {
  heap = record {
    cell = λ p. record { url = codes "http://a"; weight = pos 1; alive = true; inflight = pos 0 };
    next = 1;
  };
  route = record {
    prefix = codes "/api";
    strip = false;
    lb = least_conn (record { backends = 0 ∷ [] });
    rl = noop;
    breakers = λ u. none;
  };
  sent = [];
}

abbrev arrival : Arrival
arrival = record {
  fresh_id = codes "1";
  fresh_trace = codes "2";
  fresh_span = codes "3";
  start = 5;
  duration = 4;
}

-- No token of anyone is accepted.
abbrev tools : Tools
tools = record {
  equal_fold = text_eq;
  trim_space = λ s. s;
  decode_header = λ h. none;
  decode_claims = λ c. none;
  verifies = λ m s. false;
  now = pos 5;
}

abbrev settings : Settings
settings = record { traced = true; label = codes "/api"; skip_paths = some (codes "/health" ∷ []) }

abbrev surroundings : Surroundings
surroundings = record {
  redis_reply = λ k. none;
  now = 5;
  later = 9;
  parses = λ u. true;
  outcome = λ p. responds 200;
}

abbrev writer : Writer
writer = record { header = []; written = none }

abbrev observed : Observed
observed = record { traces = some (new_trace_store (pos 2)); samples = []; lines = [] }

-- Every token of three parts is accepted: the one in the middle is the user's name.
abbrev trusting : Tools
trusting = record tools {
  decode_header = λ h. some (codes "RS256");
  decode_claims = λ c. some (record { sub = c; exp = pos 100 });
  verifies = λ m s. true;
}

abbrev from_user : Text → Request
from_user name = record request {
  header = ("Authorization", codes "Bearer h." ++ name ++ codes ".s") ∷ [];
}

abbrev passed_user : Text → Request
passed_user name = record request {
  header = ("Authorization", codes "Bearer h." ++ name ++ codes ".s") ∷ ("X-User-ID", name) ∷ [];
}

api_guarded : is_skipped (codes "/health" ∷ []) (codes "/api") ≡ false
unfolding is_skipped has_prefix
api_guarded = refl

ada_passes :
    Auth.handler trusting (codes "/health" ∷ []) (from_user (codes "ada"))
    ≡ valid (passed_user (codes "ada"))
unfolding Auth.handler is_skipped has_prefix extract_bearer at_space segments validate_parts
    validate_claims validate_token text_eq get set
ada_passes = refl

bob_passes :
    Auth.handler trusting (codes "/health" ∷ []) (from_user (codes "bob"))
    ≡ valid (passed_user (codes "bob"))
unfolding Auth.handler is_skipped has_prefix extract_bearer at_space segments validate_parts
    validate_claims validate_token text_eq get set
bob_passes = refl

abbrev ada : Request
ada = passed_user (codes "ada")

abbrev bob : Request
bob = passed_user (codes "bob")

abbrev by_user : RateLimiter.Limiter
by_user =
    sliding (record { buckets = λ k. none; rate = pos 1; window = pos 60; key_by = codes "user" })

users_apart_example :
    (token token' : Text) × (c c' : Claims) × Proves trusting token c
    × Proves trusting token' c'
    × ((named c.sub ≡ named c'.sub)
        ⊎ ((RateLimiter.allow (λ k. none) 9 bob (RateLimiter.allow (λ k. none) 5 ada by_user).0).1
            ≡ (RateLimiter.allow (λ k. none) 9 bob by_user).1))
users_apart_example =
    users_apart trusting trusting (codes "/health" ∷ []) (from_user (codes "ada"))
      (from_user (codes "bob")) ada bob by_user (λ k. none) (λ k. none) 5 9 api_guarded api_guarded
      ada_passes bob_passes refl
