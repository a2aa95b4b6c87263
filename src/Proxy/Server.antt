-- ===== src/Proxy/Server.antt =====
-- The whole gateway: ServeHTTP of gateway.go on the routes that it has built, within Recovery as
-- main of cmd/gateway/main.go sets it up, and its life between requests and reloads.
pub mod Guarded
pub mod Authenticated
pub mod Position
use gateway_pro.Prelude.{
  ltb, if◌then◌else◌, length, ℤ, has_prefix, Text, ℕ, zero, suc, Bool, false, Option, none, some,
  List, [], ◌∷◌,
}
use gateway_pro.Config.{Config}
use gateway_pro.Http.{Request}
use gateway_pro.Auth.{Tools}
use gateway_pro.Health.{Response, check_all}
use gateway_pro.Middleware.{Handler, Writer, Observed, Arrival, write_header, recovery}
use gateway_pro.Proxy.{Surroundings}
use gateway_pro.Proxy.Handler.{Site, route_handler}
use gateway_pro.Proxy.Build.{World, Built, Gateway, reload}

-- The gateway with what its routes work on, and the backends that requests were sent to.
pub record Plant : Type 0 where
  pub gateway : Gateway
  pub world : World
  pub sent : List ℕ

-- `len(rt.prefix) > len(matched.prefix)`, for the route `b` at position `i`.
pub farther : ℕ → Built → Option (ℕ × Built) → Option (ℕ × Built)
farther i b none = some (i, b)
farther i b (some (j, m)) =
    if ltb (length m.route.prefix) (length b.route.prefix) then some (i, b) else some (j, m)

-- The loop of ServeHTTP over the routes from position `i` on.
pub position_from : Text → Option (ℕ × Built) → ℕ → List Built → Option (ℕ × Built)
unfolding farther
position_from path matched i [] = matched
position_from path matched i (b ∷ bs) =
    position_from path (if has_prefix path b.route.prefix then farther i b matched else matched)
      (suc i) bs

-- What is written through the pointer to the route at position `i`.
pub replace : ℕ → Built → List Built → List Built
replace i b [] = []
replace zero b (c ∷ bs) = b ∷ bs
replace (suc i) b (c ∷ bs) = c ∷ replace i b bs

pub site_of : Built → Plant → Site
site_of b s = record { heap = s.world.heap; route = b.route; sent = s.sent }

pub put_site : ℕ → Built → Site → Plant → Plant
unfolding replace
put_site i b t s = record {
  gateway = record s.gateway { routes = replace i (record b { route = t.route }) s.gateway.routes };
  world = record s.world { heap = t.heap };
  sent = t.sent;
}

-- `matched.handler.ServeHTTP(w, r)`, or the answer 404.
pub hand_over : Arrival → Tools → Surroundings → Option (ℕ × Built) → Handler Plant
unfolding site_of put_site
hand_over a t e none r w o s = record {
  writer = write_header 404 w;
  observed = o;
  state = s;
  panicked = false;
}
hand_over a t e (some (i, b)) r w o s =
    let ran = route_handler a t b.settings e r w o (site_of b s) in
    record {
      writer = ran.writer;
      observed = ran.observed;
      state = put_site i b ran.state s;
      panicked = ran.panicked;
    }

-- ServeHTTP
pub serve_http : Arrival → Tools → Surroundings → Handler Plant
unfolding position_from hand_over
serve_http a t e r w o s = hand_over a t e (position_from r.path none 0 s.gateway.routes) r w o s

-- The handler of the main server.
pub main_handler : Arrival → Tools → Surroundings → Handler Plant
unfolding serve_http
main_handler a t e = recovery (serve_http a t e)

-- What happens to the gateway: a request with all that it depends on, the key of the route's
-- authentication among them; a reload, with whether loadPublicKey then loads the key of a path; or a
-- round of health checks of some backends, with what `http.NewRequestWithContext` accepts and the
-- answers.
pub data Happening : Type 0 where
  request : Arrival → Tools → Surroundings → Request → Writer → Happening
  reloading : (Text → Bool) → Config → Happening
  checking : (Text → Bool) → (Text → Response) → List ℕ → Happening

-- The answers of `time.ParseDuration` and `redis.ParseURL`.
module _ (parse_duration : Text → Option ℤ) (parse_url : Text → Bool) where
  pub take_place : Happening → Observed × Plant → Observed × Plant
  unfolding main_handler
  take_place (request a t e r w) (o, s) =
      let ran = main_handler a t e r w o s in (ran.observed, ran.state)
  take_place (reloading loads cfg) (o, s) =
      let ((gw, err), world) = reload parse_duration parse_url loads cfg s.gateway s.world in
      (o, record s { gateway = gw; world = world })
  take_place (checking accepts answer ps) (o, s) =
      (o, record s { world = record s.world { heap = check_all accepts answer ps s.world.heap } })

  unfoldable pub live_on : List Happening → Observed × Plant → Observed × Plant
  unfolding take_place
  live_on [] x = x
  live_on (h ∷ hs) x = live_on hs (take_place h x)
