-- ===== src/Startup/Signed.antt =====
-- From the configuration's file to the requests: what authentication guards once main serves.
use gateway_pro.Prelude.{
  Option-cases, ℤ, Text, ◌≡◌, refl, subst, ◌⊎◌, inl, inr, Bool, true, false, Option, some, List, [],
  arith,
}
use gateway_pro.Config.{Config}
use gateway_pro.Http.{Request}
use gateway_pro.Auth.{Claims, valid, is_skipped, extract_bearer}
use gateway_pro.Auth.Keys.{tools_of}
use gateway_pro.Auth.Keys.Signed.{SignedBy, Proves-SignedBy}
use gateway_pro.Middleware.{Writer, Observed, Arrival}
use gateway_pro.Proxy.{Surroundings}
use gateway_pro.Proxy.Build.{World, built, new_gateway}
use gateway_pro.Proxy.Build.Fresh.{Attempt-cases}
use gateway_pro.Proxy.Server.{Plant, Happening, main_handler, live_on}
use gateway_pro.Proxy.Server.Authenticated.{gateway-Authenticated}
use gateway_pro.Watcher.{Watcher, load_and_watch}
use gateway_pro.Startup.{
  System, Started, running, trace_store, stores, auth_config, key_loads, open_gateway, start_up,
}

-- What serves the first request, and what has been observed before.
abbrev pub first_plant : Started → Plant
first_plant s = record { gateway = s.gateway; world = s.world; sent = [] }

abbrev pub nothing_observed : Started → Observed
nothing_observed s = record { traces = s.traces; samples = []; lines = [] }

module _ {ℓ} {Key : Type ℓ} (sys : System Key) where
  -- The gateway is what NewGateway has built for the configuration.
  abbrev Made : World → Started → Type 0
  Made w s =
      let r =
        new_gateway sys.parse_duration sys.parse_url (key_loads sys) (auth_config s.cfg)
          (stores (trace_store s.cfg)) s.cfg w in
      (r.0 ≡ built s.gateway) × (r.1 ≡ s.world)

  open_gateway-Made :
      (cfg : Config) (watcher : Watcher) (w : World) (s : Started)
      → open_gateway sys cfg watcher w ≡ running s
      → Made w s
  unfolding open_gateway
  open_gateway-Made cfg watcher w s e =
      let r =
        new_gateway sys.parse_duration sys.parse_url (key_loads sys) (auth_config cfg)
          (stores (trace_store cfg)) cfg w in
      elim (Attempt-cases r.0) [
        | inl (j, why, stuck) ↦ absurd (ground (arith, stuck))
        | inr (gw, good) ↦
            let run : open_gateway sys cfg watcher w
                ≡ running (record {
                  cfg = cfg;
                  watcher = watcher;
                  traces = trace_store cfg;
                  gateway = gw;
                  world = r.1;
                }) =
              rw (open_gateway, good) refl in
            let same : record {
              cfg = cfg;
              watcher = watcher;
              traces = trace_store cfg;
              gateway = gw;
              world = r.1;
            }
                ≡ s =
              ground (arith, run, e) in
            subst (Made w) same (good, refl)
      ]

  start_up-Made :
      (file : Option Text) (watches : Bool) (w : World) (s : Started)
      → start_up sys file watches w ≡ running s
      → Made w s
  unfolding start_up
  start_up-Made file watches w s e =
      elim (Option-cases (load_and_watch sys.expand_env sys.unmarshal file watches)) [
        | inl bad ↦ absurd (ground (arith, bad))
        | inr ((cfg, watcher), good) ↦ open_gateway-Made cfg watcher w s (ground (arith, good, e))
      ]

  -- Take a program that main has started on a configuration with authentication enabled, and let any
  -- requests reach it, any backends be checked and any configurations be reloaded, with whatever the
  -- key's file then holds. A request on a path that is not skipped then changes nothing and reaches no
  -- upstream, unless it brings a bearer token with an expiry that is set and not past that is signed,
  -- by RS256, with `key`: the key that the authentication of the route holds when the request comes,
  -- whichever it is.
  pub start_up-Guarded :
      (file : Option Text) (watches : Bool) (w : World) (s : Started) (hs : List Happening)
      (key : Key) (now : ℤ) (x : Arrival) (e : Surroundings) (r : Request) (out : Writer)
      → start_up sys file watches w ≡ running s
      → s.cfg.auth.enabled ≡ true
      → is_skipped s.cfg.auth.skip_paths r.path ≡ false
      → let (o, plant) =
          live_on sys.parse_duration sys.parse_url hs (nothing_observed s, first_plant s) in
        ((main_handler x (tools_of sys.libraries key now) e r out o plant).state ≡ plant)
        ⊎ ((token : Text) × (c : Claims) × (extract_bearer (tools_of sys.libraries key now) r
              ≡ valid token)
            × SignedBy sys.libraries key now token c)
  unfolding auth_config
  start_up-Guarded file watches w s hs key now x e r out started enabled guarded =
      let made = start_up-Made file watches w s started in
      let given : auth_config s.cfg ≡ some s.cfg.auth = rw (auth_config, enabled) refl in
      let t = tools_of sys.libraries key now in
      let (m, same) =
        subst
          (λ a.
            let r' =
              new_gateway sys.parse_duration sys.parse_url (key_loads sys) a
                (stores (trace_store s.cfg)) s.cfg w in
            (r'.0 ≡ built s.gateway) × (r'.1 ≡ s.world))
          given made in
      let first : World → Plant = λ v. record { gateway = s.gateway; world = v; sent = [] } in
      let promise : World → Type 0 = λ v.
        let (o, plant) =
          live_on sys.parse_duration sys.parse_url hs (nothing_observed s, first v) in
        ((main_handler x t e r out o plant).state ≡ plant)
        ⊎ ((token : Text) × (c : Claims) × (extract_bearer t r ≡ valid token)
            × SignedBy sys.libraries key now token c) in
      subst promise same
        (elim (gateway-Authenticated sys.parse_duration sys.parse_url (key_loads sys) s.cfg.auth
          enabled (stores (trace_store s.cfg)) s.cfg w s.gateway hs (nothing_observed s) [] m x t e
          r out guarded) [
            | inl still ↦ inl still
            | inr (token, c, bearer, proves) ↦
                inr (token, c, bearer, Proves-SignedBy sys.libraries key now token c proves)
          ])
