-- ===== src/Startup/Ready.antt =====
-- With what main starts to serve, and why it does not.
use gateway_pro.Prelude.{
  if◌then◌else◌, none, Bool-cases, get_elem?, Text, ℕ, ◌≡◌, refl, sym, subst, ◌∙◌, ◌≢◌, ◌⊎◌, inl,
  inr, Bool, true, false, Option, some, [], arith,
}
use gateway_pro.Config.{RouteConfig, Config}
use gateway_pro.Auth.Keys.{load_public_key}
use gateway_pro.Auth.Keys.Signed.{KeyOf, Result-cases, load_public_key-KeyOf}
use gateway_pro.Validate.Settled.{Settled}
use gateway_pro.Watcher.{
  Loaded, loaded, read_failed, parse_failed, invalid, new_watcher, load, load_and_watch,
}
use gateway_pro.Watcher.Delivery.{load-Settled, Loaded-cases}
use gateway_pro.Proxy.Build.{World, Attempt, built, Gateway, Failure, new_gateway}
use gateway_pro.Proxy.Build.Fresh.{Attempt-cases, Held, Faulty}
use gateway_pro.Proxy.Build.Exact.{Exactly}
use gateway_pro.Proxy.Build.Reloads.{Opened, new_gateway-Opened, Fresh-Held}
use gateway_pro.Proxy.Build.Guards.{new_gateway-loads}
use gateway_pro.Startup.{
  System, Start, running, load_failed, build_failed, trace_store, stores, auth_config, key_loads,
  open_gateway, start_up,
}

module _ {Key : Type 0} (sys : System Key) where
  key_loads-KeyOf :
      (path : Text) → key_loads sys path ≡ true → (key : Key) × KeyOf sys.libraries path key
  unfolding key_loads
  key_loads-KeyOf path e = elim (Result-cases (load_public_key sys.libraries path)) [
    | inl (why, bad) ↦ absurd (ground arith)
    | inr (key, good) ↦ (key, load_public_key-KeyOf sys.libraries path key good)
  ]

  -- What is known of the configuration's key of authentication.
  abbrev pub Keyed : Config → Type 0
  Keyed cfg =
      (cfg.auth.enabled ≡ false)
      ⊎ ((cfg.routes ≡ []) ⊎ ((key : Key) × KeyOf sys.libraries cfg.auth.public_key_path key))

  -- What is at fault in the route of position `j`.
  abbrev pub AtFault : Config → ℕ → Failure → Type 0
  AtFault cfg j why =
      (c : RouteConfig) × (get_elem? cfg.routes j ≡ some c)
      × Faulty sys.parse_duration sys.parse_url (key_loads sys)
          (record { routes = []; auth_config = auth_config cfg; traced = false }) c why

  abbrev pub Serving : Config → Gateway → World → Type 0
  Serving cfg gw w =
      Settled cfg
      × Exactly sys.parse_duration sys.parse_url (key_loads sys) cfg gw w
      × (gw.auth_config ≡ (if cfg.auth.enabled then some cfg.auth else none))
      × (gw.traced ≡ cfg.tracing.enabled)
      × Held gw.routes w.checkers
      × Keyed cfg

  abbrev pub Ready : Option Text → Bool → Start → Type 0
  Ready file watches (running s) =
      (load sys.expand_env sys.unmarshal file ≡ loaded s.cfg)
      × (s.watcher ≡ new_watcher)
      × Serving s.cfg s.gateway s.world
  Ready file watches load_failed =
      (watches ≡ false) ⊎ ((cfg : Config) → load sys.expand_env sys.unmarshal file ≢ loaded cfg)
  Ready file watches (build_failed j why) =
      (cfg : Config) × (load sys.expand_env sys.unmarshal file ≡ loaded cfg) × AtFault cfg j why

  auth_config_lem :
      (cfg : Config) → auth_config cfg ≡ (if cfg.auth.enabled then some cfg.auth else none)
  unfolding auth_config
  auth_config_lem cfg = refl

  stores_lem : (cfg : Config) → stores (trace_store cfg) ≡ cfg.tracing.enabled
  unfolding stores trace_store
  stores_lem cfg = elim (Bool-cases cfg.tracing.enabled) [
    | inl on ↦ rw (trace_store, on) refl
    | inr off ↦ rw (trace_store, off) refl
  ]

  new_gateway-Keyed :
      (cfg : Config) (w : World) (gw : Gateway)
      → (new_gateway sys.parse_duration sys.parse_url
          (key_loads sys)
          (auth_config cfg)
          (stores (trace_store cfg))
          cfg
          w).0
        ≡ built gw
      → Keyed cfg
  unfolding auth_config
  new_gateway-Keyed cfg w gw e = elim (Bool-cases cfg.auth.enabled) [
    | inr off ↦ inl off
    | inl on ↦
        let given : auth_config cfg ≡ some cfg.auth = rw (auth_config, on) refl in
        elim (new_gateway-loads sys.parse_duration sys.parse_url (key_loads sys) cfg.auth on
          (stores (trace_store cfg)) cfg w gw
          (subst
            (λ a.
              (new_gateway sys.parse_duration sys.parse_url (key_loads sys) a
                (stores (trace_store cfg)) cfg w).0
              ≡ built gw)
            given e)) [
              | inl empty ↦ inr (inl empty)
              | inr loads ↦ inr (inr (key_loads-KeyOf cfg.auth.public_key_path loads))
            ]
  ]

  open_gateway-Ready :
      (file : Option Text) (watches : Bool) (cfg : Config) (w : World)
      → load sys.expand_env sys.unmarshal file ≡ loaded cfg
      → Ready file watches (open_gateway sys cfg new_watcher w)
  unfolding open_gateway
  open_gateway-Ready file watches cfg w good =
      let r =
        new_gateway sys.parse_duration sys.parse_url (key_loads sys) (auth_config cfg)
          (stores (trace_store cfg)) cfg w in
      let opened =
        new_gateway-Opened sys.parse_duration sys.parse_url (key_loads sys) (auth_config cfg)
          (stores (trace_store cfg)) cfg w in
      let promise : Attempt Gateway → Type 0 = λ x.
        Opened sys.parse_duration sys.parse_url (key_loads sys) (auth_config cfg)
          (stores (trace_store cfg)) cfg w.checkers (x, r.1) in
      elim (Attempt-cases r.0) [
        | inl (j, why, e) ↦ rw (open_gateway, e, Ready) (cfg, good, subst promise e opened)
        | inr (gw, e) ↦
            let (exact, auth, traced, all) = subst promise e opened in
            rw (open_gateway, e, Ready)
              (
                good,
                refl,
                (
                  load-Settled sys.expand_env sys.unmarshal file cfg good,
                  exact,
                  auth ∙ auth_config_lem cfg,
                  traced ∙ stores_lem cfg,
                  Fresh-Held sys.parse_duration sys.parse_url (key_loads sys) w.checkers
                      r.1.checkers gw.routes all,
                  new_gateway-Keyed cfg w gw e,
                ),
              )
      ]

  load_failed-Ready :
      (file : Option Text) (l : Loaded)
      → ((cfg : Config) → l ≢ loaded cfg)
      → load sys.expand_env sys.unmarshal file ≡ l
      → (watches : Bool) (w : World) → Ready file watches (start_up sys file watches w)
  unfolding start_up load_and_watch
  load_failed-Ready file (loaded cfg) not_loaded e watches w = absurd (not_loaded cfg refl)
  load_failed-Ready file read_failed not_loaded e watches w =
      rw (start_up, load_and_watch, e, Ready) (inr (λ cfg here. not_loaded cfg (sym e ∙ here)))
  load_failed-Ready file parse_failed not_loaded e watches w =
      rw (start_up, load_and_watch, e, Ready) (inr (λ cfg here. not_loaded cfg (sym e ∙ here)))
  load_failed-Ready file (invalid why) not_loaded e watches w =
      rw (start_up, load_and_watch, e, Ready) (inr (λ cfg here. not_loaded cfg (sym e ∙ here)))

  -- main serves the configuration that load returns for the file: it is completed and valid, and the
  -- gateway has one route for each of its entries, in their order: with the entry's prefix, its
  -- backends by URL and weight, alive, under the strategy it names, with its limiter, a breaker for
  -- each backend's URL, its timeout and whether it strips, and with a health checker of its own that
  -- runs. Authentication, with the paths it skips, and tracing are on as the configuration says, and
  -- if authentication is enabled and there is a route, the file of its key holds an RSA key. Or main
  -- ends: when the file cannot be watched or load returns an error, or at a route of the
  -- configuration whose limiter cannot be made or for which authentication is enabled and its key
  -- cannot be loaded.
  pub start_up-Ready :
      (file : Option Text) (watches : Bool) (w : World)
      → Ready file watches (start_up sys file watches w)
  unfolding start_up load_and_watch
  start_up-Ready file watches w = elim (Loaded-cases (load sys.expand_env sys.unmarshal file)) [
    | inl (cfg, good) ↦ elim (Bool-cases watches) [
      | inr blind ↦ rw (start_up, load_and_watch, good, blind, Ready) (inl blind)
      | inl seen ↦
          rw (start_up, load_and_watch, good, seen) (open_gateway-Ready file true cfg w good)
    ]
    | inr (inl e) ↦ load_failed-Ready file read_failed (λ cfg bad. cc) e watches w
    | inr (inr (inl e)) ↦ load_failed-Ready file parse_failed (λ cfg bad. cc) e watches w
    | inr (inr (inr (why, e))) ↦ load_failed-Ready file (invalid why) (λ cfg bad. cc) e watches w
  ]
