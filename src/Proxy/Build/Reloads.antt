-- ===== src/Proxy/Build/Reloads.antt =====
-- What a reload does to the routes and to the checkers of their backends.
use gateway_pro.Prelude.{
  get_elem?, All, ℤ, Text, ℕ, ◌<◌, ◌≡◌, refl, sym, subst, ◌∙◌, ◌⊎◌, inl, inr, Bool, true, false,
  Option, none, some, List, [], ◌∷◌, arith, All-map,
}
use gateway_pro.Config.{RouteConfig, AuthConfig, Config}
use gateway_pro.Proxy.Build.{
  Checkers, World, Failure, rate_limit_failed, auth_failed, Attempt, built, failed, Built, Gateway,
  has_route, stop_removed, build_routes, new_gateway, reload, reloads,
}
use gateway_pro.Proxy.Build.Fresh.{
  Attempt-cases, Grown, Fresh, Held, Faulty, RoutesGood, build_routes-RoutesGood,
}
use gateway_pro.Proxy.Build.Parts.{Untouched}
use gateway_pro.Proxy.Build.Exact.{Made, build_routes-Made, Exactly}
use gateway_pro.Proxy.Build.Stopping.{
  Removed, stop_removed-running, stop_removed-All, Fresh-stop_removed,
}

module _ (parse_duration : Text → Option ℤ) (parse_url : Text → Bool) (loads : Text → Bool) where
  Faulty-auth_config :
      (gw : Gateway) (c : RouteConfig) (why : Failure)
      → Faulty parse_duration parse_url loads gw c why
      → Faulty parse_duration parse_url loads
          (record { routes = []; auth_config = gw.auth_config; traced = false })
          c
          why
  Faulty-auth_config gw c rate_limit_failed fault = fault
  Faulty-auth_config gw c auth_failed fault = fault

  -- What a reload promises of the gateway, the error and the checkers.
  abbrev pub Reloaded : Config → Gateway → World → (Gateway × Option (ℕ × Failure)) × World → Type 0
  Reloaded cfg gw w ((gw', none), w') =
      Exactly parse_duration parse_url loads cfg gw' w'
      × (gw'.auth_config ≡ gw.auth_config)
      × (gw'.traced ≡ gw.traced)
      × Untouched w.heap w'.heap
      × All (Fresh w.checkers w'.checkers) gw'.routes
      × All
          (λ b.
            (has_route b.route.prefix gw'.routes ≡ true) ⊎ (w'.checkers.running b.checker ≡ false))
          gw.routes
      × ((n : ℕ)
          → n < w.checkers.next
          → (w'.checkers.running n ≡ w.checkers.running n) ⊎ Removed gw'.routes gw.routes n)
  Reloaded cfg gw w ((gw', some (j, why)), w') =
      (gw' ≡ gw)
      × ((c : RouteConfig) × (get_elem? cfg.routes j ≡ some c)
          × Faulty parse_duration parse_url loads gw c why)
      × Grown w.checkers w'.checkers
      × Untouched w.heap w'.heap

  pub reload_lem :
      (cfg : Config) (gw : Gateway) (w : World)
      → Held gw.routes w.checkers
      → Reloaded cfg gw w (reload parse_duration parse_url loads cfg gw w)
  unfolding reload
  reload_lem cfg gw w held =
      let good = build_routes-RoutesGood parse_duration parse_url loads gw cfg.routes w in
      let made = build_routes-Made parse_duration parse_url loads gw cfg.routes w in
      let w' = (build_routes parse_duration parse_url loads gw cfg.routes w).1 in
      elim (Attempt-cases (build_routes parse_duration parse_url loads gw cfg.routes w).0) [
        | inl (j, why, e) ↦
            let ((n, c, here, found, fault), g) =
              subst
                (λ r.
                  RoutesGood parse_duration parse_url loads 0 gw cfg.routes [] w.checkers w.checkers
                    (r, w'))
                e good in
            let place : n ≡ j = omega (arith, here) in
            let run : reload parse_duration parse_url loads cfg gw w ≡ ((gw, some (j, why)), w') =
              rw (reload, e) refl in
            subst (Reloaded cfg gw w) (sym run) (
              refl,
              (c, subst (λ m. get_elem? cfg.routes m ≡ some c) place found, fault),
              g,
              subst (λ r. Made parse_duration parse_url loads gw cfg.routes w (r, w')) e made,
            )
        | inr (bs, e) ↦
            let (ps, all, g) =
              subst
                (λ r.
                  RoutesGood parse_duration parse_url loads 0 gw cfg.routes [] w.checkers w.checkers
                    (r, w'))
                e good in
            let stopped = stop_removed bs gw.routes w'.checkers in
            let run : reload parse_duration parse_url loads cfg gw w
                ≡ ((record gw { routes = bs }, none), record w' { checkers = stopped }) =
              rw (reload, e) refl in
            let (exact, untouched) =
              subst (λ r. Made parse_duration parse_url loads gw cfg.routes w (r, w')) e made in
            subst (Reloaded cfg gw w) (sym run) (
              (w.checkers.next, exact),
              refl,
              refl,
              untouched,
              All-map (Fresh w.checkers w'.checkers) (Fresh w.checkers stopped) bs
                  (λ b fresh. Fresh-stop_removed bs gw.routes w.checkers w'.checkers b held fresh)
                  all,
              stop_removed-All bs gw.routes w'.checkers stopped refl,
              λ n lt. elim (stop_removed-running bs gw.routes w'.checkers n) [
                | inl same ↦ inl (same ∙ g.1 n lt)
                | inr removed ↦ inr removed
              ],
            )
      ]

  -- The invariant, from the promise.
  Reloaded-Held :
      (cfg : Config) (gw : Gateway) (w : World) (x : (Gateway × Option (ℕ × Failure)) × World)
      → Held gw.routes w.checkers
      → Reloaded cfg gw w x
      → Held x.0.0.routes x.1.checkers
  Reloaded-Held cfg gw w ((gw', none), w') held (exact, auth, traced, u, all, stopped, rest) =
      All-map (Fresh w.checkers w'.checkers)
        (λ b. (b.checker < w'.checkers.next) × (w'.checkers.running b.checker ≡ true)) gw'.routes
        (λ b (new, made, runs). (made, runs)) all
  Reloaded-Held cfg gw w ((gw', some (j, why)), w') held (same, fault, g, u) =
      subst (λ (q : Gateway). Held q.routes w'.checkers) (sym same)
        (All-map (λ b. (b.checker < w.checkers.next) × (w.checkers.running b.checker ≡ true))
          (λ b. (b.checker < w'.checkers.next) × (w'.checkers.running b.checker ≡ true)) gw.routes
          (λ b (lt, runs). (omega (arith, g.0, lt), g.1 b.checker lt ∙ runs)) held)

  pub reload-Held :
      (cfg : Config) (gw : Gateway) (w : World)
      → Held gw.routes w.checkers
      → Held
          (reload parse_duration parse_url loads cfg gw w).0.0.routes
          (reload parse_duration parse_url loads cfg gw w).1.checkers
  reload-Held cfg gw w held =
      Reloaded-Held cfg gw w (reload parse_duration parse_url loads cfg gw w) held
        (reload_lem cfg gw w held)

  -- What NewGateway promises of the gateway, or of the error.
  abbrev pub Opened :
      Option AuthConfig → Bool → Config → Checkers → Attempt Gateway × World → Type 0
  Opened auth_config traced cfg k (built gw, w') =
      Exactly parse_duration parse_url loads cfg gw w'
      × (gw.auth_config ≡ auth_config)
      × (gw.traced ≡ traced)
      × All (Fresh k w'.checkers) gw.routes
  Opened auth_config traced cfg k (failed j why, w') =
      (c : RouteConfig) × (get_elem? cfg.routes j ≡ some c)
      × Faulty parse_duration parse_url loads
          (record { routes = []; auth_config = auth_config; traced = false }) c why

  pub new_gateway-Opened :
      (auth_config : Option AuthConfig) (traced : Bool) (cfg : Config) (w : World)
      → Opened auth_config traced cfg w.checkers
          (new_gateway parse_duration parse_url loads auth_config traced cfg w)
  unfolding new_gateway
  new_gateway-Opened auth_config traced cfg w =
      let empty : Gateway = record { routes = []; auth_config = auth_config; traced = traced } in
      let good = build_routes-RoutesGood parse_duration parse_url loads empty cfg.routes w in
      let made = build_routes-Made parse_duration parse_url loads empty cfg.routes w in
      let w' = (build_routes parse_duration parse_url loads empty cfg.routes w).1 in
      elim (Attempt-cases (build_routes parse_duration parse_url loads empty cfg.routes w).0) [
        | inl (j, why, e) ↦
            let ((n, c, here, found, fault), g) =
              subst
                (λ r.
                  RoutesGood parse_duration parse_url loads 0 empty cfg.routes [] w.checkers
                    w.checkers (r, w'))
                e good in
            let place : n ≡ j = omega (arith, here) in
            let run : new_gateway parse_duration parse_url loads auth_config traced cfg w
                ≡ (failed j why, w') =
              rw (new_gateway, e) refl in
            subst (Opened auth_config traced cfg w.checkers) (sym run) (
              c,
              subst (λ m. get_elem? cfg.routes m ≡ some c) place found,
              Faulty-auth_config empty c why fault,
            )
        | inr (bs, done) ↦
            let (ps, all, g) =
              subst
                (λ r.
                  RoutesGood parse_duration parse_url loads 0 empty cfg.routes [] w.checkers
                    w.checkers (r, w'))
                done good in
            let run : new_gateway parse_duration parse_url loads auth_config traced cfg w
                ≡ (built (record empty { routes = bs }), w') =
              rw (new_gateway, done) refl in
            let (exact, untouched) =
              subst (λ r. Made parse_duration parse_url loads empty cfg.routes w (r, w')) done
                made in
            subst (Opened auth_config traced cfg w.checkers) (sym run)
              ((w.checkers.next, exact), refl, refl, all)
      ]

  pub Fresh-Held : (k k' : Checkers) (bs : List Built) → All (Fresh k k') bs → Held bs k'
  Fresh-Held k k' bs all =
      All-map (Fresh k k') (λ b. (b.checker < k'.next) × (k'.running b.checker ≡ true)) bs
        (λ b (new, made, runs). (made, runs)) all

  pub new_gateway-Held :
      (auth_config : Option AuthConfig) (traced : Bool) (cfg : Config) (w : World) (gw : Gateway)
      → (new_gateway parse_duration parse_url loads auth_config traced cfg w).0 ≡ built gw
      → Held gw.routes
          (new_gateway parse_duration parse_url loads auth_config traced cfg w).1.checkers
  new_gateway-Held auth_config traced cfg w gw e =
      let w' = (new_gateway parse_duration parse_url loads auth_config traced cfg w).1 in
      let (exact, auth, settings, all) =
        subst (λ r. Opened auth_config traced cfg w.checkers (r, w')) e
          (new_gateway-Opened auth_config traced cfg w) in
      Fresh-Held w.checkers w'.checkers gw.routes all

  reloads-Held_from :
      (cfgs : List Config) (gw : Gateway) (w : World)
      → Held gw.routes w.checkers
      → Held
          (reloads parse_duration parse_url loads cfgs gw w).0.routes
          (reloads parse_duration parse_url loads cfgs gw w).1.checkers
  unfolding reloads
  reloads-Held_from [] gw w held = held
  reloads-Held_from (cfg ∷ cfgs) gw w held =
      let ((gw', err), w') = reload parse_duration parse_url loads cfg gw w in
      reloads-Held_from cfgs gw' w' (reload-Held cfg gw w held)

  -- Whatever configurations a gateway that was built is reloaded with, and whether or not a reload
  -- fails: each route that it then has keeps a health checker that runs.
  reloads-Held :
      (auth_config : Option AuthConfig) (traced : Bool) (cfg : Config) (w : World) (gw : Gateway)
      (cfgs : List Config)
      → (new_gateway parse_duration parse_url loads auth_config traced cfg w).0 ≡ built gw
      → let w' = (new_gateway parse_duration parse_url loads auth_config traced cfg w).1 in
        Held
          (reloads parse_duration parse_url loads cfgs gw w').0.routes
          (reloads parse_duration parse_url loads cfgs gw w').1.checkers
  reloads-Held auth_config traced cfg w gw cfgs e =
      reloads-Held_from cfgs gw
        (new_gateway parse_duration parse_url loads auth_config traced cfg w).1
        (new_gateway-Held auth_config traced cfg w gw e)
