-- ===== src/Proxy/Build/Guards.antt =====
-- A gateway that is built or reloaded with authentication has it on every route.
use gateway_pro.Prelude.{
  Bool-cases, Option-cases, All, All-append, ℤ, Text, ℕ, suc, ◌≡◌, ◌⊎◌, refl, sym, subst, inl, inr,
  Bool, true, Option, some, List, [], ◌∷◌, ◌++◌, arith,
}
use gateway_pro.Config.{RouteConfig, AuthConfig, Config}
use gateway_pro.LoadBalancer.Balancer
use gateway_pro.LoadBalancer.Balancer.{Balancer}
use gateway_pro.RateLimiter
use gateway_pro.RateLimiter.{Limiter}
use gateway_pro.Proxy.Build.{
  World, Built, Gateway, Attempt, built, failed, auth_settings, finish_route, build_route,
  build_from, build_routes, new_gateway, reload,
}
use gateway_pro.Proxy.Build.Fresh.{Attempt-cases}

-- Every route has authentication with the skip paths `sp`.
abbrev pub Guarding : List Text → List Built → Type 0
Guarding sp bs = All (λ b. b.settings.skip_paths ≡ some sp) bs

List-cases {ℓ} : {A : Type ℓ} (xs : List A) → (xs ≡ []) ⊎ ((x : A) × (ys : List A) × (xs ≡ x ∷ ys))
List-cases [] = inl refl
List-cases (x ∷ xs) = inr (x, xs, refl)

module _ (parse_duration : Text → Option ℤ) (parse_url : Text → Bool) (loads : Text → Bool)
    (a : AuthConfig) (enabled : a.enabled ≡ true) where
  auth_settings-enabled :
      (i : ℕ) (sp : Option (List Text))
      → auth_settings parse_duration parse_url loads i (some a) ≡ built sp
      → sp ≡ some a.skip_paths
  unfolding auth_settings
  auth_settings-enabled i sp e = elim (Bool-cases (loads a.public_key_path)) [
    | inl loaded ↦ ground arith
    | inr missing ↦ absurd (ground arith)
  ]

  abbrev RouteGuards : Attempt Built × World → Type 0
  RouteGuards (built b, w) = b.settings.skip_paths ≡ some a.skip_paths
  RouteGuards (failed j why, w) = Unit

  abbrev RoutesGuard : Attempt (List Built) × World → Type 0
  RoutesGuard (built bs, w) = Guarding a.skip_paths bs
  RoutesGuard (failed j why, w) = Unit

  finish_route-RouteGuards :
      (i : ℕ) (gw : Gateway) (c : RouteConfig) (lb : Balancer) (rl : Limiter) (w : World)
      → gw.auth_config ≡ some a
      → RouteGuards (finish_route parse_duration parse_url loads i gw c lb rl w)
  unfolding finish_route
  finish_route-RouteGuards i gw c lb rl w with_auth =
      elim (Attempt-cases (auth_settings parse_duration parse_url loads i gw.auth_config)) [
        | inl (j, why, e) ↦ rw (finish_route, e, RouteGuards) tt
        | inr (sp, e) ↦
            rw (finish_route, e, RouteGuards)
              (auth_settings-enabled i sp (
                subst (λ o. auth_settings parse_duration parse_url loads i o ≡ built sp) with_auth
                  e))
      ]

  build_route-RouteGuards :
      (i : ℕ) (gw : Gateway) (c : RouteConfig) (w : World)
      → gw.auth_config ≡ some a
      → RouteGuards (build_route parse_duration parse_url loads i gw c w)
  unfolding build_route
  build_route-RouteGuards i gw c w with_auth =
      let (lb, h) = Balancer.new c.lb_algorithm c.backends w.heap in
      elim (Option-cases (RateLimiter.new parse_duration parse_url c.rate_limit)) [
        | inl none' ↦ rw (build_route, none', RouteGuards) tt
        | inr (rl, some') ↦
            rw (build_route, some')
              (finish_route-RouteGuards i gw c lb rl (record w { heap = h }) with_auth)
      ]

  build_from-RoutesGuard :
      (i : ℕ) (gw : Gateway) (cs : List RouteConfig) (done : List Built) (w : World)
      → gw.auth_config ≡ some a
      → Guarding a.skip_paths done
      → RoutesGuard (build_from parse_duration parse_url loads i gw cs done w)
  unfolding build_from
  build_from-RoutesGuard i gw [] done w with_auth g = g
  build_from-RoutesGuard i gw (c ∷ cs) done w with_auth g =
      let good = build_route-RouteGuards i gw c w with_auth in
      let w' = (build_route parse_duration parse_url loads i gw c w).1 in
      elim (Attempt-cases (build_route parse_duration parse_url loads i gw c w).0) [
        | inl (j, why, e) ↦ rw (build_from, e, RoutesGuard) tt
        | inr (b, e) ↦
            let new = subst (λ r. RouteGuards (r, w')) e good in
            rw (build_from, e)
              (build_from-RoutesGuard (suc i) gw cs (done ++ b ∷ []) w' with_auth (
                All-append (λ b. b.settings.skip_paths ≡ some a.skip_paths) done (b ∷ []) g
                  (new, tt)))
      ]

  auth_settings-loads :
      (i : ℕ) (sp : Option (List Text))
      → auth_settings parse_duration parse_url loads i (some a) ≡ built sp
      → loads a.public_key_path ≡ true
  unfolding auth_settings
  auth_settings-loads i sp e = elim (Bool-cases (loads a.public_key_path)) [
    | inl loaded ↦ loaded
    | inr missing ↦ absurd (ground arith)
  ]

  build_route-loads :
      (i : ℕ) (gw : Gateway) (c : RouteConfig) (w : World) (b : Built)
      → gw.auth_config ≡ some a
      → (build_route parse_duration parse_url loads i gw c w).0 ≡ built b
      → loads a.public_key_path ≡ true
  unfolding build_route finish_route
  build_route-loads i gw c w b with_auth e =
      elim (Option-cases (RateLimiter.new parse_duration parse_url c.rate_limit)) [
        | inl none' ↦ absurd (ground (arith, none'))
        | inr (rl, some') ↦
            elim (Attempt-cases (auth_settings parse_duration parse_url loads i gw.auth_config)) [
              | inl (j, why, stuck) ↦ absurd (ground (arith, some', stuck))
              | inr (sp, good) ↦ auth_settings-loads i sp (
                  subst (λ o. auth_settings parse_duration parse_url loads i o ≡ built sp) with_auth
                    good)
            ]
      ]

  -- With authentication, a gateway with a route is built only if the key loads.
  pub new_gateway-loads :
      (traced : Bool) (cfg : Config) (w : World) (gw : Gateway)
      → (new_gateway parse_duration parse_url loads (some a) traced cfg w).0 ≡ built gw
      → (cfg.routes ≡ []) ⊎ (loads a.public_key_path ≡ true)
  unfolding new_gateway build_routes build_from
  new_gateway-loads traced cfg w gw e = elim (List-cases cfg.routes) [
    | inl empty ↦ inl empty
    | inr (c, cs, more) ↦
        let empty : Gateway = record { routes = []; auth_config = some a; traced = traced } in
        elim (Attempt-cases (build_route parse_duration parse_url loads 0 empty c w).0) [
          | inl (j, why, stuck) ↦ absurd (ground (arith, more, stuck))
          | inr (b, good) ↦ inr (build_route-loads 0 empty c w b refl good)
        ]
  ]

  -- The routes have authentication now, and those of the next reload will.
  abbrev pub Secure : Gateway → Type 0
  Secure gw = (gw.auth_config ≡ some a) × Guarding a.skip_paths gw.routes

  pub new_gateway-Secure :
      (traced : Bool) (cfg : Config) (w : World) (gw : Gateway)
      → (new_gateway parse_duration parse_url loads (some a) traced cfg w).0 ≡ built gw
      → Secure gw
  unfolding new_gateway build_routes
  new_gateway-Secure traced cfg w gw e =
      let empty : Gateway = record { routes = []; auth_config = some a; traced = traced } in
      let good = build_from-RoutesGuard 0 empty cfg.routes [] w refl tt in
      let w' = (build_routes parse_duration parse_url loads empty cfg.routes w).1 in
      elim (Attempt-cases (build_routes parse_duration parse_url loads empty cfg.routes w).0) [
        | inl (j, why, stuck) ↦ absurd (ground (arith, stuck))
        | inr (bs, done) ↦
            let g : Guarding a.skip_paths bs = subst (λ r. RoutesGuard (r, w')) done good in
            let same : record empty { routes = bs } ≡ gw = ground (arith, done, e) in
            subst Secure same (refl, g)
      ]

  pub reload-Secure :
      (cfg : Config) (gw : Gateway) (w : World)
      → Secure gw
      → Secure (reload parse_duration parse_url loads cfg gw w).0.0
  unfolding reload build_routes
  reload-Secure cfg gw w (with_auth, g) =
      let good = build_from-RoutesGuard 0 gw cfg.routes [] w with_auth tt in
      let w' = (build_routes parse_duration parse_url loads gw cfg.routes w).1 in
      elim (Attempt-cases (build_routes parse_duration parse_url loads gw cfg.routes w).0) [
        | inl (j, why, e) ↦
            let same : (reload parse_duration parse_url loads cfg gw w).0.0 ≡ gw =
              rw (reload, e) refl in
            subst Secure (sym same) (with_auth, g)
        | inr (bs, e) ↦
            let same : (reload parse_duration parse_url loads cfg gw w).0.0
                ≡ record gw { routes = bs } =
              rw (reload, e) refl in
            subst Secure (sym same) (with_auth, subst (λ r. RoutesGuard (r, w')) e good)
      ]
