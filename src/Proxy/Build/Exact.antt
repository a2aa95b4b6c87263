-- ===== src/Proxy/Build/Exact.antt =====
-- The routes that buildRoutes makes of a configuration, in every field.
use gateway_pro.Prelude.{
  if◌then◌else◌, Bool-cases, Option-cases, ◌*ℤ◌, wrap64, ℤ, pos, Text, ℕ, suc, ◌≡◌, refl, sym, ap,
  subst, ◌∙◌, inl, inr, Bool, Option, none, some, List, [], ◌∷◌, ◌++◌, arith,
}
use mathlib.Core.List.{append_assoc, append-nil}
use gateway_pro.Config.{RouteConfig, AuthConfig, Config}
use gateway_pro.LoadBalancer.Heap.{Heap, build_backends}
use gateway_pro.LoadBalancer.Balancer
use gateway_pro.LoadBalancer.Balancer.{
  Balancer, round_robin, least_conn, weighted, ip_hash, strategy, backends,
}
use gateway_pro.RateLimiter
use gateway_pro.RateLimiter.{Limiter}
use gateway_pro.Proxy.Build.{
  Checkers, start, World, Built, Attempt, built, failed, Gateway, auth_settings, finish_route,
  build_route, build_from, build_routes,
}
use gateway_pro.Proxy.Build.Fresh.{Attempt-cases}
use gateway_pro.Proxy.Build.Parts.{
  Untouched, Untouched-trans, Configured, Configured-Untouched, build_backends-Configured, Named,
  strategy-Named, Guarded, build_breakers-made, build_breakers-others,
}

-- The paths that authentication skips, where it is enabled.
abbrev pub skipped_paths : Option AuthConfig → Option (List Text)
skipped_paths none = none
skipped_paths (some a) = if a.enabled then some a.skip_paths else none

module _ (parse_duration : Text → Option ℤ) (parse_url : Text → Bool) (loads : Text → Bool) where
  auth_settings-skipped :
      (i : ℕ) (o : Option AuthConfig) (s : Option (List Text))
      → auth_settings parse_duration parse_url loads i o ≡ built s
      → s ≡ skipped_paths o
  unfolding auth_settings
  auth_settings-skipped i none s e = ground arith
  auth_settings-skipped i (some a) s e = elim (Bool-cases a.enabled) [
    | inr off ↦ ground arith
    | inl on ↦ elim (Bool-cases (loads a.public_key_path)) [
      | inl loaded ↦ ground arith
      | inr missing ↦ absurd (ground arith)
    ]
  ]

  module _ (auth : Option AuthConfig) (traced : Bool) where
    -- A route that is as its configuration says, with the checker of the number `n`.
    pub record RouteOf (h : Heap) (n : ℕ) (c : RouteConfig) (b : Built) : Type 0 where
      pub prefix : b.route.prefix ≡ c.path_prefix
      strip : b.route.strip ≡ c.strip_prefix
      strategy : Named c.lb_algorithm b.route.lb
      backends : Configured h (Balancer.backends b.route.lb) c.backends
      limiter : RateLimiter.new parse_duration parse_url c.rate_limit ≡ some b.route.rl
      breakers : Guarded c.circuit_breaker c.backends b.route.breakers
      timeout : b.timeout ≡ wrap64 (c.timeout_seconds *ℤ pos 1000000000)
      pub checker : b.checker ≡ n
      is_traced : b.settings.traced ≡ traced
      label : b.settings.label ≡ c.path_prefix
      skips : b.settings.skip_paths ≡ skipped_paths auth

    -- One route for each entry, in their order, with checkers of successive numbers.
    abbrev pub Routes : Heap → ℕ → List RouteConfig → List Built → Type 0
    Routes h n [] [] = Unit
    Routes h n (c ∷ cs) (b ∷ bs) = RouteOf h n c b × Routes h (suc n) cs bs
    Routes h n _ _ = ⊥

    RouteOf-Untouched :
        (h h' : Heap) (n : ℕ) (c : RouteConfig) (b : Built)
        → Untouched h h'
        → RouteOf h n c b
        → RouteOf h' n c b
    RouteOf-Untouched h h' n c b u r = record {
      prefix = r.prefix;
      strip = r.strip;
      strategy = r.strategy;
      backends = Configured-Untouched h h' (Balancer.backends b.route.lb) c.backends u r.backends;
      limiter = r.limiter;
      breakers = r.breakers;
      timeout = r.timeout;
      checker = r.checker;
      is_traced = r.is_traced;
      label = r.label;
      skips = r.skips;
    }

    pub Routes-Untouched :
        (h h' : Heap) (n : ℕ) (cs : List RouteConfig) (bs : List Built)
        → Untouched h h'
        → Routes h n cs bs
        → Routes h' n cs bs
    Routes-Untouched h h' n [] [] u a = tt
    Routes-Untouched h h' n (c ∷ cs) (b ∷ bs) u (r, a) =
        (RouteOf-Untouched h h' n c b u r, Routes-Untouched h h' (suc n) cs bs u a)
    Routes-Untouched h h' n [] (b ∷ bs) u a = absurd a
    Routes-Untouched h h' n (c ∷ cs) [] u a = absurd a

  -- What building a route gives.
  abbrev RouteMade : Gateway → RouteConfig → World → Attempt Built × World → Type 0
  RouteMade gw c w (built b, w') =
      RouteOf gw.auth_config gw.traced w'.heap w.checkers.next c b
      × (w'.checkers.next ≡ suc w.checkers.next)
      × Untouched w.heap w'.heap
  RouteMade gw c w (failed j why, w') = Untouched w.heap w'.heap

  finish_route-RouteMade :
      (i : ℕ) (gw : Gateway) (c : RouteConfig) (lb : Balancer) (rl : Limiter) (first w : World)
      → w.checkers ≡ first.checkers
      → Untouched first.heap w.heap
      → Named c.lb_algorithm lb
      → Configured w.heap (Balancer.backends lb) c.backends
      → RateLimiter.new parse_duration parse_url c.rate_limit ≡ some rl
      → RouteMade gw c first (finish_route parse_duration parse_url loads i gw c lb rl w)
  unfolding finish_route start
  finish_route-RouteMade i gw c lb rl first w same u named configured limiter =
      elim (Attempt-cases (auth_settings parse_duration parse_url loads i gw.auth_config)) [
        | inl (j, why, e) ↦ rw (finish_route, e, RouteMade) u
        | inr (skip_paths, e) ↦
            rw (finish_route, e, RouteMade)
              (
                record {
                  prefix = refl;
                  strip = refl;
                  strategy = named;
                  backends = configured;
                  limiter = limiter;
                  breakers = (
                    build_breakers-made c.circuit_breaker c.backends (λ u. none),
                    λ u a. build_breakers-others c.circuit_breaker c.backends (λ u. none) u a,
                  );
                  timeout = refl;
                  checker = ap (λ (k : Checkers). k.next) same;
                  is_traced = refl;
                  label = refl;
                  skips = auth_settings-skipped i gw.auth_config skip_paths e;
                },
                ap (λ (k : Checkers). suc k.next) same,
                u,
              )
      ]

  build_route-RouteMade :
      (i : ℕ) (gw : Gateway) (c : RouteConfig) (w : World)
      → RouteMade gw c w (build_route parse_duration parse_url loads i gw c w)
  unfolding build_route Balancer.new
  build_route-RouteMade i gw c w =
      let (ps, h) = build_backends c.backends w.heap in
      let (configured, u) = build_backends-Configured c.backends w.heap in
      let (named, same) = strategy-Named c.lb_algorithm ps in
      let w' : World = record w { heap = h } in
      elim (Option-cases (RateLimiter.new parse_duration parse_url c.rate_limit)) [
        | inl none' ↦ rw (build_route, none', RouteMade) u
        | inr (rl, some') ↦
            rw (build_route, some')
              (finish_route-RouteMade i gw c (strategy c.lb_algorithm ps) rl w w' refl u named
                (subst (λ qs. Configured h qs c.backends) (sym same) configured) some')
      ]

  -- What building the routes `cs` gives, on top of the routes `done`.
  abbrev pub RoutesMade :
      Gateway → List RouteConfig → List Built → World → Attempt (List Built) × World → Type 0
  RoutesMade gw cs done w (built bs, w') =
      ((new : List Built) × (bs ≡ done ++ new)
        × Routes gw.auth_config gw.traced w'.heap w.checkers.next cs new)
      × Untouched w.heap w'.heap
  RoutesMade gw cs done w (failed j why, w') = Untouched w.heap w'.heap

  RoutesMade-cons :
      (gw : Gateway) (c : RouteConfig) (cs : List RouteConfig) (b : Built) (done : List Built)
      (w w' : World) (x : Attempt (List Built) × World)
      → RouteMade gw c w (built b, w')
      → RoutesMade gw cs (done ++ b ∷ []) w' x
      → RoutesMade gw (c ∷ cs) done w x
  RoutesMade-cons gw c cs b done w w' (built bs, w'') (r, next, u) ((new, whole, rest), u') = (
    (
      b ∷ new,
      whole ∙ append_assoc done (b ∷ []) new,
      (
        RouteOf-Untouched gw.auth_config gw.traced w'.heap w''.heap w.checkers.next c b u' r,
        subst (λ n. Routes gw.auth_config gw.traced w''.heap n cs new) next rest,
      ),
    ),
    Untouched-trans w.heap w'.heap w''.heap u u',
  )
  RoutesMade-cons gw c cs b done w w' (failed j why, w'') (r, next, u) u' =
      Untouched-trans w.heap w'.heap w''.heap u u'

  build_from-RoutesMade :
      (i : ℕ) (gw : Gateway) (cs : List RouteConfig) (done : List Built) (w : World)
      → RoutesMade gw cs done w (build_from parse_duration parse_url loads i gw cs done w)
  unfolding build_from
  build_from-RoutesMade i gw [] done w =
      (([], sym (append-nil done), tt), (omega arith, λ p lt. refl))
  build_from-RoutesMade i gw (c ∷ cs) done w =
      let made = build_route-RouteMade i gw c w in
      let w' = (build_route parse_duration parse_url loads i gw c w).1 in
      elim (Attempt-cases (build_route parse_duration parse_url loads i gw c w).0) [
        | inl (j, why, e) ↦
            rw (build_from, e, RoutesMade) (subst (λ r. RouteMade gw c w (r, w')) e made)
        | inr (b, e) ↦
            rw (build_from, e)
              (RoutesMade-cons gw c cs b done w w'
                (build_from parse_duration parse_url loads (suc i) gw cs (done ++ b ∷ []) w')
                (subst (λ r. RouteMade gw c w (r, w')) e made)
                (build_from-RoutesMade (suc i) gw cs (done ++ b ∷ []) w'))
      ]

  -- What buildRoutes gives.
  abbrev pub Made : Gateway → List RouteConfig → World → Attempt (List Built) × World → Type 0
  Made gw cs w (built bs, w') =
      Routes gw.auth_config gw.traced w'.heap w.checkers.next cs bs × Untouched w.heap w'.heap
  Made gw cs w (failed j why, w') = Untouched w.heap w'.heap

  RoutesMade-Made :
      (gw : Gateway) (cs : List RouteConfig) (w : World) (x : Attempt (List Built) × World)
      → RoutesMade gw cs [] w x
      → Made gw cs w x
  RoutesMade-Made gw cs w (built bs, w') ((new, whole, made), u) =
      (subst (Routes gw.auth_config gw.traced w'.heap w.checkers.next cs) (sym whole) made, u)
  RoutesMade-Made gw cs w (failed j why, w') u = u

  pub build_routes-Made :
      (gw : Gateway) (cs : List RouteConfig) (w : World)
      → Made gw cs w (build_routes parse_duration parse_url loads gw cs w)
  unfolding build_routes
  build_routes-Made gw cs w =
      RoutesMade-Made gw cs w (build_from parse_duration parse_url loads 0 gw cs [] w)
        (build_from-RoutesMade 0 gw cs [] w)

  -- The gateway has exactly the routes of the configuration, with its own settings of authentication
  -- and of tracing.
  abbrev pub Exactly : Config → Gateway → World → Type 0
  Exactly cfg gw w = (n : ℕ) × Routes gw.auth_config gw.traced w.heap n cfg.routes gw.routes
