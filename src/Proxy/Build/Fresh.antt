-- ===== src/Proxy/Build/Fresh.antt =====
-- What building the routes of a configuration does to the health checkers.
use gateway_pro.Prelude.{
  Bool-cases, Option-cases, get_elem?, All, All-append, ℤ, Text, ℕ, suc, ◌+◌, ◌≤◌, ◌<◌, ◌≡◌, refl,
  sym, ap, subst, ◌∙◌, ◌⊎◌, inl, inr, Bool, true, false, Option, none, some, List, [], ◌∷◌, ◌++◌,
  map, arith, All-map,
}
use mathlib.Core.List.{append-nil}
use gateway_pro.Config.{RouteConfig, AuthConfig}
use gateway_pro.LoadBalancer.Balancer
use gateway_pro.LoadBalancer.Balancer.{Balancer}
use gateway_pro.RateLimiter
use gateway_pro.RateLimiter.{Limiter}
use gateway_pro.Proxy.Build.{
  Checkers, start, World, Built, Failure, rate_limit_failed, auth_failed, Attempt, built, failed,
  Gateway, auth_settings, finish_route, build_route, build_from, build_routes,
}

pub Attempt-cases {ℓ} :
    {A : Type ℓ} (r : Attempt A)
    → ((j : ℕ) × (why : Failure) × (r ≡ failed j why)) ⊎ ((a : A) × (r ≡ built a))
Attempt-cases (built a) = inr (a, refl)
Attempt-cases (failed j why) = inl (j, why, refl)

-- No checker of `k` has been started again or stopped.
abbrev pub Grown : Checkers → Checkers → Type 0
Grown k k' = (k.next ≤ k'.next) × ((n : ℕ) → n < k.next → k'.running n ≡ k.running n)

Grown-trans : (k k' k'' : Checkers) → Grown k k' → Grown k' k'' → Grown k k''
Grown-trans k k' k'' g g' =
    (omega (arith, g.0, g'.0), λ n lt. g'.1 n (omega (arith, g.0)) ∙ g.1 n lt)

start-Grown : (k : Checkers) → Grown k (start k)
unfolding start
start-Grown k = (omega arith, λ n lt. ground arith)

-- A checker that runs, and that was started between `k` and `k'`.
abbrev pub Fresh : Checkers → Checkers → Built → Type 0
Fresh k k' b = (k.next ≤ b.checker) × (b.checker < k'.next) × (k'.running b.checker ≡ true)

start-next :
    (k : Checkers)
    → (k.next ≤ k.next) × (k.next < (start k).next) × ((start k).running k.next ≡ true)
unfolding start
start-next k = (omega arith, omega arith, ground arith)

Fresh-Grown : (k k' k'' : Checkers) (b : Built) → Grown k' k'' → Fresh k k' b → Fresh k k'' b
Fresh-Grown k k' k'' b g (old, new, runs) = (old, omega (arith, g.0), g.1 b.checker new ∙ runs)

-- Every route has a checker that runs.
abbrev pub Held : List Built → Checkers → Type 0
Held bs k = All (λ b. (b.checker < k.next) × (k.running b.checker ≡ true)) bs

abbrev pub prefixes : List Built → List Text
prefixes bs = map (λ b. b.route.prefix) bs

abbrev pub path_prefixes : List RouteConfig → List Text
path_prefixes cs = map (λ c. c.path_prefix) cs

prefixes_snoc :
    (done : List Built) (b : Built) (c : RouteConfig) (cs : List RouteConfig)
    → b.route.prefix ≡ c.path_prefix
    → prefixes (done ++ b ∷ []) ++ path_prefixes cs ≡ prefixes done ++ path_prefixes (c ∷ cs)
prefixes_snoc [] b c cs same = ap (λ p. p ∷ path_prefixes cs) same
prefixes_snoc (b' ∷ done) b c cs same =
    ap (λ ps. b'.route.prefix ∷ ps) (prefixes_snoc done b c cs same)

module _ (parse_duration : Text → Option ℤ) (parse_url : Text → Bool) (loads : Text → Bool) where
  -- Authentication is enabled, and its key cannot be loaded.
  abbrev pub NoKey : Option AuthConfig → Type 0
  NoKey o = (a : AuthConfig) × (o ≡ some a) × (a.enabled ≡ true) × (loads a.public_key_path ≡ false)

  -- Why a route cannot be built.
  abbrev pub Faulty : Gateway → RouteConfig → Failure → Type 0
  Faulty gw c rate_limit_failed = RateLimiter.new parse_duration parse_url c.rate_limit ≡ none
  Faulty gw c auth_failed = NoKey gw.auth_config

  auth_settings-failed :
      (i : ℕ) (o : Option AuthConfig) (j : ℕ) (why : Failure)
      → auth_settings parse_duration parse_url loads i o ≡ failed j why
      → (j ≡ i) × (auth_failed ≡ why) × NoKey o
  unfolding auth_settings
  auth_settings-failed i none j why e = absurd (ground arith)
  auth_settings-failed i (some a) j why e = elim (Bool-cases a.enabled) [
    | inr off ↦ absurd (ground arith)
    | inl on ↦ elim (Bool-cases (loads a.public_key_path)) [
      | inl loaded ↦ absurd (ground arith)
      | inr missing ↦ (ground arith, ground arith, (a, refl, on, missing))
    ]
  ]

  -- What building a route gives.
  abbrev RouteGood : ℕ → Gateway → RouteConfig → Checkers → Attempt Built × World → Type 0
  RouteGood i gw c k (built b, w') =
      (b.route.prefix ≡ c.path_prefix) × Fresh k w'.checkers b × Grown k w'.checkers
  RouteGood i gw c k (failed j why, w') = (j ≡ i) × Faulty gw c why × Grown k w'.checkers

  finish_route-RouteGood :
      (i : ℕ) (gw : Gateway) (c : RouteConfig) (lb : Balancer) (rl : Limiter) (w : World)
      → RouteGood i gw c w.checkers (finish_route parse_duration parse_url loads i gw c lb rl w)
  unfolding finish_route
  finish_route-RouteGood i gw c lb rl w =
      elim (Attempt-cases (auth_settings parse_duration parse_url loads i gw.auth_config)) [
        | inl (j, why, e) ↦
            let (at, reason, fault) = auth_settings-failed i gw.auth_config j why e in
            rw (finish_route, e, RouteGood)
              (at, subst (Faulty gw c) reason fault, start-Grown w.checkers)
        | inr (skip_paths, e) ↦
            rw (finish_route, e, RouteGood) (refl, start-next w.checkers, start-Grown w.checkers)
      ]

  build_route-RouteGood :
      (i : ℕ) (gw : Gateway) (c : RouteConfig) (w : World)
      → RouteGood i gw c w.checkers (build_route parse_duration parse_url loads i gw c w)
  unfolding build_route
  build_route-RouteGood i gw c w =
      let (lb, h) = Balancer.new c.lb_algorithm c.backends w.heap in
      elim (Option-cases (RateLimiter.new parse_duration parse_url c.rate_limit)) [
        | inl none' ↦ rw (build_route, none', RouteGood) (refl, none', (omega arith, λ n lt. refl))
        | inr (rl, some') ↦
            rw (build_route, some') (finish_route-RouteGood i gw c lb rl (record w { heap = h }))
      ]

  -- What building the routes `cs` from route `i` on gives, on top of the routes `done`.
  abbrev pub RoutesGood :
      ℕ
      → Gateway
      → List RouteConfig
      → List Built
      → Checkers
      → Checkers
      → Attempt (List Built) × World
      → Type 0
  RoutesGood i gw cs done first k (built bs, w') =
      (prefixes bs ≡ prefixes done ++ path_prefixes cs)
      × All (Fresh first w'.checkers) bs
      × Grown k w'.checkers
  RoutesGood i gw cs done first k (failed j why, w') =
      ((n : ℕ) × (c : RouteConfig) × (j ≡ i + n) × (get_elem? cs n ≡ some c) × Faulty gw c why)
      × Grown k w'.checkers

  RoutesGood-cons :
      (i : ℕ) (gw : Gateway) (c : RouteConfig) (cs : List RouteConfig) (b : Built)
      (done : List Built) (first k k' : Checkers) (x : Attempt (List Built) × World)
      → b.route.prefix ≡ c.path_prefix
      → Grown k k'
      → RoutesGood (suc i) gw cs (done ++ b ∷ []) first k' x
      → RoutesGood i gw (c ∷ cs) done first k x
  RoutesGood-cons i gw c cs b done first k k' (built bs, w') same g (ps, all, g') =
      (ps ∙ prefixes_snoc done b c cs same, all, Grown-trans k k' w'.checkers g g')
  RoutesGood-cons i gw c cs b done first k k' (failed j why, w') same g
        ((n, c', here, found, fault), g') =
      ((suc n, c', omega (arith, here), found, fault), Grown-trans k k' w'.checkers g g')

  build_from-RoutesGood :
      (i : ℕ) (gw : Gateway) (cs : List RouteConfig) (done : List Built) (first : Checkers)
      (w : World)
      → first.next ≤ w.checkers.next
      → All (Fresh first w.checkers) done
      → RoutesGood i gw cs done first w.checkers
          (build_from parse_duration parse_url loads i gw cs done w)
  unfolding build_from
  build_from-RoutesGood i gw [] done first w le all =
      (sym (append-nil (prefixes done)), all, (omega arith, λ n lt. refl))
  build_from-RoutesGood i gw (c ∷ cs) done first w le all =
      let good = build_route-RouteGood i gw c w in
      let w' = (build_route parse_duration parse_url loads i gw c w).1 in
      elim (Attempt-cases (build_route parse_duration parse_url loads i gw c w).0) [
        | inl (j, why, e) ↦
            let (here, fault, g) = subst (λ r. RouteGood i gw c w.checkers (r, w')) e good in
            rw (build_from, e, RoutesGood) ((0, c, omega (arith, here), refl, fault), g)
        | inr (b, e) ↦
            let (same, fresh, g) = subst (λ r. RouteGood i gw c w.checkers (r, w')) e good in
            rw (build_from, e)
              (RoutesGood-cons i gw c cs b done first w.checkers w'.checkers
                (build_from parse_duration parse_url loads (suc i) gw cs (done ++ b ∷ []) w') same g
                (build_from-RoutesGood (suc i) gw cs (done ++ b ∷ []) first w' (omega (arith, g.0))
                  (All-append (Fresh first w'.checkers) done (b ∷ [])
                    (All-map (Fresh first w.checkers) (Fresh first w'.checkers) done
                      (λ b'. Fresh-Grown first w.checkers w'.checkers b' g) all)
                    ((omega arith, fresh.1, fresh.2), tt))))
      ]

  pub build_routes-RoutesGood :
      (gw : Gateway) (cs : List RouteConfig) (w : World)
      → RoutesGood 0 gw cs [] w.checkers w.checkers
          (build_routes parse_duration parse_url loads gw cs w)
  unfolding build_routes
  build_routes-RoutesGood gw cs w = build_from-RoutesGood 0 gw cs [] w.checkers w (omega arith) tt
