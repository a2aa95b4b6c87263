-- ===== src/Validate/Accepted.antt =====
-- Which configurations validate accepts, and what it writes into their routes.
use gateway_pro.Prelude.{
  ◌==◌, if◌then◌else◌, Bool-cases, length, All, pos, is_zero_ℤ, codes, is_empty, ℕ, suc, ◌<◌, ◌≡◌,
  refl, ap, ◌≢◌, ◌↔◌, ◌⊎◌, inl, inr, false, List, [], ◌∷◌, map, arith,
}
use gateway_pro.Config.{BackendConfig, RouteConfig, AuthConfig, Config}
use gateway_pro.Validate.{
  Result, ok, error, text_or, int_or, default_weight, default_weights, default_route,
  validate_route, validate_routes, missing_key, finish, validate,
}
use gateway_pro.Validate.Settled.{Result-cases, is_empty-false}

-- A route that validate does not reject.
abbrev pub Accepted : RouteConfig → Type 0
Accepted r = (r.path_prefix ≢ []) × (0 < length r.backends)

-- The key of authentication is given by a URL or by a file, where authentication is enabled.
abbrev pub HasKey : AuthConfig → Type 0
HasKey a = (a.enabled ≡ false) ⊎ ((a.jwks_url ≢ []) ⊎ (a.public_key_path ≢ []))

-- A backend with its own weight, or with 1 for 0.
abbrev pub completed_backend : BackendConfig → BackendConfig
completed_backend b = record {
  url = b.url;
  weight = if is_zero_ℤ b.weight then pos 1 else b.weight;
}

-- A route with all that it came with, and with the defaults where there was nothing.
abbrev pub completed_route : RouteConfig → RouteConfig
completed_route r = record r {
  backends = map completed_backend r.backends;
  lb_algorithm = if is_empty r.lb_algorithm then codes "round_robin" else r.lb_algorithm;
  timeout_seconds = if is_zero_ℤ r.timeout_seconds then pos 30 else r.timeout_seconds;
}

default_weights-map : (bs : List BackendConfig) → default_weights bs ≡ map completed_backend bs
unfolding default_weights default_weight int_or
default_weights-map [] = refl
default_weights-map (b ∷ bs) = ap (λ cs. completed_backend b ∷ cs) (default_weights-map bs)

default_route_lem : (r : RouteConfig) → default_route r ≡ completed_route r
unfolding default_route text_or int_or
default_route_lem r =
    ap
      (λ bs. record r {
        backends = bs;
        lb_algorithm = if is_empty r.lb_algorithm then codes "round_robin" else r.lb_algorithm;
        timeout_seconds = if is_zero_ℤ r.timeout_seconds then pos 30 else r.timeout_seconds;
      })
      (default_weights-map r.backends)

validate_route-ok :
    (i : ℕ) (r : RouteConfig) → Accepted r → validate_route i r ≡ ok (completed_route r)
unfolding validate_route
validate_route-ok i r a =
    let test : is_empty r.path_prefix ≡ false = (is_empty-false r.path_prefix).1 a.0 in
    let test' : (length r.backends == 0) ≡ false = ground (arith, a.1) in
    rw (test, test') (ap ok (default_route_lem r))

validate_routes-ok :
    (i : ℕ) (rs : List RouteConfig)
    → All Accepted rs
    → validate_routes i rs ≡ ok (map completed_route rs)
unfolding validate_routes
validate_routes-ok i [] a = refl
validate_routes-ok i (r ∷ rs) a =
    rw (validate_routes, validate_route-ok i r a.0, validate_routes-ok (suc i) rs a.1) refl

validate_route-Accepted : (i : ℕ) (r r' : RouteConfig) → validate_route i r ≡ ok r' → Accepted r
unfolding validate_route
validate_route-Accepted i r r' e = elim (Bool-cases (is_empty r.path_prefix)) [
  | inl none_there ↦ absurd (ground arith)
  | inr prefixed ↦ elim (Bool-cases (length r.backends == 0)) [
    | inl nobody ↦ absurd (ground arith)
    | inr someone ↦ ((is_empty-false r.path_prefix).0 prefixed, ground arith)
  ]
]

validate_routes-Accepted :
    (i : ℕ) (rs rs' : List RouteConfig) → validate_routes i rs ≡ ok rs' → All Accepted rs
unfolding validate_routes
validate_routes-Accepted i [] rs' e = tt
validate_routes-Accepted i (r ∷ rs) rs' e = elim (Result-cases (validate_route i r)) [
  | inl (why, bad) ↦ absurd (ground arith)
  | inr (r', good) ↦ elim (Result-cases (validate_routes (suc i) rs)) [
    | inl (why, bad) ↦ absurd (ground arith)
    | inr (rest, fine) ↦
        (validate_route-Accepted i r r' good, validate_routes-Accepted (suc i) rs rest fine)
  ]
]

missing_key_iff : (a : AuthConfig) → (missing_key a ≡ false) ↔ HasKey a
unfolding missing_key
missing_key_iff a = elim (Bool-cases a.enabled) [
  | inr off ↦ ((λ _. inl off), (λ _. rw off refl))
  | inl on ↦ elim (Bool-cases (is_empty a.jwks_url)) [
    | inr url ↦ ((λ _. inr (inl ((is_empty-false a.jwks_url).0 url))), (λ _. rw (on, url) refl))
    | inl no_url ↦ elim (Bool-cases (is_empty a.public_key_path)) [
      | inr file ↦ (
        (λ _. inr (inr ((is_empty-false a.public_key_path).0 file))),
        (λ _. rw (on, no_url, file) refl),
      )
      | inl no_file ↦ (
        (λ e. absurd (ground arith)),
        (λ k. absurd (ground (arith, is_empty-false a.jwks_url, is_empty-false a.public_key_path))),
      )
    ]
  ]
]

-- What validate answers, and why.
abbrev pub Judged : Config → Result Config → Type 0
Judged c (ok c') =
    All Accepted c.routes
    × HasKey c.auth
    × (c'.routes ≡ map completed_route c.routes)
    × (c'.auth ≡ c.auth)
Judged c (error why) = ¬ (All Accepted c.routes × HasKey c.auth)

finish-Judged :
    (c : Config) → All Accepted c.routes → Judged c (finish c (map completed_route c.routes))
unfolding finish
finish-Judged c a = elim (Bool-cases (missing_key c.auth)) [
  | inr there ↦ rw (finish, there) (a, (missing_key_iff c.auth).0 there, refl, refl)
  | inl missing ↦
      rw (finish, missing)
        (λ (_, key). let there = (missing_key_iff c.auth).1 key in absurd (ground arith))
]

-- validate accepts a configuration exactly if every route has a prefix and a backend and, where
-- authentication is enabled, a key is given by a URL or by a file. It then returns the routes in
-- their order, each with all that it came with but for these defaults: the algorithm `round_robin`
-- for an empty one, 30 seconds for a timeout of 0, and a weight of 1 for one of 0; and it leaves the
-- settings of authentication as they are.
pub validate-ok : (c : Config) → Judged c (validate c)
unfolding validate
validate-ok c = elim (Result-cases (validate_routes 0 c.routes)) [
  | inl (why, bad) ↦
      rw (validate, bad)
        (λ (a, _). let good = validate_routes-ok 0 c.routes a in absurd (ground arith))
  | inr (rs, good) ↦
      let a = validate_routes-Accepted 0 c.routes rs good in
      rw (validate, validate_routes-ok 0 c.routes a) (finish-Judged c a)
]
