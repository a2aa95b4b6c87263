-- ===== src/Validate/Settled.antt =====
-- What validate accepts, and what holds of a configuration that it has let through.
use gateway_pro.Prelude.{
  ◌==◌, Bool-cases, length, All, ℤ, pos, negsuc, Text, codes, is_empty, ℕ, zero, suc, ◌<◌, ◌≡◌,
  refl, subst, ◌≢◌, ◌↔◌, ◌⊎◌, inl, inr, true, false, List, [], ◌∷◌, arith,
}
use gateway_pro.Config.{BackendConfig, RouteConfig, TracingConfig, Config}
use gateway_pro.Validate.{
  Invalid, Result, ok, error, text_or, int_or, default_weight, default_weights, default_route,
  validate_route, validate_routes, default_server, default_admin, default_tracing, missing_key,
  finish, validate,
}

-- The fields that a user of the configuration relies on.
abbrev pub SettledRoute : RouteConfig → Type 0
SettledRoute r =
    (r.path_prefix ≢ [])
    × (0 < length r.backends)
    × All (λ b. b.weight ≢ pos 0) r.backends
    × (r.lb_algorithm ≢ [])
    × (r.timeout_seconds ≢ pos 0)

abbrev pub Settled : Config → Type 0
Settled c =
    All SettledRoute c.routes
    × (c.server.addr ≢ [])
    × (c.server.read_timeout_seconds ≢ pos 0)
    × (c.server.write_timeout_seconds ≢ pos 0)
    × (c.admin.addr ≢ [])
    × (missing_key c.auth ≡ false)
    × (c.tracing.enabled ≡ true → (c.tracing.service_name ≢ []) × (c.tracing.exporter ≢ []))

pub Result-cases {ℓ} :
    {A : Type ℓ} (r : Result A) → ((e : Invalid) × (r ≡ error e)) ⊎ ((a : A) × (r ≡ ok a))
Result-cases (ok a) = inr (a, refl)
Result-cases (error e) = inl (e, refl)

text_or-ne : (c : ℕ) (v t : Text) → text_or (c ∷ v) t ≢ []
unfolding text_or
text_or-ne c v [] e = cc
text_or-ne c v (x ∷ t) e = cc

int_or-ne : (n : ℕ) (i : ℤ) → int_or (suc n) i ≢ pos 0
unfolding int_or
int_or-ne n (pos zero) e = ground arith
int_or-ne n (pos (suc m)) e = ground arith
int_or-ne n (negsuc m) e = ground arith

text_or-same : (v t : Text) → t ≢ [] → text_or v t ≡ t
unfolding text_or
text_or-same v [] ne = absurd (ne refl)
text_or-same v (c ∷ t) ne = refl

int_or-same : (n : ℕ) (i : ℤ) → i ≢ pos 0 → int_or n i ≡ i
unfolding int_or
int_or-same n (pos zero) ne = absurd (ne refl)
int_or-same n (pos (suc m)) ne = ground arith
int_or-same n (negsuc m) ne = ground arith

pub is_empty-false : (t : Text) → (is_empty t ≡ false) ↔ (t ≢ [])
is_empty-false [] = ((λ e. cc), (λ ne. absurd (ne refl)))
is_empty-false (c ∷ t) = ((λ e e'. cc), (λ ne. refl))

default_weights-ne : (bs : List BackendConfig) → All (λ b. b.weight ≢ pos 0) (default_weights bs)
unfolding default_weights default_weight
default_weights-ne [] = tt
default_weights-ne (b ∷ bs) = (int_or-ne 0 b.weight, default_weights-ne bs)

default_weights-same :
    (bs : List BackendConfig) → All (λ b. b.weight ≢ pos 0) bs → default_weights bs ≡ bs
unfolding default_weights default_weight
default_weights-same [] a = refl
default_weights-same (b ∷ bs) a = rw (int_or-same 1 b.weight a.0, default_weights-same bs a.1) refl

length-default_weights : (bs : List BackendConfig) → length (default_weights bs) ≡ length bs
unfolding default_weights
length-default_weights [] = refl
length-default_weights (b ∷ bs) = omega (arith, length-default_weights bs)

validate_route-Settled : (i : ℕ) (r r' : RouteConfig) → validate_route i r ≡ ok r' → SettledRoute r'
unfolding validate_route default_route
validate_route-Settled i r r' e = elim (Bool-cases (is_empty r.path_prefix)) [
  | inl none_there ↦ absurd (ground arith)
  | inr prefixed ↦ elim (Bool-cases (length r.backends == 0)) [
    | inl nobody ↦ absurd (ground arith)
    | inr someone ↦
        let same : default_route r ≡ r' = ground arith in
        subst SettledRoute same (
          (is_empty-false r.path_prefix).0 prefixed,
          ground (arith, length-default_weights r.backends),
          default_weights-ne r.backends,
          text_or-ne _ _ r.lb_algorithm,
          int_or-ne 29 r.timeout_seconds,
        )
  ]
]

validate_route-same : (i : ℕ) (r : RouteConfig) → SettledRoute r → validate_route i r ≡ ok r
unfolding validate_route default_route
validate_route-same i r s =
    let (prefixed, someone, weights, algorithm, timeout) = s in
    let test : is_empty r.path_prefix ≡ false = (is_empty-false r.path_prefix).1 prefixed in
    let test' : (length r.backends == 0) ≡ false = ground (arith, someone) in
    rw
      (
        test,
        test',
        default_weights-same r.backends weights,
        text_or-same (codes "round_robin") r.lb_algorithm algorithm,
        int_or-same 30 r.timeout_seconds timeout,
      )
      refl

validate_routes-Settled :
    (i : ℕ) (rs rs' : List RouteConfig) → validate_routes i rs ≡ ok rs' → All SettledRoute rs'
unfolding validate_routes
validate_routes-Settled i [] rs' e =
    let none_there : [] ≡ rs' = ground arith in subst (All SettledRoute) none_there tt
validate_routes-Settled i (r ∷ rs) rs' e = elim (Result-cases (validate_route i r)) [
  | inl (why, bad) ↦ absurd (ground arith)
  | inr (r', good) ↦ elim (Result-cases (validate_routes (suc i) rs)) [
    | inl (why, bad) ↦ absurd (ground arith)
    | inr (rest, fine) ↦
        let whole : r' ∷ rest ≡ rs' = ground arith in
        subst (All SettledRoute) whole
          (validate_route-Settled i r r' good, validate_routes-Settled (suc i) rs rest fine)
  ]
]

validate_routes-same :
    (i : ℕ) (rs : List RouteConfig) → All SettledRoute rs → validate_routes i rs ≡ ok rs
unfolding validate_routes
validate_routes-same i [] a = refl
validate_routes-same i (r ∷ rs) a =
    rw (validate_routes, validate_route-same i r a.0, validate_routes-same (suc i) rs a.1) refl

default_tracing-ne :
    (t : TracingConfig)
    → (default_tracing t).enabled ≡ true
    → ((default_tracing t).service_name ≢ []) × ((default_tracing t).exporter ≢ [])
unfolding default_tracing
default_tracing-ne t on = elim (Bool-cases t.enabled) [
  | inl on' ↦ rw on' (text_or-ne _ _ t.service_name, text_or-ne _ _ t.exporter)
  | inr off ↦ absurd (ground arith)
]

default_tracing-same :
    (t : TracingConfig)
    → (t.enabled ≡ true → (t.service_name ≢ []) × (t.exporter ≢ []))
    → default_tracing t ≡ t
unfolding default_tracing
default_tracing-same t a = elim (Bool-cases t.enabled) [
  | inr off ↦ rw off refl
  | inl on ↦
      rw
        (
          on,
          text_or-same (codes "gateway-pro") t.service_name (a on).0,
          text_or-same (codes "stdout") t.exporter (a on).1,
        )
        refl
]

finish-Settled :
    (c c' : Config) (rs : List RouteConfig) → All SettledRoute rs → finish c rs ≡ ok c' → Settled c'
unfolding finish default_server default_admin
finish-Settled c c' rs a e = elim (Bool-cases (missing_key c.auth)) [
  | inl bad ↦ absurd (ground arith)
  | inr good ↦
      let whole : record c {
        server = default_server c.server;
        admin = default_admin c.admin;
        routes = rs;
        tracing = default_tracing c.tracing;
      }
          ≡ c' =
        ground arith in
      subst Settled whole (
        a,
        text_or-ne _ _ c.server.addr,
        int_or-ne 29 c.server.read_timeout_seconds,
        int_or-ne 29 c.server.write_timeout_seconds,
        text_or-ne _ _ c.admin.addr,
        good,
        default_tracing-ne c.tracing,
      )
]

-- A configuration that is settled comes out of validate as it went in.
validate-same : (c : Config) → Settled c → validate c ≡ ok c
unfolding validate finish default_server default_admin
validate-same c s =
    let (routes, addr, reading, writing, admin, key, tracing) = s in
    rw
      (
        validate,
        finish,
        validate_routes-same 0 c.routes routes,
        key,
        text_or-same (codes ":8080") c.server.addr addr,
        int_or-same 30 c.server.read_timeout_seconds reading,
        int_or-same 30 c.server.write_timeout_seconds writing,
        text_or-same (codes ":9090") c.admin.addr admin,
        default_tracing-same c.tracing tracing,
      )
      refl

-- What validate lets through has all that the gateway relies on: prefixes, backends, weights and
-- timeouts other than 0, addresses, an algorithm, and a key where authentication is enabled; and
-- to validate it again changes nothing.
pub validate-Settled : (c c' : Config) → validate c ≡ ok c' → Settled c' × (validate c' ≡ ok c')
unfolding validate
validate-Settled c c' e = elim (Result-cases (validate_routes 0 c.routes)) [
  | inl (why, bad) ↦ absurd (ground arith)
  | inr (rs, good) ↦
      let s : Settled c' =
        finish-Settled c c' rs (validate_routes-Settled 0 c.routes rs good) (ground arith) in
      (s, validate-same c' s)
]
