-- ===== src/Proxy/Server/Guarded.antt =====
-- A gateway with authentication: what reaches it without a valid token.
use gateway_pro.Prelude.{
  ltb, if◌then◌else◌, Bool-cases, length, get_elem?, All-get_elem?, has_prefix, Text, ℕ, zero, suc,
  ◌+◌, ◌≡◌, refl, sym, ap, subst, ◌∙◌, ◌⊎◌, inl, inr, false, Option, none, some, List, [], ◌∷◌,
  arith,
}
use gateway_pro.Http.{Request}
use gateway_pro.Auth.{Tools, is_skipped}
use gateway_pro.Middleware.{Writer, Observed, Arrival}
use gateway_pro.Middleware.Effects.{Authenticated, recovery-state}
use gateway_pro.Proxy.{Surroundings}
use gateway_pro.Proxy.Handler.{Site}
use gateway_pro.Proxy.Handler.Secured.{route_handler-Authenticated}
use gateway_pro.Proxy.Build.{Built}
use gateway_pro.Proxy.Build.Guards.{Guarding}
use gateway_pro.Proxy.Server.{
  Plant, farther, position_from, replace, site_of, put_site, hand_over, serve_http, main_handler,
}

-- The route and its position belong together.
abbrev pub Found : List Built → Option (ℕ × Built) → Type 0
Found all none = Unit
Found all (some (i, b)) = get_elem? all i ≡ some b

farther-Found :
    (all : List Built) (i : ℕ) (b : Built) (matched : Option (ℕ × Built))
    → get_elem? all i ≡ some b
    → Found all matched
    → Found all (farther i b matched)
unfolding farther
farther-Found all i b none here f = here
farther-Found all i b (some (j, m)) here f =
    elim (Bool-cases (ltb (length m.route.prefix) (length b.route.prefix))) [
      | inl yes' ↦ rw (farther, yes', Found) here
      | inr no' ↦ rw (farther, no', Found) f
    ]

position_from-Found :
    (path : Text) (all : List Built) (matched : Option (ℕ × Built)) (i : ℕ) (bs : List Built)
    → ((k : ℕ) → get_elem? bs k ≡ get_elem? all (i + k))
    → Found all matched
    → Found all (position_from path matched i bs)
unfolding position_from
position_from-Found path all matched i [] at f = f
position_from-Found path all matched i (b ∷ bs) at f =
    let here : get_elem? all i ≡ some b =
      subst (λ n. get_elem? all n ≡ some b) (omega arith) (sym (at 0)) in
    let rest : (k : ℕ) → get_elem? bs k ≡ get_elem? all (suc i + k) =
      λ k. subst (λ n. get_elem? bs k ≡ get_elem? all n) (omega arith) (at (suc k)) in
    position_from-Found path all
      (if has_prefix path b.route.prefix then farther i b matched else matched) (suc i) bs rest
      (elim (Bool-cases (has_prefix path b.route.prefix)) [
        | inl yes' ↦ rw yes' (farther-Found all i b matched here f)
        | inr no' ↦ rw no' f
      ])

replace_same : (i : ℕ) (b : Built) (bs : List Built) → get_elem? bs i ≡ some b → replace i b bs ≡ bs
unfolding replace
replace_same i b [] e = refl
replace_same zero b (c ∷ bs) e = ground arith
replace_same (suc i) b (c ∷ bs) e = ap (λ cs. c ∷ cs) (replace_same i b bs e)

replace-Guarding :
    (sp : List Text) (i : ℕ) (b : Built) (bs : List Built)
    → b.settings.skip_paths ≡ some sp
    → Guarding sp bs
    → Guarding sp (replace i b bs)
unfolding replace
replace-Guarding sp i b [] new g = tt
replace-Guarding sp zero b (c ∷ bs) new g = (new, g.1)
replace-Guarding sp (suc i) b (c ∷ bs) new g = (g.0, replace-Guarding sp i b bs new g.1)

module _ (a : Arrival) (t : Tools) (e : Surroundings) (sp : List Text) (r : Request) (w : Writer)
    (o : Observed) where
  hand_over-Guarding :
      (matched : Option (ℕ × Built)) (s : Plant)
      → Found s.gateway.routes matched
      → Guarding sp s.gateway.routes
      → Guarding sp (hand_over a t e matched r w o s).state.gateway.routes
  unfolding hand_over put_site
  hand_over-Guarding none s f g = g
  hand_over-Guarding (some (i, b)) s f g =
      replace-Guarding sp i _ s.gateway.routes
        (All-get_elem? (λ b. b.settings.skip_paths ≡ some sp) s.gateway.routes i b g f) g

  hand_over-Authenticated :
      (matched : Option (ℕ × Built)) (s : Plant)
      → Found s.gateway.routes matched
      → Guarding sp s.gateway.routes
      → is_skipped sp r.path ≡ false
      → ((hand_over a t e matched r w o s).state ≡ s) ⊎ Authenticated t r
  unfolding hand_over put_site site_of
  hand_over-Authenticated none s f g guarded = inl refl
  hand_over-Authenticated (some (i, b)) s f g guarded =
      let enabled = All-get_elem? (λ b. b.settings.skip_paths ≡ some sp) s.gateway.routes i b g f in
      elim (route_handler-Authenticated a t b.settings e sp enabled r w o (site_of b s) guarded) [
        | inr found ↦ inr found
        | inl idle ↦ inl (
            ap (λ (x : Site). put_site i b x s) idle
            ∙ ap (λ bs. record s { gateway = record s.gateway { routes = bs } })
                (replace_same i b s.gateway.routes f))
      ]

  position_all : (s : Plant) → Found s.gateway.routes (position_from r.path none 0 s.gateway.routes)
  position_all s =
      position_from-Found r.path s.gateway.routes none 0 s.gateway.routes
        (λ k. ap (get_elem? s.gateway.routes) (omega arith)) tt

  main_handler-state :
      (s : Plant) → (main_handler a t e r w o s).state ≡ (serve_http a t e r w o s).state
  unfolding main_handler
  main_handler-state s = recovery-state a (serve_http a t e) r w o s

  hand_over_auth_config :
      (matched : Option (ℕ × Built)) (s : Plant)
      → (hand_over a t e matched r w o s).state.gateway.auth_config ≡ s.gateway.auth_config
  unfolding hand_over put_site
  hand_over_auth_config none s = refl
  hand_over_auth_config (some (i, b)) s = refl

  pub main_handler_auth_config :
      (s : Plant) → (main_handler a t e r w o s).state.gateway.auth_config ≡ s.gateway.auth_config
  unfolding serve_http
  main_handler_auth_config s =
      ap (λ (x : Plant). x.gateway.auth_config) (main_handler-state s)
      ∙ hand_over_auth_config (position_from r.path none 0 s.gateway.routes) s

  pub main_handler-Guarding :
      (s : Plant)
      → Guarding sp s.gateway.routes
      → Guarding sp (main_handler a t e r w o s).state.gateway.routes
  unfolding serve_http
  main_handler-Guarding s g =
      subst (λ (x : Plant). Guarding sp x.gateway.routes) (sym (main_handler-state s))
        (hand_over-Guarding (position_from r.path none 0 s.gateway.routes) s (position_all s) g)

  pub main_handler-Authenticated :
      (s : Plant)
      → Guarding sp s.gateway.routes
      → is_skipped sp r.path ≡ false
      → ((main_handler a t e r w o s).state ≡ s) ⊎ Authenticated t r
  unfolding serve_http
  main_handler-Authenticated s g guarded =
      elim (hand_over-Authenticated (position_from r.path none 0 s.gateway.routes) s
        (position_all s) g guarded) [
          | inl idle ↦ inl (main_handler-state s ∙ idle)
          | inr found ↦ inr found
        ]
