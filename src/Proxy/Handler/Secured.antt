-- ===== src/Proxy/Handler/Secured.antt =====
-- A route with authentication: what it takes to get through its whole chain.
use gateway_pro.Prelude.{Bool-cases, Text, ◌≡◌, ap, ◌∙◌, ◌⊎◌, inl, inr, false, some, List}
use gateway_pro.Http.{Request}
use gateway_pro.Auth.{Tools, is_skipped}
use gateway_pro.Middleware.{
  Handler, Writer, Observed, Arrival, request_id, tracing, logger, metrics, auth,
}
use gateway_pro.Middleware.Order.{nested, chain-eq-nested}
use gateway_pro.Middleware.Effects.{
  Authenticated, Alike, Alike-Authenticated, logger-state, metrics-state, tracing-state,
  request_id-state, auth-state,
}
use gateway_pro.Proxy.{Surroundings}
use gateway_pro.Proxy.Handler.{Site, core, Settings, auth_part, middlewares, route_handler}

module _ (a : Arrival) (t : Tools) (c : Settings) (e : Surroundings) (skip_paths : List Text) where
  abbrev Guarded : Handler Site → Type 0
  Guarded h =
      (r : Request) (w : Writer) (o : Observed) (s : Site)
      → is_skipped skip_paths r.path ≡ false
      → ((h r w o s).state ≡ s) ⊎ Authenticated t r

  abbrev inner : Handler Site
  inner = logger (metrics c.label (auth t skip_paths (core e)))

  inner-Guarded : Guarded inner
  inner-Guarded r w o s guarded =
      let behind = auth t skip_paths (core e) in
      let same : (inner r w o s).state ≡ (behind r w o s).state =
        logger-state a (metrics c.label behind) r w o s ∙ metrics-state a behind r w o s c.label in
      elim (auth-state a (core e) r w o s t skip_paths guarded) [
        | inl idle ↦ inl (same ∙ idle)
        | inr yes' ↦ inr yes'
      ]

  -- A wrapper that hands on a request that is alike is guarded if what it wraps is.
  wrapped-Guarded :
      (h next : Handler Site)
      → ((r : Request) (w : Writer) (o : Observed) (s : Site)
          → (r' : Request) × (w' : Writer) × ((h r w o s).state ≡ (next r' w' o s).state)
            × Alike r r')
      → Guarded next
      → Guarded h
  wrapped-Guarded h next calls g r w o s guarded =
      let (r', w', same, alike) = calls r w o s in
      elim (g r' w' o s (ap (is_skipped skip_paths) alike.0 ∙ guarded)) [
        | inl idle ↦ inl (same ∙ idle)
        | inr found ↦ inr (Alike-Authenticated t r r' alike found)
      ]

  nested-Guarded : c.skip_paths ≡ some skip_paths → Guarded (nested (core e) (middlewares a t c))
  unfolding middlewares auth_part
  nested-Guarded enabled = elim (Bool-cases c.traced) [
    | inl on ↦
        rw (on, enabled)
          (wrapped-Guarded (request_id a (tracing a inner)) (tracing a inner)
            (request_id-state a (tracing a inner))
            (wrapped-Guarded (tracing a inner) inner (tracing-state a inner) inner-Guarded))
    | inr off ↦
        rw (off, enabled)
          (wrapped-Guarded (request_id a inner) inner (request_id-state a inner) inner-Guarded)
  ]

  -- On a route with authentication enabled, a request on a path that is not skipped changes nothing
  -- at all, no rate limit, no balancer, no circuit breaker, no backend, and reaches no upstream,
  -- unless it brings a bearer token that proves its claims, by an RS256 header, an expiry that is
  -- set and not past, and a signature.
  pub route_handler-Authenticated :
      c.skip_paths ≡ some skip_paths
      → (r : Request) (w : Writer) (o : Observed) (s : Site) → is_skipped skip_paths r.path ≡ false
      → ((route_handler a t c e r w o s).state ≡ s) ⊎ Authenticated t r
  unfolding route_handler
  route_handler-Authenticated enabled r w o s guarded =
      let same : (route_handler a t c e r w o s).state
          ≡ (nested (core e) (middlewares a t c) r w o s).state =
        ap (λ (h : Handler Site). (h r w o s).state)
          (chain-eq-nested (core e) (middlewares a t c)) in
      elim (nested-Guarded enabled r w o s guarded) [
        | inl idle ↦ inl (same ∙ idle)
        | inr found ↦ inr found
      ]
