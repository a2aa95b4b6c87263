-- ===== src/Middleware/Effects.antt =====
-- What each wrapper of the middleware does with the program's state, and with the request.
use gateway_pro.Prelude.{
  Bool-cases, Text, ◌≡◌, refl, sym, ◌∙◌, ◌⊎◌, inl, inr, false, List, arith, if_true, if_false,
}
use gateway_pro.Http.{Request, get, set, get-set}
use gateway_pro.Tracing.{propagate, extract_or_generate_ids}
use gateway_pro.Tracing.Recent.{propagate-get, propagate-path}
use gateway_pro.Auth
use gateway_pro.Auth.{Tools, Checked, valid, rejected, is_skipped, extract_bearer}
use gateway_pro.Auth.Passes.{Proves, handler-Proves, Checked-cases, extract_bearer_same}
use gateway_pro.Middleware.{
  Handler, Ran, Writer, Observed, TraceSpan, Arrival, request_id, tracing, logger, metrics, auth,
  store_span, recovery,
}

-- The request brings a bearer token that proves some claims.
abbrev pub Authenticated : Tools → Request → Type 0
Authenticated t r =
    (token : Text) × (c : Auth.Claims) × (extract_bearer t r ≡ valid token) × Proves t token c

-- The two requests are alike for the authentication.
abbrev pub Alike : Request → Request → Type 0
Alike r r' = (r'.path ≡ r.path) × (get r'.header "Authorization" ≡ get r.header "Authorization")

pub Alike-Authenticated :
    (t : Tools) (r r' : Request) → Alike r r' → Authenticated t r' → Authenticated t r
Alike-Authenticated t r r' (path, header) (token, c, bearer, proves) =
    (token, c, sym (extract_bearer_same t r r' header) ∙ bearer, proves)

module _ {ℓ} {S : Type ℓ} (a : Arrival) (next : Handler S) (r : Request) (w : Writer) (o : Observed)
    (s : S) where
  pub logger-state : (logger next r w o s).state ≡ (next r w o s).state
  unfolding logger
  logger-state = ground arith

  pub metrics-state : (label : Text) → (metrics label next r w o s).state ≡ (next r w o s).state
  unfolding metrics
  metrics-state label = ground arith

  store_span-state : (span : TraceSpan) (ran : Ran S) → (store_span span ran).state ≡ ran.state
  unfolding store_span
  store_span-state span ran = ground arith

  -- A wrapper's state is that of the next handler, on a request that is alike.
  pub tracing-state :
      (r' : Request) × (w' : Writer) × ((tracing a next r w o s).state ≡ (next r' w' o s).state)
      × Alike r r'
  unfolding tracing
  tracing-state =
      let ids = extract_or_generate_ids a.fresh_trace a.fresh_span r in
      let w' = record w { header = set w.header "X-Trace-ID" ids.trace_id } in
      let ran = next (propagate ids r) w' o s in
      (
        propagate ids r,
        w',
        elim (Bool-cases ran.panicked) [
          | inl stopped ↦ if_true (λ x. x.state ≡ ran.state) ran.panicked ran _ stopped refl
          | inr went_on ↦
              if_false (λ x. x.state ≡ ran.state) ran.panicked ran _ went_on
                (store_span-state _ ran)
        ],
        (propagate-path ids r, propagate-get ids r),
      )

  pub request_id-state :
      (r' : Request) × (w' : Writer) × ((request_id a next r w o s).state ≡ (next r' w' o s).state)
      × Alike r r'
  unfolding request_id
  request_id-state = (_, _, refl, (refl, get-set r.header "X-Request-ID" "Authorization" _))

  -- Behind the authentication handler nothing happens without a token.
  pub auth-state :
      (t : Tools) (skip_paths : List Text)
      → is_skipped skip_paths r.path ≡ false
      → ((auth t skip_paths next r w o s).state ≡ s) ⊎ Authenticated t r
  unfolding auth
  auth-state t skip_paths guarded = elim (Checked-cases (Auth.handler t skip_paths r)) [
    | inl (why, refused) ↦ inl (rw (auth, refused) refl)
    | inr (r', passed) ↦
        let (token, c, bearer, proves, user) = handler-Proves t skip_paths r r' guarded passed in
        inr (token, c, bearer, proves)
  ]

  pub recovery-state : (recovery next r w o s).state ≡ (next r w o s).state
  unfolding recovery
  recovery-state = ground arith
