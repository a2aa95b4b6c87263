-- ===== src/Middleware/Observe.antt =====
-- What the wrappers of the middleware leave behind of a request: its log line, its sample and its
-- trace.
use gateway_pro.Prelude.{
  if◌then◌else◌, Bool-cases, Option-cases, Text, is_empty, ◌≡◌, refl, sym, ap, subst, ◌∙◌, ◌⊎◌, inl,
  inr, Bool, true, false, Option, none, some, List, [], ◌∷◌, ◌++◌, arith, if_true, if_false,
}
use gateway_pro.Http.{Request, get, set, get-set_self}
use gateway_pro.Tracing
use gateway_pro.Tracing.{TraceStore, propagate, extract_or_generate_ids}
use gateway_pro.Tracing.Recent.{propagate-path, propagate-request_id, propagate-method}
use gateway_pro.Auth
use gateway_pro.Auth.{Tools}
use gateway_pro.Auth.Passes.{Checked-cases}
use gateway_pro.Middleware.{
  Handler, Ran, Writer, Observed, TraceSpan, Sample, LogLine, Arrival, request_id, tracing, logger,
  metrics, auth, store_span, captured,
}

-- The handler leaves no trace of itself.
abbrev pub Quiet {ℓ} : {S : Type ℓ} → Handler S → Type ℓ
Quiet {S = S} h = (r : Request) (w : Writer) (o : Observed) (s : S) → (h r w o s).observed ≡ o

-- The trace store after a request that was answered with `w`.
abbrev pub Stored :
    Bool
    → Text
    → Text
    → Writer
    → Option (TraceStore TraceSpan)
    → Option (TraceStore TraceSpan)
    → Type 0
Stored false path method w before after = after ≡ before
Stored true path method w none after = after ≡ none
Stored true path method w (some ts) after =
    (span : TraceSpan) × (ts' : TraceStore TraceSpan) × (span.path ≡ path)
    × (span.method ≡ method)
    × (span.status_code ≡ captured w)
    × (Tracing.add span ts ≡ some ts')
    × (after ≡ some ts')

-- A run that ended by a panic, or one with exactly one log line and one sample of the request, each
-- with the status that was written.
abbrev pub Recorded {ℓ} : {S : Type ℓ} → Bool → Text → Request → Text → Observed → Ran S → Type 0
Recorded traced label r id o ran =
    (ran.panicked ≡ true)
    ⊎ ((ran.observed.lines
          ≡ o.lines
            ++ record {
              method = r.method;
              path = r.path;
              status_code = captured ran.writer;
              request_id = id;
            }
              ∷ [])
        × (ran.observed.samples
            ≡ o.samples
              ++ record { route = label; method = r.method; status_code = captured ran.writer }
                ∷ [])
        × Stored traced r.path r.method ran.writer o.traces ran.observed.traces)

module _ {ℓ} {S : Type ℓ} (next : Handler S) where
  pub auth-Quiet :
      (t : Tools) (skip_paths : List Text) → Quiet next → Quiet (auth t skip_paths next)
  unfolding auth
  auth-Quiet t skip_paths q r w o s = elim (Checked-cases (Auth.handler t skip_paths r)) [
    | inl (why, refused) ↦ rw (auth, refused) refl
    | inr (r', passed) ↦ rw (auth, passed) (q r' w o s)
  ]

  pub logger-Recorded :
      (label : Text)
      → Quiet next
      → (r : Request) (w : Writer) (o : Observed) (s : S)
      → Recorded false label r (get r.header "X-Request-ID") o (logger (metrics label next) r w o s)
  unfolding logger metrics
  logger-Recorded label q r w o s = elim (Bool-cases (next r w o s).panicked) [
    | inl down ↦ inl (ground arith)
    | inr fine ↦ inr (rw (logger, metrics, fine, q r w o s) (refl, refl, refl))
  ]

  store_span-Stored :
      (before : Option (TraceStore TraceSpan)) (r : Request) (span : TraceSpan) (ran : Ran S)
      → ran.observed.traces ≡ before
      → span.path ≡ r.path
      → span.method ≡ r.method
      → span.status_code ≡ captured ran.writer
      → let ran' = store_span span ran in
        (ran'.panicked ≡ true)
        ⊎ ((ran'.observed.lines ≡ ran.observed.lines)
            × (ran'.observed.samples ≡ ran.observed.samples)
            × (ran'.writer ≡ ran.writer)
            × Stored true r.path r.method ran.writer before ran'.observed.traces)
  unfolding store_span
  store_span-Stored none r span ran h path method code =
      inr (rw (store_span, h) (refl, refl, refl, h))
  store_span-Stored (some ts) r span ran h path method code =
      elim (Option-cases (Tracing.add span ts)) [
        | inl full ↦ inl (rw (store_span, h, full) refl)
        | inr (ts', added) ↦ inr (
            rw (store_span, h, added)
              (refl, refl, refl, (span, ts', path, method, code, added, refl)))
      ]

  span-Recorded :
      (label : Text) (r r' : Request) (id : Text) (o : Observed) (span : TraceSpan) (ran : Ran S)
      → ran.panicked ≡ false
      → span.path ≡ r.path
      → span.method ≡ r.method
      → span.status_code ≡ captured ran.writer
      → r'.path ≡ r.path
      → r'.method ≡ r.method
      → Recorded false label r' id o ran
      → Recorded true label r id o (store_span span ran)
  span-Recorded label r r' id o span ran went_on p m c path method (inl stopped) =
      absurd (ground arith)
  span-Recorded label r r' id o span ran went_on p m c path method (inr (lines, samples, traces)) =
      elim (store_span-Stored o.traces r span ran traces p m c) [
        | inl full ↦ inl full
        | inr (lines', samples', writer', stored) ↦ inr (
          lines'
              ∙ lines
              ∙ ap (λ (l : LogLine). o.lines ++ l ∷ []) (rw (path, method, writer') refl),
          samples' ∙ samples ∙ ap (λ (x : Sample). o.samples ++ x ∷ []) (rw (method, writer') refl),
          subst (λ v. Stored true r.path r.method v o.traces (store_span span ran).observed.traces)
              (sym writer') stored,
        )
      ]

  pub tracing-Recorded :
      (a : Arrival) (label : Text) (r : Request) (w : Writer) (o : Observed) (s : S)
      → ((r' : Request) (w' : Writer)
          → Recorded false label r' (get r'.header "X-Request-ID") o (next r' w' o s))
      → Recorded true label r (get r.header "X-Request-ID") o (tracing a next r w o s)
  unfolding tracing
  tracing-Recorded a label r w o s recorded =
      let ids = extract_or_generate_ids a.fresh_trace a.fresh_span r in
      let r' = propagate ids r in
      let ran = next r' (record w { header = set w.header "X-Trace-ID" ids.trace_id }) o s in
      let span : TraceSpan = record {
        trace_id = ids.trace_id;
        path = r.path;
        method = r.method;
        status_code = captured ran.writer;
        duration = a.duration;
        start_time = a.start;
      } in
      let id = get r.header "X-Request-ID" in
      elim (Bool-cases ran.panicked) [
        | inl stopped ↦
            if_true (Recorded true label r id o) ran.panicked ran (store_span span ran) stopped
              (inl stopped)
        | inr went_on ↦
            if_false (Recorded true label r id o) ran.panicked ran (store_span span ran) went_on (
              span-Recorded label r r' id o span ran went_on refl refl refl (propagate-path ids r)
                (propagate-method ids r)
                (subst (λ i. Recorded false label r' i o ran) (propagate-request_id ids r)
                  (recorded r' _)))
      ]

  -- RequestID hands on the identifier that the client has sent, or a new one.
  pub request_id-Recorded :
      (a : Arrival) (traced : Bool) (label : Text) (r : Request) (w : Writer) (o : Observed) (s : S)
      → ((r' : Request) (w' : Writer) (o' : Observed) (s' : S)
          → Recorded traced label r' (get r'.header "X-Request-ID") o' (next r' w' o' s'))
      → let id = get r.header "X-Request-ID" in
        Recorded traced label r
          (if is_empty id then a.fresh_id else id)
          o
          (request_id a next r w o s)
  unfolding request_id
  request_id-Recorded a traced label r w o s recorded =
      let id = get r.header "X-Request-ID" in
      let id' = if is_empty id then a.fresh_id else id in
      let r' = record r { header = set r.header "X-Request-ID" id' } in
      let w' = record w { header = set w.header "X-Request-ID" id' } in
      subst (λ i. Recorded traced label r i o (next r' w' o s))
        (get-set_self r.header "X-Request-ID" id') (recorded r' w' o s)
