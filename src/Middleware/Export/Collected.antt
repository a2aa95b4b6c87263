-- ===== src/Middleware/Export/Collected.antt =====
-- What the wrapper of NewTracingMiddleware does with a request.
use gateway_pro.Prelude.{
  Bool-cases, length, pos, ℕ, suc, ◌≤◌, ◌<◌, ◌≡◌, refl, sym, subst, ◌∙◌, ◌⊎◌, inl, inr, true, false,
  some, [], ◌∷◌, ◌++◌, arith,
}
use gateway_pro.Http.{Request, set}
use gateway_pro.Tracing
use gateway_pro.Tracing.{
  TraceStore, new_trace_store, Ids, extract_or_generate_ids, propagate, add_full,
}
use gateway_pro.Tracing.Exporter.{Exporter, capacity, new_span_exporter}
use gateway_pro.Tracing.Recent.{add-some, new_trace_store-max}
use gateway_pro.Tracing.Exporter.Events.{record_span-Offered, new_span_exporter_open}
use gateway_pro.Middleware.{Handler, Ran, Writer, Observed, TraceSpan, Arrival, captured}
use gateway_pro.Middleware.Export.{
  Formats, TracingConfig, Span, Collecting, new_tracing_middleware, skips, span_of, trace_span_of,
  offer_span, collect_spans, beside, finish_span, export_spans,
}

-- A store that Add does not panic on, and an exporter that is not stopped.
abbrev pub Working : Collecting → Type 0
Working c = ((n : ℕ) × (c.store.max ≡ pos (suc n))) × (c.exporter.closed ≡ false)

-- What `record` does with a span: it is taken if there is room.
abbrev pub Taken : Span → Exporter Span → Exporter Span → Type 0
Taken s e e' =
    ((length e.channel < capacity) × (e' ≡ record e { channel = e.channel ++ s ∷ [] }))
    ⊎ ((capacity ≤ length e.channel) × (e' ≡ e))

module _ {ℓ} {F : Type ℓ} (f : Formats F) where
  offer_span-Taken :
      (s : Span) (e : Exporter Span)
      → e.closed ≡ false
      → (e' : Exporter Span) × (offer_span s e ≡ some e') × (e'.closed ≡ false) × Taken s e e'
  unfolding offer_span
  offer_span-Taken s e open_yet = elim (record_span-Offered s e open_yet) [
    | inl (room, sent) ↦
        let e' : Exporter Span = record e { channel = e.channel ++ s ∷ [] } in
        (e', rw (offer_span, sent) refl, open_yet, inl (room, refl))
    | inr (full, lost) ↦ (e, rw (offer_span, lost) refl, open_yet, inr (full, refl))
  ]

  collect_spans-Working :
      (ts : TraceSpan) (s : Span) (c : Collecting)
      → Working c
      → (c' : Collecting) × (collect_spans ts s c ≡ (c', false))
        × Working c'
        × (Tracing.add ts c.store ≡ some c'.store)
        × Taken s c.exporter c'.exporter
  unfolding collect_spans
  collect_spans-Working ts s c ((n, bound), open_yet) =
      let (store, added, same) = add-some ts c.store n bound in
      let (e, offered, still, taken) = offer_span-Taken s c.exporter open_yet in
      let c' : Collecting = record { store = store; exporter = e } in
      (c', rw (collect_spans, added, offered) refl, ((n, same ∙ bound), still), added, taken)

  -- What NewTracingMiddleware starts with.
  pub new_tracing_middleware-Working :
      (cfg cfg' : TracingConfig F) (c : Collecting)
      → new_tracing_middleware f cfg ≡ some (cfg', c)
      → Working c
  unfolding new_tracing_middleware
  new_tracing_middleware-Working cfg cfg' c e = elim (Bool-cases cfg.enabled) [
    | inr off ↦ absurd (ground arith)
    | inl on ↦
        let first : Collecting = record {
          store = new_trace_store (pos 100);
          exporter = new_span_exporter;
        } in
        let same : first ≡ c = ground arith in
        subst Working same (new_trace_store-max TraceSpan (pos 100), new_span_exporter_open Span)
  ]

  module _ {κ} {S : Type κ} where
    -- The run of the handler below, on the request that goes on.
    abbrev pub inner : Arrival → Handler S → Request → Writer → Observed → S → Ran S
    inner a next r w o s =
        let ids = extract_or_generate_ids a.fresh_trace a.fresh_span r in
        next (propagate ids r) (record w { header = set w.header "X-Trace-ID" ids.trace_id }) o s

    -- What is stored and offered for a request that the handler has answered.
    abbrev pub Exported :
        TracingConfig F → Arrival → Request → Ran S → Collecting → Ran (S × Collecting) → Type κ
    Exported cfg a r ran c ran' =
        let ids = extract_or_generate_ids a.fresh_trace a.fresh_span r in
        let code = captured ran.writer in
        (ran' ≡ beside ran'.state.1 ran)
        × (Tracing.add (trace_span_of a ids (propagate ids r) code) c.store
            ≡ some ran'.state.1.store)
        × Taken (span_of f cfg a ids (propagate ids r) code) c.exporter ran'.state.1.exporter

    abbrev pub Exporting :
        TracingConfig F
        → F
        → Arrival
        → Handler S
        → Request
        → Writer
        → Observed
        → S
        → Collecting
        → Ran (S × Collecting)
        → Type κ
    Exporting cfg draw a next r w o s c ran' =
        let ran = inner a next r w o s in
        Working ran'.state.1
        × (((skips f cfg draw ≡ true) × (ran' ≡ beside c (next r w o s)))
            ⊎ ((skips f cfg draw ≡ false)
                × (((ran.panicked ≡ true) × (ran' ≡ beside c ran))
                    ⊎ ((ran.panicked ≡ false) × Exported cfg a r ran c ran'))))

    finish_span_lem :
        (cfg : TracingConfig F) (a : Arrival) (r : Request) (c c' : Collecting) (ran : Ran S)
        → let ids = extract_or_generate_ids a.fresh_trace a.fresh_span r in
          let code = captured ran.writer in
          collect_spans
              (trace_span_of a ids (propagate ids r) code)
              (span_of f cfg a ids (propagate ids r) code)
              c
            ≡ (c', false)
          → ran.panicked ≡ false
          → finish_span f cfg a ids (propagate ids r) c ran ≡ beside c' ran
    unfolding finish_span beside
    finish_span_lem cfg a r c c' ran done fine = rw (finish_span, done, fine) refl

    -- Of a request that is not sampled nothing is kept, and it goes on as it came. One that is
    -- sampled goes on with the trace headers; nothing is kept of it if its handler panics, and
    -- otherwise its span is added to the store and, if the channel has room, to the exporter's
    -- channel, and the answer is the handler's. In every case a store and an exporter in working
    -- order stay so, and the middleware does not panic on its own.
    export_spans-Exporting :
        (cfg : TracingConfig F) (draw : F) (a : Arrival) (next : Handler S) (r : Request)
        (w : Writer) (o : Observed) (s : S) (c : Collecting)
        → Working c
        → Exporting cfg draw a next r w o s c (export_spans f cfg draw a next r w o (s, c))
    unfolding export_spans beside
    export_spans-Exporting cfg draw a next r w o s c working =
        let ran = inner a next r w o s in
        let ids = extract_or_generate_ids a.fresh_trace a.fresh_span r in
        let code = captured ran.writer in
        let promise = Exporting cfg draw a next r w o s c in
        elim (Bool-cases (skips f cfg draw)) [
          | inl skipped ↦
              let run : export_spans f cfg draw a next r w o (s, c) ≡ beside c (next r w o s) =
                rw (export_spans, skipped) refl in
              subst promise (sym run) (working, inl (skipped, refl))
          | inr sampled ↦ elim (Bool-cases ran.panicked) [
            | inl broken ↦
                let run : export_spans f cfg draw a next r w o (s, c) ≡ beside c ran =
                  rw (export_spans, sampled, broken) refl in
                subst promise (sym run) (working, inr (sampled, inl (broken, refl)))
            | inr fine ↦
                let (c', done, still, added, taken) =
                  collect_spans-Working (trace_span_of a ids (propagate ids r) code)
                    (span_of f cfg a ids (propagate ids r) code) c working in
                let run : export_spans f cfg draw a next r w o (s, c)
                    ≡ finish_span f cfg a ids (propagate ids r) c ran =
                  rw (export_spans, sampled, fine) refl in
                subst promise (sym (run ∙ finish_span_lem cfg a r c c' ran done fine))
                  (still, inr (sampled, inr (fine, (refl, added, taken))))
          ]
        ]
