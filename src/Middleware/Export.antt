-- ===== src/Middleware/Export.antt =====
-- NewTracingMiddleware of tracing.go: the wrapper that also hands spans to the exporter. The gateway
-- itself is wired with the wrapper Tracing alone.
pub mod Collected
use gateway_pro.Prelude.{
  leb, if◌then◌else◌, pos, Text, codes, ℕ, ◌/◌, String, Bool, true, false, ◌&&◌, Option, none, some,
  List, [], ◌∷◌, ◌++◌,
}
use gateway_pro.Http.{Request, get, set}
use gateway_pro.Tracing
use gateway_pro.Tracing.{TraceStore, new_trace_store, Ids, extract_or_generate_ids, propagate}
use gateway_pro.Tracing.Exporter.{
  Exporter, accepted, dropped, panics, new_span_exporter, record_span,
}
use gateway_pro.Middleware.{Handler, Ran, TraceSpan, Arrival, captured}

-- Comparisons of float64, and fmt's `%d` of a status.
pub record Formats {ℓ} (F : Type ℓ) : Type ℓ where
  pub less : F → F → Bool
  pub less_eq : F → F → Bool
  pub zero_rate : F
  pub one_rate : F
  pub decimal : ℕ → Text

pub record TracingConfig {ℓ} (F : Type ℓ) : Type ℓ where
  pub enabled : Bool
  pub collector_url : Text
  pub service_name : Text
  pub sample_rate : F

-- What is shipped to the collector. Times are in microseconds; `tags` is a map.
pub record Span : Type 0 where
  pub trace_id : Text
  pub span_id : Text
  pub parent_span_id : Text
  pub name : Text
  pub service : Text
  pub start_time_us : ℕ
  pub duration_us : ℕ
  pub status : ℕ
  pub error : Bool
  pub tags : List (String × Text)

-- What the closure of the middleware keeps.
pub record Collecting : Type 0 where
  pub store : TraceStore TraceSpan
  pub exporter : Exporter Span

module _ {κ} {S : Type κ} where
  -- The handler below does not see what the middleware keeps.
  pub beside : Collecting → Ran S → Ran (S × Collecting)
  beside c ran = record {
    writer = ran.writer;
    observed = ran.observed;
    state = (ran.state, c);
    panicked = ran.panicked;
  }

module _ {ℓ} {F : Type ℓ} (f : Formats F) where
  -- NewTracingMiddleware: `none` stands for the wrapper that does nothing.
  unfoldable pub new_tracing_middleware : TracingConfig F → Option (TracingConfig F × Collecting)
  new_tracing_middleware cfg =
      if cfg.enabled
      then some (
        record cfg {
          sample_rate =
              if f.less_eq cfg.sample_rate f.zero_rate then f.one_rate else cfg.sample_rate;
        },
        record { store = new_trace_store (pos 100); exporter = new_span_exporter },
      )
      else none

  -- `draw` is the result of rand.Float64().
  unfoldable pub skips : TracingConfig F → F → Bool
  skips cfg draw = f.less cfg.sample_rate f.one_rate && f.less cfg.sample_rate draw

  pub span_of : TracingConfig F → Arrival → Ids → Request → ℕ → Span
  span_of cfg a ids r code = record {
    trace_id = ids.trace_id;
    span_id = ids.span_id;
    parent_span_id = ids.parent_span_id;
    name = r.method ++ codes " " ++ r.path;
    service = cfg.service_name;
    start_time_us = a.start / 1000;
    duration_us = a.duration / 1000;
    status = code;
    error = leb 500 code;
    tags =
        ("http.method", r.method)
        ∷ ("http.path", r.path)
        ∷ ("http.status", f.decimal code)
        ∷ ("remote.addr", r.remote_addr)
        ∷ ("user.agent", get r.header "User-Agent")
        ∷ [];
  }

pub trace_span_of : Arrival → Ids → Request → ℕ → TraceSpan
trace_span_of a ids r code = record {
  trace_id = ids.trace_id;
  path = r.path;
  method = r.method;
  status_code = code;
  duration = a.duration;
  start_time = a.start;
}

-- `exp.record`: the exporter after it, or a panic.
pub offer_span : Span → Exporter Span → Option (Exporter Span)
offer_span s e = elim (record_span s e) [ accepted e' ↦ some e' | dropped ↦ some e | panics ↦ none ]

-- What follows `next.ServeHTTP`: the store and the exporter, or a panic of the one that is reached.
pub collect_spans : TraceSpan → Span → Collecting → Collecting × Bool
unfolding offer_span
collect_spans ts s c = elim (Tracing.add ts c.store) [
  | none ↦ (c, true)
  | some store ↦ elim (offer_span s c.exporter) [
    | none ↦ (record c { store = store }, true)
    | some e ↦ (record { store = store; exporter = e }, false)
  ]
]

module _ {ℓ κ} {F : Type ℓ} {S : Type κ} (f : Formats F) where
  pub finish_span :
      TracingConfig F → Arrival → Ids → Request → Collecting → Ran S → Ran (S × Collecting)
  unfolding trace_span_of span_of collect_spans beside captured
  finish_span cfg a ids r c ran =
      let code = captured ran.writer in
      let (c', broken) =
        collect_spans (trace_span_of a ids r code) (span_of f cfg a ids r code) c in
      record (beside c' ran) { panicked = broken }

  -- The handler that the middleware makes of `next`.
  pub export_spans : TracingConfig F → F → Arrival → Handler S → Handler (S × Collecting)
  unfolding skips finish_span beside
  export_spans cfg draw a next r w o (s, c) =
      if skips f cfg draw
      then beside c (next r w o s)
      else let ids = extract_or_generate_ids a.fresh_trace a.fresh_span r in
        let ran =
          next (propagate ids r) (record w { header = set w.header "X-Trace-ID" ids.trace_id }) o
            s in
        if ran.panicked then beside c ran else finish_span cfg a ids (propagate ids r) c ran
