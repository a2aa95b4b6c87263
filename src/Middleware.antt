-- ===== src/Middleware.antt =====
-- internal/middleware/middleware.go, Tracing of tracing.go and the handler of auth.go as wrappers of
-- a handler.
pub mod Order
pub mod Effects
pub mod Observe
pub mod Export
mod Examples
use gateway_pro.Prelude.{
  codes, if◌then◌else◌, length, get_elem?, Text, is_empty, ℕ, zero, suc, Bool, true, false, Option,
  none, some, List, [], ◌∷◌, ◌++◌,
}
use gateway_pro.Http.{Request, Header, get, set}
use gateway_pro.Tracing
use gateway_pro.Tracing.{TraceStore, extract_or_generate_ids, propagate}
use gateway_pro.Auth
use gateway_pro.Auth.{Tools, valid, rejected}

-- TraceSpan. Its `Timings` hold the duration once more.
pub record TraceSpan : Type 0 where
  pub trace_id : Text
  pub path : Text
  pub method : Text
  pub status_code : ℕ
  pub duration : ℕ
  pub start_time : ℕ

-- The labels with which `requestsTotal` is incremented.
pub record Sample : Type 0 where
  pub route : Text
  pub method : Text
  pub status_code : ℕ

-- A line of Logger, without its duration.
pub record LogLine : Type 0 where
  pub method : Text
  pub path : Text
  pub status_code : ℕ
  pub request_id : Text

-- What is written: the headers, and the status once WriteHeader was called. Bodies are left out.
pub record Writer : Type 0 where
  pub header : Header
  pub written : Option ℕ

-- What the wrappers leave behind for their readers.
pub record Observed : Type 0 where
  pub traces : Option (TraceStore TraceSpan)
  pub samples : List Sample
  pub lines : List LogLine

-- A handler's run over the state `S` of the program, and whether it ended by a panic.
pub record Ran {ℓ} (S : Type ℓ) : Type ℓ where
  pub writer : Writer
  pub observed : Observed
  pub state : S
  pub panicked : Bool

abbrev pub Handler {ℓ} : Type ℓ → Type ℓ
Handler S = Request → Writer → Observed → S → Ran S

abbrev pub Middleware {ℓ} : Type ℓ → Type ℓ
Middleware S = Handler S → Handler S

-- The status of a captureStatus after its handler; the handlers of a route call WriteHeader at most
-- once.
pub captured : Writer → ℕ
captured w = elim w.written [ none ↦ 200 | some code ↦ code ]

-- The first WriteHeader counts.
pub write_header : ℕ → Writer → Writer
write_header code w = elim w.written [ none ↦ record w { written = some code } | some c ↦ w ]

-- writeAuthError, without its body.
pub write_auth_error : ℕ → Writer → Writer
unfolding write_header
write_auth_error code w =
    write_header code (record w { header = set w.header "Content-Type" (codes "application/json") })

-- What a request finds at its start: identifiers that are drawn at random, and the clock.
pub record Arrival : Type 0 where
  pub fresh_id : Text
  pub fresh_trace : Text
  pub fresh_span : Text
  pub start : ℕ
  pub duration : ℕ

module _ {ℓ} {S : Type ℓ} where
  -- The loop of Chain, from the index below `i` down to 0.
  pub chain_below : ℕ → List (Middleware S) → Handler S → Handler S
  chain_below zero ms final = final
  chain_below (suc i) ms final = elim (get_elem? ms i) [
    | none ↦ final
    | some m ↦ chain_below i ms (m final)
  ]

  -- Chain
  pub chain : Handler S → List (Middleware S) → Handler S
  unfolding chain_below
  chain final ms = chain_below (length ms) ms final

  -- RequestID
  pub request_id : Arrival → Middleware S
  request_id a next r w o s =
      let id = get r.header "X-Request-ID" in
      let id' = if is_empty id then a.fresh_id else id in
      next (record r { header = set r.header "X-Request-ID" id' })
        (record w { header = set w.header "X-Request-ID" id' }) o s

  -- What follows `next.ServeHTTP` runs only if that has not panicked.
  abbrev pub afterwards : Ran S → (Ran S → Ran S) → Ran S
  afterwards ran f = if ran.panicked then ran else f ran

  -- Logger. The request's headers are shared, and nothing below writes its X-Request-ID again.
  pub logger : Middleware S
  unfolding captured
  logger next r w o s = afterwards (next r w o s) (λ ran. record ran {
    observed = record ran.observed {
      lines =
          ran.observed.lines
          ++ record {
            method = r.method;
            path = r.path;
            status_code = captured ran.writer;
            request_id = get r.header "X-Request-ID";
          }
            ∷ [];
    };
  })

  -- Metrics: the counter. The histogram of durations is left out.
  pub metrics : Text → Middleware S
  unfolding captured
  metrics route next r w o s = afterwards (next r w o s) (λ ran. record ran {
    observed = record ran.observed {
      samples =
          ran.observed.samples
          ++ record { route = route; method = r.method; status_code = captured ran.writer } ∷ [];
    };
  })

  -- `store.Add`, which panics if `Tracing.add` says so.
  pub store_span : TraceSpan → Ran S → Ran S
  store_span span ran = elim ran.observed.traces [
    | none ↦ ran
    | some ts ↦ elim (Tracing.add span ts) [
      | none ↦ record ran { panicked = true }
      | some ts' ↦ record ran { observed = record ran.observed { traces = some ts' } }
    ]
  ]

  -- Tracing
  pub tracing : Arrival → Middleware S
  unfolding store_span captured
  tracing a next r w o s =
      let ids = extract_or_generate_ids a.fresh_trace a.fresh_span r in
      afterwards
        (next (propagate ids r) (record w { header = set w.header "X-Trace-ID" ids.trace_id }) o s)
        (λ ran.
          store_span
            (record {
              trace_id = ids.trace_id;
              path = r.path;
              method = r.method;
              status_code = captured ran.writer;
              duration = a.duration;
              start_time = a.start;
            })
            ran)

  -- The handler of auth.go.
  pub auth : Tools → List Text → Middleware S
  unfolding write_auth_error
  auth tools skip_paths next r w o s = elim (Auth.handler tools skip_paths r) [
    | valid r' ↦ next r' w o s
    | rejected why ↦ record {
      writer = write_auth_error 401 w;
      observed = o;
      state = s;
      panicked = false;
    }
  ]

  -- Recovery. http.Error answers 500, if no status has been written yet.
  pub recovery : Middleware S
  unfolding write_header
  recovery next r w o s =
      let ran = next r w o s in
      if ran.panicked
      then record ran { writer = write_header 500 ran.writer; panicked = false }
      else ran
