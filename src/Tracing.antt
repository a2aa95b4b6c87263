-- ===== src/Tracing.antt =====
-- internal/middleware/tracing.go: the store of recent spans, and the identifiers of a request.
pub mod Recent
pub mod Parts
pub mod Continue
pub mod Exporter
mod Examples
use gateway_pro.Prelude.{
  ◌==◌, if◌then◌else◌, length, get_elem?, ℕ, zero, suc, ℤ, pos, leb_ℤ, Text, codes, is_empty,
  Option, none, some, List, [], ◌∷◌, ◌++◌,
}
use gateway_pro.Http.{Request, get, set}

-- `Span` stands for TraceSpan, whose contents the store does not look at.
pub record TraceStore {ℓ} (Span : Type ℓ) : Type ℓ where
  pub spans : List Span
  pub max : ℤ

pub new_trace_store {ℓ} : {Span : Type ℓ} → ℤ → TraceStore Span
new_trace_store max = record { spans = []; max = if leb_ℤ max (pos 0) then pos 100 else max }

-- `ts.spans[1:]` panics on an empty slice: `none`.
pub add_full {ℓ} : {Span : Type ℓ} → Span → ℤ → List Span → Option (TraceStore Span)
add_full s max [] = none
add_full s max (oldest ∷ rest) = some (record { spans = rest ++ s ∷ []; max = max })

-- Add
pub add {ℓ} : {Span : Type ℓ} → Span → TraceStore Span → Option (TraceStore Span)
unfolding add_full
add s ts =
    if leb_ℤ ts.max (pos (length ts.spans))
    then add_full s ts.max ts.spans
    else some (record ts { spans = ts.spans ++ s ∷ [] })

-- GetAll
pub get_all {ℓ} : {Span : Type ℓ} → TraceStore Span → List Span
get_all ts = ts.spans

-- `strings.Split(s, "-")`
pub split : Text → List Text
split [] = [] ∷ []
split (c ∷ s) =
    let rest = split s in
    if c == 45
    then [] ∷ rest
    else elim rest [ [] ↦ (c ∷ []) ∷ [] | part ∷ parts ↦ (c ∷ part) ∷ parts ]

pub record Ids : Type 0 where
  pub trace_id : Text
  pub span_id : Text
  pub parent_span_id : Text

-- `chars`
abbrev hex_digits : Text
hex_digits = codes "0123456789abcdef"

-- newHex, where `draws` are the results of rand.Intn(16); at `none` it panics.
pub new_hex : ℕ → (ℕ → ℕ) → Option Text
new_hex zero draws = some []
new_hex (suc n) draws = elim (get_elem? hex_digits (draws 0)) [
  | none ↦ none
  | some c ↦ elim (new_hex n (λ i. draws (suc i))) [ none ↦ none | some s ↦ some (c ∷ s) ]
]

-- extractOrGenerateIDs. `fresh_trace` and `fresh_span` are the results of newHex.
pub of_parts : Text → List Text → Option Ids
of_parts fresh_span (version ∷ trace ∷ parent ∷ flags ∷ []) =
    some (record { trace_id = trace; span_id = fresh_span; parent_span_id = parent })
of_parts fresh_span _ = none

pub of_trace_id : Text → Text → Request → Ids
of_trace_id fresh_trace fresh_span r =
    let id = get r.header "X-Trace-ID" in
    if is_empty id
    then record { trace_id = fresh_trace; span_id = fresh_span; parent_span_id = [] }
    else record { trace_id = id; span_id = fresh_span; parent_span_id = get r.header "X-Span-ID" }

pub extract_or_generate_ids : Text → Text → Request → Ids
unfolding split of_parts of_trace_id
extract_or_generate_ids fresh_trace fresh_span r =
    let tp = get r.header "traceparent" in
    if is_empty tp
    then of_trace_id fresh_trace fresh_span r
    else elim (of_parts fresh_span (split tp)) [
      | some ids ↦ ids
      | none ↦ of_trace_id fresh_trace fresh_span r
    ]

-- `fmt.Sprintf("00-%s-%s-01", traceID, spanID)`
pub traceparent : Ids → Text
traceparent ids = codes "00-" ++ (ids.trace_id ++ (codes "-" ++ (ids.span_id ++ codes "-01")))

-- The headers that Tracing sets on the request that goes on.
pub propagate : Ids → Request → Request
unfolding traceparent
propagate ids r = record r {
  header =
      set (set (set r.header "traceparent" (traceparent ids)) "X-Trace-ID" ids.trace_id) "X-Span-ID"
        ids.span_id;
}
