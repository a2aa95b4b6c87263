-- ===== src/Tracing/Examples.antt =====
-- Concrete runs of tracing.go.
use gateway_pro.Prelude.{
  pos, codes, Text, length, ◌%◌, ℕ, ◌≡◌, refl, false, some, List, [], ◌∷◌, arith,
}
use gateway_pro.Http.{Request}
use gateway_pro.Tracing.{new_trace_store, split, new_hex, propagate, extract_or_generate_ids}
use gateway_pro.Tracing.Recent.{add_all, recent_lem}
use gateway_pro.Tracing.Continue.{trace_continues}

split_run : split (codes "a-b") ≡ codes "a" ∷ codes "b" ∷ []
unfolding split
split_run = refl

abbrev spans : List ℕ
spans = 1 ∷ 2 ∷ 3 ∷ []

recent_run :
    add_all spans (new_trace_store (pos 2)) ≡ some (record { spans = 2 ∷ 3 ∷ []; max = pos 2 })
recent_run = recent_lem (pos 2) spans

abbrev request : Request
request = record {
  method = codes "GET";
  path = codes "/api";
  host = codes "gateway";
  remote_addr = codes "10.0.0.1:4711";
  tls = false;
  header = [];
}

trace_continues_example :
    (trace span : Text) × (new_hex 32 (λ i. 7) ≡ some trace)
    × (length trace ≡ 32)
    × (new_hex 16 (λ i. i % 16) ≡ some span)
    × (length span ≡ 16)
    × (let ids = extract_or_generate_ids trace span request in
        extract_or_generate_ids (codes "ff") (codes "8") (propagate ids request)
        ≡ record { trace_id = ids.trace_id; span_id = codes "8"; parent_span_id = span })
trace_continues_example =
    trace_continues (λ i. 7) (λ i. i % 16) request (codes "ff") (codes "8") (λ i. omega arith)
      (λ i. omega arith)
