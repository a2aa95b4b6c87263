-- ===== src/Tracing/Continue.antt =====
-- The identifiers that a gateway makes, and the trace that goes on behind it.
use gateway_pro.Prelude.{
  ◌==◌, Bool-cases, Option-cases, length, get_elem?, get_elem?-lt, All-get_elem?, Text, codes,
  is_empty, ℕ, zero, suc, ◌≤◌, ◌<◌, ◌≡◌, refl, sym, ap, subst, ◌∙◌, ◌≢◌, inl, inr, Bool, true,
  false, not, ◌&&◌, none, some, List, [], ◌∷◌, ◌++◌, arith,
}
use gateway_pro.Http.{Request, get, set, get-set}
use gateway_pro.Tracing.{
  Ids, split, of_parts, of_trace_id, extract_or_generate_ids, traceparent, propagate, new_hex,
}
use gateway_pro.Tracing.Parts.{length-split, split_whole}
use gateway_pro.Tracing.Recent.{NoDash, split-part, split-last, extract-propagate}

-- The results of rand.Intn(16).
abbrev pub Drawn : (ℕ → ℕ) → Type 0
Drawn draws = (i : ℕ) → draws i < 16

abbrev undashed : Text → Bool
undashed [] = true
undashed (c ∷ s) = not (c == 45) && undashed s

undashed-NoDash : (s : Text) → undashed s ≡ true → NoDash s
undashed-NoDash [] e = tt
undashed-NoDash (c ∷ s) e = (ground (arith, e), undashed-NoDash s (ground (arith, e)))

digit : (d : ℕ) → d < 16 → (c : ℕ) × (get_elem? (codes "0123456789abcdef") d ≡ some c) × (c ≢ 45)
digit d lt =
    let (c, here) = get_elem?-lt (codes "0123456789abcdef") d lt in
    (
      c,
      here,
      All-get_elem? (λ c. c ≢ 45) (codes "0123456789abcdef") d c
          (undashed-NoDash (codes "0123456789abcdef") refl) here,
    )

new_hex-NoDash :
    (n : ℕ) (draws : ℕ → ℕ)
    → Drawn draws
    → (s : Text) × (new_hex n draws ≡ some s) × (length s ≡ n) × NoDash s
unfolding new_hex
new_hex-NoDash zero draws drawn = ([], refl, refl, tt)
new_hex-NoDash (suc n) draws drawn =
    let (c, here, other) = digit (draws 0) (drawn 0) in
    let (s, rest, size, all) = new_hex-NoDash n (λ i. draws (suc i)) (λ i. drawn (suc i)) in
    (c ∷ s, rw (new_hex, here, rest) refl, omega (arith, size), (other, all))

of_parts-none :
    (fresh_span : Text) (parts : List Text) → 5 ≤ length parts → of_parts fresh_span parts ≡ none
unfolding of_parts
of_parts-none fresh_span [] more = absurd (omega (arith, more))
of_parts-none fresh_span (a ∷ []) more = absurd (omega (arith, more))
of_parts-none fresh_span (a ∷ b ∷ []) more = absurd (omega (arith, more))
of_parts-none fresh_span (a ∷ b ∷ c ∷ []) more = absurd (omega (arith, more))
of_parts-none fresh_span (a ∷ b ∷ c ∷ d ∷ []) more = absurd (omega (arith, more))
of_parts-none fresh_span (a ∷ b ∷ c ∷ d ∷ e ∷ parts) more = refl

-- A trace id with a dash makes a traceparent that is not read as one.
of_parts-traceparent :
    (fresh_span : Text) (ids : Ids)
    → 2 ≤ length (split ids.trace_id)
    → NoDash ids.span_id
    → of_parts fresh_span (split (traceparent ids)) ≡ none
unfolding traceparent
of_parts-traceparent fresh_span ids more plain =
    let tail : Text = ids.span_id ++ codes "-01" in
    let version =
      split-part (codes "00") (ids.trace_id ++ (codes "-" ++ tail))
        (undashed-NoDash (codes "00") refl) in
    let size = length-split ids.trace_id tail in
    let span = split-part ids.span_id (codes "01") plain in
    of_parts-none fresh_span (split (traceparent ids)) (
      omega (
        arith,
        ap length version,
        size,
        ap length span,
        more,
        ap length (split-last (codes "01") (undashed-NoDash (codes "01") refl)),
      ))

-- The ids that this hop hands on: the next hop goes on with them.
abbrev Continues : Text → Text → Ids → Request → Type 0
Continues fresh_trace fresh_span ids r =
    extract_or_generate_ids fresh_trace fresh_span (propagate ids r)
    ≡ record { trace_id = ids.trace_id; span_id = fresh_span; parent_span_id = ids.span_id }

is_empty-more : (s : Text) → 2 ≤ length (split s) → is_empty s ≡ false
unfolding split
is_empty-more [] more = absurd (omega (arith, more))
is_empty-more (c ∷ s) more = refl

of_trace_id-tried :
    (fresh_trace fresh_span : Text) (r : Request) (ids : Ids)
    → get r.header "traceparent" ≡ traceparent ids
    → of_parts fresh_span (split (traceparent ids)) ≡ none
    → extract_or_generate_ids fresh_trace fresh_span r ≡ of_trace_id fresh_trace fresh_span r
unfolding extract_or_generate_ids traceparent
of_trace_id-tried fresh_trace fresh_span r ids there unread =
    elim (Bool-cases (is_empty (get r.header "traceparent"))) [
      | inl empty ↦ absurd (ground (arith, ap is_empty there, empty))
      | inr full ↦ rw (extract_or_generate_ids, full, there, unread) refl
    ]

of_trace_id-given :
    (fresh_trace fresh_span : Text) (r : Request) (trace span : Text)
    → get r.header "X-Trace-ID" ≡ trace
    → get r.header "X-Span-ID" ≡ span
    → is_empty trace ≡ false
    → of_trace_id fresh_trace fresh_span r
      ≡ record { trace_id = trace; span_id = fresh_span; parent_span_id = span }
unfolding of_trace_id
of_trace_id-given fresh_trace fresh_span r trace span there there' full =
    rw (of_trace_id, there, there', full) refl

dashed-Continues :
    (fresh_trace fresh_span : Text) (ids : Ids) (r : Request)
    → 2 ≤ length (split ids.trace_id)
    → NoDash ids.span_id
    → Continues fresh_trace fresh_span ids r
unfolding propagate extract_or_generate_ids of_trace_id
dashed-Continues fresh_trace fresh_span ids r more plain =
    let h = set r.header "traceparent" (traceparent ids) in
    let h' = set h "X-Trace-ID" ids.trace_id in
    let h'' = set h' "X-Span-ID" ids.span_id in
    let tp : get h'' "traceparent" ≡ traceparent ids =
      get-set h' "X-Span-ID" "traceparent" ids.span_id
      ∙ get-set h "X-Trace-ID" "traceparent" ids.trace_id
      ∙ get-set r.header "traceparent" "traceparent" (traceparent ids) in
    let trace : get h'' "X-Trace-ID" ≡ ids.trace_id =
      get-set h' "X-Span-ID" "X-Trace-ID" ids.span_id
      ∙ get-set h "X-Trace-ID" "X-Trace-ID" ids.trace_id in
    let span : get h'' "X-Span-ID" ≡ ids.span_id = get-set h' "X-Span-ID" "X-Span-ID" ids.span_id in
    of_trace_id-tried fresh_trace fresh_span (propagate ids r) ids tp
      (of_parts-traceparent fresh_span ids more plain)
    ∙ of_trace_id-given fresh_trace fresh_span (propagate ids r) ids.trace_id ids.span_id trace span
        (is_empty-more ids.trace_id more)

any-Continues :
    (fresh_trace fresh_span : Text) (ids : Ids) (r : Request)
    → NoDash ids.span_id
    → Continues fresh_trace fresh_span ids r
any-Continues fresh_trace fresh_span ids r plain = elim (split_whole ids.trace_id) [
  | inl all ↦ extract-propagate ids fresh_trace fresh_span r all plain
  | inr more ↦ dashed-Continues fresh_trace fresh_span ids r more plain
]

of_trace_id-span_id : (trace span : Text) (r : Request) → (of_trace_id trace span r).span_id ≡ span
unfolding of_trace_id
of_trace_id-span_id trace span r = ground arith

of_parts-span_id :
    (span : Text) (parts : List Text) (ids : Ids)
    → of_parts span parts ≡ some ids
    → ids.span_id ≡ span
unfolding of_parts
of_parts-span_id span (a ∷ b ∷ c ∷ d ∷ []) ids e = ground arith
of_parts-span_id span [] ids e = cc
of_parts-span_id span (a ∷ []) ids e = cc
of_parts-span_id span (a ∷ b ∷ []) ids e = cc
of_parts-span_id span (a ∷ b ∷ c ∷ []) ids e = cc
of_parts-span_id span (a ∷ b ∷ c ∷ d ∷ e' ∷ parts) ids e = cc

-- extractOrGenerateIDs always takes the fresh span id.
extract-span_id :
    (trace span : Text) (r : Request) → (extract_or_generate_ids trace span r).span_id ≡ span
unfolding extract_or_generate_ids of_trace_id of_parts
extract-span_id trace span r = elim (Bool-cases (is_empty (get r.header "traceparent"))) [
  | inl empty ↦ rw (extract_or_generate_ids, empty) (of_trace_id-span_id trace span r)
  | inr full ↦ elim (Option-cases (of_parts span (split (get r.header "traceparent")))) [
    | inl unread ↦ rw (extract_or_generate_ids, full, unread) (of_trace_id-span_id trace span r)
    | inr (ids, read) ↦
        rw (extract_or_generate_ids, full, read)
          (of_parts-span_id span (split (get r.header "traceparent")) ids read)
  ]
]

-- Whatever request reaches Tracing, with or without trace headers, and as long as rand.Intn keeps
-- its bounds: newHex makes a trace id of 32 and a span id of 16 characters, and the next gateway,
-- reading the request that Tracing passes on, goes on with the same trace id and has this hop's
-- span as the parent of its own.
pub trace_continues :
    (draws draws' : ℕ → ℕ) (r : Request) (next_trace next_span : Text)
    → Drawn draws
    → Drawn draws'
    → (trace span : Text) × (new_hex 32 draws ≡ some trace)
      × (length trace ≡ 32)
      × (new_hex 16 draws' ≡ some span)
      × (length span ≡ 16)
      × (let ids = extract_or_generate_ids trace span r in
          extract_or_generate_ids next_trace next_span (propagate ids r)
          ≡ record { trace_id = ids.trace_id; span_id = next_span; parent_span_id = span })
trace_continues draws draws' r next_trace next_span drawn drawn' =
    let (trace, made, size, plain) = new_hex-NoDash 32 draws drawn in
    let (span, made', size', plain') = new_hex-NoDash 16 draws' drawn' in
    let ids = extract_or_generate_ids trace span r in
    let same = extract-span_id trace span r in
    (
      trace,
      span,
      made,
      size,
      made',
      size',
      any-Continues next_trace next_span ids r (subst NoDash (sym same) plain')
          ∙ ap (λ s. record { trace_id = ids.trace_id; span_id = next_span; parent_span_id = s })
              same,
    )
