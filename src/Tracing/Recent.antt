-- ===== src/Tracing/Recent.antt =====
-- What the store of spans keeps, and what a request's trace identifiers become downstream.
use gateway_pro.Prelude.{
  ltb, ◌==◌, ltb→lt, ltb→le, Bool-cases, length, drop, All, length-append, ℤ, pos, negsuc, leb_ℤ,
  Text, codes, ℕ, zero, suc, ◌-◌, ◌≤◌, ◌<◌, ◌≡◌, refl, sym, ap, ◌∙◌, ◌≢◌, inl, inr, true, false,
  Option, none, some, List, [], ◌∷◌, ◌++◌, arith, length-drop,
}
use mathlib.Core.List.{append-nil, append_assoc}
use gateway_pro.Http.{Request, get, set, get-set}
use gateway_pro.Tracing.{
  TraceStore, new_trace_store, get_all, add, add_full, split, Ids, of_parts,
  extract_or_generate_ids, traceparent, propagate,
}

-- Calls of Add, one for each span.
pub add_all {ℓ} : {Span : Type ℓ} → List Span → TraceStore Span → Option (TraceStore Span)
add_all [] ts = some ts
add_all (s ∷ ss) ts = elim (add s ts) [ none ↦ none | some ts' ↦ add_all ss ts' ]

-- The last `n` of a list.
abbrev pub last {ℓ} : {A : Type ℓ} → ℕ → List A → List A
last n xs = drop (length xs - n) xs

-- The bound that a store is made with.
abbrev pub bound_of : ℤ → ℕ
bound_of (pos (suc n)) = suc n
bound_of _ = 100

drop-append_le {ℓ} :
    {A : Type ℓ} (n : ℕ) (xs ys : List A) → n ≤ length xs → drop n (xs ++ ys) ≡ drop n xs ++ ys
drop-append_le zero xs ys le = refl
drop-append_le (suc n) [] ys le = absurd (omega (arith, le))
drop-append_le (suc n) (x ∷ xs) ys le = drop-append_le n xs ys (omega (arith, le))

drop-cons {ℓ} :
    {A : Type ℓ} (n : ℕ) (xs : List A)
    → n < length xs
    → (x : A) × (rest : List A) × (drop n xs ≡ x ∷ rest) × (drop (suc n) xs ≡ rest)
drop-cons n [] lt = absurd (omega (arith, lt))
drop-cons zero (y ∷ xs) lt = (y, xs, refl, refl)
drop-cons (suc n) (y ∷ xs) lt = drop-cons n xs (omega (arith, lt))

-- A store with the bound `n` that holds the last of `done`.
abbrev holding {ℓ} : {Span : Type ℓ} → ℕ → List Span → TraceStore Span
holding n done = record { spans = last n done; max = pos n }

add-holding {ℓ} :
    {Span : Type ℓ} (n : ℕ) (done : List Span) (s : Span)
    → 0 < n
    → add s (holding n done) ≡ some (holding n (done ++ s ∷ []))
unfolding add add_full
add-holding n done s up = elim (Bool-cases (ltb (length done) n)) [
  | inl room ↦
      let fits : length done - n ≡ 0 = omega (arith, ltb→lt _ _ room) in
      let fits' : length (done ++ s ∷ []) - n ≡ 0 =
        omega (arith, ltb→lt _ _ room, length-append done (s ∷ [])) in
      let test : leb_ℤ (pos n) (pos (length done)) ≡ false = ground (arith, ltb→lt _ _ room) in
      rw (fits, fits', test) refl
  | inr full ↦
      let le : n ≤ length done = ltb→le _ _ full in
      let (x, rest, now, after) = drop-cons (length done - n) done (omega (arith, le, up)) in
      let size : length (x ∷ rest) ≡ n =
        ap length (sym now) ∙ length-drop (length done - n) done ∙ omega (arith, le) in
      let next_start : length (done ++ s ∷ []) - n ≡ suc (length done - n) =
        omega (arith, le, length-append done (s ∷ [])) in
      let test : leb_ℤ (pos n) (pos (length (x ∷ rest))) ≡ true = ground (arith, size) in
      rw
        (
          next_start,
          drop-append_le (suc (length done - n)) done (s ∷ []) (omega (arith, le, up)),
          now,
          after,
          test,
        )
        refl
]

add_full-some {ℓ} :
    {Span : Type ℓ} (s : Span) (max : ℤ) (spans : List Span)
    → 1 ≤ length spans
    → (ts' : TraceStore Span) × (add_full s max spans ≡ some ts') × (ts'.max ≡ max)
unfolding add_full
add_full-some s max [] up = absurd (omega (arith, up))
add_full-some s max (oldest ∷ rest) up = (record { spans = rest ++ s ∷ []; max = max }, refl, refl)

-- Add does not panic on a store with a positive bound, and keeps the bound.
pub add-some {ℓ} :
    {Span : Type ℓ} (s : Span) (ts : TraceStore Span) (n : ℕ)
    → ts.max ≡ pos (suc n)
    → (ts' : TraceStore Span) × (add s ts ≡ some ts') × (ts'.max ≡ ts.max)
unfolding add
add-some s ts n bound = elim (Bool-cases (leb_ℤ ts.max (pos (length ts.spans)))) [
  | inr room ↦ (record ts { spans = ts.spans ++ s ∷ [] }, rw (add, room) refl, refl)
  | inl full ↦
      let up : 1 ≤ length ts.spans = ground (arith, full, bound) in
      let (ts', here, same) = add_full-some s ts.max ts.spans up in (ts', rw (add, full) here, same)
]

add_all-holding {ℓ} :
    {Span : Type ℓ} (n : ℕ) (done ss : List Span)
    → 0 < n
    → add_all ss (holding n done) ≡ some (holding n (done ++ ss))
unfolding add_all
add_all-holding n done [] up = rw (append-nil done) refl
add_all-holding n done (s ∷ ss) up =
    rw (add_all, add-holding n done s up)
      (add_all-holding n (done ++ s ∷ []) ss up
        ∙ ap (λ xs. some (holding n xs)) (append_assoc done (s ∷ []) ss))

drop-nil {ℓ} : {A : Type ℓ} (n : ℕ) → drop n [] ≡ (let empty : List A = [] in empty)
drop-nil zero = refl
drop-nil (suc n) = refl

start-holding {ℓ} :
    {Span : Type ℓ} (max : ℤ) → new_trace_store {Span = Span} max ≡ holding (bound_of max) []
unfolding new_trace_store
start-holding (pos zero) = refl
start-holding (pos (suc n)) =
    let test : leb_ℤ (pos (suc n)) (pos 0) ≡ false = ground arith in
    rw (test, drop-nil (0 - suc n)) refl
start-holding (negsuc n) = let test : leb_ℤ (negsuc n) (pos 0) ≡ true = ground arith in rw test refl

bound-positive : (max : ℤ) → 0 < bound_of max
bound-positive (pos zero) = omega arith
bound-positive (pos (suc n)) = omega arith
bound-positive (negsuc n) = omega arith

-- A new store has a positive bound.
pub new_trace_store-max {ℓ} :
    (Span : Type ℓ) (max : ℤ) → (n : ℕ) × ((new_trace_store {Span = Span} max).max ≡ pos (suc n))
new_trace_store-max Span max = (
  bound_of max - 1,
  ap (λ (ts : TraceStore Span). ts.max) (start-holding max)
      ∙ ap pos (omega (arith, bound-positive max)),
)

-- After any number of calls of Add, none of which panics, a store that NewTraceStore made holds
-- the last spans that were added, in their order: as many as its bound, or all if they are fewer.
-- The bound is the argument of NewTraceStore, or 100 where that is not positive.
pub recent_lem {ℓ} :
    {Span : Type ℓ} (max : ℤ) (ss : List Span)
    → add_all ss (new_trace_store max)
      ≡ some (record { spans = last (bound_of max) ss; max = pos (bound_of max) })
recent_lem max ss =
    ap (add_all ss) (start-holding max) ∙ add_all-holding (bound_of max) [] ss (bound-positive max)

-- No part of a text that is split at dashes holds one.
abbrev pub NoDash : Text → Type 0
NoDash = All (λ c. c ≢ 45)

pub split-part : (part rest : Text) → NoDash part → split (part ++ 45 ∷ rest) ≡ part ∷ split rest
unfolding split
split-part [] rest a = refl
split-part (c ∷ part) rest a =
    let test : (c == 45) ≡ false = ground (arith, a.0) in rw (test, split-part part rest a.1) refl

pub split-last : (part : Text) → NoDash part → split part ≡ part ∷ []
unfolding split
split-last [] a = refl
split-last (c ∷ part) a =
    let test : (c == 45) ≡ false = ground (arith, a.0) in rw (test, split-last part a.1) refl

split-traceparent :
    (ids : Ids)
    → NoDash ids.trace_id
    → NoDash ids.span_id
    → split (traceparent ids) ≡ codes "00" ∷ ids.trace_id ∷ ids.span_id ∷ codes "01" ∷ []
unfolding traceparent
split-traceparent ids a b =
    split-part (codes "00") (ids.trace_id ++ (codes "-" ++ (ids.span_id ++ codes "-01")))
      (omega arith, (omega arith, tt))
    ∙ ap (◌∷◌ (codes "00")) (
        split-part ids.trace_id (ids.span_id ++ codes "-01") a
        ∙ ap (◌∷◌ ids.trace_id) (
            split-part ids.span_id (codes "01") b
            ∙ ap (◌∷◌ ids.span_id) (split-last (codes "01") (omega arith, (omega arith, tt)))))

extract-four :
    (fresh_trace fresh_span : Text) (r : Request) (c : ℕ) (tp v t p f : Text)
    → get r.header "traceparent" ≡ c ∷ tp
    → split (c ∷ tp) ≡ v ∷ t ∷ p ∷ f ∷ []
    → extract_or_generate_ids fresh_trace fresh_span r
      ≡ record { trace_id = t; span_id = fresh_span; parent_span_id = p }
unfolding extract_or_generate_ids of_parts
extract-four fresh_trace fresh_span r c tp v t p f there parts = rw (there, parts) refl

-- A request that Tracing passes on, read by the next gateway: the trace goes on with the same
-- trace id, and this hop's span is the parent of the next one's. The ids hold no dash.
pub extract-propagate :
    (ids : Ids) (fresh_trace fresh_span : Text) (r : Request)
    → NoDash ids.trace_id
    → NoDash ids.span_id
    → extract_or_generate_ids fresh_trace fresh_span (propagate ids r)
      ≡ record { trace_id = ids.trace_id; span_id = fresh_span; parent_span_id = ids.span_id }
unfolding propagate traceparent
extract-propagate ids fresh_trace fresh_span r a b =
    let h = set r.header "traceparent" (traceparent ids) in
    let h' = set h "X-Trace-ID" ids.trace_id in
    let tp : get (set h' "X-Span-ID" ids.span_id) "traceparent" ≡ traceparent ids =
      get-set h' "X-Span-ID" "traceparent" ids.span_id
      ∙ get-set h "X-Trace-ID" "traceparent" ids.trace_id
      ∙ get-set r.header "traceparent" "traceparent" (traceparent ids) in
    extract-four fresh_trace fresh_span (propagate ids r) _ _ _ _ _ _ tp (split-traceparent ids a b)

-- The trace headers leave the Authorization header alone.
pub propagate-get :
    (ids : Ids) (r : Request)
    → get (propagate ids r).header "Authorization" ≡ get r.header "Authorization"
unfolding propagate
propagate-get ids r =
    let h = set r.header "traceparent" (traceparent ids) in
    let h' = set h "X-Trace-ID" ids.trace_id in
    get-set h' "X-Span-ID" "Authorization" ids.span_id
    ∙ get-set h "X-Trace-ID" "Authorization" ids.trace_id
    ∙ get-set r.header "traceparent" "Authorization" (traceparent ids)

pub propagate-path : (ids : Ids) (r : Request) → (propagate ids r).path ≡ r.path
unfolding propagate
propagate-path ids r = refl

pub propagate-request_id :
    (ids : Ids) (r : Request)
    → get (propagate ids r).header "X-Request-ID" ≡ get r.header "X-Request-ID"
unfolding propagate
propagate-request_id ids r =
    let h = set r.header "traceparent" (traceparent ids) in
    let h' = set h "X-Trace-ID" ids.trace_id in
    get-set h' "X-Span-ID" "X-Request-ID" ids.span_id
    ∙ get-set h "X-Trace-ID" "X-Request-ID" ids.trace_id
    ∙ get-set r.header "traceparent" "X-Request-ID" (traceparent ids)

pub propagate-method : (ids : Ids) (r : Request) → (propagate ids r).method ≡ r.method
unfolding propagate
propagate-method ids r = refl

pub get_all-spans {ℓ} : {Span : Type ℓ} (ts : TraceStore Span) → get_all ts ≡ ts.spans
unfolding get_all
get_all-spans ts = refl
