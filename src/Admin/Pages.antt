-- ===== src/Admin/Pages.antt =====
-- What the pages of the admin server show.
use gateway_pro.Prelude.{
  ltb, if◌then◌else◌, ℤ, pos, Text, codes, ℕ, suc, ◌≡◌, refl, sym, ap, ◌∙◌, Bool, true, some, List,
  [], ◌∷◌, ◌++◌, map, arith,
}
use mathlib.Core.Path.{ap₂}
use mathlib.Core.List.{append_assoc}
use gateway_pro.Tracing.{TraceStore, get_all, new_trace_store}
use gateway_pro.Tracing.Recent.{add_all, last, recent_lem, get_all-spans}
use gateway_pro.Middleware.{TraceSpan}
use gateway_pro.LoadBalancer.Heap.{Heap}
use gateway_pro.LoadBalancer.Balancer
use gateway_pro.Proxy.Build.{Built}
use gateway_pro.Admin.{
  TraceResponse, timings_of, response_of, responses, traces_handler, backend_text, separator,
  backends_from, route_text, routes_from, backends_handler,
}

-- What a reader of /traces is to find for a span.
abbrev pub shown {ℓ} : {F : Type ℓ} → (ℕ → F) → TraceSpan → TraceResponse F
shown millis span = record {
  trace_id = span.trace_id;
  path = span.path;
  method = span.method;
  status_code = span.status_code;
  duration = millis span.duration;
  start_time = span.start_time;
  timings = record { name = codes "total"; duration = millis span.duration } ∷ [];
}

responses-map {ℓ} :
    {F : Type ℓ} (millis : ℕ → F) (spans : List TraceSpan)
    → responses millis spans ≡ map (shown millis) spans
unfolding responses response_of timings_of
responses-map millis [] = refl
responses-map millis (span ∷ spans) = ap (λ rs. shown millis span ∷ rs) (responses-map millis spans)

-- After any number of spans were added to the store that main makes, /traces shows the last 100 of
-- them, or all if they are fewer, in the order in which they came: each with its trace id, path,
-- method, status code and start time, its duration in milliseconds, and the one timing `total` of
-- that duration.
pub traces_handler_lem {ℓ} :
    {F : Type ℓ} (millis : ℕ → F) (spans : List TraceSpan)
    → (ts : TraceStore TraceSpan) × (add_all spans (new_trace_store (pos 100)) ≡ some ts)
      × (traces_handler millis ts ≡ map (shown millis) (last 100 spans))
unfolding traces_handler
traces_handler_lem millis spans =
    let ts : TraceStore TraceSpan = record { spans = last 100 spans; max = pos 100 } in
    (
      ts,
      recent_lem (pos 100) spans,
      responses-map millis (get_all ts) ∙ ap (map (shown millis)) (get_all-spans ts),
    )

-- Texts with commas between them.
abbrev pub commas : List Text → Text
commas [] = []
commas (x ∷ xs) = codes "," ++ (x ++ commas xs)

abbrev pub join : List Text → Text
join [] = []
join (x ∷ xs) = x ++ commas xs

-- A JSON array.
abbrev pub array : List Text → Text
array xs = codes "[" ++ (join xs ++ codes "]")

module _ (quote : Text → Text) (decimal : ℤ → Text) where
  backends_from-commas :
      (h : Heap) (rt : Built) (j : ℕ) (ps : List ℕ)
      → backends_from quote decimal h rt (suc j) ps
        ≡ commas (map (backend_text quote decimal h rt) ps)
  unfolding backends_from separator
  backends_from-commas h rt j [] = refl
  backends_from-commas h rt j (p ∷ ps) =
      let first : ltb 0 (suc j) ≡ true = ground arith in
      rw (backends_from, first, backends_from-commas h rt (suc j) ps) refl

  backends_from-join :
      (h : Heap) (rt : Built) (ps : List ℕ)
      → backends_from quote decimal h rt 0 ps ≡ join (map (backend_text quote decimal h rt) ps)
  unfolding backends_from separator
  backends_from-join h rt [] = refl
  backends_from-join h rt (p ∷ ps) = rw (backends_from, backends_from-commas h rt 0 ps) refl

  -- The object of a route, with an array of its backends.
  abbrev pub object : Heap → Built → Text
  object h rt =
      codes "{\"route\":"
      ++ (quote rt.route.prefix
          ++ (codes ",\"backends\":"
              ++ (array (map (backend_text quote decimal h rt) (Balancer.backends rt.route.lb))
                  ++ codes "}")))

  route_text-object : (h : Heap) (rt : Built) → route_text quote decimal h rt ≡ object h rt
  unfolding route_text
  route_text-object h rt =
      let inner = join (map (backend_text quote decimal h rt) (Balancer.backends rt.route.lb)) in
      ap (λ t. codes "{\"route\":" ++ (quote rt.route.prefix ++ (codes ",\"backends\":[" ++ t)))
        (ap (λ b. b ++ codes "]}") (backends_from-join h rt (Balancer.backends rt.route.lb))
          ∙ sym (append_assoc inner (codes "]") (codes "}")))

  routes_from-commas :
      (h : Heap) (i : ℕ) (rts : List Built)
      → routes_from quote decimal h (suc i) rts ≡ commas (map (object h) rts)
  unfolding routes_from separator
  routes_from-commas h i [] = refl
  routes_from-commas h i (rt ∷ rts) =
      let first : ltb 0 (suc i) ≡ true = ground arith in
      ap
        (λ (b : Bool).
          (if b then codes "," else [])
          ++ (route_text quote decimal h rt ++ routes_from quote decimal h (suc (suc i)) rts))
        first
      ∙ ap (λ t. codes "," ++ t)
          (ap₂ ◌++◌ (route_text-object h rt) (routes_from-commas h (suc i) rts))

  routes_from-join :
      (h : Heap) (rts : List Built) → routes_from quote decimal h 0 rts ≡ join (map (object h) rts)
  unfolding routes_from separator
  routes_from-join h [] = refl
  routes_from-join h (rt ∷ rts) = ap₂ ◌++◌ (route_text-object h rt) (routes_from-commas h 0 rts)

  -- The body of /backends is a JSON array with an object for each route, in their order, that holds
  -- the route's prefix and an array with an object for each of its balancer's backends: the loops put
  -- a comma between any two elements, and none elsewhere.
  backends_handler-array :
      (h : Heap) (routes : List Built)
      → backends_handler quote decimal h routes ≡ array (map (object h) routes)
  unfolding backends_handler
  backends_handler-array h routes =
      ap (λ t. codes "[" ++ (t ++ codes "]")) (routes_from-join h routes)
