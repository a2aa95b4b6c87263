-- ===== src/Proxy/Serve.antt =====
-- What one run of serveProxy does to the backends and the circuit breakers.
use gateway_pro.Prelude.{
  ltb, leb, ◌==◌, if◌then◌else◌, ==_refl, Bool-cases, ◌+ℤ◌, ◌-ℤ◌, wrap64, ℤ, pos, Int64,
  wrap64_of_Int64, one_part, eq_of_parts, int_laws, ℕ, ◌≡◌, refl, ◌∙◌, inl, inr, Bool, true, false,
  Option, none, some, arith,
}
use gateway_pro.Http.{Request}
use gateway_pro.CircuitBreaker
use gateway_pro.CircuitBreaker.{Breaker, state_open, allow_in, open_elapsed}
use gateway_pro.LoadBalancer.Heap.{
  Heap, Pick, picked, no_healthy_backend, panics, set_alive, inc, dec, write,
}
use gateway_pro.RateLimiter.Results.{Verdict, allowed, limited}
use gateway_pro.Proxy.{
  Route, Served, Surroundings, Outcome, responds, fails, handle_error, modify_response, round_trip,
  forward, checked, guard, dispatch, admit_request, serve_proxy,
}

-- No count of requests in flight is at the edge of int64.
abbrev pub Countable : Heap → Type 0
Countable h = (q : ℕ) → Int64 ((h.cell q).inflight) × Int64 ((h.cell q).inflight +ℤ pos 1)

abbrev pub SameInflight : Heap → Heap → Type 0
SameInflight h h' = (q : ℕ) → (h'.cell q).inflight ≡ (h.cell q).inflight

there_and_back : (n : ℤ) → Int64 n → Int64 (n +ℤ pos 1) → wrap64 (wrap64 (n +ℤ pos 1) -ℤ pos 1) ≡ n
there_and_back n fits more =
    let one_more : n +ℤ pos 1 -ℤ pos 1 ≡ n = eq_of_parts _ _ (omega (int_laws, one_part n)) in
    rw (wrap64_of_Int64 (n +ℤ pos 1) more, one_more) (wrap64_of_Int64 n fits)

inflight-set_alive : (p : ℕ) (v : Bool) (h : Heap) → SameInflight h (set_alive p v h)
unfolding set_alive write
inflight-set_alive p v h q = ground arith

inflight-dec :
    (p : ℕ) (h h' : Heap) → Countable h → SameInflight (inc p h) h' → SameInflight h (dec p h')
unfolding inc dec write
inflight-dec p h h' c s q = elim (Bool-cases (q == p)) [
  | inl same ↦
      let here : q ≡ p = ground arith in
      let at_p : (h'.cell p).inflight ≡ wrap64 ((h.cell p).inflight +ℤ pos 1) =
        s p ∙ rw (==_refl p) refl in
      rw (same, here, at_p) (there_and_back _ (c p).0 (c p).1)
  | inr other ↦ rw other (s q ∙ rw other refl)
]

round_trip-inflight :
    (later : ℕ) (o : Outcome) (p : ℕ) (s : Served)
    → SameInflight s.heap (round_trip later o p s).heap
unfolding round_trip handle_error modify_response
round_trip-inflight later fails p s q = inflight-set_alive p false s.heap q
round_trip-inflight later (responds code) p s q = elim (Bool-cases (leb 500 code)) [
  | inl bad ↦ rw bad (inflight-set_alive p false s.heap q)
  | inr good ↦ rw good (inflight-set_alive p true s.heap q)
]

forward-inflight :
    (e : Surroundings) (p : ℕ) (s : Served)
    → Countable s.heap
    → SameInflight s.heap (forward e p s).heap
unfolding forward
forward-inflight e p s c = elim (Bool-cases (e.parses (s.heap.cell p).url)) [
  | inl ok ↦ rw ok (
      inflight-dec p s.heap _ c
        (round_trip-inflight e.later (e.outcome p) p (record s { heap = inc p s.heap })))
  | inr bad ↦ rw bad (inflight-dec p s.heap (inc p s.heap) c (λ q. refl))
]

guard-inflight :
    (e : Surroundings) (p : ℕ) (h : Heap) (rt : Route)
    → Countable h
    → SameInflight h (guard e p h rt).heap
unfolding guard
guard-inflight e p h rt c =
    elim (Bool-cases (CircuitBreaker.allow e.now (rt.breakers (h.cell p).url)).1) [
      | inl ok ↦ rw ok (forward-inflight e p (checked e p h rt) c)
      | inr other ↦ rw other (λ q. refl)
    ]

dispatch-inflight :
    (e : Surroundings) (k : Pick) (h : Heap) (rt : Route)
    → Countable h
    → SameInflight h (dispatch e k h rt).heap
unfolding dispatch
dispatch-inflight e (picked p) h rt c = guard-inflight e p h rt c
dispatch-inflight e no_healthy_backend h rt c = λ q. refl
dispatch-inflight e panics h rt c = λ q. refl

admit_request-inflight :
    (e : Surroundings) (v : Verdict) (r : Request) (h : Heap) (rt : Route)
    → Countable h
    → SameInflight h (admit_request e v r h rt).heap
unfolding admit_request
admit_request-inflight e allowed r h rt c = dispatch-inflight e _ h _ c
admit_request-inflight e (limited retry) r h rt c = λ q. refl
admit_request-inflight e Verdict.panics r h rt c = λ q. refl

-- Whatever happens to a request, and however the upstream answers, the counts of requests in
-- flight are afterwards what they were before: each Inc has its Dec. No count is near the ends of
-- int64.
serve_proxy-inflight :
    (e : Surroundings) (r : Request) (h : Heap) (rt : Route)
    → Countable h
    → SameInflight h (serve_proxy e r h rt).heap
unfolding serve_proxy
serve_proxy-inflight e r h rt c = admit_request-inflight e _ r h _ c

-- What the gateway concludes of a backend's health from an outcome.
abbrev pub answers : Outcome → Bool
answers (responds code) = ltb code 500
answers fails = false

-- The health of the backend `q`, which was `old`, after a request that was sent to `sent`.
abbrev pub judged : Surroundings → Option ℕ → ℕ → Bool → Bool
judged e none q old = old
judged e (some p) q old = if q == p then answers (e.outcome p) else old

abbrev Judged : Surroundings → Heap → Served → Type 0
Judged e h s = (q : ℕ) → (s.heap.cell q).alive ≡ judged e s.sent q (h.cell q).alive

forward-Judged :
    (e : Surroundings) (p : ℕ) (s : Served) → s.sent ≡ none → Judged e s.heap (forward e p s)
unfolding forward round_trip handle_error modify_response set_alive inc dec write
forward-Judged e p s idle q = elim (Bool-cases (e.parses (s.heap.cell p).url)) [
  | inl ok ↦ rw ok (ground arith)
  | inr bad ↦ rw (bad, idle) (ground arith)
]

guard-Judged : (e : Surroundings) (p : ℕ) (h : Heap) (rt : Route) → Judged e h (guard e p h rt)
unfolding guard
guard-Judged e p h rt =
    elim (Bool-cases (CircuitBreaker.allow e.now (rt.breakers (h.cell p).url)).1) [
      | inl ok ↦ rw ok (forward-Judged e p (checked e p h rt) refl)
      | inr other ↦ rw other (λ q. refl)
    ]

dispatch-Judged :
    (e : Surroundings) (k : Pick) (h : Heap) (rt : Route) → Judged e h (dispatch e k h rt)
unfolding dispatch
dispatch-Judged e (picked p) h rt = guard-Judged e p h rt
dispatch-Judged e no_healthy_backend h rt = λ q. refl
dispatch-Judged e panics h rt = λ q. refl

admit_request-Judged :
    (e : Surroundings) (v : Verdict) (r : Request) (h : Heap) (rt : Route)
    → Judged e h (admit_request e v r h rt)
unfolding admit_request
admit_request-Judged e allowed r h rt = dispatch-Judged e _ h _
admit_request-Judged e (limited retry) r h rt = λ q. refl
admit_request-Judged e Verdict.panics r h rt = λ q. refl

-- The backend that a request was sent to counts as alive afterwards exactly if it answered with a
-- status below 500; the health of every other backend stays, and that of all if none was asked.
pub serve_proxy-alive :
    (e : Surroundings) (r : Request) (h : Heap) (rt : Route) (q : ℕ)
    → ((serve_proxy e r h rt).heap.cell q).alive
      ≡ judged e (serve_proxy e r h rt).sent q (h.cell q).alive
unfolding serve_proxy
serve_proxy-alive e r h rt = admit_request-Judged e _ r h _
