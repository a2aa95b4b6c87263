-- ===== src/Proxy/Overlap/Alone.antt =====
-- A request that nothing else gets in the way of.
use gateway_pro.Prelude.{
  leb, if◌then◌else◌, Bool-cases, Text, ℕ, zero, suc, ◌≡◌, refl, subst, inl, inr, arith,
}
use gateway_pro.Http.{Request}
use gateway_pro.CircuitBreaker
use gateway_pro.LoadBalancer.Heap.{Heap, Pick, picked, no_healthy_backend, panics, inc, dec, write}
use gateway_pro.LoadBalancer.Balancer
use gateway_pro.RateLimiter.Results.{Verdict, allowed, limited}
use gateway_pro.Proxy.{
  Route, Outcome, responds, fails, Reply, status, aborted, Surroundings, Served, handle_error,
  modify_response, round_trip, forward, checked, guard, dispatch, admit_request, serve_proxy,
}
use gateway_pro.Proxy.Overlap.{
  Stage, arrived, chosen, passed, counted, answered, leaving, finished, after_limit, after_pick,
  succeeds, record_outcome, reply_to, Shared, advance,
}

-- `k` steps of one request.
pub advances : ℕ → Surroundings → Request → Stage × Shared → Stage × Shared
advances zero e r x = x
advances (suc k) e r (stage, s) = advances k e r (advance e r stage s)

abbrev Ends : Surroundings → Request → ℕ → Stage → Shared → Served → Type 0
Ends e r k stage s served =
    advances k e r (stage, s)
    ≡ (finished served.reply, record { heap = served.heap; route = served.route })

finished_stays :
    (k : ℕ) (e : Surroundings) (r : Request) (reply : Reply) (s : Shared)
    → advances k e r (finished reply, s) ≡ (finished reply, s)
unfolding advances advance
finished_stays zero e r reply s = refl
finished_stays (suc k) e r reply s = finished_stays k e r reply s

url-inc : (p : ℕ) (h : Heap) → ((inc p h).cell p).url ≡ (h.cell p).url
unfolding inc write
url-inc p h = ground arith

leaving_lem :
    (k : ℕ) (e : Surroundings) (r : Request) (p : ℕ) (reply : Reply) (s : Shared)
    → advances (suc k) e r (leaving p reply, s) ≡ (finished reply, record s { heap = dec p s.heap })
unfolding advances advance
leaving_lem k e r p reply s = finished_stays k e r reply _

answered_lem :
    (e : Surroundings) (r : Request) (p : ℕ) (o : Outcome) (s : Served)
    → let s' = round_trip e.later o p s in
      advances 3 e r (answered p o, record { heap = s.heap; route = s.route })
      ≡ (finished s'.reply, record { heap = dec p s'.heap; route = s'.route })
unfolding advances advance round_trip handle_error modify_response succeeds record_outcome reply_to
answered_lem e r p fails s = refl
answered_lem e r p (responds code) s = elim (Bool-cases (leb 500 code)) [
  | inl bad ↦ rw bad refl
  | inr good ↦ rw good refl
]

counted_lem :
    (e : Surroundings) (r : Request) (p : ℕ) (s : Served)
    → let s' =
        if e.parses (s.heap.cell p).url
        then round_trip e.later (e.outcome p) p s
        else record s { reply = status 502 } in
      advances 4 e r (counted p, record { heap = s.heap; route = s.route })
      ≡ (finished s'.reply, record { heap = dec p s'.heap; route = s'.route })
unfolding advances advance
counted_lem e r p s = elim (Bool-cases (e.parses (s.heap.cell p).url)) [
  | inl ok ↦ rw ok (answered_lem e r p (e.outcome p) s)
  | inr bad ↦ rw bad (leaving_lem 2 e r p (status 502) _)
]

passed_lem :
    (e : Surroundings) (r : Request) (p : ℕ) (s : Served)
    → Ends e r 5 (passed p) (record { heap = s.heap; route = s.route }) (forward e p s)
unfolding advances advance forward
passed_lem e r p s =
    subst
      (λ (u : Text).
        let s' =
          if e.parses u
          then round_trip e.later (e.outcome p) p (record s { heap = inc p s.heap })
          else record s { heap = inc p s.heap; reply = status 502 } in
        advances 4 e r (counted p, record { heap = inc p s.heap; route = s.route })
        ≡ (finished s'.reply, record { heap = dec p s'.heap; route = s'.route }))
      (url-inc p s.heap) (counted_lem e r p (record s { heap = inc p s.heap }))

chosen_lem :
    (e : Surroundings) (r : Request) (p : ℕ) (h : Heap) (rt : Route)
    → Ends e r 6 (chosen p) (record { heap = h; route = rt }) (guard e p h rt)
unfolding advances advance guard
chosen_lem e r p h rt =
    elim (Bool-cases (CircuitBreaker.allow e.now (rt.breakers (h.cell p).url)).1) [
      | inl ok ↦ rw ok (passed_lem e r p (checked e p h rt))
      | inr other ↦ rw other (finished_stays 5 e r (status 503) _)
    ]

picked_lem :
    (e : Surroundings) (r : Request) (k : Pick) (h : Heap) (rt : Route)
    → Ends e r 6 (after_pick k) (record { heap = h; route = rt }) (dispatch e k h rt)
unfolding after_pick dispatch
picked_lem e r (picked p) h rt = chosen_lem e r p h rt
picked_lem e r no_healthy_backend h rt = finished_stays 6 e r (status 503) _
picked_lem e r panics h rt = finished_stays 6 e r aborted _

limited_lem :
    (e : Surroundings) (r : Request) (v : Verdict) (h : Heap) (rt : Route)
    → Ends e r 7 (after_limit v) (record { heap = h; route = rt }) (admit_request e v r h rt)
unfolding after_limit admit_request advances advance
limited_lem e r allowed h rt = picked_lem e r (Balancer.next h rt.lb r).1 h _
limited_lem e r (limited retry) h rt = finished_stays 7 e r (status 429) _
limited_lem e r Verdict.panics h rt = finished_stays 7 e r aborted _

-- A request whose steps nothing comes between is through after eight steps, and ends with the
-- reply, the backends and the route of serve_proxy.
advances-serve_proxy :
    (e : Surroundings) (r : Request) (h : Heap) (rt : Route)
    → advances 8 e r (arrived, record { heap = h; route = rt }) ≡ (
      finished (serve_proxy e r h rt).reply,
      record { heap = (serve_proxy e r h rt).heap; route = (serve_proxy e r h rt).route },
    )
unfolding serve_proxy advances advance
advances-serve_proxy e r h rt = limited_lem e r _ h _
