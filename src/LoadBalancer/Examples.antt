-- ===== src/LoadBalancer/Examples.antt =====
-- Concrete runs of loadbalancer.go.
use gateway_pro.Prelude.{
  length, take, drop, All, ◌+ℤ◌, ◌-ℤ◌, wrap64, pos, ◌≤ℤ◌, text_eq, codes, ℕ, zero, suc, ◌%◌, ◌≡◌,
  refl, true, false, List, [], ◌∷◌, ◌++◌, map, arith,
}
use gateway_pro.Config.{BackendConfig}
use gateway_pro.Http.{Request}
use gateway_pro.LoadBalancer.Heap.{Heap, Backend, allocate, write, healthy, picked, Sound}
use gateway_pro.LoadBalancer.RoundRobin
use gateway_pro.LoadBalancer.RoundRobin.{RoundRobin, one_round, picks}
use gateway_pro.LoadBalancer.LeastConn
use gateway_pro.LoadBalancer.LeastConn.{LeastConn, next-least}
use gateway_pro.LoadBalancer.IpHash.{IpHash}
use gateway_pro.LoadBalancer.Weighted
use gateway_pro.LoadBalancer.Weighted.{Weighted, new_weighted}
use gateway_pro.LoadBalancer.Weighted.Scan.{Live}
use gateway_pro.LoadBalancer.Weighted.Sums.{weight_at, live_weight}
use gateway_pro.LoadBalancer.Weighted.Round.{count_picks}
use gateway_pro.LoadBalancer.Weighted.Cycle.{rounds, weighted_cycle}
use gateway_pro.LoadBalancer.Merge.{by_url, merge_backends, Kept}
use gateway_pro.LoadBalancer.Merge.Merged.{AllMerged, merge_backends_lem}
use gateway_pro.LoadBalancer.Balancer
use gateway_pro.LoadBalancer.Balancer.{Balancer, round_robin, backends, update, next-Sound}

-- Three backends; the second one is down.
abbrev cells : ℕ → Backend
cells zero = record { url = codes "http://a"; weight = pos 3; alive = true; inflight = pos 4 }
cells (suc zero) = record {
  url = codes "http://b";
  weight = pos 1;
  alive = false;
  inflight = pos 0;
}
cells (suc (suc p)) = record {
  url = codes "http://c";
  weight = pos 1;
  alive = true;
  inflight = pos 2;
}

abbrev three : Heap
three = record { cell = cells; next = 3 }

abbrev list : List ℕ
list = 0 ∷ 1 ∷ 2 ∷ []

abbrev rr : RoundRobin
rr = record { backends = list; counter = 5 }

rr_run : picks 3 three rr ≡ picked 2 ∷ picked 0 ∷ picked 2 ∷ []
unfolding picks RoundRobin.next healthy
rr_run = refl

one_round_example :
    picks (length (healthy three list)) three rr
    ≡ map picked (
        drop (5 % length (healthy three list)) (healthy three list)
        ++ take (5 % length (healthy three list)) (healthy three list))
unfolding healthy
one_round_example = one_round three rr (omega arith) (omega arith)

abbrev lc : LeastConn
lc = record { backends = list }

lc_run : LeastConn.next three lc ≡ picked 2
unfolding LeastConn.next healthy
lc_run = refl

next-least_example :
    All (λ q. (three.cell q).alive ≡ true → (three.cell 2).inflight ≤ℤ (three.cell q).inflight) list
next-least_example = next-least three lc 2 lc_run

abbrev request : Request
request = record {
  method = codes "GET";
  path = codes "/api";
  host = codes "gateway";
  remote_addr = codes "10.0.0.1:4711";
  tls = false;
  header = ("X-Real-IP", codes "9.9.9.9") ∷ [];
}

abbrev other_request : Request
other_request = record request { path = codes "/other"; remote_addr = codes "10.0.0.2:99" }

abbrev hashed : IpHash
hashed = record { backends = list }

cycle_run : (rounds 4 three (new_weighted list)).1 ≡ picked 0 ∷ picked 2 ∷ picked 0 ∷ picked 0 ∷ []
unfolding rounds new_weighted Weighted.next ◌+ℤ◌ ◌-ℤ◌ wrap64
cycle_run = refl

list-Distinct : Weighted.Round.Distinct list
list-Distinct = (
  ((λ e. omega (arith, e)), ((λ e. omega (arith, e)), tt)),
  (((λ e. omega (arith, e)), tt), (tt, tt)),
)

weighted_cycle_example :
    let (w, ps) = rounds (live_weight three list) three (new_weighted list) in
    All (λ p. (three.cell p).alive ≡ true → count_picks p ps ≡ weight_at three p) list
    × All (λ v. Live three v → v.current ≡ pos 0) w.backends
weighted_cycle_example =
    weighted_cycle three list list-Distinct
      ((λ _. omega arith), ((λ _. omega arith), ((λ _. omega arith), tt))) (omega arith)
      (omega arith)

-- A reload that drops the second backend, gives the first one another weight and adds one.
abbrev reloaded : List BackendConfig
reloaded =
    record { url = codes "http://d"; weight = pos 1 }
    ∷ record { url = codes "http://a"; weight = pos 7 }
    ∷ []

merge_run : (merge_backends list reloaded three).0 ≡ 3 ∷ 0 ∷ []
unfolding merge_backends by_url allocate write text_eq
merge_run = refl

merge_backends_lem_example :
    let (ps, h') = merge_backends list reloaded three in
    Kept three h' × AllMerged three list reloaded h' ps reloaded
merge_backends_lem_example =
    merge_backends_lem three list reloaded (omega arith, (omega arith, (omega arith, tt)))

next-Sound_example : Sound three list (Balancer.next three (round_robin rr) request).1
unfolding backends
next-Sound_example = next-Sound three (round_robin rr) request (omega arith)
