-- ===== src/LoadBalancer/Balancer.antt =====
-- The interface Balancer of loadbalancer.go with its four strategies, and the factory New.
use gateway_pro.Prelude.{
  if◌then◌else◌, length, text_eq, Text, codes, ℕ, ◌^◌, ◌<◌, ◌≡◌, refl, List, arith,
}
use gateway_pro.Config.{BackendConfig}
use gateway_pro.Http.{Request}
use gateway_pro.LoadBalancer.Heap.{Heap, build_backends, Pick, Sound}
use gateway_pro.LoadBalancer.RoundRobin
use gateway_pro.LoadBalancer.RoundRobin.{RoundRobin}
use gateway_pro.LoadBalancer.LeastConn
use gateway_pro.LoadBalancer.LeastConn.{LeastConn}
use gateway_pro.LoadBalancer.Weighted
use gateway_pro.LoadBalancer.Weighted.{Weighted, new_weighted, backend_slice}
use gateway_pro.LoadBalancer.Weighted.Scan
use gateway_pro.LoadBalancer.Weighted.Fairness.{slice-next}
use gateway_pro.LoadBalancer.Weighted.Cycle.{start-slice}
use gateway_pro.LoadBalancer.IpHash
use gateway_pro.LoadBalancer.IpHash.{IpHash}
use gateway_pro.LoadBalancer.Merge.{merge_backends}

pub data Balancer : Type 0 where
  round_robin : RoundRobin → Balancer
  least_conn : LeastConn → Balancer
  weighted : Weighted → Balancer
  ip_hash : IpHash → Balancer

-- The switch of New on the algorithm's name.
unfoldable pub strategy : Text → List ℕ → Balancer
unfolding new_weighted
strategy algorithm ps =
    if text_eq algorithm (codes "least_conn")
    then least_conn (record { backends = ps })
    else if text_eq algorithm (codes "weighted")
    then weighted (new_weighted ps)
    else if text_eq algorithm (codes "ip_hash")
    then ip_hash (record { backends = ps })
    else round_robin (record { backends = ps; counter = 0 })

unfoldable pub new : Text → List BackendConfig → Heap → Balancer × Heap
unfolding strategy build_backends
new algorithm cfgs h = let (ps, h') = build_backends cfgs h in (strategy algorithm ps, h')

unfoldable pub next : Heap → Balancer → Request → Balancer × Pick
next h (round_robin b) r = let (b', p) = RoundRobin.next h b in (round_robin b', p)
next h (least_conn b) r = (least_conn b, LeastConn.next h b)
next h (weighted b) r = let (b', p) = Weighted.next h b in (weighted b', p)
next h (ip_hash b) r = (ip_hash b, IpHash.next h b r)

unfoldable pub backends : Balancer → List ℕ
unfolding RoundRobin.backends_of LeastConn.backends_of Weighted.backends_of IpHash.backends_of
backends (round_robin b) = RoundRobin.backends_of b
backends (least_conn b) = LeastConn.backends_of b
backends (weighted b) = Weighted.backends_of b
backends (ip_hash b) = IpHash.backends_of b

unfoldable pub update : Balancer → List BackendConfig → Heap → Balancer × Heap
unfolding RoundRobin.update LeastConn.update Weighted.update IpHash.update
update (round_robin b) cfgs h = let (b', h') = RoundRobin.update b cfgs h in (round_robin b', h')
update (least_conn b) cfgs h = let (b', h') = LeastConn.update b cfgs h in (least_conn b', h')
update (weighted b) cfgs h = let (b', h') = Weighted.update b cfgs h in (weighted b', h')
update (ip_hash b) cfgs h = let (b', h') = IpHash.update b cfgs h in (ip_hash b', h')

-- Whatever the strategy, Next answers with a live backend of the balancer's list, fails only if
-- there is none, and never panics, for fewer than 2 ^ 32 backends.
pub next-Sound :
    (h : Heap) (b : Balancer) (r : Request)
    → length (backends b) < 2 ^ 32
    → Sound h (backends b) (next h b r).1
unfolding next backends
next-Sound h (round_robin b) r few = RoundRobin.next-Sound h b
next-Sound h (least_conn b) r few = LeastConn.next-Sound h b
next-Sound h (weighted b) r few = Scan.next-Sound h b
next-Sound h (ip_hash b) r few = IpHash.next-Sound h b r few

-- Next never changes a balancer's list of backends.
backends-next : (h : Heap) (b : Balancer) (r : Request) → backends (next h b r).0 ≡ backends b
unfolding next backends
backends-next h (round_robin b) r = unfold RoundRobin.next in ground arith
backends-next h (least_conn b) r = refl
backends-next h (weighted b) r = slice-next h b
backends-next h (ip_hash b) r = refl

-- After Update the balancer's list is the merged one, whatever the strategy.
backends-update :
    (b : Balancer) (cfgs : List BackendConfig) (h : Heap)
    → (backends (update b cfgs h).0 ≡ (merge_backends (backends b) cfgs h).0)
      × ((update b cfgs h).1 ≡ (merge_backends (backends b) cfgs h).1)
unfolding update backends
backends-update (round_robin b) cfgs h = (refl, refl)
backends-update (least_conn b) cfgs h = (refl, refl)
backends-update (weighted b) cfgs h = (start-slice _, refl)
backends-update (ip_hash b) cfgs h = (refl, refl)
