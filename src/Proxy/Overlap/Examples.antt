-- ===== src/Proxy/Overlap/Examples.antt =====
-- Concrete steps of requests that overlap.
use gateway_pro.Prelude.{pos, codes, ◌≡◌, refl, true, false, none, [], ◌∷◌, arith}
use gateway_pro.Http.{Request}
use gateway_pro.LoadBalancer.Heap.{Heap, set_alive}
use gateway_pro.LoadBalancer.Balancer.{least_conn}
use gateway_pro.RateLimiter.{noop}
use gateway_pro.Proxy.{Route, Surroundings, responds}
use gateway_pro.Proxy.Overlap.{passed, advance}
use gateway_pro.Proxy.Overlap.InFlight.{
  Entry, System, moved, here, later, moves, checks, in_flight, Counts, Reach-Counts,
}

abbrev heap : Heap
heap = record {
  cell = λ p. record { url = codes "http://a"; weight = pos 1; alive = true; inflight = pos 0 };
  next = 1;
}

abbrev route : Route
route = record {
  prefix = codes "/api";
  strip = false;
  lb = least_conn (record { backends = 0 ∷ [] });
  rl = noop;
  breakers = λ u. none;
}

abbrev request : Request
request = record {
  method = codes "GET";
  path = codes "/api";
  host = codes "gateway";
  remote_addr = codes "10.0.0.1:4711";
  tls = false;
  header = [];
}

abbrev surroundings : Surroundings
surroundings = record {
  redis_reply = λ k. none;
  now = 5;
  later = 9;
  parses = λ u. true;
  outcome = λ p. responds 200;
}

-- Two requests have been let through to the same backend, and neither has been counted yet.
abbrev waiting : Entry
waiting = record { request = request; stage = passed 0 }

abbrev two : System
two = record { shared = record { heap = heap; route = route }; requests = waiting ∷ waiting ∷ [] }

two-Counts : Counts two
two-Counts q = refl

-- The second one is counted, and a health check takes the backend out.
abbrev one_counted : System
one_counted = moved two 1 waiting (advance surroundings request (passed 0) two.shared)

abbrev taken_out : System
taken_out = record one_counted {
  shared = record one_counted.shared { heap = set_alive 0 false one_counted.shared.heap };
}

Reach-Counts_example : Counts taken_out
Reach-Counts_example =
    Reach-Counts {s = two} {t = taken_out} two-Counts (omega arith)
      (later (later here (moves 1 waiting surroundings refl)) (checks 0 false))

counted_run : in_flight 0 one_counted.requests ≡ 1
unfolding advance
counted_run = refl
