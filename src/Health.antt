-- ===== src/Health.antt =====
-- internal/health/health.go: one round of health checks. The goroutines of a round each write one
-- alive flag, so a round is its checks in some order.
pub mod Rounds
pub mod Running
mod Examples
use gateway_pro.Prelude.{ltb, if◌then◌else◌, Text, codes, ℕ, Bool, false, List, [], ◌∷◌, ◌++◌}
use gateway_pro.LoadBalancer.Heap.{Heap, set_alive}

-- What `c.client.Do` returns: a response with its status, or an error.
pub data Response : Type 0 where
  responded : ℕ → Response
  failed : Response

-- `http.NewRequestWithContext` accepts a URL or not, and a request to a URL has an answer.
module _ (accepts : Text → Bool) (answer : Text → Response) where
  -- After `c.client.Do`.
  pub conclude : Response → ℕ → Heap → Heap
  conclude failed p h = set_alive p false h
  conclude (responded code) p h = set_alive p (ltb code 500) h

  -- checkOne
  pub check_one : ℕ → Heap → Heap
  unfolding conclude
  check_one p h =
      let url = (h.cell p).url ++ codes "/health" in
      if accepts url then conclude (answer url) p h else set_alive p false h

  -- checkAll
  pub check_all : List ℕ → Heap → Heap
  unfolding check_one
  check_all [] h = h
  check_all (p ∷ ps) h = check_all ps (check_one p h)
