-- ===== src/Health/Examples.antt =====
-- A concrete round of health checks.
use gateway_pro.Prelude.{
  if◌then◌else◌, pos, text_eq, Text, codes, ℕ, zero, suc, ◌≡◌, refl, Bool, true, false, List, [],
  ◌∷◌, ◌||◌, ◌++◌,
}
use gateway_pro.LoadBalancer.Heap.{Heap, Backend, set_alive, write}
use gateway_pro.Health.{Response, responded, failed, conclude, check_one, check_all}
use gateway_pro.Health.Rounds.{member}
use gateway_pro.Health.Running.{
  Event, ticks, returns, stops, updates, run, given, Spared, run-Spared,
}

abbrev cells : ℕ → Backend
cells zero = record { url = codes "http://a"; weight = pos 1; alive = false; inflight = pos 0 }
cells (suc p) = record { url = codes "http://b"; weight = pos 1; alive = true; inflight = pos 2 }

abbrev heap : Heap
heap = record { cell = cells; next = 2 }

-- The first backend is up again, the second one does not answer.
abbrev answer : Text → Response
answer url = if text_eq url (codes "http://a/health") then responded 204 else failed

abbrev accepts : Text → Bool
accepts url = true

abbrev both : List ℕ
both = 1 ∷ 0 ∷ []

recovered : ((check_all accepts answer both heap).cell 0).alive ≡ true
unfolding check_all check_one conclude set_alive write text_eq
recovered = refl

abbrev story : List Event
story = ticks accepts answer ∷ updates (1 ∷ []) ∷ ticks accepts answer ∷ []

run-Spared_example :
    Spared (member 1 (0 ∷ []) || given 1 story) 1 heap (run (0 ∷ []) accepts answer story heap).1
    × ((run (0 ∷ []) accepts answer (story ++ stops ∷ returns ∷ ticks accepts answer ∷ []) heap).1
        ≡ (run (0 ∷ []) accepts answer story heap).1)
run-Spared_example = run-Spared (0 ∷ []) accepts answer story (ticks accepts answer ∷ []) heap 1
