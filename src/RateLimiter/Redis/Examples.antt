-- ===== src/RateLimiter/Redis/Examples.antt =====
-- A store of sorted sets by hand, and a Redis limiter of two requests a second on it.
use gateway_pro.Prelude.{
  ltb, if◌then◌else◌, length, get_elem?, keep, All, ℤ, pos, negsuc, text_eq, Text, codes,
  text_eq_refl, ℕ, ◌+◌, ◌*◌, ◌/◌, ◌≡◌, refl, List, [], ◌∷◌, map, arith,
}
use gateway_pro.RateLimiter.Results.{allowed}
use gateway_pro.RateLimiter.Sliding.Bound.{Spaced, run}
use gateway_pro.RateLimiter.Redis.{RedisLimiter, milliseconds, million}
use gateway_pro.RateLimiter.Redis.Script.{insert_score, above, Commands}
use gateway_pro.RateLimiter.Redis.Admitted.{admissions, redis_bound}
use gateway_pro.RateLimiter.Redis.Burst.{answers, burst_admitted}

-- What each key holds at each time.
abbrev Scores : Type 0
Scores = Text → ℕ → List ℕ

abbrev change : Text → (ℕ → List ℕ) → Scores → Scores
change key f s k = if text_eq k key then f else s k

change_self : (key : Text) (f : ℕ → List ℕ) (s : Scores) (t : ℕ) → change key f s key t ≡ f t
change_self key f s t = rw (text_eq_refl key) refl

-- What is left of `xs` at the time `t`.
abbrev until : ℕ → ℤ → List ℕ → ℕ → List ℕ
until now (pos seconds) xs t = if ltb t (now + 1000 * seconds) then xs else []
until now (negsuc n) xs t = []

abbrev sorted_sets : Commands
sorted_sets = record {
  Store = Scores;
  zremrangebyscore = λ now key cutoff s. change key (λ t. keep (above cutoff) (s key t)) s;
  zcard = λ now key s. length (s key now);
  first_score = λ now key s. get_elem? (s key now) 0;
  zadd = λ now key n s. change key (λ t. insert_score n (s key t)) s;
  expire = λ now key seconds s. change key (until now seconds (s key now)) s;
  scores = λ now key s. s key now;
  zremrangebyscore_law = λ now later key cutoff s le. change_self key _ s later;
  zcard_law = λ now key s. refl;
  first_score_law = λ now key s. refl;
  zadd_law = λ now key n s. change_self key _ s now;
  expire_law = λ now later key seconds s le positive. change_self key _ s later;
}

abbrev two_a_second : RedisLimiter
two_a_second = record {
  cfg = record {
    algorithm = codes "sliding_window";
    rate = pos 2;
    burst = pos 0;
    window = codes "1s";
    key_by = [];
    redis_url = codes "redis://r";
  };
  window = pos 1_000_000_000;
}

abbrev no_scores : Scores
no_scores k t = []

a_second : milliseconds two_a_second.window ≡ pos 1000
unfolding milliseconds
a_second = refl

abbrev times : List ℕ
times = 5_000_000 ∷ 6_000_000 ∷ 7_000_000 ∷ 1_005_000_000 ∷ []

redis_bound_example :
    (admissions sorted_sets two_a_second (codes "k") times no_scores []
      ≡ (run (pos 2) (pos 999) (map (λ now. now / million) times) [] []).1)
    × Spaced 2 999 (admissions sorted_sets two_a_second (codes "k") times no_scores [])
redis_bound_example =
    redis_bound sorted_sets two_a_second (codes "k") 999 2 a_second refl times no_scores
      (omega arith, (omega arith, (omega arith, (omega arith, tt)))) (λ later. refl)

abbrev together : List ℕ
together = 5_000_000 ∷ 5_000_001 ∷ 5_400_000 ∷ 5_999_999 ∷ []

burst_admitted_example :
    All (λ a. a ≡ allowed) (answers sorted_sets two_a_second (codes "k") together no_scores)
burst_admitted_example =
    burst_admitted sorted_sets two_a_second (codes "k") 999 2 a_second refl 5 together no_scores
      (omega arith) (refl, (refl, (refl, (refl, tt)))) refl
