-- ===== src/RateLimiter/Redis/Window.antt =====
-- The script of the Redis limiter does on sorted sets what localSlidingWindow does on a slice.
use gateway_pro.Prelude.{
  ltb, if◌then◌else◌, Bool-cases, length, keep, All, All-append, ◌+ℤ◌, ◌-ℤ◌, ℤ, pos, leb_ℤ, Text, ℕ,
  suc, ◌+◌, ◌*◌, ◌/◌, ◌≤◌, ◌<◌, ◌≡◌, refl, sym, ap, ◌∙◌, inl, inr, some, List, [], ◌∷◌, ◌++◌, arith,
  All-map,
}
use gateway_pro.RateLimiter.Results.{Verdict, allowed, limited, panics}
use gateway_pro.RateLimiter.Sliding
use gateway_pro.RateLimiter.Sliding.{evict, refuse}
use gateway_pro.RateLimiter.Sliding.Bound.{
  is_recent, InOrder, evict-eq-keep, InOrder-evict, All-evict, InOrder-concat,
}
use gateway_pro.RateLimiter.Redis.Script.{
  insert_score, above, Commands, ceil_seconds, refusal, script,
}

above_recent : (v now x : ℕ) → above (pos now -ℤ pos (suc v)) x ≡ is_recent v now x
unfolding ◌-ℤ◌
above_recent v now x = ground arith

pub keep-above :
    (v now : ℕ) (xs : List ℕ) → keep (above (pos now -ℤ pos (suc v))) xs ≡ keep (is_recent v now) xs
keep-above v now [] = refl
keep-above v now (x ∷ xs) = rw (above_recent v now x, keep-above v now xs) refl

-- What is recent later is recent now.
keep-recent :
    (v now later : ℕ) (xs : List ℕ)
    → now ≤ later
    → keep (is_recent v later) (keep (is_recent v now) xs) ≡ keep (is_recent v later) xs
keep-recent v now later [] le = refl
keep-recent v now later (x ∷ xs) le = ground (arith, keep-recent v now later xs le)

insert_score_last : (n : ℕ) (xs : List ℕ) → All (λ x. x < n) xs → insert_score n xs ≡ xs ++ n ∷ []
insert_score_last n [] a = refl
insert_score_last n (x ∷ xs) a = ground (arith, a.0, insert_score_last n xs a.1)

-- What the window has left behind is kept by nothing.
keep_past :
    (v now later : ℕ) (xs : List ℕ)
    → All (λ x. x ≤ now) xs
    → now + v < later
    → keep (is_recent v later) xs ≡ []
keep_past v now later [] a lt = refl
keep_past v now later (x ∷ xs) a lt = ground (arith, a.0, keep_past v now later xs a.1 lt)

module _ (c : Commands) (v r : ℕ) (key : Text) where
  -- What the script replies is what the local limiter answers, with the window `v`.
  abbrev pub Answers : ℕ → List ℤ → Verdict → Type 0
  Answers now reply allowed = reply ≡ pos 1 ∷ pos 0 ∷ []
  Answers now reply (limited wait) =
      (oldest : ℕ) × (reply ≡ pos 0 ∷ pos oldest ∷ [])
      × (wait ≡ some (pos oldest +ℤ pos v -ℤ pos now))
  Answers now reply panics = reply ≡ pos 0 ∷ []

  -- At `t` and later, the key holds of what is recent just what the slice `ts` does.
  pub record Sim (t : ℕ) (s : c.Store) (ts : List ℕ) : Type 0 where
    pub in_order : InOrder ts
    pub past : All (λ x. x ≤ t) ts
    pub agree :
        (later : ℕ)
        → t ≤ later
        → keep (is_recent v later) (c.scores later key s) ≡ keep (is_recent v later) ts

  abbrev pruned : ℕ → c.Store → c.Store
  pruned now s = c.zremrangebyscore now key (pos now -ℤ pos (suc v)) s

  scores_pruned :
      (t now later : ℕ) (s : c.Store) (ts : List ℕ)
      → t ≤ now
      → now ≤ later
      → Sim t s ts
      → c.scores later key (pruned now s) ≡ keep (is_recent v now) (c.scores later key s)
  scores_pruned t now later s ts le le' sim =
      c.zremrangebyscore_law now later key (pos now -ℤ pos (suc v)) s le' ∙ keep-above v now _

  scores_now :
      (t now : ℕ) (s : c.Store) (ts : List ℕ)
      → t ≤ now
      → Sim t s ts
      → c.scores now key (pruned now s) ≡ evict now (pos v) ts
  scores_now t now s ts le sim =
      scores_pruned t now now s ts le (omega arith) sim
      ∙ sim.agree now le
      ∙ sym (evict-eq-keep v now ts sim.in_order)

  All-later : (t now : ℕ) (xs : List ℕ) → t ≤ now → All (λ x. x ≤ t) xs → All (λ x. x ≤ now) xs
  All-later t now xs le a = All-map (λ x. x ≤ t) (λ x. x ≤ now) xs (λ x h. omega (arith, h, le)) a

  pruned-Sim :
      (t now : ℕ) (s : c.Store) (ts : List ℕ)
      → t ≤ now
      → Sim t s ts
      → Sim now (pruned now s) (evict now (pos v) ts)
  pruned-Sim t now s ts le sim = record {
    in_order = InOrder-evict now (pos v) ts sim.in_order;
    past = All-evict (λ x. x ≤ now) now (pos v) ts (All-later t now ts le sim.past);
    agree = λ later le'.
        rw
          (
            scores_pruned t now later s ts le le' sim,
            keep-recent v now later (c.scores later key s) le',
            evict-eq-keep v now ts sim.in_order,
            keep-recent v now later ts le',
          )
          (sim.agree later (omega (arith, le, le')));
  }

  abbrev stored : ℕ → c.Store → c.Store
  stored now s = c.expire now key (ceil_seconds (pos (suc v))) (c.zadd now key now (pruned now s))

  -- By the time that EXPIRE lets a key go, the window has left all of its scores behind.
  stored-agree :
      (now later : ℕ) (s : c.Store) (ts : List ℕ)
      → now ≤ later
      → All (λ x. x < now) ts
      → c.scores now key (pruned now s) ≡ ts
      → keep (is_recent v later) (c.scores later key (stored now s))
        ≡ keep (is_recent v later) (ts ++ now ∷ [])
  unfolding ceil_seconds
  stored-agree now later s ts le young same =
      let held : c.scores now key (c.zadd now key now (pruned now s)) ≡ ts ++ now ∷ [] =
        c.zadd_law now key now (pruned now s)
        ∙ ap (insert_score now) same
        ∙ insert_score_last now ts young in
      let until : c.scores later key (stored now s)
          ≡ (if ltb later (now + 1000 * ((suc v + 999) / 1000)) then ts ++ now ∷ [] else []) =
        c.expire_law now later key ((suc v + 999) / 1000) (c.zadd now key now (pruned now s)) le
          (omega arith)
        ∙ ap (λ xs. if ltb later (now + 1000 * ((suc v + 999) / 1000)) then xs else []) held in
      elim (Bool-cases (ltb later (now + 1000 * ((suc v + 999) / 1000)))) [
        | inl early ↦ ap (keep (is_recent v later)) (rw early at until)
        | inr gone ↦
            let old : All (λ x. x ≤ now) (ts ++ now ∷ []) =
              All-append (λ x. x ≤ now) ts (now ∷ [])
                (All-map (λ x. x < now) (λ x. x ≤ now) ts (λ x h. omega (arith, h)) young)
                (omega arith, tt) in
            ap (keep (is_recent v later)) (rw gone at until)
            ∙ sym (keep_past v now later (ts ++ now ∷ []) old (ground (arith, gone)))
      ]

  stored-Sim :
      (t now : ℕ) (s : c.Store) (ts : List ℕ)
      → t < now
      → Sim t s ts
      → Sim now (stored now s) (evict now (pos v) ts ++ now ∷ [])
  stored-Sim t now s ts lt sim =
      let rest = evict now (pos v) ts in
      let young : All (λ x. x < now) rest =
        All-evict (λ x. x < now) now (pos v) ts
          (All-map (λ x. x ≤ t) (λ x. x < now) ts (λ x h. omega (arith, h, lt)) sim.past) in
      let old : All (λ x. x ≤ now) rest =
        All-map (λ x. x < now) (λ x. x ≤ now) rest (λ x h. omega (arith, h)) young in
      record {
        in_order = InOrder-concat rest now (InOrder-evict now (pos v) ts sim.in_order) old;
        past = All-append (λ x. x ≤ now) rest (now ∷ []) old (omega arith, tt);
        agree = λ later le.
            stored-agree now later s rest le young (scores_now t now s ts (omega (arith, lt)) sim);
      }

  refusal-Answers :
      (now : ℕ) (s : c.Store) (ts : List ℕ)
      → c.scores now key s ≡ ts
      → Answers now (refusal c (c.first_score now key s)) (refuse now (pos v) ts)
  unfolding refusal refuse
  refusal-Answers now s [] same = rw (c.first_score_law now key s, same) refl
  refusal-Answers now s (x ∷ ts) same = (x, rw (c.first_score_law now key s, same) refl, refl)

  -- One call, at a later millisecond than all before it: the script replies what the local limiter
  -- answers, and goes on to agree with it.
  pub script-admit :
      (t now : ℕ) (s : c.Store) (ts : List ℕ)
      → t < now
      → Sim t s ts
      → let (reply, s') = script c now (pos (suc v)) (pos r) key s in
        let (ts', verdict) = Sliding.admit (pos r) (pos v) now ts in
        Answers now reply verdict × Sim now s' ts'
  unfolding script Sliding.admit
  script-admit t now s ts lt sim =
      let same = scores_now t now s ts (omega (arith, lt)) sim in
      let counted : c.zcard now key (pruned now s) ≡ length (evict now (pos v) ts) =
        c.zcard_law now key (pruned now s) ∙ ap (length {A = ℕ}) same in
      elim (Bool-cases (leb_ℤ (pos r) (pos (length (evict now (pos v) ts))))) [
        | inl full ↦
            rw (script, Sliding.admit, counted, full)
              (
                refusal-Answers now (pruned now s) (evict now (pos v) ts) same,
                pruned-Sim t now s ts (omega (arith, lt)) sim,
              )
        | inr room ↦ rw (script, Sliding.admit, counted, room) (refl, stored-Sim t now s ts lt sim)
      ]
