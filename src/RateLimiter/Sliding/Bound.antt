-- ===== src/RateLimiter/Sliding/Bound.antt =====
-- localSlidingWindow of ratelimiter.go admits at most `rate` requests of a key in any window.
use gateway_pro.Prelude.{
  ltb, leb, Bool-cases, length, keep, All, All-append, ◌-ℤ◌, ℤ, pos, leb_ℤ, ℕ, ◌+◌, ◌≤◌, ◌<◌, ◌≡◌,
  refl, sym, ap, subst, ◌∙◌, inl, inr, Bool, true, false, List, [], ◌∷◌, ◌++◌, arith,
}
use gateway_pro.RateLimiter.Results.{Verdict, allowed}
use gateway_pro.RateLimiter.Sliding.{expired, evict, refuse, admit}

abbrev pub is_recent : ℕ → ℕ → ℕ → Bool
is_recent w now t = leb now (t + w)

abbrev pub recent : ℕ → ℕ → List ℕ → ℕ
recent w now ts = length (keep (is_recent w now) ts)

abbrev pub InOrder : List ℕ → Type 0
InOrder [] = Unit
InOrder (t ∷ ts) = All (λ s. t ≤ s) ts × InOrder ts

pub expired_iff : (w now t : ℕ) → expired now (pos w) t ≡ ltb (t + w) now
unfolding expired ◌-ℤ◌
expired_iff w now t = ground arith

keep-All_recent :
    (w now t : ℕ) (ts : List ℕ) → now ≤ t + w → All (λ s. t ≤ s) ts → keep (is_recent w now) ts ≡ ts
keep-All_recent w now t [] h a = refl
keep-All_recent w now t (s ∷ ts) h a = ground (arith, keep-All_recent w now t ts h a.1)

pub evict-eq-keep :
    (w now : ℕ) (ts : List ℕ) → InOrder ts → evict now (pos w) ts ≡ keep (is_recent w now) ts
unfolding evict
evict-eq-keep w now [] s = refl
evict-eq-keep w now (t ∷ ts) s =
    ground (arith, expired_iff w now t, evict-eq-keep w now ts s.1, keep-All_recent w now t ts)

pub InOrder-evict : (now : ℕ) (w : ℤ) (ts : List ℕ) → InOrder ts → InOrder (evict now w ts)
unfolding evict
InOrder-evict now w [] s = tt
InOrder-evict now w (t ∷ ts) s = ground (arith, InOrder-evict now w ts s.1)

pub All-evict {κ} :
    (P : ℕ → Type κ) (now : ℕ) (w : ℤ) (ts : List ℕ) → All P ts → All P (evict now w ts)
unfolding evict
All-evict P now w [] a = tt
All-evict P now w (t ∷ ts) a = elim (Bool-cases (expired now w t)) [
  | inl old ↦ rw old (All-evict P now w ts a.1)
  | inr new ↦ rw new a
]

pub InOrder-concat :
    (ts : List ℕ) (now : ℕ) → InOrder ts → All (λ t. t ≤ now) ts → InOrder (ts ++ now ∷ [])
InOrder-concat [] now s p = (tt, tt)
InOrder-concat (t ∷ ts) now s p =
    (All-append _ ts (now ∷ []) s.0 (p.0, tt), InOrder-concat ts now s.1 p.1)

-- What an eviction drops is not recent later either.
recent-evict :
    (w now later : ℕ) (ts : List ℕ)
    → now ≤ later
    → recent w later (evict now (pos w) ts) ≡ recent w later ts
unfolding evict
recent-evict w now later [] h = refl
recent-evict w now later (t ∷ ts) h =
    ground (arith, expired_iff w now t, recent-evict w now later ts h)

recent-concat :
    (w later now : ℕ) (ts : List ℕ) → recent w later (ts ++ now ∷ []) ≡ recent w later (now ∷ ts)
recent-concat w later now [] = refl
recent-concat w later now (t ∷ ts) = ground (arith, recent-concat w later now ts)

-- Calls at the given times on one bucket: the bucket after them and the times of the admitted
-- calls, the newest first.
unfoldable pub run : ℤ → ℤ → List ℕ → List ℕ → List ℕ → List ℕ × List ℕ
run rate window [] ts log = (ts, log)
run rate window (now ∷ times) ts log =
    let (ts', v) = admit rate window now ts in
    run rate window times ts' (elim v [ allowed ↦ now ∷ log | _ ↦ log ])

abbrev pub Timely : ℕ → List ℕ → Type 0
Timely t [] = Unit
Timely t (now ∷ times) = (t ≤ now) × Timely now times

-- In a log, the newest time first: at each admission, it and those of the `w` nanoseconds before it
-- are at most `r`.
abbrev pub Spaced : ℕ → ℕ → List ℕ → Type 0
Spaced r w [] = Unit
Spaced r w (t ∷ older) = (recent w t (t ∷ older) ≤ r) × Spaced r w older

record Inv (r w now : ℕ) (ts log : List ℕ) : Type 0 where
  in_order : InOrder ts
  past : All (λ t. t ≤ now) ts
  agree : (later : ℕ) → now ≤ later → recent w later log ≡ recent w later ts
  spaced : Spaced r w log

All-past : {s t : ℕ} (ts : List ℕ) → s ≤ t → All (λ x. x ≤ s) ts → All (λ x. x ≤ t) ts
All-past [] h a = tt
All-past (x ∷ ts) h a = (omega arith, All-past ts h a.1)

evicted-Inv :
    (r w t now : ℕ) (ts log : List ℕ)
    → t ≤ now
    → Inv r w t ts log
    → Inv r w now (evict now (pos w) ts) log
evicted-Inv r w t now ts log h v = record {
  in_order = InOrder-evict now (pos w) ts v.in_order;
  past = All-evict _ now (pos w) ts (All-past ts h v.past);
  agree = λ later le. v.agree later (omega arith) ∙ sym (recent-evict w now later ts le);
  spaced = v.spaced;
}

admitted-Inv :
    (r w now : ℕ) (ts log : List ℕ)
    → length (keep (is_recent w now) ts) < r
    → Inv r w now ts log
    → Inv r w now (ts ++ now ∷ []) (now ∷ log)
admitted-Inv r w now ts log h v = record {
  in_order = InOrder-concat ts now v.in_order v.past;
  past = All-append _ ts (now ∷ []) v.past (omega arith, tt);
  agree = λ later le. ground (arith, v.agree later le, recent-concat w later now ts);
  spaced = (ground (arith, v.agree now), v.spaced);
}

-- One call, by the test of the code.
module _ {κ} (P : List ℕ → Verdict → Type κ) (rate window : ℤ) (now : ℕ) (ts : List ℕ) where
  pub admit_cases :
      (leb_ℤ rate (pos (length (evict now window ts))) ≡ true
        → P (evict now window ts) (refuse now window (evict now window ts)))
      → (leb_ℤ rate (pos (length (evict now window ts))) ≡ false
          → P (evict now window ts ++ now ∷ []) allowed)
      → P (admit rate window now ts).0 (admit rate window now ts).1
  unfolding admit
  admit_cases full open_ = elim (Bool-cases (leb_ℤ rate (pos (length (evict now window ts))))) [
    | inl h ↦ rw h (full h)
    | inr h ↦ rw h (open_ h)
  ]

abbrev logged : ℕ → Verdict → List ℕ → List ℕ
logged now v log = elim v [ allowed ↦ now ∷ log | _ ↦ log ]

logged-refuse :
    (now : ℕ) (window : ℤ) (ts log : List ℕ) → logged now (refuse now window ts) log ≡ log
unfolding refuse
logged-refuse now window [] log = refl
logged-refuse now window (t ∷ ts) log = refl

admit-Inv :
    (r w t now : ℕ) (ts log : List ℕ)
    → t ≤ now
    → Inv r w t ts log
    → Inv r w now (admit (pos r) (pos w) now ts).0 (logged now (admit (pos r) (pos w) now ts).1 log)
admit-Inv r w t now ts log h v =
    admit_cases (λ ts' verdict. Inv r w now ts' (logged now verdict log)) (pos r) (pos w) now ts
      (λ full. subst (Inv r w now kept) (sym (logged-refuse now (pos w) kept log)) e)
      (λ room. admitted-Inv r w now kept log (ground (arith, same)) e)
  where
    kept : List ℕ
    kept = evict now (pos w) ts

    e : Inv r w now kept log
    e = evicted-Inv r w t now ts log h v

    same : recent w now kept ≡ length kept
    same =
        recent-evict w now now ts (omega arith)
        ∙ ap length (sym (evict-eq-keep w now ts v.in_order))

run-Inv :
    (r w t : ℕ) (times ts log : List ℕ)
    → Timely t times
    → Inv r w t ts log
    → (end : ℕ) × Inv r w end
        (run (pos r) (pos w) times ts log).0
        (run (pos r) (pos w) times ts log).1
unfolding run
run-Inv r w t [] ts log h v = (t, v)
run-Inv r w t (now ∷ times) ts log h v =
    run-Inv r w now times _ _ h.1 (admit-Inv r w t now ts log h.0 v)

-- From an empty bucket, for natural `r` and `w` as rate and window, and calls at times that do not
-- fall: each admitted call and the admitted calls of the `w` nanoseconds before it are together at
-- most `r`.
pub sliding_bound :
    (r w : ℕ) (times : List ℕ) → Timely 0 times → Spaced r w (run (pos r) (pos w) times [] []).1
sliding_bound r w times h =
    (run-Inv r w 0 times [] [] h
      (record { in_order = tt; past = tt; agree = λ later le. refl; spaced = tt })).1.spaced
