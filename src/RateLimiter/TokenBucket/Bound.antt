-- ===== src/RateLimiter/TokenBucket/Bound.antt =====
-- localTokenBucket of ratelimiter.go: how many requests it admits, and when to come back.
use gateway_pro.Prelude.{
  ltb, if◌then◌else◌, ltb→le, Bool-cases, ◌+ℤ◌, ◌-ℤ◌, ◌*ℤ◌, ℤ, pos, pos_part, sub_ℕ, ◌≤ℤ◌, ℕ, suc,
  ◌+◌, ◌-◌, ◌*◌, ◌≤◌, min, ◌≡◌, refl, sym, ap, subst, ◌∙◌, inl, inr, List, [], ◌∷◌, arith,
}
use native.Mathlib.Nat.{mul_comm, mul-add, mul-zero, zero-mul}
use gateway_pro.RateLimiter.Results.{Verdict, allowed, limited}
use gateway_pro.RateLimiter.TokenBucket.{TbBucket, billion, min_ℤ, wait, refill, spend, admit, full}

-- What has come in since the last call, at a natural rate.
earned : (r last now : ℕ) → last ≤ now → sub_ℕ now last *ℤ pos r ≡ pos ((now - last) * r)
unfolding ◌*ℤ◌
earned r last now h = ground (arith, mul-zero (now - last), zero-mul r)

capacity : (burst : ℕ) → pos burst *ℤ pos billion ≡ pos (burst * billion)
unfolding ◌*ℤ◌
capacity burst = ground (arith, mul-zero burst, zero-mul billion)

-- A bucket whose tokens are the natural number `n`.
abbrev Holds : TbBucket → ℕ → Type 0
Holds b n = b.tokens ≡ pos n

pos_add : (a b : ℕ) → pos a +ℤ pos b ≡ pos (a + b)
unfolding ◌+ℤ◌
pos_add a b = ground arith

pos_sub : (a b : ℕ) → b ≤ a → pos a -ℤ pos b ≡ pos (a - b)
unfolding ◌-ℤ◌
pos_sub a b h = ground arith

refill_lem :
    (r burst now n : ℕ) (b : TbBucket)
    → Holds b n
    → b.last_fill ≤ now
    → refill (pos r) (pos burst) now b ≡ pos (min (burst * billion) (n + (now - b.last_fill) * r))
unfolding refill min_ℤ
refill_lem r burst now n b e h =
    rw (earned r b.last_fill now h, capacity burst, e, pos_add n ((now - b.last_fill) * r))
      (ground arith)

abbrev spent : ℕ → ℕ → ℕ → TbBucket × Verdict
spent r now m =
    if ltb m billion
    then (record { tokens = pos m; last_fill = now }, limited (wait (pos m) (pos r)))
    else (record { tokens = pos (m - billion); last_fill = now }, allowed)

spend_lem : (r now m : ℕ) → spend (pos r) now (pos m) ≡ spent r now m
unfolding spend
spend_lem r now m = elim (Bool-cases (ltb m billion)) [
  | inl low ↦ ground arith
  | inr enough ↦ ground (arith, pos_sub m billion)
]

-- The tokens after the refill of a bucket with `n`.
abbrev refilled : ℕ → ℕ → ℕ → ℕ → ℕ → ℕ
refilled r burst last now n = min (burst * billion) (n + (now - last) * r)

-- One call on a bucket that holds `n`, in natural numbers.
admit_lem :
    (r burst now n : ℕ) (b : TbBucket)
    → Holds b n
    → b.last_fill ≤ now
    → admit (pos r) (pos burst) now b ≡ spent r now (refilled r burst b.last_fill now n)
unfolding admit
admit_lem r burst now n b e h =
    ap (spend (pos r) now) (refill_lem r burst now n b e h)
    ∙ spend_lem r now (refilled r burst b.last_fill now n)

-- Calls at the given times on one bucket: the bucket after them, and how many were admitted.
pub run : ℤ → ℤ → List ℕ → TbBucket → TbBucket × ℕ
run rate burst [] b = (b, 0)
run rate burst (now ∷ times) b =
    let (b', v) = admit rate burst now b in
    let (b'', k) = run rate burst times b' in (b'', elim v [ allowed ↦ suc k | _ ↦ k ])

abbrev pub Timely : ℕ → List ℕ → Type 0
Timely t [] = Unit
Timely t (now ∷ times) = (t ≤ now) × Timely now times

-- From a bucket with `n`: what is admitted and what is left were there or have come in since.
record Paid (r burst n : ℕ) (b b' : TbBucket) (k : ℕ) : Type 0 where
  left : ℕ
  holds : Holds b' left
  later : b.last_fill ≤ b'.last_fill
  paid : k * billion + left ≤ n + r * (b'.last_fill - b.last_fill)
  capped : n ≤ burst * billion → left ≤ burst * billion

-- What comes in over two spans of time in a row.
two_spans :
    (r last now end : ℕ)
    → last ≤ now
    → now ≤ end
    → r * (end - now) + (now - last) * r ≡ r * (end - last)
two_spans r last now end h k = omega (
  arith,
  mul_comm (now - last) r,
  mul-add r (end - now) (now - last),
  ap (λ (x : ℕ). r * x) (let e : end - now + (now - last) ≡ end - last = omega arith in e),
)

Paid-step :
    (r burst n m c : ℕ) (b b' : TbBucket) (k : ℕ) (now : ℕ)
    → b.last_fill ≤ now
    → m + c ≤ refilled r burst b.last_fill now n
    → Paid r burst m (record { tokens = pos m; last_fill = now }) b' k
    → (j : ℕ) → j * billion ≤ k * billion + c
    → Paid r burst n b b' j
Paid-step r burst n m c b b' k now h le v j jk = record {
  left = v.left;
  holds = v.holds;
  later = omega (arith, v.later);
  paid = omega (arith, v.paid, v.later, two_spans r b.last_fill now b'.last_fill h v.later);
  capped = λ _. v.capped (omega arith);
}

abbrev counted : Verdict → ℕ → ℕ
counted v k = elim v [ allowed ↦ suc k | _ ↦ k ]

run-step :
    (rate burst : ℤ) (now : ℕ) (times : List ℕ) (b : TbBucket) (next : TbBucket × Verdict)
    → admit rate burst now b ≡ next
    → run rate burst (now ∷ times) b
      ≡ ((run rate burst times next.0).0, counted next.1 (run rate burst times next.0).1)
unfolding run
run-step rate burst now times b next e =
    ap
      (λ (p : TbBucket × Verdict).
        let (b', v) = p in
        let r : TbBucket × ℕ = run rate burst times b' in
        let out : TbBucket × ℕ = (r.0, counted v r.1) in out)
      e

run-Paid :
    (r burst n : ℕ) (times : List ℕ) (b : TbBucket)
    → Holds b n
    → Timely b.last_fill times
    → Paid r burst n b (run (pos r) (pos burst) times b).0 (run (pos r) (pos burst) times b).1
unfolding run
run-Paid r burst n [] b e h = record {
  left = n;
  holds = e;
  later = omega arith;
  paid = omega arith;
  capped = λ c. c;
}
run-Paid r burst n (now ∷ times) b e h =
    let m = refilled r burst b.last_fill now n in
    let kept : TbBucket = record { tokens = pos m; last_fill = now } in
    let less : TbBucket = record { tokens = pos (m - billion); last_fill = now } in
    let ih = run-Paid r burst m times kept refl h.1 in
    let ih' = run-Paid r burst (m - billion) times less refl h.1 in
    let call = admit_lem r burst now n b e h.0 in
    elim (Bool-cases (ltb m billion)) [
      | inl low ↦
          let next : spent r now m ≡ (kept, limited (wait (pos m) (pos r))) = rw low in
          subst (λ (o : TbBucket × ℕ). Paid r burst n b o.0 o.1)
            (sym (run-step (pos r) (pos burst) now times b _ (call ∙ next)))
            (Paid-step r burst n m 0 b _ _ now h.0 (omega arith) ih _ (omega arith))
      | inr enough ↦
          let next : spent r now m ≡ (less, allowed) = rw enough in
          subst (λ (o : TbBucket × ℕ). Paid r burst n b o.0 o.1)
            (sym (run-step (pos r) (pos burst) now times b _ (call ∙ next)))
            (Paid-step r burst n (m - billion) billion b _ _ now h.0
              (omega (arith, ltb→le m billion enough)) ih' _ (omega arith))
    ]

-- From a full bucket at time `t`, at calls whose times do not fall, for a natural rate and burst:
-- the tokens never fall below 0, `k` admitted requests and what is left are covered by the burst
-- and by `rate` a second since then, and the bucket never holds more than the burst.
pub token_bound :
    (r burst t : ℕ) (times : List ℕ)
    → Timely t times
    → let (b, k) = run (pos r) (pos burst) times (full (pos burst) t) in
      (k * billion + pos_part b.tokens ≤ burst * billion + r * (b.last_fill - t))
      × (pos 0 ≤ℤ b.tokens)
      × (pos_part b.tokens ≤ burst * billion)
token_bound r burst t times h =
    let v = run-Paid r burst (burst * billion) times (full (pos burst) t) (capacity burst) h in
    rw v.holds (omega (arith, v.paid), omega arith, v.capped (omega arith))
