-- ===== src/LoadBalancer/LeastConn.antt =====
-- leastConn of loadbalancer.go. The loads of `inflight` during one Next are taken to be of one
-- moment.
use gateway_pro.Prelude.{
  if◌then◌else◌, ltb→lt, ltb→le, Bool-cases, All, ◌≤ℤ◌, ltb_ℤ, ℕ, ◌≡◌, refl, sym, subst, inl, inr,
  true, List, [], ◌∷◌, Memᴰ, arith,
}
use gateway_pro.Config.{BackendConfig}
use gateway_pro.LoadBalancer.Merge.{merge_backends}
use gateway_pro.LoadBalancer.Heap.{
  Heap, healthy, Pick, picked, no_healthy_backend, Sound, healthy-nil,
}

pub record LeastConn : Type 0 where
  pub backends : List ℕ

-- The loop over `alive[1:]`.
best_of : Heap → ℕ → List ℕ → ℕ
best_of h best [] = best
best_of h best (b ∷ bs) =
    best_of h (if ltb_ℤ (h.cell b).inflight (h.cell best).inflight then b else best) bs

least : Heap → List ℕ → Pick
unfolding best_of
least h [] = no_healthy_backend
least h (b ∷ bs) = picked (best_of h b bs)

unfoldable pub next : Heap → LeastConn → Pick
unfolding least
next h lc = least h (healthy h lc.backends)

abbrev Live : Heap → List ℕ → ℕ → Type 0
Live h ps p = Memᴰ p ps × ((h.cell p).alive ≡ true)

Live-cons : (h : Heap) (q : ℕ) (ps qs : List ℕ) → All (Live h ps) qs → All (Live h (q ∷ ps)) qs
Live-cons h q ps [] a = tt
Live-cons h q ps (p ∷ qs) a = ((Memᴰ.tail a.0.0, a.0.1), Live-cons h q ps qs a.1)

healthy-Live : (h : Heap) (ps : List ℕ) → All (Live h ps) (healthy h ps)
unfolding healthy
healthy-Live h [] = tt
healthy-Live h (p ∷ ps) = elim (Bool-cases (h.cell p).alive) [
  | inl ok ↦ rw ok ((Memᴰ.head refl, ok), Live-cons h p ps (healthy h ps) (healthy-Live h ps))
  | inr dead ↦ rw dead (Live-cons h p ps (healthy h ps) (healthy-Live h ps))
]

best_of-All {κ} :
    (P : ℕ → Type κ) (h : Heap) (b : ℕ) (bs : List ℕ) → P b → All P bs → P (best_of h b bs)
unfolding best_of
best_of-All P h b [] p a = p
best_of-All P h b (c ∷ bs) p a = elim (Bool-cases (ltb_ℤ (h.cell c).inflight (h.cell b).inflight)) [
  | inl less ↦ rw less (best_of-All P h c bs a.0 a.1)
  | inr more ↦ rw more (best_of-All P h b bs p a.1)
]

abbrev NoMore : Heap → ℕ → ℕ → Type 0
NoMore h p q = (h.cell p).inflight ≤ℤ (h.cell q).inflight

best_of-cons :
    (h : Heap) (b c : ℕ) (bs : List ℕ)
    → best_of h b (c ∷ bs)
      ≡ best_of h (if ltb_ℤ (h.cell c).inflight (h.cell b).inflight then c else b) bs
unfolding best_of
best_of-cons h b c bs = refl

less-or-not :
    (h : Heap) (b c : ℕ)
    → let r = if ltb_ℤ (h.cell c).inflight (h.cell b).inflight then c else b in
      NoMore h r b × NoMore h r c
less-or-not h b c = elim (Bool-cases (ltb_ℤ (h.cell c).inflight (h.cell b).inflight)) [
  | inl less ↦ rw less (omega (arith, ltb→lt _ _ less), omega arith)
  | inr more ↦ rw more (omega arith, omega (arith, ltb→le _ _ more))
]

best_of-NoMore :
    (h : Heap) (b : ℕ) (bs : List ℕ)
    → NoMore h (best_of h b bs) b × All (NoMore h (best_of h b bs)) bs
best_of-NoMore h b [] = (unfold best_of in omega arith, tt)
best_of-NoMore h b (c ∷ bs) =
    let next_best = if ltb_ℤ (h.cell c).inflight (h.cell b).inflight then c else b in
    let (first, rest) = best_of-NoMore h next_best bs in
    let (low, low') = less-or-not h b c in
    subst (λ r. NoMore h r b × All (NoMore h r) (c ∷ bs)) (sym (best_of-cons h b c bs))
      (omega (arith, first, low), (omega (arith, first, low'), rest))

least-Sound : (h : Heap) (ps qs : List ℕ) → healthy h ps ≡ qs → Sound h ps (least h qs)
unfolding least
least-Sound h ps [] e = healthy-nil h ps e
least-Sound h ps (b ∷ bs) e =
    let live = subst (All (Live h ps)) e (healthy-Live h ps) in
    best_of-All (Live h ps) h b bs live.0 live.1

NoMore-healthy :
    (h : Heap) (p : ℕ) (ps : List ℕ)
    → All (NoMore h p) (healthy h ps)
    → All (λ q. (h.cell q).alive ≡ true → NoMore h p q) ps
unfolding healthy
NoMore-healthy h p [] a = tt
NoMore-healthy h p (q ∷ ps) a = elim (Bool-cases (h.cell q).alive) [
  | inl ok ↦ let b = rw (ok, healthy) at a in ((λ _. b.0), NoMore-healthy h p ps b.1)
  | inr dead ↦ ((λ ok. cc), NoMore-healthy h p ps (rw (dead, healthy) at a))
]

least-NoMore : (h : Heap) (qs : List ℕ) (p : ℕ) → least h qs ≡ picked p → All (NoMore h p) qs
unfolding least
least-NoMore h [] p e = cc
least-NoMore h (b ∷ bs) p e =
    let same : best_of h b bs ≡ p = ground arith in
    let (first, rest) = best_of-NoMore h b bs in
    subst (λ r. All (NoMore h r) (b ∷ bs)) same (first, rest)

-- Backends
unfoldable pub backends_of : LeastConn → List ℕ
backends_of lc = lc.backends

-- Update
unfoldable pub update : LeastConn → List BackendConfig → Heap → LeastConn × Heap
unfolding merge_backends
update lc cfgs h =
    let (ps, h') = merge_backends lc.backends cfgs h in (record lc { backends = ps }, h')

-- Next answers with a live backend of the list, fails only if there is none, and never panics.
pub next-Sound : (h : Heap) (lc : LeastConn) → Sound h lc.backends (next h lc)
unfolding next
next-Sound h lc = least-Sound h lc.backends (healthy h lc.backends) refl

-- The answer of Next has no more requests in flight than any other live backend of the list.
pub next-least :
    (h : Heap) (lc : LeastConn) (p : ℕ)
    → next h lc ≡ picked p
    → All (λ q. (h.cell q).alive ≡ true → (h.cell p).inflight ≤ℤ (h.cell q).inflight) lc.backends
unfolding next
next-least h lc p e = NoMore-healthy h p lc.backends (least-NoMore h (healthy h lc.backends) p e)
