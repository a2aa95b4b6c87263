-- ===== src/LoadBalancer/Weighted/Cycle.antt =====
-- A full cycle of smooth weighted round-robin.
use gateway_pro.Prelude.{
  ltb, ltb→lt, ltb→le, Bool-cases, All, ℤ, pos, pos_part, neg_part, +ℤ_parts, eq_of_parts, int_laws,
  ℕ, zero, suc, ◌+◌, ◌*◌, ◌^◌, ◌≤◌, ◌<◌, ◌≡◌, refl, ap, subst, inl, inr, true, List, [], ◌∷◌, map,
  arith,
}
use native.Mathlib.Nat.{mul-suc, eq_of_mul-eq-mul_left, mul-le-mul_left, zero-mul}
use gateway_pro.LoadBalancer.Heap.{Heap, Pick}
use gateway_pro.LoadBalancer.Weighted.{WBackend, Weighted, backend_slice, new_weighted, next}
use gateway_pro.LoadBalancer.Weighted.Scan.{Live}
use gateway_pro.LoadBalancer.Weighted.Sums.{weight_at, live_weight, sum_live, room, Positive}
use gateway_pro.LoadBalancer.Weighted.Round.{count_picks, Distinct, Entry}
use gateway_pro.LoadBalancer.Weighted.Fairness.{Inv, next-Inv}

-- `k` calls of Next while no backend changes, the newest answer first.
unfoldable pub rounds : ℕ → Heap → Weighted → Weighted × List Pick
rounds zero h w = (w, [])
rounds (suc k) h w = let (w', picks) = rounds k h w in let (w'', p) = next h w' in (w'', p ∷ picks)

level :
    (t n wt : ℕ) (c : ℤ)
    → neg_part c < pos_part c + t
    → pos_part c + t * n ≡ neg_part c + t * wt
    → neg_part c ≤ pos_part c
level t n wt c low e = elim (Bool-cases (ltb wt n)) [
  | inl more ↦ absurd (omega (arith, mul-le-mul_left t (ltb→lt wt n more), mul-suc t wt, low, e))
  | inr fewer ↦ omega (arith, mul-le-mul_left t (ltb→le wt n fewer), e)
]

abbrev Nonneg : Heap → List WBackend → Type 0
Nonneg h = All (λ w. Live h w → neg_part w.current ≤ pos_part w.current)

sum-Nonneg :
    (h : Heap) (ws : List WBackend)
    → Nonneg h ws
    → neg_part (sum_live h ws) ≤ pos_part (sum_live h ws)
sum-Nonneg h [] a = omega arith
sum-Nonneg h (w ∷ ws) a = elim (Bool-cases (h.cell w.backend).alive) [
  | inl live ↦ rw live (omega (int_laws, a.0 live, sum-Nonneg h ws a.1))
  | inr dead ↦ rw dead (sum-Nonneg h ws a.1)
]

-- Entries that are not negative, with no sum, are zero.
All-zero :
    (h : Heap) (ws : List WBackend)
    → Nonneg h ws
    → pos_part (sum_live h ws) ≤ neg_part (sum_live h ws)
    → All (λ w. Live h w → w.current ≡ pos 0) ws
All-zero h [] a e = tt
All-zero h (w ∷ ws) a e = elim (Bool-cases (h.cell w.backend).alive) [
  | inl live ↦
      let e' = rw live at e in
      let parts = +ℤ_parts w.current (sum_live h ws) in
      (
        (λ _. eq_of_parts _ _ (omega (arith, a.0 live, e', parts, sum-Nonneg h ws a.1))),
        All-zero h ws a.1 (omega (arith, a.0 live, e', parts)),
      )
  | inr dead ↦ ((λ l. cc), All-zero h ws a.1 (rw dead at e))
]

levels :
    (h : Heap) (t : ℕ) (picks : List Pick) (ws : List WBackend)
    → All (Entry h t t picks) ws
    → Nonneg h ws
levels h t picks [] a = tt
levels h t picks (w ∷ ws) a = (
  (λ l.
      level t (count_picks w.backend picks) (weight_at h w.backend) w.current (a.0 l).0 (a.0 l).1),
  levels h t picks ws a.1,
)

shares :
    (h : Heap) (t : ℕ) (picks : List Pick) (ws : List WBackend)
    → 0 < t
    → All (Entry h t t picks) ws
    → All (λ w. Live h w → w.current ≡ pos 0) ws
    → All (λ p. (h.cell p).alive ≡ true → count_picks p picks ≡ weight_at h p) (backend_slice ws)
unfolding backend_slice
shares h t picks [] up a z = tt
shares h t picks (w ∷ ws) up a z = (
  (λ l.
      eq_of_mul-eq-mul_left t up _ _
        (omega (arith, (a.0 l).1, ap pos_part (z.0 l), ap neg_part (z.0 l)))),
  shares h t picks ws up a.1 z.1,
)

start-Entries :
    (h : Heap) (t : ℕ) (ps : List ℕ)
    → 0 < t
    → All (Entry h t 0 []) (map (λ p. record { backend = p; current = pos 0 }) ps)
start-Entries h t [] up = tt
start-Entries h t (p ∷ ps) up =
    ((λ _. (omega arith, omega (arith, zero-mul (weight_at h p)))), start-Entries h t ps up)

start-sum :
    (h : Heap) (ps : List ℕ)
    → sum_live h (map (λ p. record { backend = p; current = pos 0 }) ps) ≡ pos 0
start-sum h [] = refl
start-sum h (p ∷ ps) = elim (Bool-cases (h.cell p).alive) [
  | inl live ↦ rw (live, start-sum h ps) (eq_of_parts _ _ (omega (arith, +ℤ_parts (pos 0) (pos 0))))
  | inr dead ↦ rw dead (start-sum h ps)
]

pub start-slice :
    (ps : List ℕ) → backend_slice (map (λ p. record { backend = p; current = pos 0 }) ps) ≡ ps
unfolding backend_slice
start-slice [] = refl
start-slice (p ∷ ps) = ap (◌∷◌ p) (start-slice ps)

module _ (h : Heap) (ptrs : List ℕ) (distinct : Distinct ptrs) (positive : Positive h ptrs)
    (some_live : 0 < live_weight h ptrs)
    (small : live_weight h ptrs + (live_weight h ptrs + room (live_weight h ptrs) ptrs)
      < 2 ^ 63) where
  rounds-Inv :
      (k : ℕ) → Inv h ptrs k (rounds k h (new_weighted ptrs)).0 (rounds k h (new_weighted ptrs)).1
  unfolding rounds new_weighted
  rounds-Inv zero = record {
    same = start-slice ptrs;
    entries = start-Entries h (live_weight h ptrs) ptrs some_live;
    balanced = start-sum h ptrs;
  }
  rounds-Inv (suc k) = next-Inv h ptrs distinct positive some_live small k _ _ (rounds-Inv k)

  -- While no backend changes, as many calls of a new balancer as the live weights add up to
  -- choose every live backend exactly as often as its weight says, and leave the balancer's
  -- `current` of every live entry at 0, as it began. The backends of the list are distinct, the
  -- live ones have positive weights, and the weights are so small that nothing overflows.
  pub weighted_cycle :
      let (w, picks) = rounds (live_weight h ptrs) h (new_weighted ptrs) in
      All (λ p. (h.cell p).alive ≡ true → count_picks p picks ≡ weight_at h p) ptrs
      × All (λ v. Live h v → v.current ≡ pos 0) w.backends
  weighted_cycle =
      let t = live_weight h ptrs in
      let v = rounds-Inv t in
      let (w, picks) = rounds t h (new_weighted ptrs) in
      let zeros : All (λ u. Live h u → u.current ≡ pos 0) w.backends =
        All-zero h w.backends (levels h t picks w.backends v.entries)
          (rw v.balanced (omega arith)) in
      (subst (All _) v.same (shares h t picks w.backends some_live v.entries zeros), zeros)
