-- ===== src/LoadBalancer/Weighted/Round.antt =====
-- One call of the weighted Next, seen by each entry.
use gateway_pro.Prelude.{
  ◌==◌, if◌then◌else◌, ==_refl, Bool-cases, get_elem?, All, ◌+ℤ◌, ◌-ℤ◌, wrap64, pos, pos_part,
  neg_part, ◌<ℤ◌, Int64, wrap64_of_Int64, one_part, int_laws, ℕ, zero, suc, ◌+◌, ◌*◌, ◌≡◌, sym,
  subst, ◌≢◌, inl, inr, false, some, List, [], ◌∷◌, map, arith,
}
use native.Mathlib.Nat.{mul-suc, suc-mul}
use gateway_pro.LoadBalancer.Heap.{Heap, Pick, picked, no_healthy_backend, panics}
use gateway_pro.LoadBalancer.Weighted.{WBackend, bump, charge, backend_slice}
use gateway_pro.LoadBalancer.Weighted.Scan.{Live}
use gateway_pro.LoadBalancer.Weighted.Sums.{weight_at, Positive, Low, Fits, bump-Live, bump-dead}

-- How often a backend was the answer.
abbrev pub count_picks : ℕ → List Pick → ℕ
count_picks p [] = 0
count_picks p (picked q ∷ ps) = if p == q then suc (count_picks p ps) else count_picks p ps
count_picks p (no_healthy_backend ∷ ps) = count_picks p ps
count_picks p (panics ∷ ps) = count_picks p ps

abbrev pub Distinct : List ℕ → Type 0
Distinct [] = Unit
Distinct (p ∷ ps) = All (λ q. p ≢ q) ps × Distinct ps

-- After `k` rounds with the answers `ps`, at total weight T: above -T, and
-- current = k * weight - T * (times picked).
abbrev pub Entry : Heap → ℕ → ℕ → List Pick → WBackend → Type 0
Entry h t k ps w =
    Live h w
    → Low t w
      × (pos_part w.current + t * count_picks w.backend ps
          ≡ neg_part w.current + k * weight_at h w.backend)

bump-Entry :
    (h : Heap) (t k : ℕ) (ps : List Pick) (w : WBackend)
    → (Live h w → pos 0 <ℤ (h.cell w.backend).weight)
    → (Live h w → Int64 (w.current +ℤ (h.cell w.backend).weight))
    → Entry h t k ps w
    → Entry h t (suc k) ps (bump h w)
bump-Entry h t k ps w v f e = elim (Bool-cases (h.cell w.backend).alive) [
  | inl live ↦ rw (bump-Live h w live (f live)) (λ _. (
    omega (int_laws, v live, one_part (h.cell w.backend).weight, (e live).0),
    omega (
      int_laws,
      v live,
      one_part (h.cell w.backend).weight,
      (e live).1,
      suc-mul k (weight_at h w.backend),
    ),
  ))
  | inr dead ↦ rw (bump-dead h w dead) (λ live. cc)
]

pub bump-Entries :
    (h : Heap) (t k : ℕ) (ps : List Pick) (ws : List WBackend)
    → Positive h (backend_slice ws)
    → Fits h ws
    → All (Entry h t k ps) ws
    → All (Entry h t (suc k) ps) (map (bump h) ws)
unfolding backend_slice
bump-Entries h t k ps [] v f a = tt
bump-Entries h t k ps (w ∷ ws) v f a =
    (bump-Entry h t k ps w v.0 f.0 a.0, bump-Entries h t k ps ws v.1 f.1 a.1)

unpicked :
    (h : Heap) (t k p : ℕ) (ps : List Pick) (w : WBackend)
    → p ≢ w.backend
    → Entry h t k ps w
    → Entry h t k (picked p ∷ ps) w
unpicked h t k p ps w ne e = let test : (w.backend == p) ≡ false = ground arith in rw test e

charged :
    (h : Heap) (t k : ℕ) (ps : List Pick) (w : WBackend)
    → pos 0 <ℤ w.current
    → Int64 (w.current -ℤ pos t)
    → Entry h t k ps w
    → Entry h t k (picked w.backend ∷ ps) (record w { current = wrap64 (w.current -ℤ pos t) })
charged h t k ps w up fits e =
    rw (==_refl w.backend, wrap64_of_Int64 _ fits)
      (λ live. (
        omega (int_laws, up, one_part w.current),
        omega (int_laws, (e live).1, mul-suc t (count_picks w.backend ps)),
      ))

-- Entries other than the one that is picked.
others :
    (h : Heap) (t k p : ℕ) (ps : List Pick) (ws : List WBackend)
    → All (λ q. p ≢ q) (backend_slice ws)
    → All (Entry h t k ps) ws
    → All (Entry h t k (picked p ∷ ps)) ws
unfolding backend_slice
others h t k p ps [] d a = tt
others h t k p ps (w ∷ ws) d a = (unpicked h t k p ps w d.0 a.0, others h t k p ps ws d.1 a.1)

there-ne :
    (p : ℕ) (ws : List WBackend) (i : ℕ) (e : WBackend)
    → All (λ q. p ≢ q) (backend_slice ws)
    → get_elem? ws i ≡ some e
    → p ≢ e.backend
unfolding backend_slice
there-ne p [] i e d at = cc
there-ne p (w ∷ ws) zero e d at = let same : w ≡ e = cc in subst (λ v. p ≢ v.backend) same d.0
there-ne p (w ∷ ws) (suc i) e d at = there-ne p ws i e d.1 at

pub charge-Entries :
    (h : Heap) (t k : ℕ) (ps : List Pick) (ws : List WBackend) (i : ℕ) (e : WBackend)
    → Distinct (backend_slice ws)
    → get_elem? ws i ≡ some e
    → pos 0 <ℤ e.current
    → Int64 (e.current -ℤ pos t)
    → All (Entry h t k ps) ws
    → All (Entry h t k (picked e.backend ∷ ps)) (charge i (pos t) ws)
unfolding charge backend_slice
charge-Entries h t k ps [] i e d at up fits a = cc
charge-Entries h t k ps (w ∷ ws) zero e d at up fits a =
    let same : w ≡ e = cc in
    subst (λ v. All (Entry h t k (picked v.backend ∷ ps)) (charge 0 (pos t) (w ∷ ws))) same
      (
        charged h t k ps w (subst (λ v. pos 0 <ℤ v.current) (sym same) up)
            (subst (λ v. Int64 (v.current -ℤ pos t)) (sym same) fits) a.0,
        others h t k w.backend ps ws d.0 a.1,
      )
charge-Entries h t k ps (w ∷ ws) (suc i) e d at up fits a = (
  unpicked h t k e.backend ps w (λ eq. there-ne w.backend ws i e d.0 at (sym eq)) a.0,
  charge-Entries h t k ps ws i e d.1 at up fits a.1,
)
