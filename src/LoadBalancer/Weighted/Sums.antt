-- ===== src/LoadBalancer/Weighted/Sums.antt =====
-- Sums over the live entries of the weighted balancer, and the bounds that keep its arithmetic
-- inside 64 bits.
use gateway_pro.Prelude.{
  if◌then◌else◌, Bool-cases, get_elem?, All, ◌+ℤ◌, ◌-ℤ◌, wrap64, ℤ, pos, pos_part, neg_part, ◌<ℤ◌,
  Int64, wrap64_of_Int64, +ℤ_parts, one_part, eq_of_parts, int_laws, ℕ, zero, suc, ◌+◌, ◌^◌, ◌≤◌,
  ◌<◌, ◌≡◌, ap, subst, ◌∙◌, inl, inr, true, false, some, List, [], ◌∷◌, map, arith,
}
use gateway_pro.LoadBalancer.Heap.{Heap}
use gateway_pro.LoadBalancer.Weighted.{WBackend, bump, add_weight, charge, backend_slice}
use gateway_pro.LoadBalancer.Weighted.Scan.{Live, total_from}

abbrev pub weight_at : Heap → ℕ → ℕ
weight_at h p = pos_part (h.cell p).weight

-- The weights of the live backends together.
abbrev pub live_weight : Heap → List ℕ → ℕ
live_weight h [] = 0
live_weight h (p ∷ ps) =
    if (h.cell p).alive then weight_at h p + live_weight h ps else live_weight h ps

abbrev pub sum_live : Heap → List WBackend → ℤ
sum_live h [] = pos 0
sum_live h (w ∷ ws) = if (h.cell w.backend).alive then w.current +ℤ sum_live h ws else sum_live h ws

-- T for each entry.
abbrev pub room {ℓ} : {A : Type ℓ} → ℕ → List A → ℕ
room t [] = 0
room t (w ∷ ws) = t + room t ws

abbrev pub Positive : Heap → List ℕ → Type 0
Positive h = All (λ p. (h.cell p).alive ≡ true → pos 0 <ℤ (h.cell p).weight)

-- Above -T.
abbrev pub Low : ℕ → WBackend → Type 0
Low t w = neg_part w.current < pos_part w.current + t

abbrev pub AllLow : Heap → ℕ → List WBackend → Type 0
AllLow h t = All (λ w. Live h w → Low t w)

abbrev pub Capped : Heap → ℕ → List WBackend → Type 0
Capped h n = All (λ w. Live h w → pos_part w.current ≤ neg_part w.current + n)

Capped-mono : (h : Heap) (m n : ℕ) (ws : List WBackend) → m ≤ n → Capped h m ws → Capped h n ws
Capped-mono h m n [] le c = tt
Capped-mono h m n (w ∷ ws) le c = ((λ l. omega (arith, c.0 l)), Capped-mono h m n ws le c.1)

sum_low :
    (h : Heap) (t : ℕ) (ws : List WBackend)
    → AllLow h t ws
    → neg_part (sum_live h ws) ≤ pos_part (sum_live h ws) + room t ws
sum_low h t [] a = omega arith
sum_low h t (w ∷ ws) a = elim (Bool-cases (h.cell w.backend).alive) [
  | inl live ↦
      rw live (omega (arith, a.0 live, sum_low h t ws a.1, +ℤ_parts w.current (sum_live h ws)))
  | inr dead ↦ rw dead (omega (arith, sum_low h t ws a.1))
]

-- Where the sum is at most S, no entry is above S + T for each entry.
pub sum_high :
    (h : Heap) (t s : ℕ) (ws : List WBackend)
    → AllLow h t ws
    → pos_part (sum_live h ws) ≤ neg_part (sum_live h ws) + s
    → Capped h (s + room t ws) ws
sum_high h t s [] a b = tt
sum_high h t s (w ∷ ws) a b = elim (Bool-cases (h.cell w.backend).alive) [
  | inl live ↦
      let b' = rw live at b in
      let parts = +ℤ_parts w.current (sum_live h ws) in
      let rest : pos_part (sum_live h ws) ≤ neg_part (sum_live h ws) + (s + t) =
        omega (arith, a.0 live, b', parts) in
      (
        (λ _. omega (arith, b', parts, sum_low h t ws a.1)),
        Capped-mono h _ _ ws (omega arith) (sum_high h t (s + t) ws a.1 rest),
      )
  | inr dead ↦
      ((λ l. cc), Capped-mono h _ _ ws (omega arith) (sum_high h t s ws a.1 (rw dead at b)))
]

add_pos :
    (a : ℕ) (b : ℤ)
    → pos 0 <ℤ b
    → a + pos_part b < 2 ^ 63
    → wrap64 (pos a +ℤ b) ≡ pos (a + pos_part b)
add_pos a b p lt =
    let same : pos a +ℤ b ≡ pos (a + pos_part b) =
      eq_of_parts _ _ (omega (arith, +ℤ_parts (pos a) b, one_part b)) in
    ap wrap64 same ∙ wrap64_of_Int64 (pos (a + pos_part b)) (omega arith)

pub total_from-eq :
    (h : Heap) (acc : ℕ) (ws : List WBackend)
    → Positive h (backend_slice ws)
    → acc + live_weight h (backend_slice ws) < 2 ^ 63
    → total_from h (pos acc) ws ≡ pos (acc + live_weight h (backend_slice ws))
unfolding backend_slice add_weight
total_from-eq h acc [] v lt = ap pos (omega arith)
total_from-eq h acc (w ∷ ws) v lt = elim (Bool-cases (h.cell w.backend).alive) [
  | inl live ↦
      let lt' : acc + (weight_at h w.backend + live_weight h (backend_slice ws)) < 2 ^ 63 =
        rw live at lt in
      rw (live, add_pos acc (h.cell w.backend).weight (v.0 live) (omega arith))
        (total_from-eq h (acc + weight_at h w.backend) ws v.1 (omega arith) ∙ ap pos (omega arith))
  | inr dead ↦ rw dead (total_from-eq h acc ws v.1 (rw dead at lt))
]

-- `bump` adds the true weight where the sum fits.
pub bump-Live :
    (h : Heap) (w : WBackend)
    → Live h w
    → Int64 (w.current +ℤ (h.cell w.backend).weight)
    → bump h w ≡ record w { current = w.current +ℤ (h.cell w.backend).weight }
unfolding bump
bump-Live h w live fits =
    rw live (ap (λ c. let v : WBackend = record w { current = c } in v) (wrap64_of_Int64 _ fits))

pub bump-dead : (h : Heap) (w : WBackend) → (h.cell w.backend).alive ≡ false → bump h w ≡ w
unfolding bump
bump-dead h w dead = rw dead

-- All sums of this round fit.
abbrev pub Fits : Heap → List WBackend → Type 0
Fits h = All (λ w. Live h w → Int64 (w.current +ℤ (h.cell w.backend).weight))

pub sum_live-bump :
    (h : Heap) (ws : List WBackend)
    → Positive h (backend_slice ws)
    → Fits h ws
    → sum_live h (map (bump h) ws) ≡ sum_live h ws +ℤ pos (live_weight h (backend_slice ws))
unfolding backend_slice
sum_live-bump h [] v f = eq_of_parts _ _ (omega (arith, +ℤ_parts (pos 0) (pos 0)))
sum_live-bump h (w ∷ ws) v f = elim (Bool-cases (h.cell w.backend).alive) [
  | inl live ↦
      rw (bump-Live h w live (f.0 live), live, sum_live-bump h ws v.1 f.1)
        (omega (int_laws, one_part (h.cell w.backend).weight, v.0 live))
  | inr dead ↦ rw (bump-dead h w dead, dead) (sum_live-bump h ws v.1 f.1)
]

-- Charging the live entry at `i`.
pub sum_live-charge :
    (h : Heap) (t : ℕ) (ws : List WBackend) (i : ℕ) (e : WBackend)
    → get_elem? ws i ≡ some e
    → Live h e
    → Int64 (e.current -ℤ pos t)
    → sum_live h (charge i (pos t) ws) ≡ sum_live h ws -ℤ pos t
unfolding charge
sum_live-charge h t [] i e at live fits = cc
sum_live-charge h t (w ∷ ws) zero e at live fits =
    let same : e ≡ w = cc in
    rw
      (
        subst (Live h) same live,
        wrap64_of_Int64 _ (subst (λ v. Int64 (v.current -ℤ pos t)) same fits),
      )
      (omega int_laws)
sum_live-charge h t (w ∷ ws) (suc i) e at live fits = elim (Bool-cases (h.cell w.backend).alive) [
  | inl ok ↦ rw (ok, sum_live-charge h t ws i e at live fits) (omega int_laws)
  | inr dead ↦ rw dead (sum_live-charge h t ws i e at live fits)
]
