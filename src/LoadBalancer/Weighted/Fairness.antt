-- ===== src/LoadBalancer/Weighted/Fairness.antt =====
-- The invariant behind the fairness of smooth weighted round-robin, kept by each call of Next.
use gateway_pro.Prelude.{
  ltb→lt, ltb→le, Bool-cases, All, All-get_elem?, ◌+ℤ◌, ◌-ℤ◌, ℤ, pos, pos_part, neg_part, ◌≤ℤ◌,
  ◌<ℤ◌, ltb_ℤ, Int64, +ℤ_parts, -ℤ_parts, one_part, eq_of_parts, int_laws, ℕ, zero, suc, ◌+◌, ◌^◌,
  ◌≤◌, ◌<◌, ◌≡◌, refl, sym, ap, subst, ◌∙◌, inl, inr, false, none, List, [], ◌∷◌, map, arith,
}
use gateway_pro.LoadBalancer.Heap.{Heap, Pick}
use gateway_pro.LoadBalancer.Weighted.{WBackend, Weighted, bump, charge, backend_slice, next}
use gateway_pro.LoadBalancer.Weighted.Scan.{
  Live, AtMost, Champion, best_from, best_from-none, bumped, total, next_none, next_some, All-dead,
}
use gateway_pro.LoadBalancer.Weighted.Sums.{
  weight_at, live_weight, sum_live, room, Positive, AllLow, Capped, Fits, sum_high, total_from-eq,
  sum_live-bump, sum_live-charge,
}
use gateway_pro.LoadBalancer.Weighted.Round.{Distinct, Entry, bump-Entries, charge-Entries}

slice-bump : (h : Heap) (ws : List WBackend) → backend_slice (map (bump h) ws) ≡ backend_slice ws
unfolding backend_slice bump
slice-bump h [] = refl
slice-bump h (w ∷ ws) = ground (arith, slice-bump h ws)

slice-charge :
    (i : ℕ) (t : ℤ) (ws : List WBackend) → backend_slice (charge i t ws) ≡ backend_slice ws
unfolding backend_slice charge
slice-charge i t [] = refl
slice-charge zero t (w ∷ ws) = refl
slice-charge (suc i) t (w ∷ ws) = ap (◌∷◌ w.backend) (slice-charge i t ws)

pub slice-next :
    (h : Heap) (w : Weighted) → backend_slice (next h w).0.backends ≡ backend_slice w.backends
slice-next h w = elim (best_from-none h 0 (bumped h w)) [
  | inl (e, dead) ↦ rw (next_none h w e)
  | inr c ↦
      rw (next_some h w c) (slice-charge c.place (total h w) (bumped h w) ∙ slice-bump h w.backends)
]

room-slice : (t : ℕ) (ws : List WBackend) → room t (backend_slice ws) ≡ room t ws
unfolding backend_slice
room-slice t [] = refl
room-slice t (w ∷ ws) = ap (λ (n : ℕ). t + n) (room-slice t ws)

dead_weight :
    (h : Heap) (ps : List ℕ) → All (λ p. (h.cell p).alive ≡ false) ps → live_weight h ps ≡ 0
dead_weight h [] a = refl
dead_weight h (p ∷ ps) a = rw a.0 (dead_weight h ps a.1)

weights-le :
    (h : Heap) (n : ℕ) (ws : List WBackend)
    → live_weight h (backend_slice ws) ≤ n
    → All (λ w. Live h w → weight_at h w.backend ≤ n) ws
unfolding backend_slice
weights-le h n [] le = tt
weights-le h n (w ∷ ws) le = elim (Bool-cases (h.cell w.backend).alive) [
  | inl live ↦
      let le' = rw live at le in ((λ _. omega (arith, le')), weights-le h n ws (omega (arith, le')))
  | inr dead ↦ ((λ l. cc), weights-le h n ws (rw dead at le))
]

Entries-low :
    (h : Heap) (t k : ℕ) (ps : List Pick) (ws : List WBackend)
    → All (Entry h t k ps) ws
    → AllLow h t ws
Entries-low h t k ps [] a = tt
Entries-low h t k ps (w ∷ ws) a = ((λ l. (a.0 l).0), Entries-low h t k ps ws a.1)

Fits-of :
    (h : Heap) (t n : ℕ) (ws : List WBackend)
    → n + t < 2 ^ 63
    → Positive h (backend_slice ws)
    → All (λ w. Live h w → weight_at h w.backend ≤ t) ws
    → AllLow h t ws
    → Capped h n ws
    → Fits h ws
unfolding backend_slice
Fits-of h t n [] lt v le low cap = tt
Fits-of h t n (w ∷ ws) lt v le low cap = (
  (λ live. omega (
    int_laws,
    v.0 live,
    le.0 live,
    low.0 live,
    cap.0 live,
    one_part (w.current +ℤ (h.cell w.backend).weight),
    one_part (h.cell w.backend).weight,
  )),
  Fits-of h t n ws lt v.1 le.1 low.1 cap.1,
)

sum_nonpos :
    (h : Heap) (c : ℤ) (ws : List WBackend) → AtMost h c ws → c ≤ℤ pos 0 → sum_live h ws ≤ℤ pos 0
sum_nonpos h c [] a le = omega arith
sum_nonpos h c (w ∷ ws) a le = elim (Bool-cases (h.cell w.backend).alive) [
  | inl live ↦ rw live (omega (int_laws, a.0 live, sum_nonpos h c ws a.1 le))
  | inr dead ↦ rw dead (sum_nonpos h c ws a.1 le)
]

-- What holds after `k` rounds with the answers `picks`, over the backends `ptrs`.
pub record Inv (h : Heap) (ptrs : List ℕ) (k : ℕ) (w : Weighted) (picks : List Pick) : Type 0 where
  pub same : backend_slice w.backends ≡ ptrs
  pub entries : All (Entry h (live_weight h ptrs) k picks) w.backends
  pub balanced : sum_live h w.backends ≡ pos 0

module _ (h : Heap) (ptrs : List ℕ) (distinct : Distinct ptrs) (positive : Positive h ptrs)
    (some_live : 0 < live_weight h ptrs)
    (small : live_weight h ptrs + (live_weight h ptrs + room (live_weight h ptrs) ptrs)
      < 2 ^ 63) where
  abbrev t : ℕ
  t = live_weight h ptrs

  -- The facts about the entries after the loop of one round.
  record Bumped (k : ℕ) (w : Weighted) (picks : List Pick) : Type 0 where
    same : backend_slice (bumped h w) ≡ ptrs
    entries : All (Entry h t (suc k) picks) (bumped h w)
    sum : sum_live h (bumped h w) ≡ pos t
    counted : total h w ≡ pos t
    cap : Capped h (t + room t ptrs) (bumped h w)

  Bumped-Inv : (k : ℕ) (w : Weighted) (picks : List Pick) → Inv h ptrs k w picks → Bumped k w picks
  Bumped-Inv k w picks v = record {
    same = slice-bump h w.backends ∙ v.same;
    entries = entries;
    sum = sum;
    counted =
        total_from-eq h 0 w.backends positives (omega (arith, weight, small))
        ∙ ap pos (omega (arith, weight));
    cap =
        subst (λ (n : ℕ). Capped h (t + n) (bumped h w)) places'
          (sum_high h t t (bumped h w) low' below);
  }
    where
      places : room t w.backends ≡ room t ptrs
      places = sym (room-slice t w.backends) ∙ ap (room t) v.same

      weight : live_weight h (backend_slice w.backends) ≡ t
      weight = ap (live_weight h) v.same

      positives : Positive h (backend_slice w.backends)
      positives = subst (Positive h) (sym v.same) positive

      low : AllLow h t w.backends
      low = Entries-low h t k picks w.backends v.entries

      fits : Fits h w.backends
      fits =
          Fits-of h t (0 + room t w.backends) w.backends (omega (arith, places, small)) positives
            (weights-le h t w.backends (omega (arith, weight))) low
            (sum_high h t 0 w.backends low (rw v.balanced (omega arith)))

      entries : All (Entry h t (suc k) picks) (bumped h w)
      entries = bump-Entries h t k picks w.backends positives fits v.entries

      sum : sum_live h (bumped h w) ≡ pos t
      sum =
          sum_live-bump h w.backends positives fits
          ∙ rw (v.balanced, weight) (eq_of_parts _ _ (omega (arith, +ℤ_parts (pos 0) (pos t))))

      places' : room t (bumped h w) ≡ room t ptrs
      places' = sym (room-slice t (bumped h w)) ∙ ap (room t) (slice-bump h w.backends ∙ v.same)

      low' : AllLow h t (bumped h w)
      low' = Entries-low h t (suc k) picks (bumped h w) entries

      below : pos_part (sum_live h (bumped h w)) ≤ neg_part (sum_live h (bumped h w)) + t
      below = rw sum (omega arith)

  champion :
      (k : ℕ) (w : Weighted) (picks : List Pick)
      → Inv h ptrs k w picks
      → Bumped k w picks
      → Champion h (bumped h w) 0 (best_from h 0 none (bumped h w))
  champion k w picks v b = elim (best_from-none h 0 (bumped h w)) [
    | inl (e, dead) ↦ absurd (
        omega (
          arith,
          some_live,
          dead_weight h ptrs (subst (All _) v.same (All-dead h w.backends dead)),
        ))
    | inr c ↦ c
  ]

  -- The largest of the entries, whose sum is positive, is positive.
  champion_pos :
      (ws : List WBackend) (e : WBackend)
      → AtMost h e.current ws
      → sum_live h ws ≡ pos t
      → pos 0 <ℤ e.current
  champion_pos ws e top sum = elim (Bool-cases (ltb_ℤ (pos 0) e.current)) [
    | inl up ↦ ltb→lt _ _ up
    | inr down ↦
        let le : sum_live h ws ≤ℤ pos 0 =
          sum_nonpos h e.current ws top (omega (arith, ltb→le _ _ down)) in
        absurd (let le' : pos t ≤ℤ pos 0 = rw sum at le in omega (arith, le', some_live))
  ]

  pub next-Inv :
      (k : ℕ) (w : Weighted) (picks : List Pick)
      → Inv h ptrs k w picks
      → Inv h ptrs (suc k) (next h w).0 ((next h w).1 ∷ picks)
  next-Inv k w picks v =
      rw (next_some h w c, b.counted)
        (record {
          same = slice-charge c.place (pos t) (bumped h w) ∙ b.same;
          entries =
              charge-Entries h t (suc k) picks (bumped h w) c.place c.entry
                (subst Distinct (sym b.same) distinct) c.there up fits b.entries;
          balanced =
              sum_live-charge h t (bumped h w) c.place c.entry c.there c.live fits
              ∙ rw b.sum (eq_of_parts _ _ (omega (arith, -ℤ_parts (pos t) (pos t))));
        })
    where
      b : Bumped k w picks
      b = Bumped-Inv k w picks v

      c : Champion h (bumped h w) 0 (best_from h 0 none (bumped h w))
      c = champion k w picks v b

      up : pos 0 <ℤ c.entry.current
      up = champion_pos (bumped h w) c.entry c.top b.sum

      below : pos_part c.entry.current ≤ neg_part c.entry.current + (t + room t ptrs)
      below = All-get_elem? _ (bumped h w) c.place c.entry b.cap c.there c.live

      fits : Int64 (c.entry.current -ℤ pos t)
      fits = omega (
        int_laws,
        up,
        below,
        small,
        one_part c.entry.current,
        one_part (c.entry.current -ℤ pos t),
      )
