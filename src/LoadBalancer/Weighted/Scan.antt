-- ===== src/LoadBalancer/Weighted/Scan.antt =====
-- What the loop of the weighted Next finds.
use gateway_pro.Prelude.{
  ltb→lt, ltb→le, Bool-cases, get_elem?, All, ℤ, pos, ◌≤ℤ◌, ltb_ℤ, ℕ, zero, suc, ◌+◌, ◌≡◌, refl, ap,
  ◌∙◌, ◌⊎◌, inl, inr, true, false, Option, none, some, List, [], ◌∷◌, map, Memᴰ, arith,
}
use native.Mathlib.Nat.{zero-add}
use gateway_pro.LoadBalancer.Heap.{Heap, Pick, picked, no_healthy_backend, Sound}
use gateway_pro.LoadBalancer.Weighted.{
  WBackend, Weighted, bump, add_weight, choose, better, scan, charge, answer, next, backend_slice,
}

abbrev pub Live : Heap → WBackend → Type 0
Live h w = (h.cell w.backend).alive ≡ true

abbrev pub best_from : Heap → ℕ → Option (ℕ × ℤ) → List WBackend → Option (ℕ × ℤ)
best_from h i best [] = best
best_from h i best (w ∷ ws) = best_from h (suc i) (better h i w best) ws

abbrev pub total_from : Heap → ℤ → List WBackend → ℤ
total_from h total [] = total
total_from h total (w ∷ ws) = total_from h (add_weight h w total) ws

-- The loop is three loops.
scan_parts :
    (h : Heap) (i : ℕ) (total : ℤ) (best : Option (ℕ × ℤ)) (ws : List WBackend)
    → scan h i total best ws
      ≡ (map (bump h) ws, total_from h total ws, best_from h i best (map (bump h) ws))
unfolding scan
scan_parts h i total best [] = refl
scan_parts h i total best (w ∷ ws) =
    rw (scan_parts h (suc i) (add_weight h w total) (better h i (bump h w) best) ws)

abbrev pub AtMost : Heap → ℤ → List WBackend → Type 0
AtMost h c = All (λ w. Live h w → w.current ≤ℤ c)

AtMost-mono : (h : Heap) (c d : ℤ) (ws : List WBackend) → c ≤ℤ d → AtMost h c ws → AtMost h d ws
AtMost-mono h c d [] le a = tt
AtMost-mono h c d (w ∷ ws) le a = ((λ l. omega (arith, a.0 l)), AtMost-mono h c d ws le a.1)

-- The entry at `place` is alive and no live entry has a larger `current`.
pub record Champion (h : Heap) (ws : List WBackend) (i : ℕ) (result : Option (ℕ × ℤ)) : Type 0 where
  pub place : ℕ
  pub entry : WBackend
  pub found : result ≡ some (i + place, entry.current)
  pub there : get_elem? ws place ≡ some entry
  pub live : Live h entry
  pub top : AtMost h entry.current ws

Champion-skip :
    (h : Heap) (w : WBackend) (ws : List WBackend) (i : ℕ) (r : Option (ℕ × ℤ))
    → (c : Champion h ws (suc i) r) → (Live h w → w.current ≤ℤ c.entry.current)
    → Champion h (w ∷ ws) i r
Champion-skip h w ws i r c le = record {
  place = suc c.place;
  entry = c.entry;
  found = c.found ∙ ap (λ (n : ℕ). some (n, c.entry.current)) (omega arith);
  there = c.there;
  live = c.live;
  top = (le, c.top);
}

Champion-here :
    (h : Heap) (w : WBackend) (ws : List WBackend) (i : ℕ) (r : Option (ℕ × ℤ))
    → r ≡ some (i, w.current)
    → Live h w
    → AtMost h w.current ws
    → Champion h (w ∷ ws) i r
Champion-here h w ws i r e l a = record {
  place = 0;
  entry = w;
  found = e ∙ ap (λ (n : ℕ). some (n, w.current)) (omega arith);
  there = refl;
  live = l;
  top = ((λ _. omega arith), a);
}

better-dead :
    (h : Heap) (i : ℕ) (w : WBackend) (best : Option (ℕ × ℤ))
    → (h.cell w.backend).alive ≡ false
    → better h i w best ≡ best
unfolding better
better-dead h i w best dead = rw dead

better-Live :
    (h : Heap) (i : ℕ) (w : WBackend) (best : Option (ℕ × ℤ))
    → Live h w
    → better h i w best ≡ choose i w.current best
unfolding better
better-Live h i w best live = rw live

abbrev Outcome : Heap → ℕ → ℕ → ℤ → List WBackend → Option (ℕ × ℤ) → Type 0
Outcome h i j d ws r =
    ((r ≡ some (j, d)) × AtMost h d ws) ⊎ ((c : Champion h ws i r) × (d ≤ℤ c.entry.current))

Outcome-skip :
    (h : Heap) (i j : ℕ) (d : ℤ) (w : WBackend) (ws : List WBackend) (r : Option (ℕ × ℤ))
    → (Live h w → w.current ≤ℤ d)
    → Outcome h (suc i) j d ws r
    → Outcome h i j d (w ∷ ws) r
unfolding Champion-skip
Outcome-skip h i j d w ws r le (inl (e, a)) = inl (e, (le, a))
Outcome-skip h i j d w ws r le (inr (c, a)) =
    inr (Champion-skip h w ws i r c (λ l. omega (arith, le l)), a)

Outcome-here :
    (h : Heap) (i : ℕ) (w : WBackend) (ws : List WBackend) (r : Option (ℕ × ℤ))
    → Live h w
    → Outcome h (suc i) i w.current ws r
    → (c : Champion h (w ∷ ws) i r) × (w.current ≤ℤ c.entry.current)
unfolding Champion-here Champion-skip
Outcome-here h i w ws r l (inl (e, a)) = (Champion-here h w ws i r e l a, omega arith)
Outcome-here h i w ws r l (inr (c, a)) = (Champion-skip h w ws i r c (λ _. a), a)

best_from_live :
    (h : Heap) (i j : ℕ) (d : ℤ) (w : WBackend) (ws : List WBackend)
    → Live h w
    → Outcome h (suc i) j d ws (best_from h (suc i) (some (j, d)) ws)
    → Outcome h (suc i) i w.current ws (best_from h (suc i) (some (i, w.current)) ws)
    → Outcome h i j d (w ∷ ws) (best_from h (suc i) (choose i w.current (some (j, d))) ws)
unfolding choose
best_from_live h i j d w ws live kept taken = elim (Bool-cases (ltb_ℤ d w.current)) [
  | inl less ↦ rw less (
      let (c, a) = Outcome-here h i w ws _ live taken in inr (c, omega (arith, a, ltb→lt _ _ less)))
  | inr more ↦ rw more (Outcome-skip h i j d w ws _ (λ _. omega (arith, ltb→le _ _ more)) kept)
]

best_from_some :
    (h : Heap) (i j : ℕ) (d : ℤ) (ws : List WBackend)
    → Outcome h i j d ws (best_from h i (some (j, d)) ws)
best_from_some h i j d [] = inl (refl, tt)
best_from_some h i j d (w ∷ ws) = elim (Bool-cases (h.cell w.backend).alive) [
  | inr dead ↦
      rw (better-dead h i w (some (j, d)) dead)
        (Outcome-skip h i j d w ws _ (λ l. cc) (best_from_some h (suc i) j d ws))
  | inl live ↦ rw (better-Live h i w (some (j, d)) live) (
      best_from_live h i j d w ws live (best_from_some h (suc i) j d ws)
        (best_from_some h (suc i) i w.current ws))
]

-- The loop finds no best entry exactly if all are dead, and otherwise a largest live one.
pub best_from-none :
    (h : Heap) (i : ℕ) (ws : List WBackend)
    → ((best_from h i none ws ≡ none) × All (λ w. (h.cell w.backend).alive ≡ false) ws)
      ⊎ Champion h ws i (best_from h i none ws)
best_from-none h i [] = inl (refl, tt)
best_from-none h i (w ∷ ws) = elim (Bool-cases (h.cell w.backend).alive) [
  | inr dead ↦ rw (better-dead h i w none dead) (skip_dead dead (best_from-none h (suc i) ws))
  | inl live ↦ rw (better-Live h i w none live) (
      unfold choose in
      inr (Outcome-here h i w ws _ live (best_from_some h (suc i) i w.current ws)).0)
]
  where
    skip_dead :
        (h.cell w.backend).alive ≡ false
        → ((best_from h (suc i) none ws ≡ none) × All (λ v. (h.cell v.backend).alive ≡ false) ws)
          ⊎ Champion h ws (suc i) (best_from h (suc i) none ws)
        → ((best_from h (suc i) none ws ≡ none)
            × All (λ v. (h.cell v.backend).alive ≡ false) (w ∷ ws))
          ⊎ Champion h (w ∷ ws) i (best_from h (suc i) none ws)
    skip_dead dead (inl (e, a)) = inl (e, (dead, a))
    skip_dead dead (inr c) = inr (Champion-skip h w ws i _ c (λ l. cc))

bump-backend : (h : Heap) (w : WBackend) → (bump h w).backend ≡ w.backend
unfolding bump
bump-backend h w = ground arith

Sound-picked :
    (h : Heap) (ws : List WBackend) (i : ℕ) (entry : WBackend)
    → get_elem? (map (bump h) ws) i ≡ some entry
    → Memᴰ entry.backend (backend_slice ws)
unfolding backend_slice
Sound-picked h [] i entry e = cc
Sound-picked h (w ∷ ws) zero entry e = Memᴰ.head (ground (arith, bump-backend h w))
Sound-picked h (w ∷ ws) (suc i) entry e = Memᴰ.tail (Sound-picked h ws i entry e)

pub All-dead :
    (h : Heap) (ws : List WBackend)
    → All (λ w. (h.cell w.backend).alive ≡ false) (map (bump h) ws)
    → All (λ p. (h.cell p).alive ≡ false) (backend_slice ws)
unfolding backend_slice
All-dead h [] a = tt
All-dead h (w ∷ ws) a = (ground (arith, bump-backend h w), All-dead h ws a.1)

answer_at :
    (ws : List WBackend) (i : ℕ) (entry : WBackend)
    → get_elem? ws i ≡ some entry
    → answer ws i ≡ picked entry.backend
answer_at ws i entry e = ground arith

abbrev pub bumped : Heap → Weighted → List WBackend
bumped h w = map (bump h) w.backends

abbrev pub total : Heap → Weighted → ℤ
total h w = total_from h (pos 0) w.backends

pub next_none :
    (h : Heap) (w : Weighted)
    → best_from h 0 none (bumped h w) ≡ none
    → next h w ≡ (w, no_healthy_backend)
unfolding next
next_none h w e = rw (scan_parts h 0 (pos 0) none w.backends, e)

-- The champion is charged, and its backend is the answer.
pub next_some :
    (h : Heap) (w : Weighted)
    → (c : Champion h (bumped h w) 0 (best_from h 0 none (bumped h w)))
    → next h w
      ≡ (record w { backends = charge c.place (total h w) (bumped h w) }, picked c.entry.backend)
unfolding next
next_some h w c =
    rw (scan_parts h 0 (pos 0) none w.backends, c.found, zero-add)
      (ap
        (λ (p : Pick). (
          let v : Weighted = record w { backends = charge c.place (total h w) (bumped h w) } in v,
          p,
        ))
        (answer_at (bumped h w) c.place c.entry c.there))

-- Next answers with a live backend of the list, fails only if there is none, and never panics.
pub next-Sound : (h : Heap) (w : Weighted) → Sound h (backend_slice w.backends) (next h w).1
next-Sound h w = elim (best_from-none h 0 (bumped h w)) [
  | inl (e, dead) ↦ rw (next_none h w e) (All-dead h w.backends dead)
  | inr c ↦ rw (next_some h w c) (Sound-picked h w.backends c.place c.entry c.there, c.live)
]
