-- ===== src/LoadBalancer/Merge.antt =====
-- mergeBackends of loadbalancer.go: a new configuration over the backends that are there.
pub mod Merged
use gateway_pro.Prelude.{
  ◌==◌, if◌then◌else◌, Bool-cases, Option-cases, All, pos, text_eq, Text, text_eq_iff, ℕ, ◌≤◌, ◌<◌,
  ◌≡◌, refl, sym, subst, ◌∙◌, ◌≢◌, ◌⊎◌, inl, inr, true, Option, none, some, List, [], ◌∷◌, Memᴰ,
  arith,
}
use gateway_pro.Config.{BackendConfig}
use gateway_pro.LoadBalancer.Heap.{Heap, write, allocate}

-- The map `byURL`: a later backend of the same URL replaces an earlier one.
unfoldable pub by_url : Heap → List ℕ → Text → Option ℕ
by_url h [] u = none
by_url h (p ∷ ps) u = elim (by_url h ps u) [
  | some q ↦ some q
  | none ↦ if text_eq (h.cell p).url u then some p else none
]

-- One round of the loop over the configuration: an existing backend gets the new weight, for an
-- unknown URL one is allocated.
pub place : Option ℕ → BackendConfig → Heap → ℕ × Heap
place (some p) c h = (p, write h p (record (h.cell p) { weight = c.weight }))
place none c h = allocate h c

pub merge : (Text → Option ℕ) → List BackendConfig → Heap → List ℕ × Heap
unfolding place
merge by [] h = ([], h)
merge by (c ∷ cs) h =
    let (p, h') = place (by c.url) c h in let (ps, h'') = merge by cs h' in (p ∷ ps, h'')

unfoldable pub merge_backends : List ℕ → List BackendConfig → Heap → List ℕ × Heap
unfolding merge
merge_backends existing cfgs h = merge (by_url h existing) cfgs h

-- The backends of the heap `h` are there in `h'` with their URL, health and load.
pub record Kept (h h' : Heap) : Type 0 where
  pub grows : h.next ≤ h'.next
  pub url : (p : ℕ) → p < h.next → (h'.cell p).url ≡ (h.cell p).url
  pub alive : (p : ℕ) → p < h.next → (h'.cell p).alive ≡ (h.cell p).alive
  pub inflight : (p : ℕ) → p < h.next → (h'.cell p).inflight ≡ (h.cell p).inflight

-- What the backend `p` for the entry `c` is: the one that was found for its URL, or a new one,
-- which is alive and has no requests in flight.
pub record Placed (h : Heap) (found : Option ℕ) (h' : Heap) (p : ℕ) (c : BackendConfig)
    : Type 0 where
  pub below : p < h'.next
  pub url : (h'.cell p).url ≡ c.url
  pub old_or_new :
      (found ≡ some p)
      ⊎ ((found ≡ none)
          × (h.next ≤ p)
          × ((h'.cell p).alive ≡ true)
          × ((h'.cell p).inflight ≡ pos 0))

abbrev pub AllPlaced : Heap → (Text → Option ℕ) → Heap → List ℕ → List BackendConfig → Type 0
AllPlaced h by h' [] [] = Unit
AllPlaced h by h' (p ∷ ps) (c ∷ cs) = Placed h (by c.url) h' p c × AllPlaced h by h' ps cs
AllPlaced h by h' _ _ = ⊥

-- The map leads to allocated backends of the URL that is asked for.
abbrev pub Leads : Heap → (Text → Option ℕ) → Type 0
Leads h by = (u : Text) (p : ℕ) → by u ≡ some p → (p < h.next) × ((h.cell p).url ≡ u)

pub by_url-Leads : (h : Heap) (ps : List ℕ) → All (λ p. p < h.next) ps → Leads h (by_url h ps)
unfolding by_url
by_url-Leads h [] a u p e = cc
by_url-Leads h (q ∷ ps) a u p e =
    ground (arith, by_url-Leads h ps a.1 u p, text_eq_iff (h.cell q).url u)

Kept-trans : (h h' h'' : Heap) → Kept h h' → Kept h' h'' → Kept h h''
Kept-trans h h' h'' k l = record {
  grows = omega (arith, k.grows, l.grows);
  url = λ p lt. l.url p (omega (arith, k.grows)) ∙ k.url p lt;
  alive = λ p lt. l.alive p (omega (arith, k.grows)) ∙ k.alive p lt;
  inflight = λ p lt. l.inflight p (omega (arith, k.grows)) ∙ k.inflight p lt;
}

pub Leads-Kept : (h h' : Heap) (by : Text → Option ℕ) → Kept h h' → Leads h by → Leads h' by
Leads-Kept h h' by k l u p e =
    let (lt, same) = l u p e in (omega (arith, k.grows), k.url p lt ∙ same)

pub place-Kept : (found : Option ℕ) (c : BackendConfig) (h : Heap) → Kept h (place found c h).1
unfolding place allocate write
place-Kept none c h = record {
  grows = omega arith;
  url = λ p lt. ground arith;
  alive = λ p lt. ground arith;
  inflight = λ p lt. ground arith;
}
place-Kept (some q) c h = record {
  grows = omega arith;
  url = λ p lt. ground arith;
  alive = λ p lt. ground arith;
  inflight = λ p lt. ground arith;
}

pub place-Placed :
    (found : Option ℕ) (c : BackendConfig) (h : Heap)
    → ((p : ℕ) → found ≡ some p → (p < h.next) × ((h.cell p).url ≡ c.url))
    → Placed h found (place found c h).1 (place found c h).0 c
unfolding place allocate write
place-Placed none c h l = ground arith
place-Placed (some q) c h l = ground (arith, l q refl)

-- What is placed stays so while the heap is kept.
Placed-Kept :
    (h₀ h₁ h h' : Heap) (found : Option ℕ) (p : ℕ) (c : BackendConfig)
    → h₀.next ≤ h₁.next
    → Placed h₁ found h p c
    → Kept h h'
    → Placed h₀ found h' p c
Placed-Kept h₀ h₁ h h' found p c le v k = record {
  below = omega (arith, v.below, k.grows);
  url = k.url p v.below ∙ v.url;
  old_or_new = ground (arith, v.old_or_new, k.alive p v.below, k.inflight p v.below, v.below);
}

pub merge_lem :
    (h₀ h : Heap) (by : Text → Option ℕ) (cs : List BackendConfig)
    → h₀.next ≤ h.next
    → Leads h by
    → Kept h (merge by cs h).1 × AllPlaced h₀ by (merge by cs h).1 (merge by cs h).0 cs
unfolding merge
merge_lem h₀ h by [] le l = (
  record { grows = omega arith; url = λ p lt. refl; alive = λ p lt. refl; inflight = λ p lt. refl },
  tt,
)
merge_lem h₀ h by (c ∷ cs) le l =
    let h' = (place (by c.url) c h).1 in
    let k = place-Kept (by c.url) c h in
    let v = place-Placed (by c.url) c h (l c.url) in
    let (k', vs) = merge_lem h₀ h' by cs (omega (arith, k.grows)) (Leads-Kept h h' by k l) in
    (
      Kept-trans h h' (merge by cs h').1 k k',
      (Placed-Kept h₀ h h' (merge by cs h').1 (by c.url) _ c le v k', vs),
    )
