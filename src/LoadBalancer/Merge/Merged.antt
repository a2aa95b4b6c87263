-- ===== src/LoadBalancer/Merge/Merged.antt =====
-- What mergeBackends of loadbalancer.go makes of the backends that are there.
use gateway_pro.Prelude.{
  ◌==◌, Bool-cases, Option-cases, All, pos, text_eq, Text, text_eq_iff, ℕ, ◌≤◌, ◌<◌, ◌≡◌, refl, sym,
  subst, ◌∙◌, ◌≢◌, ◌⊎◌, inl, inr, true, Option, none, some, List, [], ◌∷◌, Memᴰ, arith,
}
use gateway_pro.Config.{BackendConfig}
use gateway_pro.LoadBalancer.Heap.{Heap, write, allocate}
use gateway_pro.LoadBalancer.Merge.{
  by_url, place, merge, merge_backends, Kept, AllPlaced, Leads, by_url-Leads, Leads-Kept,
  place-Kept, place-Placed, merge_lem,
}

by_url-some :
    (h : Heap) (ps : List ℕ) (u : Text) (p : ℕ)
    → by_url h ps u ≡ some p
    → Memᴰ p ps × ((h.cell p).url ≡ u)
unfolding by_url
by_url-some h [] u p e = cc
by_url-some h (q ∷ ps) u p e = elim (Option-cases (by_url h ps u)) [
  | inl missing ↦ elim (Bool-cases (text_eq (h.cell q).url u)) [
    | inl same ↦
        let here : q ≡ p = ground arith in
        (
          Memᴰ.head (sym here),
          subst (λ r. (h.cell r).url ≡ u) here ((text_eq_iff (h.cell q).url u).0 same),
        )
    | inr other ↦ absurd (ground arith)
  ]
  | inr (r, later) ↦ let (m, url) = by_url-some h ps u p (ground arith) in (Memᴰ.tail m, url)
]

by_url-none :
    (h : Heap) (ps : List ℕ) (u : Text) → by_url h ps u ≡ none → All (λ p. (h.cell p).url ≢ u) ps
unfolding by_url
by_url-none h [] u e = tt
by_url-none h (p ∷ ps) u e =
    ((λ same. ground (arith, text_eq_iff (h.cell p).url u)), by_url-none h ps u (ground arith))

-- What `p` is for the entry `c`: a backend of `existing` that has the entry's URL; or, where none of
-- them has it, a new one, which is alive and has no requests in flight.
abbrev pub OldOrNew : Heap → List ℕ → Heap → ℕ → BackendConfig → Type 0
OldOrNew h existing h' p c =
    (Memᴰ p existing × ((h.cell p).url ≡ c.url))
    ⊎ (All (λ q. (h.cell q).url ≢ c.url) existing
        × (h.next ≤ p)
        × ((h'.cell p).alive ≡ true)
        × ((h'.cell p).inflight ≡ pos 0))

-- The weight is that of an entry with the URL: of the only one, if the URLs of the entries differ.
abbrev pub Weighs : Heap → List BackendConfig → ℕ → Text → Type 0
Weighs h cfgs p u = (c : BackendConfig) × Memᴰ c cfgs × (c.url ≡ u) × ((h.cell p).weight ≡ c.weight)

abbrev pub AllMerged :
    Heap → List ℕ → List BackendConfig → Heap → List ℕ → List BackendConfig → Type 0
AllMerged h existing cfgs h' [] [] = Unit
AllMerged h existing cfgs h' (p ∷ ps) (c ∷ cs) =
    (((h'.cell p).url ≡ c.url) × OldOrNew h existing h' p c × Weighs h' cfgs p c.url)
    × AllMerged h existing cfgs h' ps cs
AllMerged h existing cfgs h' _ _ = ⊥

-- The weights of the old cells stay, or are set to that of an entry with the cell's URL.
abbrev Reweighed : List BackendConfig → Heap → Heap → Type 0
Reweighed cfgs h h' =
    (p : ℕ)
    → p < h.next
    → ((h'.cell p).weight ≡ (h.cell p).weight) ⊎ Weighs h' cfgs p (h.cell p).url

place-old :
    (found : Option ℕ) (c : BackendConfig) (h : Heap)
    → ((p : ℕ) → found ≡ some p → (p < h.next) × ((h.cell p).url ≡ c.url))
    → (q : ℕ) → q < h.next
    → (((place found c h).1.cell q).weight ≡ (h.cell q).weight)
      ⊎ ((((place found c h).1.cell q).weight ≡ c.weight) × ((h.cell q).url ≡ c.url))
unfolding place allocate write
place-old none c h l q lt = ground arith
place-old (some p) c h l q lt = elim (Bool-cases (q == p)) [
  | inl here ↦
      let same : q ≡ p = ground arith in
      inr (rw here refl, subst (λ r. (h.cell r).url ≡ c.url) (sym same) (l p refl).1)
  | inr other ↦ inl (rw other refl)
]

place_weight :
    (found : Option ℕ) (c : BackendConfig) (h : Heap)
    → ((place found c h).1.cell (place found c h).0).weight ≡ c.weight
unfolding place allocate write
place_weight none c h = ground arith
place_weight (some q) c h = ground arith

Reweighed-place :
    (all : List BackendConfig) (found : Option ℕ) (c : BackendConfig) (h h' : Heap)
    → ((p : ℕ) → found ≡ some p → (p < h.next) × ((h.cell p).url ≡ c.url))
    → Memᴰ c all
    → Reweighed all (place found c h).1 h'
    → Reweighed all h h'
Reweighed-place all found c h h' l m later p lt =
    let k = place-Kept found c h in
    elim (later p (omega (arith, k.grows, lt))) [
      | inr w ↦ inr (subst (Weighs h' all p) (k.url p lt) w)
      | inl same ↦ elim (place-old found c h l p lt) [
        | inl still ↦ inl (same ∙ still)
        | inr (set, url) ↦ inr (c, m, sym url, same ∙ set)
      ]
    ]

abbrev AllWeigh : Heap → List BackendConfig → List ℕ → List BackendConfig → Type 0
AllWeigh h cfgs [] [] = Unit
AllWeigh h cfgs (p ∷ ps) (c ∷ cs) = Weighs h cfgs p c.url × AllWeigh h cfgs ps cs
AllWeigh h cfgs _ _ = ⊥

merge_weights :
    (all : List BackendConfig) (h : Heap) (by : Text → Option ℕ) (cs : List BackendConfig)
    → Leads h by
    → ((c : BackendConfig) → Memᴰ c cs → Memᴰ c all)
    → Reweighed all h (merge by cs h).1 × AllWeigh (merge by cs h).1 all (merge by cs h).0 cs
unfolding merge
merge_weights all h by [] l within = ((λ p lt. inl refl), tt)
merge_weights all h by (c ∷ cs) l within =
    let (p, h') = place (by c.url) c h in
    let here = within c (Memᴰ.head refl) in
    let v = place-Placed (by c.url) c h (l c.url) in
    let (later, rest) =
      merge_weights all h' by cs (Leads-Kept h h' by (place-Kept (by c.url) c h) l)
        (λ d m. within d (Memᴰ.tail m)) in
    (
      Reweighed-place all (by c.url) c h (merge by cs h').1 (l c.url) here later,
      (
        elim (later p v.below) [
          | inl same ↦ (c, here, refl, same ∙ place_weight (by c.url) c h)
          | inr w ↦ subst (Weighs (merge by cs h').1 all p) v.url w
        ],
        rest,
      ),
    )

AllPlaced-AllMerged :
    (h h' : Heap) (existing : List ℕ) (cfgs : List BackendConfig) (ps : List ℕ)
    (cs : List BackendConfig)
    → AllPlaced h (by_url h existing) h' ps cs
    → AllWeigh h' cfgs ps cs
    → AllMerged h existing cfgs h' ps cs
AllPlaced-AllMerged h h' existing cfgs [] [] placed weigh = tt
AllPlaced-AllMerged h h' existing cfgs (p ∷ ps) (c ∷ cs) (v, placed) (w, weigh) = (
  (
    v.url,
    elim v.old_or_new [
      | inl found ↦ inl (by_url-some h existing c.url p found)
      | inr (missing, new, alive, idle) ↦
          inr (by_url-none h existing c.url missing, new, alive, idle)
    ],
    w,
  ),
  AllPlaced-AllMerged h h' existing cfgs ps cs placed weigh,
)
AllPlaced-AllMerged h h' existing cfgs [] (c ∷ cs) placed weigh = absurd placed
AllPlaced-AllMerged h h' existing cfgs (p ∷ ps) [] placed weigh = absurd placed

-- On a list of allocated backends, mergeBackends keeps the URL, health and load of every backend
-- that is there, and its list has for each entry of the configuration, in order, a backend of the
-- entry's URL: one of the old list, or, where no old backend has that URL, a new one that is alive
-- and idle. The backend has the weight of the entry, or of another entry with the same URL.
pub merge_backends_lem :
    (h : Heap) (existing : List ℕ) (cfgs : List BackendConfig)
    → All (λ p. p < h.next) existing
    → let (ps, h') = merge_backends existing cfgs h in
      Kept h h' × AllMerged h existing cfgs h' ps cfgs
unfolding merge_backends
merge_backends_lem h existing cfgs a =
    let leads = by_url-Leads h existing a in
    let (kept, placed) = merge_lem h h (by_url h existing) cfgs (omega arith) leads in
    let (old, weigh) = merge_weights cfgs h (by_url h existing) cfgs leads (λ c m. m) in
    (
      kept,
      AllPlaced-AllMerged h (merge (by_url h existing) cfgs h).1 existing cfgs
          (merge (by_url h existing) cfgs h).0 cfgs placed weigh,
    )
