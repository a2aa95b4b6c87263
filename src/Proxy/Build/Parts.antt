-- ===== src/Proxy/Build/Parts.antt =====
-- What a built route is made from: the balancer of Balancer.New with its backends, and the loop of
-- buildRoute over the breakers.
use gateway_pro.Prelude.{
  if◌then◌else◌, ==_refl, Bool-cases, All, pos, text_eq, Text, codes, text_eq_iff, ℕ, ◌≤◌, ◌<◌, ◌≡◌,
  refl, ap, ◌∙◌, ◌≢◌, ◌⊎◌, inl, inr, true, false, Option, none, List, [], ◌∷◌, arith,
}
use gateway_pro.Config.{BackendConfig, CircuitBreakerConfig}
use gateway_pro.CircuitBreaker
use gateway_pro.CircuitBreaker.{Breaker}
use gateway_pro.LoadBalancer.Heap.{Heap, write, allocate, build_backends}
use gateway_pro.LoadBalancer.Balancer.{
  Balancer, round_robin, least_conn, weighted, ip_hash, strategy, backends,
}
use gateway_pro.LoadBalancer.Weighted.Cycle.{start-slice}
use gateway_pro.Proxy.Build.{build_breakers}

-- No backend that is there is written to.
abbrev pub Untouched : Heap → Heap → Type 0
Untouched h h' = (h.next ≤ h'.next) × ((p : ℕ) → p < h.next → h'.cell p ≡ h.cell p)

pub Untouched-trans : (h h' h'' : Heap) → Untouched h h' → Untouched h' h'' → Untouched h h''
Untouched-trans h h' h'' u u' =
    (omega (arith, u.0, u'.0), λ p lt. u'.1 p (omega (arith, u.0)) ∙ u.1 p lt)

-- The backends of a list are those of the configuration, in their order: each alive, without
-- requests in flight, and with the URL and the weight of its entry.
abbrev pub Configured : Heap → List ℕ → List BackendConfig → Type 0
Configured h [] [] = Unit
Configured h (p ∷ ps) (c ∷ cs) =
    ((p < h.next)
      × (h.cell p ≡ record { url = c.url; weight = c.weight; alive = true; inflight = pos 0 }))
    × Configured h ps cs
Configured h _ _ = ⊥

pub Configured-Untouched :
    (h h' : Heap) (ps : List ℕ) (cs : List BackendConfig)
    → Untouched h h'
    → Configured h ps cs
    → Configured h' ps cs
Configured-Untouched h h' [] [] u a = tt
Configured-Untouched h h' (p ∷ ps) (c ∷ cs) u ((lt, here), a) =
    ((omega (arith, u.0), u.1 p lt ∙ here), Configured-Untouched h h' ps cs u a)
Configured-Untouched h h' [] (c ∷ cs) u a = absurd a
Configured-Untouched h h' (p ∷ ps) [] u a = absurd a

allocate-Untouched : (h : Heap) (c : BackendConfig) → Untouched h (allocate h c).1
unfolding allocate write
allocate-Untouched h c = (omega arith, λ p lt. ground arith)

allocate-cell :
    (h : Heap) (c : BackendConfig)
    → ((allocate h c).0 < (allocate h c).1.next)
      × ((allocate h c).1.cell (allocate h c).0
          ≡ record { url = c.url; weight = c.weight; alive = true; inflight = pos 0 })
unfolding allocate write
allocate-cell h c = (omega arith, rw (==_refl h.next) refl)

pub build_backends-Configured :
    (cs : List BackendConfig) (h : Heap)
    → Configured (build_backends cs h).1 (build_backends cs h).0 cs
      × Untouched h (build_backends cs h).1
unfolding build_backends
build_backends-Configured [] h = (tt, (omega arith, λ p lt. refl))
build_backends-Configured (c ∷ cs) h =
    let (lt, here) = allocate-cell h c in
    let (rest, u) = build_backends-Configured cs (allocate h c).1 in
    (
      ((omega (arith, lt, u.0), u.1 _ lt ∙ here), rest),
      Untouched-trans h (allocate h c).1 _ (allocate-Untouched h c) u,
    )

-- The strategy is the one of the algorithm's name, round robin from 0 if it is none of the others.
abbrev pub Named : Text → Balancer → Type 0
Named a (round_robin b) =
    (b.counter ≡ 0) × (a ≢ codes "least_conn") × (a ≢ codes "weighted") × (a ≢ codes "ip_hash")
Named a (least_conn b) = a ≡ codes "least_conn"
Named a (weighted b) = a ≡ codes "weighted"
Named a (ip_hash b) = a ≡ codes "ip_hash"

text-ne : (a b : Text) → text_eq a b ≡ false → a ≢ b
text-ne a b e same = let here = (text_eq_iff a b).1 same in absurd (ground arith)

pub strategy-Named :
    (a : Text) (ps : List ℕ) → Named a (strategy a ps) × (backends (strategy a ps) ≡ ps)
unfolding strategy backends
strategy-Named a ps = elim (Bool-cases (text_eq a (codes "least_conn"))) [
  | inl here ↦ rw (strategy, here) ((text_eq_iff a (codes "least_conn")).0 here, refl)
  | inr other ↦ elim (Bool-cases (text_eq a (codes "weighted"))) [
    | inl here ↦
        rw (strategy, other, here) ((text_eq_iff a (codes "weighted")).0 here, start-slice ps)
    | inr other' ↦ elim (Bool-cases (text_eq a (codes "ip_hash"))) [
      | inl here ↦
          rw (strategy, other, other', here) ((text_eq_iff a (codes "ip_hash")).0 here, refl)
      | inr other'' ↦
          rw (strategy, other, other', other'')
            ((refl, text-ne a _ other, text-ne a _ other', text-ne a _ other''), refl)
    ]
  ]
]

-- A breaker of the configuration for the URL of each backend, and no other.
abbrev pub Guarded :
    Option CircuitBreakerConfig → List BackendConfig → (Text → Option Breaker) → Type 0
Guarded cfg cs m =
    All (λ c. m c.url ≡ CircuitBreaker.new cfg) cs
    × ((u : Text) → All (λ c. u ≢ c.url) cs → m u ≡ none)

-- The breaker of a URL after the loop: the new one if a backend has the URL, else what was there.
build_breakers-cases :
    (cfg : Option CircuitBreakerConfig) (cs : List BackendConfig) (m : Text → Option Breaker)
    (u : Text)
    → (build_breakers cfg cs m u ≡ CircuitBreaker.new cfg) ⊎ (build_breakers cfg cs m u ≡ m u)
unfolding build_breakers
build_breakers-cases cfg [] m u = inr refl
build_breakers-cases cfg (c ∷ cs) m u =
    let m' : Text → Option Breaker = λ v. if text_eq v c.url then CircuitBreaker.new cfg else m v in
    elim (build_breakers-cases cfg cs m' u) [
      | inl made ↦ inl made
      | inr kept ↦ elim (Bool-cases (text_eq u c.url)) [
        | inl same ↦ inl (kept ∙ ap (λ b. if b then CircuitBreaker.new cfg else m u) same)
        | inr other ↦ inr (kept ∙ ap (λ b. if b then CircuitBreaker.new cfg else m u) other)
      ]
    ]

pub build_breakers-made :
    (cfg : Option CircuitBreakerConfig) (cs : List BackendConfig) (m : Text → Option Breaker)
    → All (λ c. build_breakers cfg cs m c.url ≡ CircuitBreaker.new cfg) cs
unfolding build_breakers
build_breakers-made cfg [] m = tt
build_breakers-made cfg (c ∷ cs) m =
    let m' : Text → Option Breaker = λ v. if text_eq v c.url then CircuitBreaker.new cfg else m v in
    (
      elim (build_breakers-cases cfg cs m' c.url) [
        | inl made ↦ made
        | inr kept ↦
            kept
            ∙ ap (λ b. if b then CircuitBreaker.new cfg else m c.url)
                ((text_eq_iff c.url c.url).1 refl)
      ],
      build_breakers-made cfg cs m',
    )

pub build_breakers-others :
    (cfg : Option CircuitBreakerConfig) (cs : List BackendConfig) (m : Text → Option Breaker)
    (u : Text)
    → All (λ c. u ≢ c.url) cs
    → build_breakers cfg cs m u ≡ m u
unfolding build_breakers
build_breakers-others cfg [] m u a = refl
build_breakers-others cfg (c ∷ cs) m u (differ, a) =
    let m' : Text → Option Breaker = λ v. if text_eq v c.url then CircuitBreaker.new cfg else m v in
    let other : text_eq u c.url ≡ false = elim (Bool-cases (text_eq u c.url)) [
      | inl same ↦ absurd (differ ((text_eq_iff u c.url).0 same))
      | inr other ↦ other
    ] in
    build_breakers-others cfg cs m' u a ∙ ap (λ b. if b then CircuitBreaker.new cfg else m u) other
