-- ===== src/Proxy/Readiness.antt =====
-- What /readyz says of the balancers of the routes.
use gateway_pro.Prelude.{
  Bool-cases, length, All, ℕ, ◌^◌, ◌<◌, ◌≡◌, refl, sym, ap, subst, ◌∙◌, ◌↔◌, ◌⊎◌, inl, inr, true,
  false, List, [], ◌∷◌, Memᴰ, arith,
}
use mathlib.Core.List.Memᴰ.{head, tail}
use gateway_pro.Http.{Request}
use gateway_pro.LoadBalancer.Heap.{Heap, Pick, picked, no_healthy_backend, panics, Sound}
use gateway_pro.LoadBalancer.Balancer
use gateway_pro.LoadBalancer.Balancer.{next-Sound}
use gateway_pro.Proxy.{Route, any_alive, any_ready, readyz}

-- No backend of any route is alive.
abbrev NoneReady : Heap → List Route → Type 0
NoneReady h = All (λ rt. All (λ p. (h.cell p).alive ≡ false) (Balancer.backends rt.lb))

any_alive-false :
    (h : Heap) (ps : List ℕ) → (any_alive h ps ≡ false) ↔ All (λ p. (h.cell p).alive ≡ false) ps
unfolding any_alive
any_alive-false h [] = ((λ _. tt), (λ _. refl))
any_alive-false h (p ∷ ps) =
    let (forth, back) = any_alive-false h ps in
    elim (Bool-cases (h.cell p).alive) [
      | inl live ↦ rw live ((λ e. cc), (λ a. let no_more = a.0 in cc))
      | inr dead ↦ rw dead ((λ e. (refl, forth e)), (λ a. back a.1))
    ]

any_ready-false : (h : Heap) (rts : List Route) → (any_ready h rts ≡ false) ↔ NoneReady h rts
unfolding any_ready
any_ready-false h [] = ((λ _. tt), (λ _. refl))
any_ready-false h (rt ∷ rts) =
    let (forth, back) = any_ready-false h rts in
    let (none_of, dead) = any_alive-false h (Balancer.backends rt.lb) in
    elim (Bool-cases (any_alive h (Balancer.backends rt.lb))) [
      | inl live ↦ rw live ((λ e. cc), (λ a. let no_more = dead a.0 in cc))
      | inr idle ↦ rw idle ((λ e. (none_of idle, forth e)), (λ a. back a.1))
    ]

-- /readyz answers 503 exactly if no route has a live backend, and 200 otherwise.
readyz_lem :
    (h : Heap) (rts : List Route)
    → ((readyz h rts ≡ 503) ↔ NoneReady h rts) × ((readyz h rts ≡ 200) ⊎ (readyz h rts ≡ 503))
unfolding readyz
readyz_lem h rts =
    let (forth, back) = any_ready-false h rts in
    elim (Bool-cases (any_ready h rts)) [
      | inl ready ↦
          rw ready (((λ e. absurd (omega (arith, e))), (λ a. let idle = back a in cc)), inl refl)
      | inr idle ↦ rw idle (((λ _. forth idle), (λ _. refl)), inr refl)
    ]

any_alive-some :
    (h : Heap) (ps : List ℕ) (p : ℕ) → Memᴰ p ps → (h.cell p).alive ≡ true → any_alive h ps ≡ true
unfolding any_alive
any_alive-some h [] p there up = elim there [ ]
any_alive-some h (q ∷ ps) p (head same) up =
    let here : (h.cell q).alive ≡ true = ap (λ x. (h.cell x).alive) (sym same) ∙ up in
    ground (arith, here)
any_alive-some h (q ∷ ps) p (tail there) up =
    let rest = any_alive-some h ps p there up in ground (arith, rest)

-- A route whose balancer picks a backend for the request.
abbrev pub Serves : Heap → Request → Route → Type 0
Serves h r rt = (p : ℕ) × ((Balancer.next h rt.lb r).1 ≡ picked p)

Sound-alive :
    (h : Heap) (ps : List ℕ) (pick : Pick)
    → Sound h ps pick
    → (any_alive h ps ≡ true) ↔ ((p : ℕ) × (pick ≡ picked p))
Sound-alive h ps (picked p) (there, up) = ((λ e. (p, refl)), (λ _. any_alive-some h ps p there up))
Sound-alive h ps no_healthy_backend down =
    let off = (any_alive-false h ps).1 down in
    ((λ e. absurd (ground (arith, off, e))), (λ (p, e). cc))
Sound-alive h ps panics wrong = absurd wrong

-- The balancer of a route with fewer than 2 ^ 32 backends.
abbrev pub Few : Route → Type 0
Few rt = length (Balancer.backends rt.lb) < 2 ^ 32

any_alive-Serves :
    (h : Heap) (r : Request) (rt : Route)
    → Few rt
    → (any_alive h (Balancer.backends rt.lb) ≡ true) ↔ Serves h r rt
any_alive-Serves h r rt few =
    Sound-alive h (Balancer.backends rt.lb) (Balancer.next h rt.lb r).1 (next-Sound h rt.lb r few)

any_ready-Serves :
    (h : Heap) (r : Request) (rts : List Route)
    → All Few rts
    → any_ready h rts ≡ true
    → (rt : Route) × Memᴰ rt rts × Serves h r rt
unfolding any_ready
any_ready-Serves h r [] few e = cc
any_ready-Serves h r (rt ∷ rts) few e = elim (Bool-cases (any_alive h (Balancer.backends rt.lb))) [
  | inl up ↦ (rt, head refl, (any_alive-Serves h r rt few.0).0 up)
  | inr down ↦
      let rest : any_ready h rts ≡ true = ground (arith, down, e) in
      let (rt', there, serves) = any_ready-Serves h r rts few.1 rest in (rt', tail there, serves)
]

Serves-any_ready :
    (h : Heap) (r : Request) (rts : List Route) (rt : Route)
    → All Few rts
    → Memᴰ rt rts
    → Serves h r rt
    → any_ready h rts ≡ true
unfolding any_ready
Serves-any_ready h r [] rt few there serves = elim there [ ]
Serves-any_ready h r (rt' ∷ rts) rt few (head same) serves =
    let up = (any_alive-Serves h r rt' few.0).1 (subst (Serves h r) same serves) in
    ground (arith, up)
Serves-any_ready h r (rt' ∷ rts) rt few (tail there) serves =
    let rest = Serves-any_ready h r rts rt few.1 there serves in ground (arith, rest)

-- /readyz answers 200 exactly if some route's balancer picks a backend for a request, whichever the
-- request and the strategy, and 503 otherwise. No route has 2 ^ 32 backends or more.
pub readyz_iff :
    (h : Heap) (rts : List Route) (r : Request)
    → All Few rts
    → ((readyz h rts ≡ 200) ↔ ((rt : Route) × Memᴰ rt rts × Serves h r rt))
      × ((readyz h rts ≡ 200) ⊎ (readyz h rts ≡ 503))
unfolding readyz
readyz_iff h rts r few = elim (Bool-cases (any_ready h rts)) [
  | inl up ↦ (
    ((λ e. any_ready-Serves h r rts few up), (λ _. rw (readyz, up) refl)),
    inl (rw (readyz, up) refl),
  )
  | inr down ↦ (
    (
      (λ e. absurd (ground (arith, down, e))),
      (λ (rt, there, serves).
          let up = Serves-any_ready h r rts rt few there serves in
          absurd (ground (arith, down, up))),
    ),
    inr (rw (readyz, down) refl),
  )
]
