-- ===== src/LoadBalancer/Weighted.antt =====
-- weighted (smooth weighted round-robin) of loadbalancer.go.
pub mod Scan
pub mod Sums
pub mod Round
pub mod Fairness
pub mod Cycle
use gateway_pro.Prelude.{
  if◌then◌else◌, get_elem?, ◌+ℤ◌, ◌-ℤ◌, wrap64, ℤ, pos, ltb_ℤ, ℕ, zero, suc, Option, none, some,
  List, [], ◌∷◌, map,
}
use gateway_pro.Config.{BackendConfig}
use gateway_pro.LoadBalancer.Merge.{merge_backends}
use gateway_pro.LoadBalancer.Heap.{Heap, Pick, picked, no_healthy_backend, panics}

-- A `*wBackend` is reached through its slice only, so it is an entry of a list.
pub record WBackend : Type 0 where
  pub backend : ℕ
  pub current : ℤ

pub record Weighted : Type 0 where
  pub backends : List WBackend

unfoldable pub new_weighted : List ℕ → Weighted
new_weighted ps = record { backends = map (λ p. record { backend = p; current = pos 0 }) ps }

-- One round of the loop of Next, the parts of it: `b.current += b.Weight`,
pub bump : Heap → WBackend → WBackend
bump h w =
    if (h.cell w.backend).alive
    then record w { current = wrap64 (w.current +ℤ (h.cell w.backend).weight) }
    else w

-- `total += b.Weight`,
pub add_weight : Heap → WBackend → ℤ → ℤ
add_weight h w total =
    if (h.cell w.backend).alive then wrap64 (total +ℤ (h.cell w.backend).weight) else total

-- `if best == nil || b.current > best.current`. `best` is an index and the `current` there.
pub choose : ℕ → ℤ → Option (ℕ × ℤ) → Option (ℕ × ℤ)
choose i c none = some (i, c)
choose i c (some (j, d)) = if ltb_ℤ d c then some (i, c) else some (j, d)

pub better : Heap → ℕ → WBackend → Option (ℕ × ℤ) → Option (ℕ × ℤ)
unfolding choose
better h i w best = if (h.cell w.backend).alive then choose i w.current best else best

-- The loop: the entries after it, `total`, and `best`.
pub scan : Heap → ℕ → ℤ → Option (ℕ × ℤ) → List WBackend → List WBackend × ℤ × Option (ℕ × ℤ)
unfolding bump add_weight better
scan h i total best [] = ([], total, best)
scan h i total best (w ∷ ws) =
    let (rest, t, b) = scan h (suc i) (add_weight h w total) (better h i (bump h w) best) ws in
    (bump h w ∷ rest, t, b)

-- `best.current -= total`
pub charge : ℕ → ℤ → List WBackend → List WBackend
charge i total [] = []
charge zero total (w ∷ ws) = record w { current = wrap64 (w.current -ℤ total) } ∷ ws
charge (suc i) total (w ∷ ws) = w ∷ charge i total ws

abbrev pub answer : List WBackend → ℕ → Pick
answer ws i = elim (get_elem? ws i) [ none ↦ panics | some w ↦ picked w.backend ]

pub finish : Weighted → List WBackend × ℤ × Option (ℕ × ℤ) → Weighted × Pick
unfolding charge
finish w (ws, total, none) = (w, no_healthy_backend)
finish w (ws, total, some (i, c)) = (record w { backends = charge i total ws }, answer ws i)

unfoldable pub next : Heap → Weighted → Weighted × Pick
unfolding scan finish
next h w = finish w (scan h 0 (pos 0) none w.backends)

-- backendSlice
unfoldable pub backend_slice : List WBackend → List ℕ
backend_slice [] = []
backend_slice (w ∷ ws) = w.backend ∷ backend_slice ws

-- Backends
unfoldable pub backends_of : Weighted → List ℕ
unfolding backend_slice
backends_of w = backend_slice w.backends

-- Update. Every `current` starts again at 0.
unfoldable pub update : Weighted → List BackendConfig → Heap → Weighted × Heap
unfolding backend_slice new_weighted merge_backends
update w cfgs h =
    let (ps, h') = merge_backends (backend_slice w.backends) cfgs h in (new_weighted ps, h')
