-- ===== src/LoadBalancer/RoundRobin.antt =====
-- roundRobin of loadbalancer.go.
use gateway_pro.Prelude.{
  length-eq-zero, length-drop, take_all, ◌==◌, if◌then◌else◌, Bool-cases, length, get_elem?, take,
  drop, ℕ, zero, suc, ◌+◌, ◌-◌, ◌%◌, ◌^◌, ◌≤◌, ◌<◌, ◌≡◌, refl, sym, ap, ◌∙◌, inl, inr, false, some,
  List, [], ◌∷◌, ◌++◌, map, arith,
}
use mathlib.Core.Path.{ap₂, ◌≡⟨◌⟩◌, ◌∎}
use mathlib.Core.List.{map-append}
use native.Mathlib.Nat.{mod-add-mod, mod-eq_of_lt, mod_self, mod-lt, zero-add, suc-add, add-zero}
use gateway_pro.Config.{BackendConfig}
use gateway_pro.LoadBalancer.Merge.{merge_backends}
use gateway_pro.LoadBalancer.Heap.{
  Heap, healthy, Pick, picked, no_healthy_backend, pick_at, pick_at-some, Sound, pick_at-Sound,
  healthy-nil,
}

-- `counter` is an atomic.Uint64.
pub record RoundRobin : Type 0 where
  pub backends : List ℕ
  pub counter : ℕ

-- `idx := rr.counter.Add(1) - 1`
unfoldable pub next : Heap → RoundRobin → RoundRobin × Pick
next h rr =
    let alive = healthy h rr.backends in
    if length alive == 0
    then (rr, no_healthy_backend)
    else let counter = (rr.counter + 1) % 2 ^ 64 in
      let idx = (counter + 2 ^ 64 - 1) % 2 ^ 64 in
      (record rr { counter = counter }, pick_at alive (idx % length alive))

-- Backends
unfoldable pub backends_of : RoundRobin → List ℕ
backends_of rr = rr.backends

-- Update
unfoldable pub update : RoundRobin → List BackendConfig → Heap → RoundRobin × Heap
unfolding merge_backends
update rr cfgs h =
    let (ps, h') = merge_backends rr.backends cfgs h in (record rr { backends = ps }, h')

-- Next answers with a live backend of the list, fails only if there is none, and never panics.
pub next-Sound : (h : Heap) (rr : RoundRobin) → Sound h rr.backends (next h rr).1
unfolding next
next-Sound h rr = elim (Bool-cases (length (healthy h rr.backends) == 0)) [
  | inl none_alive ↦
      rw none_alive
        (healthy-nil h rr.backends (length-eq-zero (healthy h rr.backends) (ground arith)))
  | inr some_alive ↦ rw some_alive (pick_at-Sound h rr.backends _ (ground arith))
]

-- Consecutive calls while no backend changes: what they answer.
unfoldable pub picks : ℕ → Heap → RoundRobin → List Pick
picks zero h rr = []
picks (suc k) h rr = let (rr', p) = next h rr in p ∷ picks k h rr'

next_lem :
    (h : Heap) (rr : RoundRobin)
    → rr.counter < 2 ^ 64
    → 0 < length (healthy h rr.backends)
    → next h rr ≡ (
      record rr { counter = (rr.counter + 1) % 2 ^ 64 },
      pick_at (healthy h rr.backends) (rr.counter % length (healthy h rr.backends)),
    )
unfolding next
next_lem h rr lt pos_len =
    let more : (length (healthy h rr.backends) == 0) ≡ false = ground arith in
    let idx : ((rr.counter + 1) % 2 ^ 64 + 2 ^ 64 - 1) % 2 ^ 64 ≡ rr.counter = omega arith in
    rw (more, idx)

next_at :
    (h : Heap) (ps : List ℕ) (c : ℕ)
    → c + 1 < 2 ^ 64
    → 0 < length (healthy h ps)
    → next h (record { backends = ps; counter = c }) ≡ (
      record { backends = ps; counter = c + 1 },
      pick_at (healthy h ps) (c % length (healthy h ps)),
    )
next_at h ps c lt pos_len =
    next_lem h (record { backends = ps; counter = c }) (omega arith) pos_len
    ∙ ap
        (λ (n : ℕ). (
          let rr : RoundRobin = record { backends = ps; counter = n } in rr,
          pick_at (healthy h ps) (c % length (healthy h ps)),
        ))
        (omega arith)

-- A step inside one pass over the list.
step-mod : (c n : ℕ) → c % n + 1 < n → (c + 1) % n ≡ c % n + 1
step-mod c n h = sym (mod-add-mod c n 1) ∙ mod-eq_of_lt h

-- The end of a pass.
end-mod : (c k n : ℕ) → c % n + k ≡ n → (c + k) % n ≡ 0
end-mod c k n h = sym (mod-add-mod c n k) ∙ ap (λ (t : ℕ). t % n) h ∙ mod_self n

drop-lt {ℓ} :
    {A : Type ℓ} (xs : List A) (i : ℕ)
    → i < length xs
    → (x : A) × (get_elem? xs i ≡ some x) × (drop i xs ≡ x ∷ drop (suc i) xs)
drop-lt [] i h = elim h [ ]
drop-lt (x ∷ xs) zero h = (x, refl, refl)
drop-lt (x ∷ xs) (suc i) h = drop-lt xs i (omega arith)

module _ (h : Heap) (ps : List ℕ) where
  abbrev alive : List ℕ
  alive = healthy h ps

  abbrev at : ℕ → RoundRobin
  at c = record { backends = ps; counter = c }

  -- `k` calls inside one pass take the next `k` healthy backends.
  picks_segment :
      (k c : ℕ)
      → c + k < 2 ^ 64
      → c % length alive + k ≤ length alive
      → picks k h (at c) ≡ map picked (take k (drop (c % length alive) alive))
  unfolding picks
  picks_segment zero c w b = refl
  picks_segment (suc zero) c w b =
      let (p, at_p, split) = drop-lt alive (c % length alive) (omega arith) in
      rw (next_at h ps c (omega arith) (omega arith), pick_at-some alive _ p at_p, split) refl
  picks_segment (suc (suc k)) c w b =
      let (p, at_p, split) = drop-lt alive (c % length alive) (omega arith) in
      let place : (c + 1) % length alive ≡ suc (c % length alive) =
        step-mod c (length alive) (omega arith) ∙ omega arith in
      let rest : picks (suc k) h (at (c + 1))
          ≡ map picked (take (suc k) (drop (suc (c % length alive)) alive)) =
        picks_segment (suc k) (c + 1) (omega arith) (omega (arith, place))
        ∙ ap (λ (r : ℕ). map picked (take (suc k) (drop r alive))) place in
      rw (next_at h ps c (omega arith) (omega arith), pick_at-some alive _ p at_p, split)
        (ap (◌∷◌ (picked p)) rest)

  picks-add :
      (a b c : ℕ)
      → c + a < 2 ^ 64
      → 0 < length alive
      → picks (a + b) h (at c) ≡ picks a h (at c) ++ picks b h (at (c + a))
  unfolding picks
  picks-add zero b c w l = rw (zero-add, add-zero)
  picks-add (suc a) b c w l =
      rw (suc-add, next_at h ps c (omega arith) l)
        (ap (◌∷◌ (pick_at alive (c % length alive))) (
          picks-add a b (c + 1) (omega arith) l
          ∙ ap (λ (t : ℕ). picks a h (at (c + 1)) ++ picks b h (at t)) (omega arith)))

-- While no backend changes, some are healthy, and the counter does not wrap, the next as many calls
-- as there are healthy backends go once round them, starting at the counter's place.
pub one_round :
    (h : Heap) (rr : RoundRobin)
    → 0 < length (healthy h rr.backends)
    → rr.counter + length (healthy h rr.backends) < 2 ^ 64
    → let ready = healthy h rr.backends in
      let start = rr.counter % length ready in
      picks (length ready) h rr ≡ map picked (drop start ready ++ take start ready)
one_round h rr l w =
    let ready = healthy h rr.backends in
    let n = length ready in
    let start = rr.counter % n in
    let below : start < n = mod-lt rr.counter l in
    let zeroed : (rr.counter + (n - start)) % n ≡ 0 =
      end-mod rr.counter (n - start) n (omega arith) in
    let pass : ℕ → ℕ → List Pick = λ k r. map picked (take k (drop r ready)) in
    let short : length (drop start ready) ≤ n - start = omega (arith, length-drop start ready) in
    picks n h rr
    ≡⟨ ap (λ (k : ℕ). picks k h rr) (omega arith) ⟩ picks ((n - start) + start) h rr
    ≡⟨ picks-add h rr.backends (n - start) start rr.counter (omega arith) l ⟩
      picks (n - start) h rr
      ++ picks start h (record { backends = rr.backends; counter = rr.counter + (n - start) })
    ≡⟨ ap₂ ◌++◌ (picks_segment h rr.backends (n - start) rr.counter (omega arith) (omega arith)) (
        picks_segment h rr.backends start (rr.counter + (n - start)) (omega arith)
          (omega (arith, zeroed))) ⟩
      pass (n - start) start ++ pass start ((rr.counter + (n - start)) % n)
    ≡⟨ ap₂ ◌++◌ (ap (map picked) (take_all (n - start) (drop start ready) short))
        (ap (pass start) zeroed) ⟩
      map picked (drop start ready) ++ map picked (take start ready)
    ≡⟨ sym (map-append _ _ _) ⟩ map picked (drop start ready ++ take start ready) ∎
