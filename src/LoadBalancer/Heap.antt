-- ===== src/LoadBalancer/Heap.antt =====
-- The backends of loadbalancer.go, and `healthy`.
use gateway_pro.Prelude.{
  ◌==◌, if◌then◌else◌, Bool-cases, length, get_elem?, All, get_elem?-lt, get_elem?-cons, ◌+ℤ◌, ◌-ℤ◌,
  wrap64, ℤ, pos, Text, ℕ, suc, ◌≤◌, ◌<◌, ◌≡◌, sym, subst, inl, inr, Bool, true, false, none, some,
  List, [], ◌∷◌, Memᴰ, arith,
}
use gateway_pro.Config.{BackendConfig}

-- `inflight` is an atomic.Int64.
pub record Backend : Type 0 where
  pub url : Text
  pub weight : ℤ
  pub alive : Bool
  pub inflight : ℤ

-- Every pointer below `next` has been allocated.
pub record Heap : Type 0 where
  pub cell : ℕ → Backend
  pub next : ℕ

unfoldable pub write : Heap → ℕ → Backend → Heap
write h p b = record h { cell = λ q. if q == p then b else h.cell q }

pub is_alive : Heap → ℕ → Bool
is_alive h p = (h.cell p).alive

unfoldable pub set_alive : ℕ → Bool → Heap → Heap
unfolding write
set_alive p v h = write h p (record (h.cell p) { alive = v })

unfoldable pub inc : ℕ → Heap → Heap
unfolding write
inc p h = write h p (record (h.cell p) { inflight = wrap64 ((h.cell p).inflight +ℤ pos 1) })

unfoldable pub dec : ℕ → Heap → Heap
unfolding write
dec p h = write h p (record (h.cell p) { inflight = wrap64 ((h.cell p).inflight -ℤ pos 1) })

-- What a `&Backend{URL: c.URL, Weight: c.Weight}` with `alive.Store(true)` holds.
abbrev pub fresh_backend : BackendConfig → Backend
fresh_backend c = record { url = c.url; weight = c.weight; alive = true; inflight = pos 0 }

unfoldable pub allocate : Heap → BackendConfig → ℕ × Heap
unfolding write
allocate h c = (h.next, record (write h h.next (fresh_backend c)) { next = suc h.next })

unfoldable pub build_backends : List BackendConfig → Heap → List ℕ × Heap
unfolding allocate
build_backends [] h = ([], h)
build_backends (c ∷ cs) h =
    let (p, h') = allocate h c in let (ps, h'') = build_backends cs h' in (p ∷ ps, h'')

unfoldable pub healthy : Heap → List ℕ → List ℕ
healthy h [] = []
healthy h (p ∷ ps) = let rest = healthy h ps in if (h.cell p).alive then p ∷ rest else rest

-- The result of Next: a backend, ErrNoHealthyBackend, or a run-time panic.
pub data Pick : Type 0 where
  picked : ℕ → Pick
  no_healthy_backend panics : Pick

-- An access `alive[i]`.
abbrev pub pick_at : List ℕ → ℕ → Pick
pick_at ps i = elim (get_elem? ps i) [ none ↦ panics | some p ↦ picked p ]

-- What every strategy promises of its answer: a backend of its list that is alive, the error only
-- if there is none, and no panic.
abbrev pub Sound : Heap → List ℕ → Pick → Type 0
Sound h ps (picked p) = Memᴰ p ps × ((h.cell p).alive ≡ true)
Sound h ps no_healthy_backend = All (λ p. (h.cell p).alive ≡ false) ps
Sound h ps panics = ⊥

healthy_sound :
    (h : Heap) (ps : List ℕ) (i p : ℕ)
    → get_elem? (healthy h ps) i ≡ some p
    → Memᴰ p ps × ((h.cell p).alive ≡ true)
unfolding healthy
healthy_sound h [] i p e = cc
healthy_sound h (q ∷ ps) i p e = elim (Bool-cases (h.cell q).alive) [
  | inr dead ↦ let (m, a) = healthy_sound h ps i p (rw (dead, healthy) at e) in (Memᴰ.tail m, a)
  | inl ok ↦ elim (get_elem?-cons q (healthy h ps) i p (rw (ok, healthy) at e)) [
    | inl same ↦ (Memᴰ.head same, rw same ok)
    | inr (j, later) ↦ let (m, a) = healthy_sound h ps j p later in (Memᴰ.tail m, a)
  ]
]

pub healthy-nil :
    (h : Heap) (ps : List ℕ) → healthy h ps ≡ [] → All (λ p. (h.cell p).alive ≡ false) ps
unfolding healthy
healthy-nil h [] e = tt
healthy-nil h (p ∷ ps) e = ground (arith, healthy-nil h ps)

pub length-healthy-le : (h : Heap) (ps : List ℕ) → length (healthy h ps) ≤ length ps
unfolding healthy
length-healthy-le h [] = omega arith
length-healthy-le h (p ∷ ps) = ground (arith, length-healthy-le h ps)

pub pick_at-some : (ps : List ℕ) (i p : ℕ) → get_elem? ps i ≡ some p → pick_at ps i ≡ picked p
pick_at-some ps i p e = ground arith

-- An index below the number of healthy backends gives a sound answer.
pub pick_at-Sound :
    (h : Heap) (ps : List ℕ) (i : ℕ)
    → i < length (healthy h ps)
    → Sound h ps (pick_at (healthy h ps) i)
pick_at-Sound h ps i lt =
    let (p, e) = get_elem?-lt (healthy h ps) i lt in
    subst (Sound h ps) (sym (pick_at-some (healthy h ps) i p e)) (healthy_sound h ps i p e)
