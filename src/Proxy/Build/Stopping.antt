-- ===== src/Proxy/Build/Stopping.antt =====
-- Which checkers the loop of Reload over the old routes stops.
use gateway_pro.Prelude.{
  ◌==◌, ==_iff, Bool-cases, All, ℕ, ◌<◌, ◌≡◌, refl, subst, ◌∙◌, ◌⊎◌, inl, inr, true, false, List,
  [], ◌∷◌, Memᴰ, arith, All-Mem,
}
use gateway_pro.Proxy.Build.{Checkers, stop, Built, has_route, stop_removed}
use gateway_pro.Proxy.Build.Fresh.{Fresh, Held}

stop_other : (j n : ℕ) (k : Checkers) → (j == n) ≡ false → (stop j k).running n ≡ k.running n
unfolding stop
stop_other j n k other = ground (arith, other)

-- An old route whose prefix no new route has, and with checker `n`.
abbrev pub Removed : List Built → List Built → ℕ → Type 0
Removed routes old n =
    (b : Built) × Memᴰ b old × (b.checker ≡ n) × (has_route b.route.prefix routes ≡ false)

stop_removed-next :
    (routes old : List Built) (k : Checkers) → (stop_removed routes old k).next ≡ k.next
unfolding stop_removed stop
stop_removed-next routes [] k = refl
stop_removed-next routes (b ∷ old) k = elim (Bool-cases (has_route b.route.prefix routes)) [
  | inl kept ↦ rw (stop_removed, kept) (stop_removed-next routes old k)
  | inr gone ↦ rw (stop_removed, gone) (stop_removed-next routes old (stop b.checker k))
]

-- Once stopped, a checker stays stopped.
stop_removed-stopped :
    (routes old : List Built) (k : Checkers) (n : ℕ)
    → k.running n ≡ false
    → (stop_removed routes old k).running n ≡ false
unfolding stop_removed
stop_removed-stopped routes [] k n off = off
stop_removed-stopped routes (b ∷ old) k n off =
    elim (Bool-cases (has_route b.route.prefix routes)) [
      | inl kept ↦ rw (stop_removed, kept) (stop_removed-stopped routes old k n off)
      | inr gone ↦
          rw (stop_removed, gone)
            (stop_removed-stopped routes old (stop b.checker k) n
              (unfold stop in ground (arith, off)))
    ]

pub stop_removed-running :
    (routes old : List Built) (k : Checkers) (n : ℕ)
    → ((stop_removed routes old k).running n ≡ k.running n) ⊎ Removed routes old n
unfolding stop_removed
stop_removed-running routes [] k n = inl refl
stop_removed-running routes (b ∷ old) k n = elim (Bool-cases (has_route b.route.prefix routes)) [
  | inl kept ↦ elim (stop_removed-running routes old k n) [
    | inl same ↦ inl (rw (stop_removed, kept) same)
    | inr (b', m, is, gone) ↦ inr (b', Memᴰ.tail m, is, gone)
  ]
  | inr gone ↦ elim (Bool-cases (b.checker == n)) [
    | inl same ↦ inr (b, Memᴰ.head refl, (==_iff b.checker n).0 same, gone)
    | inr other ↦ elim (stop_removed-running routes old (stop b.checker k) n) [
      | inl same ↦ inl (rw (stop_removed, gone) (same ∙ stop_other b.checker n k other))
      | inr (b', m, is, gone') ↦ inr (b', Memᴰ.tail m, is, gone')
    ]
  ]
]

pub stop_removed-All :
    (routes old : List Built) (k k' : Checkers)
    → stop_removed routes old k ≡ k'
    → All (λ b. (has_route b.route.prefix routes ≡ true) ⊎ (k'.running b.checker ≡ false)) old
unfolding stop_removed
stop_removed-All routes [] k k' e = tt
stop_removed-All routes (b ∷ old) k k' e = elim (Bool-cases (has_route b.route.prefix routes)) [
  | inl kept ↦ (inl kept, stop_removed-All routes old k k' (rw (stop_removed, kept) at e))
  | inr gone ↦
      let rest : stop_removed routes old (stop b.checker k) ≡ k' = rw (stop_removed, gone) at e in
      (
        inr (
            subst (λ (k'' : Checkers). k''.running b.checker ≡ false) rest
              (stop_removed-stopped routes old (stop b.checker k) b.checker
                (unfold stop in ground arith))),
        stop_removed-All routes old (stop b.checker k) k' rest,
      )
]

pub Fresh-stop_removed :
    (bs old : List Built) (k k' : Checkers) (b : Built)
    → Held old k
    → Fresh k k' b
    → Fresh k (stop_removed bs old k') b
Fresh-stop_removed bs old k k' b held (new, made, runs) =
    let same_next = stop_removed-next bs old k' in
    elim (stop_removed-running bs old k' b.checker) [
      | inl same ↦ (new, rw same_next made, same ∙ runs)
      | inr (b', m, is, gone) ↦
          let (early, live) =
            All-Mem (λ b. (b.checker < k.next) × (k.running b.checker ≡ true)) old b' held m in
          absurd (omega (arith, early, is, new))
    ]
