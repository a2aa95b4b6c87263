-- ===== src/Health/Rounds.antt =====
-- What a round of health checks concludes, in whatever order its checks end.
use gateway_pro.Prelude.{
  ltb, ◌==◌, if◌then◌else◌, ==_refl, Bool-cases, Text, codes, ℕ, ◌≡◌, refl, sym, subst, ◌∙◌, inl,
  inr, Bool, false, ◌&&◌, ◌||◌, List, [], ◌∷◌, ◌++◌, arith,
}
use gateway_pro.LoadBalancer.Heap.{Heap, set_alive, write}
use gateway_pro.Health.{Response, responded, failed, conclude, check_one, check_all}

abbrev pub member : ℕ → List ℕ → Bool
member q [] = false
member q (p ∷ ps) = q == p || member q ps

module _ (accepts : Text → Bool) (answer : Text → Response) where
  -- A backend is healthy if its health URL is accepted and answered with a status below 500.
  abbrev pub healthy_at : Text → Bool
  healthy_at url =
      accepts (url ++ codes "/health")
      && elim (answer (url ++ codes "/health")) [ failed ↦ false | responded code ↦ ltb code 500 ]

  abbrev Checked : ℕ → ℕ → Heap → Type 0
  Checked q p h =
      (((check_one accepts answer p h).cell q).url ≡ (h.cell q).url)
      × (((check_one accepts answer p h).cell q).inflight ≡ (h.cell q).inflight)
      × (((check_one accepts answer p h).cell q).alive
          ≡ (if q == p then healthy_at (h.cell q).url else (h.cell q).alive))

  check_one_self : (p : ℕ) (h : Heap) → Checked p p h
  unfolding check_one conclude set_alive write
  check_one_self p h = rw (==_refl p) (ground arith)

  -- A check sets the flag of its own backend and nothing else.
  check_one-cell : (p q : ℕ) (h : Heap) → Checked q p h
  unfolding check_one conclude set_alive write
  check_one-cell p q h = elim (Bool-cases (q == p)) [
    | inr other ↦ ground arith
    | inl same ↦
        let here : q ≡ p = ground arith in
        subst (λ r. Checked r p h) (sym here) (check_one_self p h)
  ]

  -- A round of checks leaves every backend's URL and load, sets the flag of each of its backends
  -- to whether that one is healthy, and leaves the flags of all others. So the order in which the
  -- checks of a round end does not matter, nor does a backend that is checked twice.
  pub check_all-cell :
      (ps : List ℕ) (h : Heap) (q : ℕ)
      → (((check_all accepts answer ps h).cell q).url ≡ (h.cell q).url)
        × (((check_all accepts answer ps h).cell q).inflight ≡ (h.cell q).inflight)
        × (((check_all accepts answer ps h).cell q).alive
            ≡ (if member q ps then healthy_at (h.cell q).url else (h.cell q).alive))
  unfolding check_all
  check_all-cell [] h q = (refl, refl, refl)
  check_all-cell (p ∷ ps) h q =
      let h' = check_one accepts answer p h in
      let (url, load, flag) = check_one-cell p q h in
      let (url', load', flag') = check_all-cell ps h' q in
      (url' ∙ url, load' ∙ load, flag' ∙ rw (url, flag) (ground arith))
