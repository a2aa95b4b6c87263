-- ===== src/Middleware/Order.antt =====
-- The order in which Chain of middleware.go applies its wrappers.
use gateway_pro.Prelude.{
  length, get_elem?-lt, ℕ, zero, suc, ◌≤◌, ◌≡◌, refl, ap, ◌∙◌, List, [], ◌∷◌, arith,
}
use gateway_pro.Middleware.{Handler, Middleware, chain_below, chain}

module _ {ℓ} {S : Type ℓ} where
  -- The wrappers from the left, each round all that follows.
  abbrev pub nested : Handler S → List (Middleware S) → Handler S
  nested final [] = final
  nested final (m ∷ ms) = m (nested final ms)

  chain_below-cons :
      (i : ℕ) (m : Middleware S) (ms : List (Middleware S)) (final : Handler S)
      → i ≤ length ms
      → chain_below (suc i) (m ∷ ms) final ≡ m (chain_below i ms final)
  unfolding chain_below
  chain_below-cons zero m ms final le = refl
  chain_below-cons (suc i) m ms final le =
      let (k, found) = get_elem?-lt ms i (omega (arith, le)) in
      rw (chain_below, found) (chain_below-cons i m ms (k final) (omega (arith, le)))

  -- Chain calls the first wrapper outermost: its loop from the last index down gives the wrappers
  -- from the left, each round all that follows it.
  pub chain-eq-nested :
      (final : Handler S) (ms : List (Middleware S)) → chain final ms ≡ nested final ms
  unfolding chain chain_below
  chain-eq-nested final [] = refl
  chain-eq-nested final (m ∷ ms) =
      chain_below-cons (length ms) m ms final (omega arith) ∙ ap m (chain-eq-nested final ms)
