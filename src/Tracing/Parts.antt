-- ===== src/Tracing/Parts.antt =====
-- What splitting a text at its dashes gives.
use gateway_pro.Prelude.{
  ◌==◌, Bool-cases, length, Text, ℕ, ◌+◌, ◌≤◌, ◌≡◌, refl, sym, ap, subst, ◌∙◌, ◌≢◌, ◌⊎◌, inl, inr,
  false, List, [], ◌∷◌, ◌++◌, arith,
}
use gateway_pro.Tracing.{split}
use gateway_pro.Tracing.Recent.{NoDash}

split-dash : (s : Text) → split (45 ∷ s) ≡ [] ∷ split s
unfolding split
split-dash s = refl

abbrev First : ℕ → Text → Type 0
First c s =
    (part : Text) × (parts : List Text) × (split s ≡ part ∷ parts)
    × (split (c ∷ s) ≡ (c ∷ part) ∷ parts)

-- A character that is no dash goes to the first part.
split-First : (c : ℕ) (s : Text) → c ≢ 45 → First c s
unfolding split
split-First c [] other =
    let test : (c == 45) ≡ false = ground (arith, other) in ([], [], refl, rw test refl)
split-First c (d ∷ s) other =
    let test : (c == 45) ≡ false = ground (arith, other) in
    elim (Bool-cases (d == 45)) [
      | inl dash ↦ ([], split s, rw dash refl, rw (test, dash) refl)
      | inr other' ↦
          let (part, parts, rest, here) = split-First d s (ground (arith, other')) in
          (d ∷ part, parts, here, rw (test, here) refl)
    ]

pub length-split : (a b : Text) → length (split (a ++ 45 ∷ b)) ≡ length (split a) + length (split b)
length-split [] b = ap length (split-dash b) ∙ (unfold split in omega arith)
length-split (c ∷ a) b = elim (Bool-cases (c == 45)) [
  | inl dash ↦
      let same : c ≡ 45 = ground arith in
      subst (λ x. length (split (x ∷ (a ++ 45 ∷ b))) ≡ length (split (x ∷ a)) + length (split b))
        (sym same)
        (ap length (split-dash (a ++ 45 ∷ b))
          ∙ omega (arith, length-split a b, ap length (split-dash a)))
  | inr other ↦
      let ne : c ≢ 45 = ground (arith, other) in
      let (part, parts, rest, here) = split-First c a ne in
      let (part', parts', rest', here') = split-First c (a ++ 45 ∷ b) ne in
      let size = rw (rest, rest') at (length-split a b) in rw (here, here') size
]

-- A text without a dash is one part, and any other has more.
pub split_whole : (s : Text) → NoDash s ⊎ (2 ≤ length (split s))
split_whole [] = inl tt
split_whole (c ∷ s) = elim (Bool-cases (c == 45)) [
  | inl dash ↦
      let same : c ≡ 45 = ground arith in
      let (part, parts, rest, here) = split-First 48 s (omega arith) in
      inr (rw (same, split-dash, rest) (omega arith))
  | inr other ↦
      let ne : c ≢ 45 = ground (arith, other) in
      let (part, parts, rest, here) = split-First c s ne in
      elim (split_whole s) [ inl all ↦ inl (ne, all) | inr more ↦ inr (rw here (rw rest at more)) ]
]
