-- ===== src/Auth/Passes.antt =====
-- Which requests pass the authentication handler.
use gateway_pro.Prelude.{
  Bool-cases, Option-cases, pos, ◌≤ℤ◌, text_eq, Text, codes, text_eq_iff, ◌≡◌, refl, ap, subst, ◌∙◌,
  ◌≢◌, ◌⊎◌, inl, inr, true, false, some, List, [], ◌∷◌, ◌++◌, arith,
}
use gateway_pro.Http.{Request, get, set, get-set_self}
use gateway_pro.Auth.{
  Claims, Rejection, Checked, valid, rejected, is_skipped, segments, Tools, extract_bearer,
  validate_claims, validate_parts, validate_token, handler,
}

-- A token with the claims `c`: three parts, an RS256 header, claims with an expiry that is set and
-- not past, and a signature of the first two parts.
abbrev pub Proves : Tools → Text → Claims → Type 0
Proves t token c =
    (h : Text) × (b : Text) × (s : Text) × (segments token ≡ h ∷ b ∷ s ∷ [])
    × (t.decode_header h ≡ some (codes "RS256"))
    × (t.decode_claims b ≡ some c)
    × (c.exp ≢ pos 0)
    × (t.now ≤ℤ c.exp)
    × (t.verifies (h ++ codes "." ++ b) s ≡ true)

pub Checked-cases {ℓ} :
    {A : Type ℓ} (r : Checked A) → ((e : Rejection) × (r ≡ rejected e)) ⊎ ((a : A) × (r ≡ valid a))
Checked-cases (valid a) = inr (a, refl)
Checked-cases (rejected e) = inl (e, refl)

validate_claims-valid :
    (t : Tools) (m s : Text) (c c' : Claims)
    → validate_claims t m s c ≡ valid c'
    → (c ≡ c') × (c.exp ≢ pos 0) × (t.now ≤ℤ c.exp) × (t.verifies m s ≡ true)
unfolding validate_claims
validate_claims-valid t m s c c' e = ground arith

validate_three :
    (t : Tools) (h b s : Text) (c : Claims)
    → validate_parts t (h ∷ b ∷ s ∷ []) ≡ valid c
    → (t.decode_header h ≡ some (codes "RS256"))
      × (t.decode_claims b ≡ some c)
      × (c.exp ≢ pos 0)
      × (t.now ≤ℤ c.exp)
      × (t.verifies (h ++ codes "." ++ b) s ≡ true)
unfolding validate_parts
validate_three t h b s c e = elim (Option-cases (t.decode_header h)) [
  | inl missing ↦ absurd (ground arith)
  | inr (alg, found) ↦ elim (Bool-cases (text_eq alg (codes "RS256"))) [
    | inr other ↦ absurd (ground arith)
    | inl rs256 ↦ elim (Option-cases (t.decode_claims b)) [
      | inl missing ↦ absurd (ground arith)
      | inr (c', claims) ↦
          let (same, set_exp, unexpired, signed) =
            validate_claims-valid t (h ++ codes "." ++ b) s c' c
              (rw (validate_parts, found, rs256, claims) at e) in
          let alg_is : alg ≡ codes "RS256" = (text_eq_iff alg (codes "RS256")).0 rs256 in
          (
            found ∙ ap some alg_is,
            claims ∙ ap some same,
            subst (λ (k : Claims). k.exp ≢ pos 0) same set_exp,
            subst (λ (k : Claims). t.now ≤ℤ k.exp) same unexpired,
            signed,
          )
    ]
  ]
]

of_parts-valid :
    (t : Tools) (token : Text) (ps : List Text) (c : Claims)
    → segments token ≡ ps
    → validate_parts t ps ≡ valid c
    → Proves t token c
of_parts-valid t token [] c split e = absurd (unfold validate_parts in ground arith)
of_parts-valid t token (h ∷ []) c split e = absurd (unfold validate_parts in ground arith)
of_parts-valid t token (h ∷ b ∷ []) c split e = absurd (unfold validate_parts in ground arith)
of_parts-valid t token (h ∷ b ∷ s ∷ []) c split e =
    let (alg, claims, set_exp, unexpired, signed) = validate_three t h b s c e in
    (h, b, s, split, alg, claims, set_exp, unexpired, signed)
of_parts-valid t token (h ∷ b ∷ s ∷ x ∷ xs) c split e =
    absurd (unfold validate_parts in ground arith)

-- A request that passes on a path that is not skipped brought a bearer token that proves its
-- claims, by an RS256 header, an expiry that is set and not past, and a signature; and what goes
-- on says in X-User-ID the subject of those claims, whatever the client wrote there.
pub handler-Proves :
    (t : Tools) (skip_paths : List Text) (r r' : Request)
    → is_skipped skip_paths r.path ≡ false
    → handler t skip_paths r ≡ valid r'
    → (token : Text) × (c : Claims) × (extract_bearer t r ≡ valid token)
      × Proves t token c
      × (get r'.header "X-User-ID" ≡ c.sub)
unfolding handler validate_token
handler-Proves t skip_paths r r' guarded e = elim (Checked-cases (extract_bearer t r)) [
  | inl (why, bad) ↦ absurd (ground arith)
  | inr (token, bearer) ↦ elim (Checked-cases (validate_parts t (segments token))) [
    | inl (why, bad) ↦ absurd (ground arith)
    | inr (c, good) ↦
        let whole : record r { header = set r.header "X-User-ID" c.sub } ≡ r' = ground arith in
        (
          token,
          c,
          bearer,
          of_parts-valid t token (segments token) c refl good,
          subst (λ (q : Request). get q.header "X-User-ID" ≡ c.sub) whole
              (get-set_self r.header "X-User-ID" c.sub),
        )
  ]
]

-- The token depends on the Authorization header only.
pub extract_bearer_same :
    (t : Tools) (r r' : Request)
    → get r'.header "Authorization" ≡ get r.header "Authorization"
    → extract_bearer t r' ≡ extract_bearer t r
unfolding extract_bearer
extract_bearer_same t r r' same = rw same refl
