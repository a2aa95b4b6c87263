-- ===== src/Auth.antt =====
-- internal/middleware/auth.go: the handler that lets a request pass with a valid JWT only.
pub mod Passes
pub mod Keys
mod Examples
use gateway_pro.Prelude.{
  ◌==◌, if◌then◌else◌, ℤ, ltb_ℤ, is_zero_ℤ, text_eq, has_prefix, Text, codes, is_empty, Bool, false,
  ◌||◌, Option, none, some, List, [], ◌∷◌, ◌++◌,
}
use gateway_pro.Http.{Request, get, set}

-- jwtClaims; `iat` is decoded and never read.
pub record Claims : Type 0 where
  pub sub : Text
  pub exp : ℤ

-- The errors, of extractBearer and of validateToken.
pub data Rejection : Type 0 where
  missing_header not_bearer : Rejection
  malformed bad_header unsupported_algorithm bad_claims : Rejection
  missing_exp expired bad_signature : Rejection

pub data Checked {ℓ} (A : Type ℓ) : Type ℓ where
  valid : A → Checked A
  rejected : Rejection → Checked A

-- isSkipped
unfoldable pub is_skipped : List Text → Text → Bool
is_skipped [] path = false
is_skipped (skip ∷ skips) path = has_prefix path skip || is_skipped skips path

-- `strings.Split(token, ".")`
unfoldable pub segments : Text → List Text
segments [] = [] ∷ []
segments (c ∷ s) =
    let rest = segments s in
    if c == 46
    then [] ∷ rest
    else elim rest [ [] ↦ (c ∷ []) ∷ [] | part ∷ parts ↦ (c ∷ part) ∷ parts ]

-- `strings.SplitN(hdr, " ", 2)`: what stands before the first space and behind it.
unfoldable pub at_space : Text → Option (Text × Text)
at_space [] = none
at_space (c ∷ s) =
    let rest = at_space s in
    if c == 32 then some ([], s) else elim rest [ none ↦ none | some (a, b) ↦ some (c ∷ a, b) ]

-- What the handler calls: strings.EqualFold and strings.TrimSpace, the base64 and JSON decoding of a
-- header's `alg` and of the claims, the RSA check of a signature, and the clock in seconds.
pub record Tools : Type 0 where
  pub equal_fold : Text → Text → Bool
  pub trim_space : Text → Text
  pub decode_header : Text → Option Text
  pub decode_claims : Text → Option Claims
  pub verifies : Text → Text → Bool
  pub now : ℤ

module _ (t : Tools) where
  unfoldable pub extract_bearer : Request → Checked Text
  unfolding at_space
  extract_bearer r =
      let hdr = get r.header "Authorization" in
      if is_empty hdr then rejected missing_header else elim (at_space hdr) [
        | none ↦ rejected not_bearer
        | some (scheme, token) ↦
            if t.equal_fold scheme (codes "Bearer")
            then valid (t.trim_space token)
            else rejected not_bearer
      ]

  -- validateToken from the expiry check on.
  unfoldable pub validate_claims : Text → Text → Claims → Checked Claims
  validate_claims message signature c =
      if is_zero_ℤ c.exp
      then rejected missing_exp
      else if ltb_ℤ c.exp t.now
      then rejected expired
      else if t.verifies message signature
      then valid c
      else rejected bad_signature

  -- validateToken on the parts of the token.
  unfoldable pub validate_parts : List Text → Checked Claims
  unfolding validate_claims
  validate_parts (h ∷ c ∷ s ∷ []) = elim (t.decode_header h) [
    | none ↦ rejected bad_header
    | some alg ↦
        if text_eq alg (codes "RS256")
        then elim (t.decode_claims c) [
          | none ↦ rejected bad_claims
          | some claims ↦ validate_claims (h ++ codes "." ++ c) s claims
        ]
        else rejected unsupported_algorithm
  ]
  validate_parts _ = rejected malformed

  unfoldable pub validate_token : Text → Checked Claims
  unfolding validate_parts segments
  validate_token token = validate_parts (segments token)

  -- The handler: the request that goes on, or the reason of a 401.
  unfoldable pub handler : List Text → Request → Checked Request
  unfolding is_skipped extract_bearer validate_token
  handler skip_paths r = if is_skipped skip_paths r.path then valid r else elim (extract_bearer r) [
    | rejected why ↦ rejected why
    | valid token ↦ elim (validate_token token) [
      | rejected why ↦ rejected why
      | valid claims ↦ valid (record r { header = set r.header "X-User-ID" claims.sub })
    ]
  ]
