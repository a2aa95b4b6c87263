-- ===== src/Auth/Keys/Signed.antt =====
-- What it takes to pass the middleware that NewAuthMiddleware returns, down to the key's file.
use gateway_pro.Prelude.{
  Bool-cases, Option-cases, ℤ, pos, ◌≤ℤ◌, text_eq, Text, codes, text_eq_iff, ◌≡◌, refl, ap, ◌∙◌,
  ◌≢◌, ◌⊎◌, inl, inr, true, false, Option, none, some, [], ◌∷◌, ◌++◌, arith,
}
use gateway_pro.Config.{AuthConfig}
use gateway_pro.Http.{Request, get}
use gateway_pro.Auth.{Claims, valid, is_skipped, segments, extract_bearer}
use gateway_pro.Auth.Passes.{Proves, handler-Proves}
use gateway_pro.Auth.Keys.{
  Libraries, KeyError, Result, ok, error, parse_public_key, parse_rsa_public_key, parse_block,
  load_public_key, verify_signature, decode_header, decode_claims, tools_of, new_auth_middleware,
  authenticate,
}

pub Result-cases {ℓ} :
    {A : Type ℓ} (r : Result A) → ((e : KeyError) × (r ≡ error e)) ⊎ ((a : A) × (r ≡ ok a))
Result-cases (ok a) = inr (a, refl)
Result-cases (error e) = inl (e, refl)

module _ {ℓ} {Key : Type ℓ} (lib : Libraries Key) where
  -- The file at `path` has a PEM block of one of the two types, and `key` is its RSA key.
  abbrev pub KeyOf : Text → Key → Type ℓ
  KeyOf path key =
      (contents : Text) × (kind : Text) × (bytes : Text) × (lib.read_file path ≡ some contents)
      × (lib.pem_decode contents ≡ some (kind, bytes))
      × (((kind ≡ codes "PUBLIC KEY") × (lib.parse_pkix bytes ≡ some (some key)))
          ⊎ ((kind ≡ codes "RSA PUBLIC KEY") × (lib.parse_pkcs1 bytes ≡ some key)))

  -- A token with the claims `c`, signed by the key: its three parts are base64, the header says
  -- RS256, the expiry is set and not past, and the signature is one of the first two parts.
  abbrev pub SignedBy : Key → ℤ → Text → Claims → Type 0
  SignedBy key now token c =
      (h : Text) × (b : Text) × (s : Text) × (sig : Text) × (segments token ≡ h ∷ b ∷ s ∷ [])
      × ((raw : Text) × (lib.base64_decode h ≡ some raw)
          × (lib.unmarshal_header raw ≡ some (codes "RS256")))
      × ((raw : Text) × (lib.base64_decode b ≡ some raw) × (lib.unmarshal_claims raw ≡ some c))
      × (c.exp ≢ pos 0)
      × (now ≤ℤ c.exp)
      × (lib.base64_decode s ≡ some sig)
      × (lib.verify_pkcs1v15 key (lib.sha256 (h ++ codes "." ++ b)) sig ≡ true)

  parse_block-ok :
      (kind bytes : Text) (key : Key)
      → parse_block lib kind bytes ≡ ok key
      → ((kind ≡ codes "PUBLIC KEY") × (lib.parse_pkix bytes ≡ some (some key)))
        ⊎ ((kind ≡ codes "RSA PUBLIC KEY") × (lib.parse_pkcs1 bytes ≡ some key))
  unfolding parse_block parse_public_key parse_rsa_public_key
  parse_block-ok kind bytes key e = elim (Bool-cases (text_eq kind (codes "PUBLIC KEY"))) [
    | inl pkix ↦ elim (Option-cases (lib.parse_pkix bytes)) [
      | inl bad ↦ absurd (ground arith)
      | inr (none, other) ↦ absurd (ground arith)
      | inr (some k, found) ↦ inl ((text_eq_iff kind (codes "PUBLIC KEY")).0 pkix, ground arith)
    ]
    | inr not_pkix ↦ elim (Bool-cases (text_eq kind (codes "RSA PUBLIC KEY"))) [
      | inr other ↦ absurd (ground arith)
      | inl pkcs1 ↦ elim (Option-cases (lib.parse_pkcs1 bytes)) [
        | inl bad ↦ absurd (ground arith)
        | inr (k, found) ↦ inr ((text_eq_iff kind (codes "RSA PUBLIC KEY")).0 pkcs1, ground arith)
      ]
    ]
  ]

  pub load_public_key-KeyOf :
      (path : Text) (key : Key) → load_public_key lib path ≡ ok key → KeyOf path key
  unfolding load_public_key
  load_public_key-KeyOf path key e = elim (Option-cases (lib.read_file path)) [
    | inl gone ↦ absurd (ground arith)
    | inr (contents, there) ↦ elim (Option-cases (lib.pem_decode contents)) [
      | inl bad ↦ absurd (ground arith)
      | inr ((kind, bytes), block) ↦
          (contents, kind, bytes, there, block, parse_block-ok kind bytes key (ground arith))
    ]
  ]

  verify_signature-true :
      (key : Key) (message s : Text)
      → verify_signature lib key message s ≡ true
      → (sig : Text) × (lib.base64_decode s ≡ some sig)
        × (lib.verify_pkcs1v15 key (lib.sha256 message) sig ≡ true)
  unfolding verify_signature
  verify_signature-true key message s e = elim (Option-cases (lib.base64_decode s)) [
    | inl bad ↦ absurd (ground arith)
    | inr (sig, raw) ↦ (sig, raw, ground arith)
  ]

  decode_header-some :
      (s alg : Text)
      → decode_header lib s ≡ some alg
      → (raw : Text) × (lib.base64_decode s ≡ some raw) × (lib.unmarshal_header raw ≡ some alg)
  unfolding decode_header
  decode_header-some s alg e = elim (Option-cases (lib.base64_decode s)) [
    | inl bad ↦ absurd (ground arith)
    | inr (raw, there) ↦ (raw, there, ground arith)
  ]

  decode_claims-some :
      (s : Text) (c : Claims)
      → decode_claims lib s ≡ some c
      → (raw : Text) × (lib.base64_decode s ≡ some raw) × (lib.unmarshal_claims raw ≡ some c)
  unfolding decode_claims
  decode_claims-some s c e = elim (Option-cases (lib.base64_decode s)) [
    | inl bad ↦ absurd (ground arith)
    | inr (raw, there) ↦ (raw, there, ground arith)
  ]

  pub Proves-SignedBy :
      (key : Key) (now : ℤ) (token : Text) (c : Claims)
      → Proves (tools_of lib key now) token c
      → SignedBy key now token c
  unfolding tools_of
  Proves-SignedBy key now token c (h, b, s, split, alg, claims, set_exp, unexpired, signed) =
      let (sig, raw, verified) = verify_signature-true key (h ++ codes "." ++ b) s signed in
      (
        h,
        b,
        s,
        sig,
        split,
        decode_header-some h (codes "RS256") alg,
        decode_claims-some b c claims,
        set_exp,
        unexpired,
        raw,
        verified,
      )

  -- A request that passes a middleware with authentication enabled, on a path that is not skipped:
  -- the key's file holds a PEM block of an RSA key, and the request brought a bearer token, with base64
  -- parts, an RS256 header and an expiry that is set and not past, whose signature verifies under
  -- that key; what goes on says in X-User-ID the token's subject, whatever the client wrote there.
  pub authenticate-SignedBy :
      (cfg : AuthConfig) (made : Option Key) (now : ℤ) (r r' : Request)
      → cfg.enabled ≡ true
      → new_auth_middleware lib cfg ≡ ok made
      → is_skipped cfg.skip_paths r.path ≡ false
      → authenticate lib cfg made now r ≡ valid r'
      → (key : Key) × (token : Text) × (c : Claims) × KeyOf cfg.public_key_path key
        × (extract_bearer (tools_of lib key now) r ≡ valid token)
        × SignedBy key now token c
        × (get r'.header "X-User-ID" ≡ c.sub)
  unfolding new_auth_middleware authenticate
  authenticate-SignedBy cfg none now r r' enabled made guarded passed =
      elim (Result-cases (load_public_key lib cfg.public_key_path)) [
        | inl (why, bad) ↦ absurd (ground arith)
        | inr (key, good) ↦ absurd (ground arith)
      ]
  authenticate-SignedBy cfg (some key) now r r' enabled made guarded passed =
      elim (Result-cases (load_public_key lib cfg.public_key_path)) [
        | inl (why, bad) ↦ absurd (ground arith)
        | inr (k, good) ↦
            let same : k ≡ key = ground arith in
            let (token, c, bearer, proves, user) =
              handler-Proves (tools_of lib key now) cfg.skip_paths r r' guarded passed in
            (
              key,
              token,
              c,
              load_public_key-KeyOf cfg.public_key_path key (good ∙ ap ok same),
              bearer,
              Proves-SignedBy key now token c proves,
              user,
            )
      ]
