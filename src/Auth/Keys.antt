-- ===== src/Auth/Keys.antt =====
-- The key and the cryptography of auth.go: NewAuthMiddleware, loadPublicKey, verifySignature and the
-- decoding of a token's parts, on what the Go libraries compute.
pub mod Signed
use gateway_pro.Prelude.{if◌then◌else◌, ℤ, text_eq, Text, codes, Bool, false, Option, none, some}
use gateway_pro.Config.{AuthConfig}
use gateway_pro.Http.{Request}
use gateway_pro.Auth
use gateway_pro.Auth.{Claims, Checked, valid, Tools}

-- os.ReadFile; the type and the bytes of the block that pem.Decode finds; x509.ParsePKIXPublicKey,
-- whose key need not be one of RSA, and ParsePKCS1PublicKey; base64.RawURLEncoding; json.Unmarshal
-- into a jwtHeader, of which `alg` counts, and into a jwtClaims; sha256.Sum256 and
-- rsa.VerifyPKCS1v15; strings.EqualFold and strings.TrimSpace.
pub record Libraries {ℓ} (Key : Type ℓ) : Type ℓ where
  pub read_file : Text → Option Text
  pub pem_decode : Text → Option (Text × Text)
  pub parse_pkix : Text → Option (Option Key)
  pub parse_pkcs1 : Text → Option Key
  pub base64_decode : Text → Option Text
  pub unmarshal_header : Text → Option Text
  pub unmarshal_claims : Text → Option Claims
  pub sha256 : Text → Text
  pub verify_pkcs1v15 : Key → Text → Text → Bool
  pub equal_fold : Text → Text → Bool
  pub trim_space : Text → Text

-- The errors of loadPublicKey.
pub data KeyError : Type 0 where
  unreadable no_pem_block not_parsed not_rsa : KeyError
  unsupported_type : Text → KeyError

pub data Result {ℓ} (A : Type ℓ) : Type ℓ where
  ok : A → Result A
  error : KeyError → Result A

module _ {ℓ} {Key : Type ℓ} (lib : Libraries Key) where
  -- `case "PUBLIC KEY"`
  unfoldable pub parse_public_key : Text → Result Key
  parse_public_key bytes = elim (lib.parse_pkix bytes) [
    | none ↦ error not_parsed
    | some none ↦ error not_rsa
    | some (some key) ↦ ok key
  ]

  -- `case "RSA PUBLIC KEY"`
  unfoldable pub parse_rsa_public_key : Text → Result Key
  parse_rsa_public_key bytes = elim (lib.parse_pkcs1 bytes) [
    | none ↦ error not_parsed
    | some key ↦ ok key
  ]

  -- The switch on the block's type.
  unfoldable pub parse_block : Text → Text → Result Key
  unfolding parse_public_key parse_rsa_public_key
  parse_block kind bytes =
      if text_eq kind (codes "PUBLIC KEY")
      then parse_public_key bytes
      else if text_eq kind (codes "RSA PUBLIC KEY")
      then parse_rsa_public_key bytes
      else error (unsupported_type kind)

  unfoldable pub load_public_key : Text → Result Key
  unfolding parse_block
  load_public_key path = elim (lib.read_file path) [
    | none ↦ error unreadable
    | some contents ↦ elim (lib.pem_decode contents) [
      | none ↦ error no_pem_block
      | some (kind, bytes) ↦ parse_block kind bytes
    ]
  ]

  unfoldable pub verify_signature : Key → Text → Text → Bool
  verify_signature key message sig_b64 = elim (lib.base64_decode sig_b64) [
    | none ↦ false
    | some sig ↦ lib.verify_pkcs1v15 key (lib.sha256 message) sig
  ]

  unfoldable pub decode_header : Text → Option Text
  decode_header s = elim (lib.base64_decode s) [ none ↦ none | some b ↦ lib.unmarshal_header b ]

  unfoldable pub decode_claims : Text → Option Claims
  decode_claims s = elim (lib.base64_decode s) [ none ↦ none | some b ↦ lib.unmarshal_claims b ]

  -- What a handler with the key `key` works with at the time `now`, in seconds.
  unfoldable pub tools_of : Key → ℤ → Tools
  unfolding verify_signature decode_header decode_claims
  tools_of key now = record {
    equal_fold = lib.equal_fold;
    trim_space = lib.trim_space;
    decode_header = decode_header;
    decode_claims = decode_claims;
    verifies = verify_signature key;
    now = now;
  }

  -- NewAuthMiddleware: the key of its handler; `none` for the one that lets all pass.
  unfoldable pub new_auth_middleware : AuthConfig → Result (Option Key)
  unfolding load_public_key
  new_auth_middleware cfg =
      if cfg.enabled
      then elim (load_public_key cfg.public_key_path) [ error e ↦ error e | ok key ↦ ok (some key) ]
      else ok none

  -- What the middleware that it returns does with a request.
  unfoldable pub authenticate : AuthConfig → Option Key → ℤ → Request → Checked Request
  unfolding tools_of
  authenticate cfg none now r = valid r
  authenticate cfg (some key) now r = Auth.handler (tools_of key now) cfg.skip_paths r
