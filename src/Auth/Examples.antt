-- ===== src/Auth/Examples.antt =====
-- A concrete run of the authentication middleware, with libraries by hand.
use gateway_pro.Prelude.{
  if◌then◌else◌, pos, text_eq, has_prefix, Text, codes, ◌≡◌, refl, true, false, ◌&&◌, none, some,
  [], ◌∷◌, ◌++◌,
}
use gateway_pro.Config.{AuthConfig}
use gateway_pro.Http.{Request, get, set}
use gateway_pro.Auth.{
  Claims, valid, extract_bearer, at_space, segments, validate_parts, validate_claims,
  validate_token, is_skipped, handler,
}
use gateway_pro.Auth.Keys.{
  Libraries, ok, parse_public_key, parse_rsa_public_key, parse_block, load_public_key,
  verify_signature, decode_header, decode_claims, tools_of, new_auth_middleware, authenticate,
}
use gateway_pro.Auth.Keys.Signed.{KeyOf, SignedBy, authenticate-SignedBy}

abbrev ada : Claims
ada = record { sub = codes "ada"; exp = pos 100 }

abbrev lib : Libraries Text
lib = record {
  read_file = λ path. if text_eq path (codes "key.pem") then some (codes "PEM") else none;
  pem_decode = λ contents. some (codes "RSA PUBLIC KEY", codes "K");
  parse_pkix = λ bytes. none;
  parse_pkcs1 = λ bytes. some bytes;
  base64_decode = λ s. some s;
  unmarshal_header = λ h. if text_eq h (codes "h") then some (codes "RS256") else none;
  unmarshal_claims = λ c. if text_eq c (codes "c") then some ada else none;
  sha256 = λ m. codes "#" ++ m;
  verify_pkcs1v15 = λ key digest sig.
      text_eq key (codes "K") && (text_eq digest (codes "#h.c") && text_eq sig (codes "s"));
  equal_fold = text_eq;
  trim_space = λ s. s;
}

abbrev cfg : AuthConfig
cfg = record {
  enabled = true;
  jwks_url = [];
  public_key_path = codes "key.pem";
  skip_paths = codes "/health" ∷ [];
}

abbrev request : Request
request = record {
  method = codes "GET";
  path = codes "/api";
  host = codes "gateway";
  remote_addr = codes "10.0.0.1:4711";
  tls = false;
  header = ("Authorization", codes "Bearer h.c.s") ∷ ("X-User-ID", codes "root") ∷ [];
}

abbrev passed : Request
passed = record request {
  header = ("Authorization", codes "Bearer h.c.s") ∷ ("X-User-ID", codes "ada") ∷ [];
}

api_guarded : is_skipped cfg.skip_paths (codes "/api") ≡ false
unfolding is_skipped has_prefix
api_guarded = refl

key_loaded : new_auth_middleware lib cfg ≡ ok (some (codes "K"))
unfolding new_auth_middleware load_public_key parse_block parse_public_key parse_rsa_public_key
    text_eq
key_loaded = refl

request_passes : authenticate lib cfg (some (codes "K")) (pos 99) request ≡ valid passed
unfolding authenticate tools_of verify_signature decode_header decode_claims handler is_skipped
    has_prefix extract_bearer at_space segments validate_parts validate_claims validate_token
    text_eq get set
request_passes = refl

authenticate-SignedBy_example :
    (key : Text) × (token : Text) × (c : Claims) × KeyOf lib (codes "key.pem") key
    × (extract_bearer (tools_of lib key (pos 99)) request ≡ valid token)
    × SignedBy lib key (pos 99) token c
    × (get passed.header "X-User-ID" ≡ c.sub)
authenticate-SignedBy_example =
    authenticate-SignedBy lib cfg (some (codes "K")) (pos 99) request passed refl key_loaded
      api_guarded request_passes
