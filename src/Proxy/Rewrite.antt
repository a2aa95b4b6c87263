-- ===== src/Proxy/Rewrite.antt =====
-- The path and the headers that the Director leaves.
use gateway_pro.Prelude.{
  if◌then◌else◌, Option-cases, length, drop, Text, codes, is_empty, has_prefix-append, String, ◌≡◌,
  refl, ◌∙◌, ◌↔◌, ◌⊎◌, inl, inr, Option, none, some, [], ◌∷◌, ◌++◌,
}
use gateway_pro.Http.{Request, get, set, get-set}
use gateway_pro.Proxy.{Route, trim_prefix, stripped, forwarded_for, scheme, director}

-- The path begins with a slash.
abbrev pub Rooted : Text → Type 0
Rooted [] = ⊥
Rooted (c ∷ s) = c ≡ 47

drop-append : (p rest : Text) → drop (length p) (p ++ rest) ≡ rest
drop-append [] rest = refl
drop-append (c ∷ p) rest = drop-append p rest

-- A route with strip_prefix sends what follows the prefix, "/" if that is nothing.
stripped-append :
    (prefix rest : Text)
    → stripped prefix (prefix ++ rest) ≡ (if is_empty rest then codes "/" else rest)
unfolding stripped trim_prefix
stripped-append prefix rest = rw (has_prefix-append prefix rest, drop-append prefix rest) refl

-- A request whose path is the prefix and then `rest` is sent on with the path `rest` as it is, or
-- "/" if that is nothing. The path that is sent thus begins with a slash exactly if nothing or a
-- slash follows the prefix: the prefix "/api/" makes "users" of "/api/users", and "/api" makes "x"
-- of "/apix".
pub stripped-Rooted :
    (prefix rest : Text)
    → (stripped prefix (prefix ++ rest) ≡ (if is_empty rest then codes "/" else rest))
      × (Rooted (stripped prefix (prefix ++ rest)) ↔ ((rest ≡ []) ⊎ Rooted rest))
stripped-Rooted prefix [] =
    (stripped-append prefix [], rw (stripped-append prefix []) ((λ _. inl refl), (λ _. refl)))
stripped-Rooted prefix (c ∷ rest) = (
  stripped-append prefix (c ∷ rest),
  rw (stripped-append prefix (c ∷ rest)) ((λ s. inr s), (λ c. elim c [ inl e ↦ cc | inr s ↦ s ])),
)

-- What the upstream reads in X-Forwarded-For: the client's own list with the peer's address after
-- it, or the client's list alone where the peer's address does not parse.
abbrev pub forwarded_list : Option Text → Text → Text
forwarded_list none prior = prior
forwarded_list (some ip) prior = if is_empty prior then ip else prior ++ codes ", " ++ ip

module _ (split_host_port : Text → Option Text) (r : Request) where
  forwarded_for-get :
      (get (forwarded_for split_host_port r) "X-Forwarded-For"
        ≡ forwarded_list (split_host_port r.remote_addr) (get r.header "X-Forwarded-For"))
      × (get (forwarded_for split_host_port r) "X-Real-IP" ≡ get r.header "X-Real-IP")
  unfolding forwarded_for
  forwarded_for-get = elim (Option-cases (split_host_port r.remote_addr)) [
    | inl missing ↦ rw (forwarded_for, missing) (refl, refl)
    | inr (ip, found) ↦
        rw (forwarded_for, found)
          (
            get-set r.header "X-Forwarded-For" "X-Forwarded-For" _,
            get-set r.header "X-Forwarded-For" "X-Real-IP" _,
          )
  ]

  -- The Director appends the peer's address to X-Forwarded-For, overwrites X-Forwarded-Host and
  -- X-Forwarded-Proto whatever the client sent, and leaves X-Real-IP alone.
  director-header :
      (rt : Route)
      → let h = (director split_host_port rt r).header in
        (get h "X-Forwarded-For"
          ≡ forwarded_list (split_host_port r.remote_addr) (get r.header "X-Forwarded-For"))
        × (get h "X-Forwarded-Host" ≡ r.host)
        × (get h "X-Forwarded-Proto" ≡ (if r.tls then codes "https" else codes "http"))
        × (get h "X-Real-IP" ≡ get r.header "X-Real-IP")
  unfolding director scheme
  director-header rt =
      let (list, real_ip) = forwarded_for-get in
      let h = forwarded_for split_host_port r in
      let h' = set h "X-Forwarded-Host" r.host in
      let proto = if r.tls then codes "https" else codes "http" in
      let last : (n : String) → get (set h' "X-Forwarded-Proto" proto) n ≡ _ =
        λ n. get-set h' "X-Forwarded-Proto" n proto in
      let first : (n : String) → get h' n ≡ _ = λ n. get-set h "X-Forwarded-Host" n r.host in
      (
        last "X-Forwarded-For" ∙ first "X-Forwarded-For" ∙ list,
        last "X-Forwarded-Host" ∙ first "X-Forwarded-Host",
        last "X-Forwarded-Proto",
        last "X-Real-IP" ∙ first "X-Real-IP" ∙ real_ip,
      )
