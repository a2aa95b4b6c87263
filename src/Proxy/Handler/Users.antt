-- ===== src/Proxy/Handler/Users.antt =====
-- A limit per user, behind the authentication: whose requests count against whose limit.
use gateway_pro.Prelude.{
  if◌then◌else◌, Bool-cases, drop, ℤ, text_eq, Text, codes, is_empty, text_eq_iff, ℕ, ◌≡◌, refl,
  sym, ap, subst, ◌∙◌, ◌≢◌, ◌⊎◌, inl, inr, false, Option, List, ◌++◌, arith,
}
use gateway_pro.Http.{Request, get}
use gateway_pro.Auth
use gateway_pro.Auth.{Claims, valid, Tools, is_skipped}
use gateway_pro.Auth.Passes.{Proves, handler-Proves}
use gateway_pro.RateLimiter
use gateway_pro.RateLimiter.{Limiter, noop, sliding, token_bucket, redis, key_fn}
use gateway_pro.RateLimiter.Sliding
use gateway_pro.RateLimiter.TokenBucket
use gateway_pro.RateLimiter.Keys.{sliding_keys, token_keys}

-- The limiter keeps its buckets in memory, by the user.
abbrev pub ByUser : Limiter → Type 0
ByUser noop = ⊥
ByUser (sliding l) = l.key_by ≡ codes "user"
ByUser (token_bucket l) = l.key_by ≡ codes "user"
ByUser (redis l) = ⊥

-- The name of a user in a key.
abbrev pub named : Text → Text
named sub = if is_empty sub then codes "anonymous" else sub

user_key :
    (r : Request) → key_fn (codes "user") r ≡ codes "user:" ++ named (get r.header "X-User-ID")
unfolding key_fn text_eq
user_key r = elim (Bool-cases (is_empty (get r.header "X-User-ID"))) [
  | inl empty ↦ rw (key_fn, empty) refl
  | inr some' ↦ rw (key_fn, some') refl
]

keys_apart :
    (r r' : Request)
    → named (get r.header "X-User-ID") ≢ named (get r'.header "X-User-ID")
    → key_fn (codes "user") r ≢ key_fn (codes "user") r'
keys_apart r r' differ same = differ (ap (drop 5) (sym (user_key r) ∙ same ∙ user_key r'))

allow_apart :
    (l : Limiter) (reply reply' : Text → Option (List ℤ)) (now now' : ℕ) (r r' : Request)
    → ByUser l
    → key_fn (codes "user") r ≢ key_fn (codes "user") r'
    → (RateLimiter.allow reply' now' r' (RateLimiter.allow reply now r l).0).1
      ≡ (RateLimiter.allow reply' now' r' l).1
unfolding RateLimiter.allow Sliding.allow TokenBucket.allow
allow_apart noop reply reply' now now' r r' by differ = absurd by
allow_apart (sliding l) reply reply' now now' r r' by differ =
    sliding_keys (key_fn l.key_by r) (key_fn l.key_by r') now now' l
      (subst (λ k. key_fn k r ≢ key_fn k r') (sym by) differ)
allow_apart (token_bucket l) reply reply' now now' r r' by differ =
    token_keys (key_fn l.key_by r) (key_fn l.key_by r') now now' l
      (subst (λ k. key_fn k r ≢ key_fn k r') (sym by) differ)
allow_apart (redis l) reply reply' now now' r r' by differ = absurd by

-- Two requests that pass the authentication, on paths that are not skipped, each prove some claims;
-- and unless the subjects of both have the same name, what a limiter that keeps its buckets in
-- memory, by users, answers the second does not depend on the first. An empty subject has the name `anonymous`.
pub users_apart :
    (t t' : Tools) (skip_paths : List Text) (q q' r r' : Request) (l : Limiter)
    (reply reply' : Text → Option (List ℤ)) (now now' : ℕ)
    → is_skipped skip_paths q.path ≡ false
    → is_skipped skip_paths q'.path ≡ false
    → Auth.handler t skip_paths q ≡ valid r
    → Auth.handler t' skip_paths q' ≡ valid r'
    → ByUser l
    → (token token' : Text) × (c c' : Claims) × Proves t token c
      × Proves t' token' c'
      × ((named c.sub ≡ named c'.sub)
          ⊎ ((RateLimiter.allow reply' now' r' (RateLimiter.allow reply now r l).0).1
              ≡ (RateLimiter.allow reply' now' r' l).1))
users_apart t t' skip_paths q q' r r' l reply reply' now now' guarded guarded' passed passed' by =
    let (token, c, bearer, proves, user) = handler-Proves t skip_paths q r guarded passed in
    let (token', c', bearer', proves', user') =
      handler-Proves t' skip_paths q' r' guarded' passed' in
    (
      token,
      token',
      c,
      c',
      proves,
      proves',
      elim (Bool-cases (text_eq (named c.sub) (named c'.sub))) [
        | inl same ↦ inl ((text_eq_iff (named c.sub) (named c'.sub)).0 same)
        | inr differ ↦ inr (
            allow_apart l reply reply' now now' r r' by (
              keys_apart r r' (λ same.
                let e : named c.sub ≡ named c'.sub = ap named (sym user) ∙ same ∙ ap named user' in
                absurd (ground (arith, (text_eq_iff (named c.sub) (named c'.sub)).1 e, differ)))))
      ],
    )
