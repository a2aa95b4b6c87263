-- ===== src/Proxy/Match.antt =====
-- Which route ServeHTTP dispatches to.
use gateway_pro.Prelude.{
  ltb, if◌then◌else◌, ltb→lt, ltb→le, Bool-cases, length, All, All-append, has_prefix, Text, ℕ, ◌≤◌,
  ◌<◌, ◌≡◌, refl, sym, ap, subst, ◌∙◌, inl, inr, true, false, Option, none, some, List, [], ◌∷◌,
  ◌++◌, arith,
}
use mathlib.Core.List.{append-nil}
use gateway_pro.Proxy.{Route, longer, match_from, match_route}

-- `rt` stands in `rts`, its prefix matches, and the matching prefixes are shorter before it and
-- not longer after it.
pub record Best (path : Text) (rts : List Route) (rt : Route) : Type 0 where
  pub before : List Route
  pub after : List Route
  pub split : rts ≡ before ++ rt ∷ after
  pub matches : has_prefix path rt.prefix ≡ true
  pub shorter :
      All (λ r. has_prefix path r.prefix ≡ true → length r.prefix < length rt.prefix) before
  pub no_longer :
      All (λ r. has_prefix path r.prefix ≡ true → length r.prefix ≤ length rt.prefix) after

abbrev pub Unmatched : Text → List Route → Type 0
Unmatched path = All (λ r. has_prefix path r.prefix ≡ false)

-- What the loop has found after the routes `seen`.
abbrev Found : Text → List Route → Option Route → Type 0
Found path seen none = Unmatched path seen
Found path seen (some rt) = Best path seen rt

append_one {ℓ} : {A : Type ℓ} (xs ys : List A) (x : A) → xs ++ x ∷ ys ≡ (xs ++ x ∷ []) ++ ys
append_one [] ys x = refl
append_one (y ∷ xs) ys x = ap (◌∷◌ y) (append_one xs ys x)

append_split {ℓ} :
    {A : Type ℓ} (xs ys zs : List A) (x : A) → (xs ++ x ∷ ys) ++ zs ≡ xs ++ x ∷ (ys ++ zs)
append_split [] ys zs x = refl
append_split (y ∷ xs) ys zs x = ap (◌∷◌ y) (append_split xs ys zs x)

below-All :
    (path : Text) (n m : ℕ) (rts : List Route)
    → n < m
    → All (λ r. has_prefix path r.prefix ≡ true → length r.prefix ≤ n) rts
    → All (λ r. has_prefix path r.prefix ≡ true → length r.prefix < m) rts
below-All path n m [] lt a = tt
below-All path n m (r ∷ rts) lt a = ((λ ok. omega (arith, a.0 ok)), below-All path n m rts lt a.1)

Unmatched-shorter :
    (path : Text) (m : ℕ) (rts : List Route)
    → Unmatched path rts
    → All (λ r. has_prefix path r.prefix ≡ true → length r.prefix < m) rts
Unmatched-shorter path m [] a = tt
Unmatched-shorter path m (r ∷ rts) a =
    ((λ ok. let no = a.0 in cc), Unmatched-shorter path m rts a.1)

shorter-no_longer :
    (path : Text) (m : ℕ) (rts : List Route)
    → All (λ r. has_prefix path r.prefix ≡ true → length r.prefix < m) rts
    → All (λ r. has_prefix path r.prefix ≡ true → length r.prefix ≤ m) rts
shorter-no_longer path m [] a = tt
shorter-no_longer path m (r ∷ rts) a =
    ((λ ok. omega (arith, a.0 ok)), shorter-no_longer path m rts a.1)

-- A longer match than all before becomes the best.
Best-last :
    (path : Text) (seen : List Route) (rt : Route)
    → has_prefix path rt.prefix ≡ true
    → All (λ r. has_prefix path r.prefix ≡ true → length r.prefix < length rt.prefix) seen
    → Best path (seen ++ rt ∷ []) rt
Best-last path seen rt ok a = record {
  before = seen;
  after = [];
  split = refl;
  matches = ok;
  shorter = a;
  no_longer = tt;
}

-- The best stays it when a route that is no longer match follows.
Best-keep :
    (path : Text) (seen : List Route) (m rt : Route)
    → Best path seen m
    → (has_prefix path rt.prefix ≡ true → length rt.prefix ≤ length m.prefix)
    → Best path (seen ++ rt ∷ []) m
Best-keep path seen m rt b le = record {
  before = b.before;
  after = b.after ++ rt ∷ [];
  split =
      ap (λ (xs : List Route). xs ++ rt ∷ []) b.split ∙ append_split b.before b.after (rt ∷ []) m;
  matches = b.matches;
  shorter = b.shorter;
  no_longer = All-append _ b.after (rt ∷ []) b.no_longer (le, tt);
}

Best-All :
    (path : Text) (seen : List Route) (m : Route)
    → Best path seen m
    → All (λ r. has_prefix path r.prefix ≡ true → length r.prefix ≤ length m.prefix) seen
Best-All path seen m b = subst (All _) (sym b.split) (
    All-append _ b.before (m ∷ b.after) (shorter-no_longer path _ b.before b.shorter)
      ((λ _. omega arith), b.no_longer))

Found-step :
    (path : Text) (seen : List Route) (found : Option Route) (rt : Route)
    → Found path seen found
    → Found path (seen ++ rt ∷ []) (if has_prefix path rt.prefix then longer rt found else found)
unfolding longer
Found-step path seen none rt f = elim (Bool-cases (has_prefix path rt.prefix)) [
  | inl ok ↦ rw ok (Best-last path seen rt ok (Unmatched-shorter path _ seen f))
  | inr other ↦ rw other (All-append _ seen (rt ∷ []) f (other, tt))
]
Found-step path seen (some m) rt f = elim (Bool-cases (has_prefix path rt.prefix)) [
  | inr other ↦ rw other (Best-keep path seen m rt f (λ ok. absurd (ground arith)))
  | inl ok ↦ elim (Bool-cases (ltb (length m.prefix) (length rt.prefix))) [
    | inl more ↦
        rw (ok, more)
          (Best-last path seen rt ok
            (below-All path _ _ seen (ltb→lt _ _ more) (Best-All path seen m f)))
    | inr less ↦ rw (ok, less) (Best-keep path seen m rt f (λ _. ltb→le _ _ less))
  ]
]

Found-match_from :
    (path : Text) (seen : List Route) (found : Option Route) (rts : List Route)
    → Found path seen found
    → Found path (seen ++ rts) (match_from path found rts)
unfolding match_from
Found-match_from path seen found [] f = subst (λ s. Found path s found) (sym (append-nil seen)) f
Found-match_from path seen found (rt ∷ rts) f =
    let next_found = if has_prefix path rt.prefix then longer rt found else found in
    subst (λ s. Found path s (match_from path next_found rts)) (sym (append_one seen rts rt))
      (Found-match_from path (seen ++ rt ∷ []) next_found rts (Found-step path seen found rt f))

match_route-Found : (rts : List Route) (path : Text) → Found path rts (match_route rts path)
unfolding match_route
match_route-Found rts path = Found-match_from path [] none rts tt

-- ServeHTTP dispatches to the first of the longest matching prefixes, and answers 404 only if no
-- route's prefix matches.
pub match_route_lem :
    (rts : List Route) (path : Text)
    → ((rt : Route) → match_route rts path ≡ some rt → Best path rts rt)
      × (match_route rts path ≡ none → Unmatched path rts)
match_route_lem rts path = (
  (λ rt e. subst (Found path rts) e (match_route-Found rts path)),
  (λ e. subst (Found path rts) e (match_route-Found rts path)),
)
