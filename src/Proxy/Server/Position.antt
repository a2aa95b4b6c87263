-- ===== src/Proxy/Server/Position.antt =====
-- The position that ServeHTTP finds is that of the route of match_route.
use gateway_pro.Prelude.{
  ltb, Bool-cases, length, has_prefix, Text, ℕ, suc, ◌≡◌, refl, ap, ◌∙◌, inl, inr, Option, none,
  some, List, [], ◌∷◌, map,
}
use gateway_pro.Proxy.{Route, longer, match_from, match_route}
use gateway_pro.Proxy.Build.{Built}
use gateway_pro.Proxy.Server.{farther, position_from}

abbrev route_of : Option (ℕ × Built) → Option Route
route_of none = none
route_of (some (i, b)) = some b.route

abbrev routes_of : List Built → List Route
routes_of bs = map (λ b. b.route) bs

farther-longer :
    (i : ℕ) (b : Built) (matched : Option (ℕ × Built))
    → route_of (farther i b matched) ≡ longer b.route (route_of matched)
unfolding farther longer
farther-longer i b none = refl
farther-longer i b (some (j, m)) =
    elim (Bool-cases (ltb (length m.route.prefix) (length b.route.prefix))) [
      | inl yes' ↦ rw (farther, longer, yes') refl
      | inr no' ↦ rw (farther, longer, no') refl
    ]

position_from-match_from :
    (path : Text) (matched : Option (ℕ × Built)) (i : ℕ) (bs : List Built)
    → route_of (position_from path matched i bs) ≡ match_from path (route_of matched) (routes_of bs)
unfolding position_from match_from
position_from-match_from path matched i [] = refl
position_from-match_from path matched i (b ∷ bs) =
    elim (Bool-cases (has_prefix path b.route.prefix)) [
      | inl yes' ↦
          rw (position_from, match_from, yes')
            (position_from-match_from path (farther i b matched) (suc i) bs
              ∙ ap (λ m. match_from path m (routes_of bs)) (farther-longer i b matched))
      | inr no' ↦
          rw (position_from, match_from, no') (position_from-match_from path matched (suc i) bs)
    ]

-- ServeHTTP hands a request to the route that match_route gives for the routes in their order, and
-- answers 404 exactly if it gives none.
position-match_route :
    (path : Text) (bs : List Built)
    → route_of (position_from path none 0 bs) ≡ match_route (routes_of bs) path
unfolding match_route
position-match_route path bs = position_from-match_from path none 0 bs
