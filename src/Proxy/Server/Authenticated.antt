-- ===== src/Proxy/Server/Authenticated.antt =====
-- The gateway built with authentication, through requests and reloads.
use gateway_pro.Prelude.{ℤ, Text, ℕ, ◌≡◌, ◌∙◌, ◌⊎◌, Bool, true, false, Option, some, List, [], ◌∷◌}
use gateway_pro.Config.{AuthConfig, Config}
use gateway_pro.Http.{Request}
use gateway_pro.Auth.{Tools, is_skipped}
use gateway_pro.Middleware.{Writer, Observed, Arrival}
use gateway_pro.Middleware.Effects.{Authenticated}
use gateway_pro.Proxy.{Surroundings}
use gateway_pro.Proxy.Build.{World, Gateway, built, new_gateway}
use gateway_pro.Proxy.Server.{
  Plant, main_handler, Happening, request, reloading, checking, take_place, live_on,
}
use gateway_pro.Proxy.Server.Guarded.{
  main_handler-Guarding, main_handler_auth_config, main_handler-Authenticated,
}
use gateway_pro.Proxy.Build.Guards.{Secure, new_gateway-Secure, reload-Secure}

module _ (parse_duration : Text → Option ℤ) (parse_url : Text → Bool) (loads : Text → Bool)
    (a : AuthConfig) (enabled : a.enabled ≡ true) where
  take_place-Secure :
      (h : Happening) (o : Observed) (s : Plant)
      → Secure parse_duration parse_url loads a enabled s.gateway
      → Secure parse_duration parse_url loads a enabled
          (take_place parse_duration parse_url h (o, s)).1.gateway
  unfolding take_place
  take_place-Secure (request x t e r w) o s (with_auth, g) = (
    main_handler_auth_config x t e a.skip_paths r w o s ∙ with_auth,
    main_handler-Guarding x t e a.skip_paths r w o s g,
  )
  take_place-Secure (reloading loads_then cfg) o s secured =
      reload-Secure parse_duration parse_url loads_then a enabled cfg s.gateway s.world secured
  take_place-Secure (checking accepts answer ps) o s secured = secured

  live_on-Secure :
      (hs : List Happening) (o : Observed) (s : Plant)
      → Secure parse_duration parse_url loads a enabled s.gateway
      → Secure parse_duration parse_url loads a enabled
          (live_on parse_duration parse_url hs (o, s)).1.gateway
  unfolding live_on
  live_on-Secure [] o s secured = secured
  live_on-Secure (h ∷ hs) o s secured =
      let (o', s') = take_place parse_duration parse_url h (o, s) in
      live_on-Secure hs o' s' (take_place-Secure h o s secured)

  -- Take a gateway that was built with authentication enabled, and let any requests reach it, any
  -- backends be checked and any configurations be reloaded. A request on a path that is not skipped
  -- then still changes nothing, no route, no backend and no checker, and reaches no upstream, unless
  -- it brings a bearer token that proves its claims, by an RS256 header, an expiry that is set and
  -- not past, and a signature.
  pub gateway-Authenticated :
      (traced : Bool) (cfg : Config) (w : World) (gw : Gateway) (hs : List Happening) (o : Observed)
      (sent : List ℕ)
      → (new_gateway parse_duration parse_url loads (some a) traced cfg w).0 ≡ built gw
      → (x : Arrival) (t : Tools) (e : Surroundings) (r : Request) (out : Writer)
      → is_skipped a.skip_paths r.path ≡ false
      → let first : Plant = record {
        gateway = gw;
        world = (new_gateway parse_duration parse_url loads (some a) traced cfg w).1;
        sent = sent;
      } in
        let (o', s) = live_on parse_duration parse_url hs (o, first) in
        ((main_handler x t e r out o' s).state ≡ s) ⊎ Authenticated t r
  gateway-Authenticated traced cfg w gw hs o sent made x t e r out guarded =
      let first : Plant = record {
        gateway = gw;
        world = (new_gateway parse_duration parse_url loads (some a) traced cfg w).1;
        sent = sent;
      } in
      let (o', s) = live_on parse_duration parse_url hs (o, first) in
      let secured =
        live_on-Secure hs o first
          (new_gateway-Secure parse_duration parse_url loads a enabled traced cfg w gw made) in
      main_handler-Authenticated x t e a.skip_paths r out o' s secured.1 guarded
