-- ===== src/Proxy/Build/Current.antt =====
-- Which configuration a gateway serves after reloads.
use gateway_pro.Prelude.{All, ℤ, Text, ℕ, sym, subst, Bool, Option, none, some, List, [], ◌∷◌}
use gateway_pro.Config.{Config}
use gateway_pro.Validate.Settled.{Settled}
use gateway_pro.Proxy.Build.{World, Failure, Gateway, reload, reloads}
use gateway_pro.Proxy.Build.Exact.{Exactly, Routes-Untouched}
use gateway_pro.Proxy.Build.Fresh.{Held}
use gateway_pro.Proxy.Build.Reloads.{Reloaded, reload_lem, reload-Held}

-- The new configuration after a reload without an error, the old one otherwise.
abbrev pub chosen : Option (ℕ × Failure) → Config → Config → Config
chosen none cfg old = cfg
chosen (some err) cfg old = old

module _ (parse_duration : Text → Option ℤ) (parse_url : Text → Bool) (loads : Text → Bool) where
  -- The gateway has exactly the routes of the configuration, which is a valid one, and each has a
  -- checker that runs.
  abbrev pub Serves : Config → Gateway → World → Type 0
  Serves cfg gw w =
      Settled cfg × Exactly parse_duration parse_url loads cfg gw w × Held gw.routes w.checkers

  -- Of a first configuration and those that the gateway is reloaded with, the last one whose reload
  -- returned no error.
  pub current : List Config → Gateway → World → Config → Config
  current [] gw w cfg = cfg
  current (c ∷ cs) gw w cfg =
      let ((gw', err), w') = reload parse_duration parse_url loads c gw w in
      current cs gw' w' (chosen err c cfg)

  Reloaded-chosen :
      (cfg old : Config) (gw : Gateway) (w : World) (x : (Gateway × Option (ℕ × Failure)) × World)
      → Reloaded parse_duration parse_url loads cfg gw w x
      → Exactly parse_duration parse_url loads old gw w
      → Exactly parse_duration parse_url loads (chosen x.0.1 cfg old) x.0.0 x.1
  Reloaded-chosen cfg old gw w ((gw', none), w') promise before = promise.0
  Reloaded-chosen cfg old gw w ((gw', some err), w') (kept, fault, grown, u) (n, routes) =
      subst (λ (g : Gateway). Exactly parse_duration parse_url loads old g w') (sym kept)
        (
          n,
          Routes-Untouched parse_duration parse_url loads gw.auth_config gw.traced w.heap w'.heap n
              old.routes gw.routes u routes,
        )

  chosen-Settled :
      (err : Option (ℕ × Failure)) (cfg old : Config)
      → Settled cfg
      → Settled old
      → Settled (chosen err cfg old)
  chosen-Settled none cfg old good good' = good
  chosen-Settled (some err) cfg old good good' = good'

  pub reloads-Serves :
      (cfgs : List Config) (cfg : Config) (gw : Gateway) (w : World)
      → All Settled cfgs
      → Serves cfg gw w
      → Serves
          (current cfgs gw w cfg)
          (reloads parse_duration parse_url loads cfgs gw w).0
          (reloads parse_duration parse_url loads cfgs gw w).1
  unfolding current reloads
  reloads-Serves [] cfg gw w all serves = serves
  reloads-Serves (c ∷ cs) cfg gw w all (settled, same, held) =
      let ((gw', err), w') = reload parse_duration parse_url loads c gw w in
      reloads-Serves cs (chosen err c cfg) gw' w' all.1 (
        chosen-Settled err c cfg all.0 settled,
        Reloaded-chosen c cfg gw w (reload parse_duration parse_url loads c gw w)
            (reload_lem parse_duration parse_url loads c gw w held) same,
        reload-Held parse_duration parse_url loads c gw w held,
      )
