-- ===== src/Startup/Held.antt =====
-- The key that the authentication of the routes holds: NewAuthMiddleware of
-- internal/middleware/auth.go parses it whenever buildRoute of internal/proxy/gateway.go makes a
-- handler, from what its file then holds. All routes of one build are taken to find the same file.
use gateway_pro.Prelude.{
  ℤ, Text, ℕ, ◌≡◌, refl, sym, ap, subst, ◌∙◌, ◌⊎◌, inl, inr, Bool, true, false, Option, none, some,
  List, [], ◌∷◌, Memᴰ,
}
use gateway_pro.Config.{Config}
use gateway_pro.Http.{Request}
use gateway_pro.Auth.{Claims, valid, is_skipped, extract_bearer}
use gateway_pro.Auth.Keys.{Result, ok, error, load_public_key, tools_of}
use gateway_pro.Auth.Keys.Signed.{SignedBy}
use gateway_pro.Health.{Response}
use gateway_pro.Middleware.{Writer, Observed, Arrival}
use gateway_pro.Proxy.{Surroundings}
use gateway_pro.Proxy.Build.{World, Failure, reload}
use gateway_pro.Proxy.Server.{
  Plant, Happening, request, reloading, checking, main_handler, take_place, live_on,
}
use gateway_pro.Startup.{System, Started, running, key_loads, start_up}
use gateway_pro.Startup.Signed.{first_plant, nothing_observed, start_up-Guarded}

-- A request at a time in seconds; a reload, with what os.ReadFile then returns for a path; a round of
-- health checks.
pub data Occurrence : Type 0 where
  requested : Arrival → ℤ → Surroundings → Request → Writer → Occurrence
  reloaded : (Text → Option Text) → Config → Occurrence
  checked : (Text → Bool) → (Text → Response) → List ℕ → Occurrence

-- The gateway with the key of its routes.
pub record Standing {ℓ} (Key : Type ℓ) : Type ℓ where
  pub observed : Observed
  pub plant : Plant
  pub key : Key

module _ {ℓ} {Key : Type ℓ} (sys : System Key) (path : Text) where
  -- The program while os.ReadFile is `read`.
  abbrev pub reading : (Text → Option Text) → System Key
  reading read = record sys { libraries = record sys.libraries { read_file = read } }

  pub happening_of : Occurrence → Key → Happening
  happening_of (requested a now e r w) key = request a (tools_of sys.libraries key now) e r w
  happening_of (reloaded read cfg) key = reloading (key_loads (reading read)) cfg
  happening_of (checked accepts answer ps) key = checking accepts answer ps

  -- The key of the new routes, or the old one where the reload has failed or no route was made.
  pub next_key : Option (ℕ × Failure) → Result Key → Key → Key
  next_key (some err) parsed key = key
  next_key none (ok key') key = key'
  next_key none (error why) key = key

  pub key_after : Occurrence → Standing Key → Key
  unfolding next_key
  key_after (requested a now e r w) z = z.key
  key_after (reloaded read cfg) z =
      let ((gw, err), w) =
        reload sys.parse_duration sys.parse_url (key_loads (reading read)) cfg z.plant.gateway
          z.plant.world in
      next_key err (load_public_key (reading read).libraries path) z.key
  key_after (checked accepts answer ps) z = z.key

  pub occur : Occurrence → Standing Key → Standing Key
  unfolding happening_of key_after
  occur o z =
      let (seen, plant) =
        take_place sys.parse_duration sys.parse_url (happening_of o z.key) (z.observed, z.plant) in
      record { observed = seen; plant = plant; key = key_after o z }

  pub occur_all : List Occurrence → Standing Key → Standing Key
  unfolding occur
  occur_all [] z = z
  occur_all (o ∷ os) z = occur_all os (occur o z)

  happenings : List Occurrence → Standing Key → List Happening
  unfolding occur
  happenings [] z = []
  happenings (o ∷ os) z = happening_of o z.key ∷ happenings os (occur o z)

  happenings-live_on :
      (os : List Occurrence) (z : Standing Key)
      → live_on sys.parse_duration sys.parse_url (happenings os z) (z.observed, z.plant)
        ≡ ((occur_all os z).observed, (occur_all os z).plant)
  unfolding happenings occur_all live_on occur
  happenings-live_on [] z = refl
  happenings-live_on (o ∷ os) z = happenings-live_on os (occur o z)

  -- The key is the first one, or was loaded from its file at one of the reloads.
  abbrev pub Origin : List Occurrence → Key → Key → Type ℓ
  Origin os key key' =
      (key' ≡ key)
      ⊎ ((read : Text → Option Text) × (cfg : Config) × Memᴰ (reloaded read cfg) os
          × (load_public_key (reading read).libraries path ≡ ok key'))

  next_key-cases :
      (err : Option (ℕ × Failure)) (parsed : Result Key) (key : Key)
      → (next_key err parsed key ≡ key) ⊎ (parsed ≡ ok (next_key err parsed key))
  unfolding next_key
  next_key-cases (some err) parsed key = inl refl
  next_key-cases none (ok key') key = inr refl
  next_key-cases none (error why) key = inl refl

  key_after-Origin :
      (o : Occurrence) (os : List Occurrence) (z : Standing Key)
      → Origin (o ∷ os) z.key (key_after o z)
  unfolding key_after
  key_after-Origin (requested a now e r w) os z = inl refl
  key_after-Origin (reloaded read cfg) os z =
      let ((gw, err), w) =
        reload sys.parse_duration sys.parse_url (key_loads (reading read)) cfg z.plant.gateway
          z.plant.world in
      elim (next_key-cases err (load_public_key (reading read).libraries path) z.key) [
        | inl kept ↦ inl kept
        | inr loaded ↦ inr (read, cfg, Memᴰ.head refl, loaded)
      ]
  key_after-Origin (checked accepts answer ps) os z = inl refl

  occur_all-Origin :
      (os : List Occurrence) (z : Standing Key) → Origin os z.key (occur_all os z).key
  unfolding occur_all occur
  occur_all-Origin [] z = inl refl
  occur_all-Origin (o ∷ os) z = elim (occur_all-Origin os (occur o z)) [
    | inr (read, cfg, there, loaded) ↦ inr (read, cfg, Memᴰ.tail there, loaded)
    | inl same ↦ elim (key_after-Origin o os z) [
      | inl kept ↦ inl (same ∙ kept)
      | inr (read, cfg, there, loaded) ↦ inr (read, cfg, there, loaded ∙ ap ok (sym same))
    ]
  ]

module _ {ℓ} {Key : Type ℓ} (sys : System Key) where
  -- Take a program that main has started on a configuration with authentication enabled, whose key
  -- loadPublicKey loads, and let any requests reach it, any backends be checked and any
  -- configurations be reloaded, with whatever the key's file then holds. A request on a path that is
  -- not skipped then changes nothing and reaches no upstream, unless it brings a bearer token with an
  -- expiry that is set and not past that is signed, by RS256, with the key that the routes hold: and
  -- that is the first one, or one that loadPublicKey loaded at one of the reloads.
  pub start_up-SignedBy :
      (file : Option Text) (watches : Bool) (w : World) (s : Started) (os : List Occurrence)
      (key : Key) (now : ℤ) (x : Arrival) (e : Surroundings) (r : Request) (out : Writer)
      → start_up sys file watches w ≡ running s
      → s.cfg.auth.enabled ≡ true
      → load_public_key sys.libraries s.cfg.auth.public_key_path ≡ ok key
      → is_skipped s.cfg.auth.skip_paths r.path ≡ false
      → let first : Standing Key = record {
        observed = nothing_observed s;
        plant = first_plant s;
        key = key;
      } in
        let z = occur_all sys s.cfg.auth.public_key_path os first in
        let t = tools_of sys.libraries z.key now in
        Origin sys s.cfg.auth.public_key_path os key z.key
        × (((main_handler x t e r out z.observed z.plant).state ≡ z.plant)
            ⊎ ((token : Text) × (c : Claims) × (extract_bearer t r ≡ valid token)
                × SignedBy sys.libraries z.key now token c))
  start_up-SignedBy file watches w s os key now x e r out started enabled loads guarded =
      let path = s.cfg.auth.public_key_path in
      let first : Standing Key = record {
        observed = nothing_observed s;
        plant = first_plant s;
        key = key;
      } in
      let z = occur_all sys path os first in
      let t = tools_of sys.libraries z.key now in
      let promise : Observed × Plant → Type 0 = λ y.
        ((main_handler x t e r out y.0 y.1).state ≡ y.1)
        ⊎ ((token : Text) × (c : Claims) × (extract_bearer t r ≡ valid token)
            × SignedBy sys.libraries z.key now token c) in
      (
        occur_all-Origin sys path os first,
        subst promise (happenings-live_on sys path os first) (
            start_up-Guarded sys file watches w s (happenings sys path os first) z.key now x e r out
              started enabled guarded),
      )
