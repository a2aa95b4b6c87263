-- ===== src/Startup/Current.antt =====
-- From the configuration's file to the routes: what the gateway serves while the file changes.
use gateway_pro.Prelude.{All, Text, ◌≡◌, sym, subst, Bool, Option, some, List, [], ◌∷◌, ◌++◌}
use mathlib.Core.List.{Sublistᴰ}
use mathlib.Core.List.Sublistᴰ.{slnil, cons, cons-cons}
use gateway_pro.Validate.Settled.{Settled}
use gateway_pro.Watcher.{Watcher, new_watcher}
use gateway_pro.Watcher.Events.{Event, Log, nothing_yet, waiting, watch}
use gateway_pro.Watcher.Delivery.{watch-Inv_new}
use gateway_pro.Proxy.Build.{World, reloads}
use gateway_pro.Proxy.Build.Current.{Serves, current, reloads-Serves}
use gateway_pro.Startup.{System, Started, running, key_loads, start_up}
use gateway_pro.Startup.Ready.{Ready, start_up-Ready}

Sublist-All {κ} :
    {A : Type 0} (P : A → Type κ) (xs ys : List A) → Sublistᴰ xs ys → All P ys → All P xs
Sublist-All P _ _ slnil all = tt
Sublist-All P xs (y ∷ ys) (cons s) all = Sublist-All P xs ys s all.1
Sublist-All P (x ∷ xs) (y ∷ ys) (cons-cons same s) all =
    (subst P (sym same) all.0, Sublist-All P xs ys s all.1)

All-prefix {κ} : {A : Type 0} (P : A → Type κ) (xs ys : List A) → All P (xs ++ ys) → All P xs
All-prefix P [] ys all = tt
All-prefix P (x ∷ xs) ys all = (all.0, All-prefix P xs ys all.1)

module _ {Key : Type 0} (sys : System Key) where
  running-Serves :
      (file : Option Text) (watches : Bool) (w : World) (s : Started)
      → start_up sys file watches w ≡ running s
      → Serves sys.parse_duration sys.parse_url (key_loads sys) s.cfg s.gateway s.world
        × (s.watcher ≡ new_watcher)
  running-Serves file watches w s e =
      let (read, fresh, (settled, exact, auth, traced, held, keyed)) =
        subst (Ready sys file watches) e (start_up-Ready sys file watches w) in
      ((settled, exact, held), fresh)

  -- Take a program that main has started, let anything happen to its configuration's file and to the
  -- watcher, in whatever order, and reload the gateway with what the watcher delivers, before any
  -- request or health check. The gateway then has one route for each entry of one configuration, in
  -- their order: with the entry's prefix, its backends by URL and weight, alive, under the strategy it
  -- names, with its limiter, a breaker for each backend's URL, its timeout and whether it strips, and
  -- with a health checker of its own that runs. It is the last delivered configuration whose reload
  -- returned no error, or the first if there is none, and has passed validate and has its guarantees.
  pub start_up-Serves :
      (file : Option Text) (watches : Bool) (w : World) (s : Started) (es : List Event)
      (watcher : Watcher) (log : Log)
      → start_up sys file watches w ≡ running s
      → watch sys.expand_env sys.unmarshal es s.watcher nothing_yet ≡ some (watcher, log)
      → let (gw, w') =
          reloads sys.parse_duration sys.parse_url (key_loads sys) log.received s.gateway s.world in
        Serves sys.parse_duration sys.parse_url
          (key_loads sys)
          (current sys.parse_duration sys.parse_url
            (key_loads sys)
            log.received
            s.gateway
            s.world
            s.cfg)
          gw
          w'
  start_up-Serves file watches w s es watcher log started happened =
      let (serves, fresh) = running-Serves file watches w s started in
      let v = watch-Inv_new sys.expand_env sys.unmarshal es watcher log (
        subst (λ x. watch sys.expand_env sys.unmarshal es x nothing_yet ≡ some (watcher, log)) fresh
          happened) in
      reloads-Serves sys.parse_duration sys.parse_url (key_loads sys) log.received s.cfg s.gateway
        s.world
        (All-prefix Settled log.received (waiting watcher.updates) (
          Sublist-All Settled (log.received ++ waiting watcher.updates) log.loads v.order
            v.settled))
        serves
