-- ===== src/Proxy/Handler/Logged.antt =====
-- What the handler of a route leaves behind of a request.
use gateway_pro.Prelude.{if◌then◌else◌, Text, is_empty, Bool, true, false, Option, none, some, List}
use gateway_pro.Http.{Request, get}
use gateway_pro.Auth.{Tools}
use gateway_pro.Middleware.{Handler, Arrival, tracing, logger, metrics, auth}
use gateway_pro.Proxy.{Surroundings}
use gateway_pro.Proxy.Handler.{Site, core, Settings}

-- The identifier that RequestID gives a request: the client's, if there is one.
abbrev pub id_of : Arrival → Request → Text
id_of a r = let id = get r.header "X-Request-ID" in if is_empty id then a.fresh_id else id

module _ (a : Arrival) (t : Tools) (c : Settings) (e : Surroundings) where
  abbrev guarded : Option (List Text) → Handler Site
  guarded none = core e
  guarded (some skip_paths) = auth t skip_paths (core e)

  -- What stands behind RequestID.
  abbrev behind : Bool → Option (List Text) → Handler Site
  behind true skip_paths = tracing a (logger (metrics c.label (guarded skip_paths)))
  behind false skip_paths = logger (metrics c.label (guarded skip_paths))
