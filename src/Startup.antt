-- ===== src/Startup.antt =====
-- main of cmd/gateway/main.go up to the gateway that it builds.
pub mod Ready
pub mod Signed
pub mod Held
pub mod Current
mod Examples
use gateway_pro.Prelude.{if◌then◌else◌, ℤ, pos, Text, ℕ, Bool, true, false, Option, none, some}
use gateway_pro.Config.{AuthConfig, Config}
use gateway_pro.Tracing.{TraceStore, new_trace_store}
use gateway_pro.Middleware.{TraceSpan}
use gateway_pro.Auth.Keys.{Libraries, ok, error, load_public_key}
use gateway_pro.Watcher.{Watcher, load_and_watch}
use gateway_pro.Proxy.Build.{World, built, failed, Gateway, Failure, new_gateway}

-- What main calls outside the repository: os.ExpandEnv and yaml.Unmarshal, time.ParseDuration and
-- redis.ParseURL, and what authentication calls.
pub record System {ℓ} (Key : Type ℓ) : Type ℓ where
  pub expand_env : Text → Text
  pub unmarshal : Text → Option Config
  pub parse_duration : Text → Option ℤ
  pub parse_url : Text → Bool
  pub libraries : Libraries Key

pub record Started : Type 0 where
  pub cfg : Config
  pub watcher : Watcher
  pub traces : Option (TraceStore TraceSpan)
  pub gateway : Gateway
  pub world : World

-- main goes on, or ends by one of its two calls of Fatalw.
pub data Start : Type 0 where
  running : Started → Start
  load_failed : Start
  build_failed : ℕ → Failure → Start

-- `traceStore`
pub trace_store : Config → Option (TraceStore TraceSpan)
trace_store cfg = if cfg.tracing.enabled then some (new_trace_store (pos 100)) else none

-- `traceStore != nil`
pub stores : Option (TraceStore TraceSpan) → Bool
stores none = false
stores (some ts) = true

-- `authCfg`
pub auth_config : Config → Option AuthConfig
auth_config cfg = if cfg.auth.enabled then some cfg.auth else none

module _ {ℓ} {Key : Type ℓ} (sys : System Key) where
  -- Whether loadPublicKey returns no error.
  pub key_loads : Text → Bool
  key_loads path = elim (load_public_key sys.libraries path) [ ok key ↦ true | error e ↦ false ]

  -- main, once the configuration has been loaded.
  pub open_gateway : Config → Watcher → World → Start
  unfolding trace_store stores auth_config key_loads
  open_gateway cfg watcher w =
      let traces = trace_store cfg in
      let (r, w') =
        new_gateway sys.parse_duration sys.parse_url key_loads (auth_config cfg) (stores traces) cfg
          w in
      elim r [
        | failed j why ↦ build_failed j why
        | built gw ↦
            running
              (record { cfg = cfg; watcher = watcher; traces = traces; gateway = gw; world = w' })
      ]

  -- main on the configuration's file, as os.ReadFile returns it, that fsnotify can watch or not.
  pub start_up : Option Text → Bool → World → Start
  unfolding open_gateway
  start_up file watches w = elim (load_and_watch sys.expand_env sys.unmarshal file watches) [
    | none ↦ load_failed
    | some (cfg, watcher) ↦ open_gateway cfg watcher w
  ]
