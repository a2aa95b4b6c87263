-- ===== src/Config.antt =====
-- internal/config/config.go: the configuration's types.
use gateway_pro.Prelude.{ℤ, Text, Bool, List, Option}

pub record BackendConfig : Type 0 where
  pub url : Text
  pub weight : ℤ

pub record RateLimitConfig : Type 0 where
  pub algorithm : Text
  pub rate : ℤ
  pub burst : ℤ
  pub window : Text
  pub key_by : Text
  pub redis_url : Text

pub record CircuitBreakerConfig : Type 0 where
  pub failure_threshold : ℤ
  pub min_requests : ℤ
  pub open_duration_seconds : ℤ
  pub half_open_requests : ℤ

pub record RouteConfig : Type 0 where
  pub path_prefix : Text
  pub backends : List BackendConfig
  pub lb_algorithm : Text
  pub rate_limit : Option RateLimitConfig
  pub circuit_breaker : Option CircuitBreakerConfig
  pub timeout_seconds : ℤ
  pub strip_prefix : Bool

pub record ServerConfig : Type 0 where
  pub addr : Text
  pub read_timeout_seconds : ℤ
  pub write_timeout_seconds : ℤ

pub record AdminConfig : Type 0 where
  pub addr : Text

pub record LoggingConfig : Type 0 where
  pub level : Text
  pub format : Text

pub record AuthConfig : Type 0 where
  pub enabled : Bool
  pub jwks_url : Text
  pub public_key_path : Text
  pub skip_paths : List Text

pub record TracingConfig : Type 0 where
  pub enabled : Bool
  pub exporter : Text
  pub service_name : Text

pub record Config : Type 0 where
  pub server : ServerConfig
  pub admin : AdminConfig
  pub routes : List RouteConfig
  pub logging : LoggingConfig
  pub auth : AuthConfig
  pub tracing : TracingConfig
