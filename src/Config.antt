-- ===== src/Config.antt =====
-- apps/control-plane/internal/config/config.go: the configuration that the environment gives.
pub mod Laws
use Prim.Native.String.{◌++◌}
use delta_uptime.Prelude.{ℕ, String, Bool, not, Option, none, some, ◌==◌, str_eq, if◌then◌else◌}
use delta_uptime.Errors.{Error, Result, ok, err, fault, wrap}

-- A duration that is not positive is 0.
pub record Config : Type 0 where
  pub app_env : String
  pub http_addr : String
  pub public_panel_url : String
  pub postgres_dsn : String
  pub redis_url : String
  pub nats_url : String
  pub log_level : String
  pub jwt_access_secret : String
  pub jwt_refresh_secret : String
  pub secrets_master_key : String
  pub access_token_ttl : ℕ
  pub refresh_token_ttl : ℕ

abbrev pub dev_access_secret : String
dev_access_secret = "dev-access-secret-not-for-production"

abbrev pub dev_refresh_secret : String
dev_refresh_secret = "dev-refresh-secret-not-for-production"

abbrev pub dev_master_key : String
dev_master_key = "dev-secrets-master-key-not-for-production"

abbrev pub dev_panel_url : String
dev_panel_url = "https://panel.localhost"

-- `os.LookupEnv` and `time.ParseDuration`.
module _ (lookup_env : String → Option String) (parse_duration : String → Result ℕ) where
  abbrev nonempty_or : String → Option String → String
  nonempty_or fallback none = fallback
  nonempty_or fallback (some v) = if str_eq v "" then fallback else v

  unfoldable pub getenv : String → String → String
  getenv key fallback = nonempty_or fallback (lookup_env key)

  -- `os.Getenv`
  abbrev raw_env : String → String
  raw_env key = elim (lookup_env key) [ none ↦ "" | some v ↦ v ]

  abbrev pub positive : String → Result ℕ → Result ℕ
  positive key (err e) = err (wrap (key ++ ": parse duration") e)
  positive key (ok value) =
      if value == 0 then err (fault (key ++ " must be positive")) else ok value

  unfoldable pub parse_duration_env : String → String → Result ℕ
  parse_duration_env key fallback = positive key (parse_duration (getenv key fallback))

  abbrev pub config_with : ℕ → ℕ → Config
  config_with access_ttl refresh_ttl = record {
    app_env = getenv "APP_ENV" "development";
    http_addr = getenv "HTTP_ADDR" ":8080";
    public_panel_url = getenv "PUBLIC_PANEL_URL" dev_panel_url;
    postgres_dsn = raw_env "POSTGRES_DSN";
    redis_url = raw_env "REDIS_URL";
    nats_url = raw_env "NATS_URL";
    log_level = getenv "LOG_LEVEL" "info";
    jwt_access_secret = getenv "JWT_ACCESS_SECRET" dev_access_secret;
    jwt_refresh_secret = getenv "JWT_REFRESH_SECRET" dev_refresh_secret;
    secrets_master_key = getenv "SECRETS_MASTER_KEY" dev_master_key;
    access_token_ttl = access_ttl;
    refresh_token_ttl = refresh_ttl;
  }

  -- Outside development the defaults of the secrets and of the URL are refused.
  unfoldable pub checked : Config → Result Config
  checked cfg =
      if not (str_eq cfg.app_env "development")
      then (if str_eq cfg.jwt_access_secret dev_access_secret
          then err (fault "JWT_ACCESS_SECRET is required outside development")
          else if str_eq cfg.jwt_refresh_secret dev_refresh_secret
          then err (fault "JWT_REFRESH_SECRET is required outside development")
          else if str_eq cfg.secrets_master_key dev_master_key
          then err (fault "SECRETS_MASTER_KEY is required outside development")
          else if str_eq cfg.public_panel_url dev_panel_url
          then err (fault "PUBLIC_PANEL_URL is required outside development")
          else ok cfg)
      else ok cfg

  abbrev pub with_refresh_ttl : ℕ → Result ℕ → Result Config
  with_refresh_ttl access_ttl (err e) = err e
  with_refresh_ttl access_ttl (ok refresh_ttl) = checked (config_with access_ttl refresh_ttl)

  abbrev pub with_access_ttl : Result ℕ → Result Config
  with_access_ttl (err e) = err e
  with_access_ttl (ok access_ttl) =
      with_refresh_ttl access_ttl (parse_duration_env "REFRESH_TOKEN_TTL" "720h")

  unfoldable pub load : Result Config
  load = with_access_ttl (parse_duration_env "ACCESS_TOKEN_TTL" "15m")
