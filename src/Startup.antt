-- ===== src/Startup.antt =====
-- apps/control-plane/internal/auth/service.go (`NewService`), secrets.go (`NewSecretsManager`) and
-- internal/app/app.go: what the program does with its arguments and its environment.
pub mod Laws
use Prim.Native.String.{◌++◌}
use delta_uptime.Prelude.{
  ℕ, String, ◌==◌, str_eq, Option, none, some, List, [], ◌∷◌, if◌then◌else◌, length, ◌||◌,
}
use delta_uptime.Errors.{Error, Result, ok, err, fault, wrap}
use delta_uptime.Text.{trim_space}
use delta_uptime.Text.Utf8.{text_bytes}
use delta_uptime.Text.Base64.Padded.{std_decode}
use delta_uptime.Input.{invalid}
use delta_uptime.Config.{Config, load}
use delta_uptime.Totp.{new_totp_manager}
use delta_uptime.Webauthn.{Webauthn, Url, Config as WebauthnConfig}
use delta_uptime.Service.{Service}
use delta_uptime.Service.Tokens.{new_token_manager}
use delta_uptime.Service.Passkeys.{new_webauthn_manager}

-- The rest of a function that returns early on an error, which it wraps.
abbrev pub after : {A B : Type 0} → Result A → (Error → Error) → (A → Result B) → Result B
after (ok a) f g = g a
after (err e) f g = err (f e)

abbrev pub as_is : Error → Error
as_is e = e

-- What is called outside: SHA-256, `url.Parse`, `webauthn.New`, the environment, the connection
-- pool, the steps of a migration, and `%q`.
pub record Outside : Type 0 where
  pub sha256 : List ℕ → List ℕ
  pub parse_url : String → Result Url
  pub new_webauthn : WebauthnConfig → Result Webauthn
  pub lookup_env : String → Option String
  pub parse_duration : String → Result ℕ
  pub new_pool : String → Result (Unit {0})
  pub ping_pool : String → Result (Unit {0})
  pub open_db : String → Result (Unit {0})
  pub ping_db : String → Result (Unit {0})
  pub set_dialect : String → Result (Unit {0})
  pub goose_up : String → Result (Unit {0})
  pub quoted : String → String

-- A server to be served: where, and the service behind the routes, if there is one.
pub record HttpServer : Type 0 where
  pub addr : String
  pub auth : Option (Service × Webauthn)

-- What a command comes to.
pub data Action : Type 0 where
  usage_printed version_printed migrated : Action
  serving : HttpServer → Action
  waiting : String → Action

module _ (o : Outside) where
  abbrev key_or_digest : String → Option (List ℕ) → List ℕ
  key_or_digest raw none = o.sha256 (text_bytes raw)
  key_or_digest raw (some decoded) =
      if length decoded == 32 then decoded else o.sha256 (text_bytes raw)

  unfoldable pub normalize_master_key : String → List ℕ
  normalize_master_key raw = key_or_digest (trim_space raw) (std_decode (trim_space raw))

  -- The key of the secrets manager.
  unfoldable pub new_secrets_manager : String → Result (List ℕ)
  new_secrets_manager raw_key =
      if str_eq (trim_space raw_key) ""
      then err (invalid "secrets master key is required")
      else ok (normalize_master_key raw_key)

  abbrev service_of : Config → List ℕ → Service
  service_of cfg key = record {
    access_secret = cfg.jwt_access_secret;
    refresh_secret = cfg.jwt_refresh_secret;
    access_ttl = cfg.access_token_ttl;
    refresh_ttl = cfg.refresh_token_ttl;
    secrets_key = key;
    issuer = new_totp_manager "DeltaUptime";
  }

  -- The service, and the library that its passkeys call.
  unfoldable pub new_service : Config → Result (Service × Webauthn)
  new_service cfg =
      after
        (new_token_manager cfg.jwt_access_secret cfg.jwt_refresh_secret cfg.access_token_ttl
          cfg.refresh_token_ttl)
        as_is
        λ _. after (new_secrets_manager cfg.secrets_master_key) as_is λ key.
          after (new_webauthn_manager o.parse_url o.new_webauthn cfg.public_panel_url) as_is
            λ library. ok (service_of cfg key, library)

  unfoldable pub open_store : String → Result (Unit {0})
  open_store dsn =
      if str_eq dsn ""
      then err (fault "POSTGRES_DSN is required")
      else after (o.new_pool dsn) (wrap "open pgx pool")
          λ _. after (o.ping_pool dsn) (wrap "ping pgx pool") λ _. ok tt

  abbrev pub with_auth : Config → Result HttpServer
  with_auth cfg = after (open_store cfg.postgres_dsn) (wrap "open store") λ _.
      after (new_service cfg) (wrap "build auth service")
        λ built. ok (record { addr = cfg.http_addr; auth = some built })

  abbrev pub server_for : Config → Result HttpServer
  server_for cfg =
      if str_eq cfg.postgres_dsn ""
      then ok (record { addr = cfg.http_addr; auth = none })
      else with_auth cfg

  -- `runAPI` up to `httpapi.Serve`
  unfoldable pub run_api : Result HttpServer
  run_api = after (load o.lookup_env o.parse_duration) (wrap "load config") server_for

  unfoldable pub migrate : String → Result (Unit {0})
  migrate dsn =
      if str_eq dsn ""
      then err (fault "POSTGRES_DSN is required for migrate")
      else after (o.open_db dsn) (wrap "open db") λ _. after (o.ping_db dsn) (wrap "ping db") λ _.
        after (o.set_dialect "postgres") (wrap "set dialect")
          λ _. after (o.goose_up ".") (wrap "apply migrations") λ _. ok tt

  unfoldable pub run_migrate : Result (Unit {0})
  run_migrate =
      after (load o.lookup_env o.parse_duration) (wrap "load config")
        λ cfg. migrate cfg.postgres_dsn

  abbrev command : String → Result Action
  command cmd =
      if str_eq cmd "api"
      then after run_api as_is (λ server. ok (serving server))
      else if str_eq cmd "scheduler"
      then ok (waiting "scheduler")
      else if str_eq cmd "worker"
      then ok (waiting "worker")
      else if str_eq cmd "migrate"
      then after run_migrate as_is (λ _. ok migrated)
      else if str_eq cmd "version"
      then ok version_printed
      else if str_eq cmd "help" || (str_eq cmd "-h" || str_eq cmd "--help")
      then ok usage_printed
      else err (fault ("unknown command " ++ (o.quoted cmd ++ " (try \"uptime-server help\")")))

  unfoldable pub run : List String → Result Action
  run [] = ok usage_printed
  run (cmd ∷ rest) = command cmd
