-- ===== src/Tests/Parameters.antt =====
-- Hashes of passwords, secrets of authenticators and the start of the program.
use delta_uptime.Prelude.{
  ℕ, zero, suc, ◌≡◌, ◌<◌, ◌⊎◌, refl, arith, String, true, false, Option, none, some, List, [], ◌∷◌,
  str_eq, length, ap, if◌then◌else◌,
}
use delta_uptime.Errors.{Result, ok, err}
use delta_uptime.Text.Base64.RoundTrip.{AllBytes}
use delta_uptime.Database.Identity.{same_bytes}
use delta_uptime.Password.{hash_password, verify_password}
use delta_uptime.Password.Laws.{MakesKeys, key_of, verify_password-hash_password}
use delta_uptime.Totp.{generate_secret, hotp}
use delta_uptime.Service.Session.{verify_code}
use delta_uptime.Service.Authenticator.{verify_code-hotp}
use delta_uptime.Config.{Config, load, parse_duration_env, checked, getenv}
use delta_uptime.Config.Laws.{OwnSecrets, load-ok}
use delta_uptime.Startup.{
  Outside, HttpServer, run_api, open_store, new_service, new_secrets_manager, normalize_master_key,
}
use delta_uptime.Text.{trim_space, trim_left, trim_right, is_space}
use delta_uptime.Text.Utf8.{text_bytes, utf8_bytes}
use delta_uptime.Text.Base64.{std_value}
use delta_uptime.Text.Base64.Padded.{std_decode, symbols, pack_padded}
use delta_uptime.Totp.{new_totp_manager}
use delta_uptime.Service.Tokens.{new_token_manager}
use delta_uptime.Service.Passkeys.{new_webauthn_manager}
use delta_uptime.Startup.Laws.{ServesRoutes, run_api-ok}
use delta_uptime.Tests.Sample.{env, s, library}

-- A key of one repeated byte, which depends on the iterations.
abbrev repeated : ℕ → List ℕ
repeated zero = []
repeated (suc n) = 5 ∷ repeated n

abbrev id_key : String → List ℕ → ℕ → ℕ → ℕ → ℕ → List ℕ
id_key password salt iterations memory parallelism size = repeated size

repeated-AllBytes : (n : ℕ) → AllBytes (repeated n) × (length (repeated n) ≡ n)
repeated-AllBytes zero = (tt, refl)
repeated-AllBytes (suc n) =
    let (bytes, size) = repeated-AllBytes n in ((omega arith, bytes), ap suc size)

makes : MakesKeys id_key
makes password salt iterations memory parallelism size = repeated-AllBytes size

verify_password-hash_password_example :
    (verify_password id_key (hash_password id_key "secret" (1 ∷ 2 ∷ [])) "other"
      ≡ ok (same_bytes (key_of id_key "other" (1 ∷ 2 ∷ [])) (key_of id_key "secret" (1 ∷ 2 ∷ []))))
    × (verify_password id_key (hash_password id_key "secret" (1 ∷ 2 ∷ [])) "secret" ≡ ok true)
verify_password-hash_password_example =
    verify_password-hash_password id_key "secret" "other" (1 ∷ 2 ∷ []) makes
      (omega arith, (omega arith, tt))

-- The authenticator is one period behind.
verify_code-hotp_example :
    verify_code env s
      (generate_secret (3 ∷ 141 ∷ 59 ∷ []))
      (hotp env.hmac_sha1 (3 ∷ 141 ∷ 59 ∷ []) 9)
      300
    ≡ true
verify_code-hotp_example =
    verify_code-hotp env s (3 ∷ 141 ∷ 59 ∷ []) 9 300 (omega arith, (omega arith, (omega arith, tt)))
      (omega arith) (omega arith)

abbrev variables : String → Option String
variables key =
    if str_eq key "APP_ENV"
    then some "production"
    else if str_eq key "JWT_ACCESS_SECRET"
    then some "access"
    else if str_eq key "JWT_REFRESH_SECRET"
    then some "refresh"
    else if str_eq key "SECRETS_MASTER_KEY"
    then some "master"
    else if str_eq key "PUBLIC_PANEL_URL"
    then some "https://panel.example.com"
    else if str_eq key "POSTGRES_DSN"
    then some "postgres://"
    else none

abbrev outside : Outside
outside = record {
  sha256 = λ bytes. repeated 32;
  parse_url = λ url.
      ok (record { scheme = "https"; host = "panel.example.com"; hostname = "panel.example.com" });
  new_webauthn = λ config. ok library;
  lookup_env = variables;
  parse_duration = λ raw. ok 900000000000;
  new_pool = λ dsn. ok tt;
  ping_pool = λ dsn. ok tt;
  open_db = λ dsn. ok tt;
  ping_db = λ dsn. ok tt;
  set_dialect = λ dialect. ok tt;
  goose_up = λ dir. ok tt;
  quoted = λ text. text;
}

abbrev no_config : Config
no_config = record {
  app_env = "";
  http_addr = "";
  public_panel_url = "";
  postgres_dsn = "";
  redis_url = "";
  nats_url = "";
  log_level = "";
  jwt_access_secret = "";
  jwt_refresh_secret = "";
  secrets_master_key = "";
  access_token_ttl = 0;
  refresh_token_ttl = 0;
}

abbrev value : {A : Type 0} → A → Result A → A
value a (ok b) = b
value a (err e) = a

abbrev config : Config
config = value no_config (load variables outside.parse_duration)

abbrev started : HttpServer
started = value (record { addr = ""; auth = none }) (run_api outside)

loads : load variables outside.parse_duration ≡ ok config
unfolding load parse_duration_env checked getenv
loads = refl

starts : run_api outside ≡ ok started
unfolding load parse_duration_env checked getenv run_api open_store new_service new_token_manager
    new_secrets_manager normalize_master_key new_webauthn_manager std_decode symbols pack_padded
    std_value trim_space trim_left trim_right is_space new_totp_manager text_bytes utf8_bytes
starts = refl

load-ok_example :
    (0 < config.access_token_ttl)
    × (0 < config.refresh_token_ttl)
    × ((str_eq config.app_env "development" ≡ true) ⊎ OwnSecrets config)
load-ok_example = load-ok variables outside.parse_duration loads

run_api-ok_example :
    (cfg : Config) × (load variables outside.parse_duration ≡ ok cfg)
    × (((str_eq cfg.postgres_dsn "" ≡ true) × (started.auth ≡ none))
        ⊎ ((str_eq cfg.postgres_dsn "" ≡ false) × ServesRoutes outside cfg started))
run_api-ok_example = run_api-ok outside (λ bytes. refl) starts
