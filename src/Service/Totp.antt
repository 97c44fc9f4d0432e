-- ===== src/Service/Totp.antt =====
-- apps/control-plane/internal/auth/service.go: setting up, enabling and disabling the second
-- factor, with the parts of totp.go that the set-up calls.
use delta_uptime.Prelude.{ℕ, String, true, false, List, [], none, some, if◌then◌else◌}
use delta_uptime.Errors.{Error, wrap, errors_is, no_rows}
use delta_uptime.Input.{invalid}
use delta_uptime.Database.Sessions.{is_null}
use delta_uptime.Database.Controls.{
  AuditParams, get_user_totp_credential_by_user_id, upsert_user_totp_credential,
  enable_user_totp_credential, delete_user_totp_credential,
}
use delta_uptime.Totp.{generate_secret}
use delta_uptime.Totp.Links.{otpauth_url}
use delta_uptime.Effects.{
  App, pool, in_tx, pure, raise, lift, on_error, ◌>>=◌, ◌>>◌, query, commit, transaction, rand_read,
}
use delta_uptime.Service.{Env, Service, Principal, UserInfo, TotpSetup, principal_user}
use delta_uptime.Service.Tokens.{encrypt}
use delta_uptime.Service.Session.{parse_uuid, audit, check_code}

-- `fmt.Errorf("%w: text", ErrInvalidInput)` where there is no row, a wrapped error else.
abbrev pub no_row_invalid : String → Error → Error
no_row_invalid what e = if errors_is e no_rows then invalid what else wrap "get totp credential" e

module _ (env : Env) (s : Service) where
  abbrev pub totp_entry : String → ℕ → Principal → AuditParams
  totp_entry action user_id principal = record {
    organization_id = none;
    actor_type = principal_user;
    actor_user_id = some user_id;
    actor_api_key_id = none;
    action = action;
    target_type = "user";
    target_id = principal.user.id;
    metadata = [];
  }

  unfoldable pub setup_body :
      ℕ → Principal → (ciphertext nonce : List ℕ) → TotpSetup → App TotpSetup
  setup_body user_id principal ciphertext nonce setup = do
    on_error (query in_tx (upsert_user_totp_credential user_id ciphertext nonce))
        (wrap "upsert totp credential")
    audit in_tx (totp_entry "auth.totp.setup" user_id principal)
    on_error commit (wrap "commit totp setup tx")
    pure setup

  unfoldable pub setup_totp : Principal → App TotpSetup
  setup_totp principal = do
    user_id ← lift (parse_uuid env principal.user.id)
    bytes ← on_error (rand_read 20) (wrap "generate totp secret")
    let secret = generate_secret bytes
    (ciphertext, nonce) ← on_error (encrypt env s secret) (wrap "encrypt totp secret")
    transaction "begin totp setup tx" (
        setup_body user_id principal ciphertext nonce (record {
          secret = secret;
          otpauth_url = otpauth_url s.issuer principal.user.email secret;
        }))

  unfoldable pub enable_body : ℕ → Principal → App UserInfo
  enable_body user_id principal = do
    on_error (query in_tx (enable_user_totp_credential user_id)) (wrap "enable totp credential")
    audit in_tx (totp_entry "auth.totp.enable" user_id principal)
    on_error commit (wrap "commit totp enable tx")
    pure (record principal.user { totp_enabled = true })

  unfoldable pub enable_totp : Principal → String → App UserInfo
  enable_totp principal code = do
    user_id ← lift (parse_uuid env principal.user.id)
    credential ←
        on_error (query pool (get_user_totp_credential_by_user_id user_id))
          (no_row_invalid "totp setup not started")
    check_code env s credential code
    transaction "begin totp enable tx" (enable_body user_id principal)

  unfoldable pub disable_body : ℕ → Principal → App UserInfo
  disable_body user_id principal = do
    on_error (query in_tx (delete_user_totp_credential user_id)) (wrap "delete totp credential")
    audit in_tx (totp_entry "auth.totp.disable" user_id principal)
    on_error commit (wrap "commit totp disable tx")
    pure (record principal.user { totp_enabled = false })

  unfoldable pub disable_totp : Principal → String → App UserInfo
  disable_totp principal code = do
    user_id ← lift (parse_uuid env principal.user.id)
    credential ←
        on_error (query pool (get_user_totp_credential_by_user_id user_id))
          (no_row_invalid "totp is not enabled")
    if is_null credential.enabled_at then raise (invalid "totp is not enabled") else (do
      check_code env s credential code
      transaction "begin totp disable tx" (disable_body user_id principal))
