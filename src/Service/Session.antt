-- ===== src/Service/Session.antt =====
-- apps/control-plane/internal/auth/service.go: the parts that the methods share. The second factor,
-- the organizations of a user, the issue of a session, the audit entry, and ids as texts.
use delta_uptime.Prelude.{
  ℕ, ◌+◌, ◌-◌, ◌/◌, String, Bool, false, ◌||◌, ◌&&◌, not, List, Option, none, some, ◌==◌, ltb,
  str_eq, if◌then◌else◌, map,
}
use Prim.Native.String.{len}
use delta_uptime.Errors.{
  Error, Result, ok, err, sentinel, wrap, errors_is, is_unique_violation, no_rows, email_taken,
  organization_slug_taken, totp_required, totp_invalid,
}
use delta_uptime.Text.{trim_space}
use delta_uptime.Input.{invalid}
use delta_uptime.Database.{User, UserTotpCredential, AuthRefreshToken}
use delta_uptime.Database.Identity.{list_organizations_by_user, OrganizationRow}
use delta_uptime.Database.Sessions.{create_auth_refresh_token, is_null}
use delta_uptime.Database.Controls.{
  AuditParams, create_audit_log, get_user_totp_credential_by_user_id,
}
use delta_uptime.Totp.{code_at}
use delta_uptime.Effects.{
  App, Handle, pure, raise, lift, on_error, attempt, ◌>>=◌, ◌>>◌, query, time_now,
}
use delta_uptime.Service.{Env, Service, UserInfo, OrganizationInfo, AuthResult}
use delta_uptime.Service.Tokens.{second, issue_access_token, generate_refresh_token, decrypt}

unfoldable pub map_create_user_error : Error → Error
map_create_user_error e =
    if is_unique_violation e then sentinel email_taken else wrap "create user" e

unfoldable pub map_create_organization_error : Error → Error
map_create_organization_error e =
    if is_unique_violation e then sentinel organization_slug_taken else wrap "create organization" e

module _ (env : Env) where
  abbrev pub scanned : Option ℕ → Result ℕ
  scanned none = err (invalid "invalid uuid")
  scanned (some id) = ok id

  unfoldable pub parse_uuid : String → Result ℕ
  parse_uuid raw = scanned (env.uuid_scan raw)

  -- `mustUUID`: the invalid id, which is stored as NULL, stands for a text that is no id.
  unfoldable pub must_uuid : String → Option ℕ
  must_uuid raw = if str_eq (trim_space raw) "" then none else env.uuid_scan raw

  abbrev pub user_info : User → Bool → UserInfo
  user_info user totp_enabled = record {
    id = env.uuid_string user.id;
    email = user.email;
    display_name = user.display_name;
    is_system_admin = user.is_system_admin;
    totp_enabled = totp_enabled;
  }

  abbrev pub organization_info : OrganizationRow → OrganizationInfo
  organization_info row = record {
    id = env.uuid_string row.organization.id;
    slug = row.organization.slug;
    name = row.organization.name;
    role = row.role;
  }

  unfoldable pub organizations_for_user : Handle → ℕ → App (List OrganizationInfo)
  organizations_for_user handle user_id = do
    rows ←
        on_error (query handle (list_organizations_by_user user_id))
          (wrap "list organizations by user")
    pure (map organization_info rows)

-- `audit`. Encoding the metadata cannot fail: it holds texts and lists of texts.
unfoldable pub audit : Handle → AuditParams → App (Unit {0})
audit handle entry =
    on_error (query handle (create_audit_log entry)) (wrap "create audit log") >> pure tt

abbrev pub enabled_of : Result UserTotpCredential → App Bool
enabled_of (ok credential) = pure (not (is_null credential.enabled_at))
enabled_of (err e) =
    if errors_is e no_rows then pure false else raise (wrap "get totp credential" e)

unfoldable pub user_has_enabled_totp : Handle → ℕ → App Bool
user_has_enabled_totp handle user_id =
    attempt (query handle (get_user_totp_credential_by_user_id user_id)) >>= enabled_of

module _ (env : Env) (s : Service) where
  -- `decryptTOTPSecret`
  unfoldable pub decrypt_totp_secret : UserTotpCredential → Result String
  decrypt_totp_secret credential =
      decrypt env s credential.secret_ciphertext credential.secret_nonce

  -- The codes of the counter before, of the counter and of the one after; a negative counter is
  -- left out. `code` is trimmed and has six bytes.
  unfoldable pub verify_code : String → String → ℕ → Bool
  verify_code secret code unix =
      let trimmed = trim_space code in
      let counter = unix / 30 in
      len trimmed == 6
      && ((ltb 0 counter
            && str_eq (code_at env.hmac_sha1 env.upper_rune secret (counter - 1)) trimmed)
          || str_eq (code_at env.hmac_sha1 env.upper_rune secret counter) trimmed
          || str_eq (code_at env.hmac_sha1 env.upper_rune secret (counter + 1)) trimmed)

  unfoldable pub check_code : UserTotpCredential → String → App (Unit {0})
  check_code credential code = do
    secret ← lift (decrypt_totp_secret credential)
    now ← time_now
    if verify_code secret code (now / second) then pure tt else raise (sentinel totp_invalid)

  abbrev pub second_factor : String → Result UserTotpCredential → App (Unit {0})
  second_factor code (err e) =
      if errors_is e no_rows then pure tt else raise (wrap "get totp credential" e)
  second_factor code (ok credential) =
      if is_null credential.enabled_at
      then pure tt
      else if str_eq (trim_space code) ""
      then raise (sentinel totp_required)
      else check_code credential code

  unfoldable pub verify_totp_if_enabled : Handle → ℕ → String → App (Unit {0})
  verify_totp_if_enabled handle user_id code =
      attempt (query handle (get_user_totp_credential_by_user_id user_id)) >>= second_factor code

  -- `issueSessionWithModel`
  unfoldable pub issue_session_with_model :
      Handle → User → List OrganizationInfo → App (AuthResult × AuthRefreshToken)
  issue_session_with_model handle user orgs = do
    (access_token, access_expiry) ←
        on_error (issue_access_token env s (env.uuid_string user.id)) (wrap "issue access token")
    (refresh_token, refresh_hash, refresh_expiry) ←
        on_error (generate_refresh_token env s) (wrap "generate refresh token")
    session ←
        on_error (query handle (create_auth_refresh_token user.id refresh_hash refresh_expiry))
          (wrap "create refresh token row")
    totp_enabled ← user_has_enabled_totp handle user.id
    pure (
      record {
        access_token = access_token;
        access_token_expires_at = access_expiry;
        refresh_token = refresh_token;
        refresh_token_expires_at = refresh_expiry;
        user = user_info env user totp_enabled;
        organizations = orgs;
      },
      session,
    )

  unfoldable pub issue_session : Handle → User → List OrganizationInfo → App AuthResult
  issue_session handle user orgs = do
    (auth_result, _) ← issue_session_with_model handle user orgs
    pure auth_result
