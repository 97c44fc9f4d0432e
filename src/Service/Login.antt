-- ===== src/Service/Login.antt =====
-- `Service.Login` of apps/control-plane/internal/auth/service.go.
use delta_uptime.Prelude.{◌||◌, List, [], none, some, str_eq, if◌then◌else◌, Bool}
use delta_uptime.Errors.{Error, sentinel, wrap, invalid_credentials}
use delta_uptime.Input.{normalize_email, invalid}
use delta_uptime.Database.{User}
use delta_uptime.Database.Identity.{get_user_by_email}
use delta_uptime.Database.Controls.{AuditParams}
use delta_uptime.Password.{verify_password}
use delta_uptime.Effects.{
  App, pool, in_tx, pure, raise, lift, on_error, missing_or, ◌>>=◌, ◌>>◌, query, commit,
  transaction,
}
use delta_uptime.Service.{Env, Service, AuthResult, LoginInput, OrganizationInfo, principal_user}
use delta_uptime.Service.Session.{
  verify_totp_if_enabled, organizations_for_user, issue_session, audit,
}

module _ (env : Env) (s : Service) where
  abbrev pub login_entry : User → AuditParams
  login_entry user = record {
    organization_id = none;
    actor_type = principal_user;
    actor_user_id = some user.id;
    actor_api_key_id = none;
    action = "auth.login";
    target_type = "user";
    target_id = env.uuid_string user.id;
    metadata = [];
  }

  abbrev pub require : Bool → Error → App (Unit {0})
  require b e = if b then pure tt else raise e

  -- The user whose password, and whose second factor if there is one, the input shows.
  unfoldable pub check_credentials : LoginInput → App User
  check_credentials input = do
    user ←
        on_error (query pool (get_user_by_email input.email))
          (missing_or invalid_credentials "get user by email")
    right ←
        on_error (lift (verify_password env.id_key user.password_hash input.password))
          (wrap "verify password")
    require right (sentinel invalid_credentials)
    verify_totp_if_enabled env s pool user.id input.totp_code
    pure user

  unfoldable pub login_body : User → List OrganizationInfo → App AuthResult
  login_body user orgs = do
    auth_result ← issue_session env s in_tx user orgs
    audit in_tx (login_entry user)
    on_error commit (wrap "commit login tx")
    pure auth_result

  unfoldable pub login : LoginInput → App AuthResult
  login raw = do
    let input = record raw { email = normalize_email env.lower_rune raw.email }
    if str_eq input.email "" || str_eq input.password ""
        then raise (invalid "email and password are required")
        else (do
          user ← check_credentials input
          orgs ← organizations_for_user env pool user.id
          transaction "begin login tx" (login_body user orgs))
