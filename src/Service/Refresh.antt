-- ===== src/Service/Refresh.antt =====
-- `Service.Refresh` of apps/control-plane/internal/auth/service.go.
use delta_uptime.Prelude.{ℕ, String, ◌||◌, not, [], none, some, str_eq, if◌then◌else◌, Bool, ltb}
use delta_uptime.Errors.{sentinel, wrap, refresh_token_invalid}
use delta_uptime.Text.{trim_space}
use delta_uptime.Input.{invalid}
use delta_uptime.Database.{User, AuthRefreshToken}
use delta_uptime.Database.Identity.{get_user_by_id}
use delta_uptime.Database.Sessions.{
  get_auth_refresh_token_by_token_hash, rotate_auth_refresh_token, is_null,
}
use delta_uptime.Database.Controls.{AuditParams}
use delta_uptime.Effects.{
  App, in_tx, pure, raise, on_error, missing_or, ◌>>=◌, ◌>>◌, query, commit, transaction, time_now,
}
use delta_uptime.Service.{Env, Service, AuthResult, principal_user}
use delta_uptime.Service.Tokens.{hash_refresh_token}
use delta_uptime.Service.Session.{organizations_for_user, issue_session_with_model, audit}

module _ (env : Env) (s : Service) where
  abbrev pub refresh_entry : User → AuthRefreshToken → AuditParams
  refresh_entry user session = record {
    organization_id = none;
    actor_type = principal_user;
    actor_user_id = some user.id;
    actor_api_key_id = none;
    action = "auth.refresh";
    target_type = "refresh_token";
    target_id = env.uuid_string session.id;
    metadata = [];
  }

  -- A session that may be refreshed: it is unused, unrevoked and not past its expiry.
  abbrev pub is_fresh : ℕ → AuthRefreshToken → Bool
  is_fresh now session = not (
      not (is_null session.used_at)
      || not (is_null session.revoked_at)
      || ltb session.expires_at now)

  unfoldable pub find_session : String → App AuthRefreshToken
  find_session token_hash = do
    session ←
        on_error (query in_tx (get_auth_refresh_token_by_token_hash token_hash))
          (missing_or refresh_token_invalid "get refresh token")
    now ← time_now
    if is_fresh now session then pure session else raise (sentinel refresh_token_invalid)

  -- The replacement of a session, up to the commit.
  unfoldable pub rotate : AuthRefreshToken → App AuthResult
  rotate session = do
    user ← on_error (query in_tx (get_user_by_id session.user_id)) (wrap "get refresh user")
    orgs ← organizations_for_user env in_tx user.id
    (auth_result, replacement) ← issue_session_with_model env s in_tx user orgs
    on_error (query in_tx (rotate_auth_refresh_token session.id replacement.id))
        (missing_or refresh_token_invalid "rotate refresh token")
    audit in_tx (refresh_entry user session)
    on_error commit (wrap "commit refresh tx")
    pure auth_result

  unfoldable pub refresh : String → App AuthResult
  refresh refresh_token =
      if str_eq (trim_space refresh_token) ""
      then raise (invalid "refresh token is required")
      else transaction "begin refresh tx"
          (find_session (hash_refresh_token env s refresh_token) >>= rotate)
