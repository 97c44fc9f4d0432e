-- ===== src/Service/Issuing.antt =====
-- What the issue of a session keeps of the working copy of a transaction.
use delta_uptime.Prelude.{ℕ, String, List}
use delta_uptime.Errors.{Result, ok, err}
use delta_uptime.Database.{Db, User, UserTotpCredential}
use delta_uptime.Database.Sessions.{create_auth_refresh_token}
use delta_uptime.Effects.{in_tx}
use delta_uptime.Effects.Keeps.{Keeps, Keeps-ReadOnly}
use delta_uptime.Effects.Working.{TxMaintains, working_rules}
use delta_uptime.Service.{Env, Service, OrganizationInfo}
use delta_uptime.Service.Tokens.{issue_access_token, generate_refresh_token}
use delta_uptime.Service.Session.{
  enabled_of, user_has_enabled_totp, issue_session, issue_session_with_model,
}
use delta_uptime.Service.Quiet.{read_only_rules}

module _ {P : Db → Type 0} where
  enabled_of-TxMaintains : (r : Result UserTotpCredential) → TxMaintains P (enabled_of r)
  enabled_of-TxMaintains (ok credential) = search working_rules
  enabled_of-TxMaintains (err e) = search working_rules

  user_has_enabled_totp-TxMaintains : (id : ℕ) → TxMaintains P (user_has_enabled_totp in_tx id)
  unfolding user_has_enabled_totp
  user_has_enabled_totp-TxMaintains id =
      search (working_rules, Keeps-ReadOnly, read_only_rules, enabled_of-TxMaintains)

module _ (env : Env) (s : Service) {P : Db → Type 0}
    (k : (user : ℕ) (hash : String) (expires : ℕ)
      → Keeps P (create_auth_refresh_token user hash expires)) where
  issue_access_token-TxMaintains : (id : String) → TxMaintains P (issue_access_token env s id)
  unfolding issue_access_token
  issue_access_token-TxMaintains id = search working_rules

  generate_refresh_token-TxMaintains : TxMaintains P (generate_refresh_token env s)
  unfolding generate_refresh_token
  generate_refresh_token-TxMaintains = search working_rules

  -- What the insertion of a refresh token keeps of the working copy, the issue of a session keeps.
  pub issue_session-TxMaintains :
      (user : User) (orgs : List OrganizationInfo)
      → TxMaintains P (issue_session env s in_tx user orgs)
  unfolding issue_session issue_session_with_model
  issue_session-TxMaintains user orgs =
      search
        (
          working_rules, k, issue_access_token-TxMaintains, generate_refresh_token-TxMaintains,
          user_has_enabled_totp-TxMaintains,
        )
        depth 16
