-- ===== src/Service/Quiet.antt =====
-- The shared parts of the methods leave the committed database alone.
use delta_uptime.Prelude.{ℕ, String, refl, List}
use delta_uptime.Errors.{Result, ok, err}
use delta_uptime.Database.{User, UserTotpCredential}
use delta_uptime.Database.Identity.{get_user_by_id, get_user_by_email, list_organizations_by_user}
use delta_uptime.Database.Controls.{AuditParams, get_user_totp_credential_by_user_id}
use delta_uptime.Effects.{Handle, in_tx}
use delta_uptime.Effects.Quiet.{Quiet, ReadOnly, quiet_rules}
use delta_uptime.Service.{Env, Service, OrganizationInfo}
use delta_uptime.Service.Tokens.{issue_access_token, generate_refresh_token}
use delta_uptime.Service.Session.{
  organizations_for_user, audit, enabled_of, user_has_enabled_totp, second_factor, check_code,
  verify_totp_if_enabled, issue_session_with_model, issue_session,
}

pub ReadOnly-get_user_by_id : (id : ℕ) → ReadOnly (get_user_by_id id)
unfolding get_user_by_id
ReadOnly-get_user_by_id id = record { same = λ now d. refl }

pub ReadOnly-get_user_by_email : (email : String) → ReadOnly (get_user_by_email email)
unfolding get_user_by_email
ReadOnly-get_user_by_email email = record { same = λ now d. refl }

pub ReadOnly-list_organizations_by_user : (id : ℕ) → ReadOnly (list_organizations_by_user id)
unfolding list_organizations_by_user
ReadOnly-list_organizations_by_user id = record { same = λ now d. refl }

pub ReadOnly-get_totp : (id : ℕ) → ReadOnly (get_user_totp_credential_by_user_id id)
unfolding get_user_totp_credential_by_user_id
ReadOnly-get_totp id = record { same = λ now d. refl }

pub ruleset read_only_rules = (
  ReadOnly-get_user_by_id, ReadOnly-get_user_by_email, ReadOnly-list_organizations_by_user,
  ReadOnly-get_totp,
)

Quiet-enabled_of : (r : Result UserTotpCredential) → Quiet (enabled_of r)
Quiet-enabled_of (ok credential) = search quiet_rules
Quiet-enabled_of (err e) = search quiet_rules

pub Quiet-user_has_enabled_totp : (h : Handle) (id : ℕ) → Quiet (user_has_enabled_totp h id)
unfolding user_has_enabled_totp
Quiet-user_has_enabled_totp h id = search (quiet_rules, read_only_rules, Quiet-enabled_of)

pub Quiet-audit : (entry : AuditParams) → Quiet (audit in_tx entry)
unfolding audit
Quiet-audit entry = search quiet_rules

module _ (env : Env) where
  pub Quiet-organizations_for_user : (h : Handle) (id : ℕ) → Quiet (organizations_for_user env h id)
  unfolding organizations_for_user
  Quiet-organizations_for_user h id = search (quiet_rules, read_only_rules)

module _ (env : Env) (s : Service) where
  Quiet-issue_access_token : (id : String) → Quiet (issue_access_token env s id)
  unfolding issue_access_token
  Quiet-issue_access_token id = search quiet_rules

  Quiet-generate_refresh_token : Quiet (generate_refresh_token env s)
  unfolding generate_refresh_token
  Quiet-generate_refresh_token = search quiet_rules

  pub Quiet-issue_session_with_model :
      (user : User) (orgs : List OrganizationInfo)
      → Quiet (issue_session_with_model env s in_tx user orgs)
  unfolding issue_session_with_model
  Quiet-issue_session_with_model user orgs =
      search
        (
          quiet_rules, Quiet-issue_access_token, Quiet-generate_refresh_token,
          Quiet-user_has_enabled_totp,
        )
        depth 12

  pub Quiet-issue_session :
      (user : User) (orgs : List OrganizationInfo) → Quiet (issue_session env s in_tx user orgs)
  unfolding issue_session
  Quiet-issue_session user orgs = search (quiet_rules, Quiet-issue_session_with_model)

  pub Quiet-check_code : (c : UserTotpCredential) (code : String) → Quiet (check_code env s c code)
  unfolding check_code
  Quiet-check_code c code = search quiet_rules

  Quiet-second_factor :
      (code : String) (r : Result UserTotpCredential) → Quiet (second_factor env s code r)
  Quiet-second_factor code (ok c) = search (quiet_rules, Quiet-check_code)
  Quiet-second_factor code (err e) = search quiet_rules

  pub Quiet-verify_totp_if_enabled :
      (h : Handle) (id : ℕ) (code : String) → Quiet (verify_totp_if_enabled env s h id code)
  unfolding verify_totp_if_enabled
  Quiet-verify_totp_if_enabled h id code =
      search (quiet_rules, read_only_rules, Quiet-second_factor)
