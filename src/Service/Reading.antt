-- ===== src/Service/Reading.antt =====
-- The methods that write nothing, and the parts of the others that write nothing, maintain every
-- property of the database.
use delta_uptime.Prelude.{ℕ, String}
use delta_uptime.Errors.{Result, ok, err}
use delta_uptime.Database.{Db, User, UserTotpCredential}
use delta_uptime.Database.Identity.{UserRow}
use delta_uptime.Access.{Permission}
use delta_uptime.Effects.{Handle}
use delta_uptime.Effects.Keeps.{Maintains, maintains_rules}
use delta_uptime.Service.{Env, Service, Principal}
use delta_uptime.Service.Tokens.{
  issue_access_token, generate_refresh_token, parse_access_token, encrypt,
}
use delta_uptime.Service.Session.{
  organizations_for_user, enabled_of, user_has_enabled_totp, second_factor, check_code,
  verify_totp_if_enabled,
}
use delta_uptime.Service.Stable.{reading}
use delta_uptime.Service.Register.{hash_password}
use delta_uptime.Service.Identify.{
  organization_of_key, principal_for_user, authenticate_access_token, organizations_for_principal,
  me,
}
use delta_uptime.Service.Members.{
  authorized_organization, membership_info, get_organization, list_memberships,
}
use delta_uptime.Service.Keys.{generate_api_key, list_api_keys}
use delta_uptime.Service.Listing.{list_audit_logs}

module _ {P : Db → Type 0} where
  pub enabled_of-Maintains : (r : Result UserTotpCredential) → Maintains P (enabled_of r)
  enabled_of-Maintains (ok credential) = search maintains_rules
  enabled_of-Maintains (err e) = search maintains_rules

  pub user_has_enabled_totp-Maintains :
      (h : Handle) (id : ℕ) → Maintains P (user_has_enabled_totp h id)
  unfolding user_has_enabled_totp
  user_has_enabled_totp-Maintains h id = search (maintains_rules, reading, enabled_of-Maintains)

  pub organizations_for_user-Maintains :
      (env : Env) (h : Handle) (id : ℕ) → Maintains P (organizations_for_user env h id)
  unfolding organizations_for_user
  organizations_for_user-Maintains env h id = search (maintains_rules, reading)

module _ (env : Env) (s : Service) {P : Db → Type 0} where
  pub issue_access_token-Maintains : (id : String) → Maintains P (issue_access_token env s id)
  unfolding issue_access_token
  issue_access_token-Maintains id = search maintains_rules

  pub parse_access_token-Maintains : (token : String) → Maintains P (parse_access_token env s token)
  unfolding parse_access_token
  parse_access_token-Maintains token = search maintains_rules

  pub generate_refresh_token-Maintains : Maintains P (generate_refresh_token env s)
  unfolding generate_refresh_token
  generate_refresh_token-Maintains = search maintains_rules

  pub encrypt-Maintains : (plaintext : String) → Maintains P (encrypt env s plaintext)
  unfolding encrypt
  encrypt-Maintains plaintext = search maintains_rules

  pub hash_password-Maintains : (password : String) → Maintains P (hash_password env s password)
  unfolding hash_password
  hash_password-Maintains password = search maintains_rules

  pub check_code-Maintains :
      (c : UserTotpCredential) (code : String) → Maintains P (check_code env s c code)
  unfolding check_code
  check_code-Maintains c code = search maintains_rules

  pub second_factor-Maintains :
      (code : String) (r : Result UserTotpCredential) → Maintains P (second_factor env s code r)
  second_factor-Maintains code (ok c) = search (maintains_rules, check_code-Maintains)
  second_factor-Maintains code (err e) = search maintains_rules

  pub verify_totp_if_enabled-Maintains :
      (h : Handle) (id : ℕ) (code : String) → Maintains P (verify_totp_if_enabled env s h id code)
  unfolding verify_totp_if_enabled
  verify_totp_if_enabled-Maintains h id code =
      search (maintains_rules, reading, second_factor-Maintains)

  pub principal_for_user-Maintains : (user : User) → Maintains P (principal_for_user env s user)
  unfolding principal_for_user
  principal_for_user-Maintains user =
      search (maintains_rules, organizations_for_user-Maintains, user_has_enabled_totp-Maintains)

  pub authenticate_access_token-Maintains :
      (token : String) → Maintains P (authenticate_access_token env s token)
  unfolding authenticate_access_token
  authenticate_access_token-Maintains token =
      search (maintains_rules, reading, parse_access_token-Maintains, principal_for_user-Maintains)
        depth 10

  organization_of_key-Maintains :
      (entry : String × String) → Maintains P (organization_of_key env s entry)
  unfolding organization_of_key
  organization_of_key-Maintains (org_id, role) = search (maintains_rules, reading) depth 8

  pub organizations_for_principal-Maintains :
      (principal : Principal) → Maintains P (organizations_for_principal env s principal)
  unfolding organizations_for_principal
  organizations_for_principal-Maintains principal =
      search (maintains_rules, organizations_for_user-Maintains, organization_of_key-Maintains)
        depth 8

  pub me-Maintains : (token : String) → Maintains P (me env s token)
  unfolding me
  me-Maintains token =
      search (
        maintains_rules, authenticate_access_token-Maintains, organizations_for_principal-Maintains,
      )

  pub authorized_organization-Maintains :
      (principal : Principal) (slug : String) (permission : Permission)
      → Maintains P (authorized_organization env s principal slug permission)
  unfolding authorized_organization
  authorized_organization-Maintains principal slug permission =
      search (maintains_rules, reading) depth 8

  pub get_organization-Maintains :
      (principal : Principal) (slug : String) → Maintains P (get_organization env s principal slug)
  unfolding get_organization
  get_organization-Maintains principal slug =
      search (maintains_rules, authorized_organization-Maintains)

  membership_info-Maintains : (row : UserRow) → Maintains P (membership_info env s row)
  unfolding membership_info
  membership_info-Maintains row = search (maintains_rules, user_has_enabled_totp-Maintains)

  pub list_memberships-Maintains :
      (principal : Principal) (slug : String) → Maintains P (list_memberships env s principal slug)
  unfolding list_memberships
  list_memberships-Maintains principal slug =
      search
        (maintains_rules, reading, authorized_organization-Maintains, membership_info-Maintains)
        depth 8

  pub list_api_keys-Maintains :
      (principal : Principal) (slug : String) → Maintains P (list_api_keys env s principal slug)
  unfolding list_api_keys
  list_api_keys-Maintains principal slug =
      search (maintains_rules, reading, authorized_organization-Maintains) depth 8

  pub list_audit_logs-Maintains :
      (principal : Principal) (slug : String) (limit : ℕ)
      → Maintains P (list_audit_logs env s principal slug limit)
  unfolding list_audit_logs
  list_audit_logs-Maintains principal slug limit =
      search (maintains_rules, reading, authorized_organization-Maintains) depth 8

  pub generate_api_key-Maintains : Maintains P (generate_api_key env s)
  unfolding generate_api_key
  generate_api_key-Maintains = search maintains_rules
