-- ===== src/Service/Maintains.antt =====
-- The methods that write maintain what every statement keeps.
use delta_uptime.Prelude.{ℕ, String, List}
use delta_uptime.Database.{Db, User, Organization, AuthRefreshToken}
use delta_uptime.Database.Controls.{AuditParams}
use delta_uptime.Input.{RegisterInput}
use delta_uptime.Effects.{Handle}
use delta_uptime.Effects.Keeps.{Maintains, maintains_rules}
use delta_uptime.Service.{Env, Service, Principal, LoginInput, OrganizationInfo, TotpSetup}
use delta_uptime.Service.Session.{audit, issue_session_with_model, issue_session}
use delta_uptime.Service.Stable.{Stable, reading}
use delta_uptime.Service.Reading.{
  user_has_enabled_totp-Maintains, organizations_for_user-Maintains, issue_access_token-Maintains,
  generate_refresh_token-Maintains, encrypt-Maintains, hash_password-Maintains,
  check_code-Maintains, verify_totp_if_enabled-Maintains, authorized_organization-Maintains,
  generate_api_key-Maintains,
}
use delta_uptime.Service.Register.{register, register_body}
use delta_uptime.Service.Login.{login, login_body, check_credentials}
use delta_uptime.Service.Refresh.{refresh, rotate, find_session}
use delta_uptime.Service.Identify.{authenticate_api_key}
use delta_uptime.Service.Totp.{
  setup_body, setup_totp, enable_body, enable_totp, disable_body, disable_totp,
}
use delta_uptime.Service.Members.{
  add_membership_body, add_membership, update_membership_body, update_membership,
}
use delta_uptime.Service.Keys.{create_key_body, create_api_key, revoke_key_body, revoke_api_key}

module _ (env : Env) (s : Service) {P : Db → Type 0} (st : Stable P) where
  pub audit-Maintains : (h : Handle) (entry : AuditParams) → Maintains P (audit h entry)
  unfolding audit
  audit-Maintains h entry = search (maintains_rules, st.on_create_audit_log)

  pub issue_session_with_model-Maintains :
      (h : Handle) (user : User) (orgs : List OrganizationInfo)
      → Maintains P (issue_session_with_model env s h user orgs)
  unfolding issue_session_with_model
  issue_session_with_model-Maintains h user orgs =
      search
        (
          maintains_rules, st.on_create_refresh_token, issue_access_token-Maintains,
          generate_refresh_token-Maintains, user_has_enabled_totp-Maintains,
        )
        depth 12

  pub issue_session-Maintains :
      (h : Handle) (user : User) (orgs : List OrganizationInfo)
      → Maintains P (issue_session env s h user orgs)
  unfolding issue_session
  issue_session-Maintains h user orgs = search (maintains_rules, issue_session_with_model-Maintains)

  register_body-Maintains :
      (input : RegisterInput) (hash : String) → Maintains P (register_body env s input hash)
  unfolding register_body
  register_body-Maintains input hash =
      search
        (
          maintains_rules, st.on_create_user, st.on_create_organization, st.on_create_membership,
          issue_session-Maintains, audit-Maintains,
        )
        depth 16

  pub register-Maintains : (input : RegisterInput) → Maintains P (register env s input)
  unfolding register
  register-Maintains input =
      search (maintains_rules, register_body-Maintains, hash_password-Maintains) depth 10

  check_credentials-Maintains : (input : LoginInput) → Maintains P (check_credentials env s input)
  unfolding check_credentials
  check_credentials-Maintains input =
      search (maintains_rules, reading, verify_totp_if_enabled-Maintains) depth 12

  login_body-Maintains :
      (user : User) (orgs : List OrganizationInfo) → Maintains P (login_body env s user orgs)
  unfolding login_body
  login_body-Maintains user orgs =
      search (maintains_rules, issue_session-Maintains, audit-Maintains) depth 10

  pub login-Maintains : (input : LoginInput) → Maintains P (login env s input)
  unfolding login
  login-Maintains input =
      search
        (
          maintains_rules, login_body-Maintains, check_credentials-Maintains,
          organizations_for_user-Maintains,
        )
        depth 10

  find_session-Maintains : (hash : String) → Maintains P (find_session env s hash)
  unfolding find_session
  find_session-Maintains hash = search (maintains_rules, reading) depth 8

  rotate-Maintains : (session : AuthRefreshToken) → Maintains P (rotate env s session)
  unfolding rotate
  rotate-Maintains session =
      search
        (
          maintains_rules, reading, st.on_rotate, organizations_for_user-Maintains,
          issue_session_with_model-Maintains, audit-Maintains,
        )
        depth 16

  pub refresh-Maintains : (token : String) → Maintains P (refresh env s token)
  unfolding refresh
  refresh-Maintains token =
      search (maintains_rules, find_session-Maintains, rotate-Maintains) depth 8

  pub authenticate_api_key-Maintains : (raw : String) → Maintains P (authenticate_api_key env s raw)
  unfolding authenticate_api_key
  authenticate_api_key-Maintains raw =
      search (maintains_rules, reading, st.on_touch_api_key) depth 10

  setup_body-Maintains :
      (id : ℕ) (principal : Principal) (ciphertext nonce : List ℕ) (setup : TotpSetup)
      → Maintains P (setup_body env s id principal ciphertext nonce setup)
  unfolding setup_body
  setup_body-Maintains id principal ciphertext nonce setup =
      search (maintains_rules, st.on_upsert_totp, audit-Maintains) depth 10

  pub setup_totp-Maintains : (principal : Principal) → Maintains P (setup_totp env s principal)
  unfolding setup_totp
  setup_totp-Maintains principal =
      search (maintains_rules, setup_body-Maintains, encrypt-Maintains) depth 10

  enable_body-Maintains :
      (id : ℕ) (principal : Principal) → Maintains P (enable_body env s id principal)
  unfolding enable_body
  enable_body-Maintains id principal =
      search (maintains_rules, st.on_enable_totp, audit-Maintains) depth 10

  pub enable_totp-Maintains :
      (principal : Principal) (code : String) → Maintains P (enable_totp env s principal code)
  unfolding enable_totp
  enable_totp-Maintains principal code =
      search (maintains_rules, reading, enable_body-Maintains, check_code-Maintains) depth 10

  disable_body-Maintains :
      (id : ℕ) (principal : Principal) → Maintains P (disable_body env s id principal)
  unfolding disable_body
  disable_body-Maintains id principal =
      search (maintains_rules, st.on_delete_totp, audit-Maintains) depth 10

  pub disable_totp-Maintains :
      (principal : Principal) (code : String) → Maintains P (disable_totp env s principal code)
  unfolding disable_totp
  disable_totp-Maintains principal code =
      search (maintains_rules, reading, disable_body-Maintains, check_code-Maintains) depth 12

  add_membership_body-Maintains :
      (principal : Principal) (org : Organization) (user : User) (role : String)
      → Maintains P (add_membership_body env s principal org user role)
  unfolding add_membership_body
  add_membership_body-Maintains principal org user role =
      search
        (maintains_rules, st.on_create_membership, audit-Maintains, user_has_enabled_totp-Maintains)
        depth 12

  pub add_membership-Maintains :
      (principal : Principal) (slug email role : String)
      → Maintains P (add_membership env s principal slug email role)
  unfolding add_membership
  add_membership-Maintains principal slug email role =
      search
        (maintains_rules, reading, authorized_organization-Maintains, add_membership_body-Maintains)
        depth 14

  update_membership_body-Maintains :
      (principal : Principal) (org : Organization) (user_id : ℕ) (role : String)
      → Maintains P (update_membership_body env s principal org user_id role)
  unfolding update_membership_body
  update_membership_body-Maintains principal org user_id role =
      search
        (
          maintains_rules, reading, st.on_update_membership_role, audit-Maintains,
          user_has_enabled_totp-Maintains,
        )
        depth 14

  pub update_membership-Maintains :
      (principal : Principal) (slug user_id role : String)
      → Maintains P (update_membership env s principal slug user_id role)
  unfolding update_membership
  update_membership-Maintains principal slug user_id role =
      search (maintains_rules, authorized_organization-Maintains, update_membership_body-Maintains)
        depth 12

  create_key_body-Maintains :
      (principal : Principal) (org : Organization) (name raw prefix : String) (scopes : List String)
      → Maintains P (create_key_body env s principal org name raw prefix scopes)
  unfolding create_key_body
  create_key_body-Maintains principal org name raw prefix scopes =
      search (maintains_rules, st.on_create_api_key, audit-Maintains) depth 10

  pub create_api_key-Maintains :
      (principal : Principal) (slug name : String) (scopes : List String)
      → Maintains P (create_api_key env s principal slug name scopes)
  unfolding create_api_key
  create_api_key-Maintains principal slug name scopes =
      search
        (
          maintains_rules, authorized_organization-Maintains, generate_api_key-Maintains,
          create_key_body-Maintains,
        )
        depth 12

  revoke_key_body-Maintains :
      (principal : Principal) (org : Organization) (id : ℕ)
      → Maintains P (revoke_key_body env s principal org id)
  unfolding revoke_key_body
  revoke_key_body-Maintains principal org id =
      search (maintains_rules, st.on_revoke_api_key, audit-Maintains) depth 12

  pub revoke_api_key-Maintains :
      (principal : Principal) (slug id : String)
      → Maintains P (revoke_api_key env s principal slug id)
  unfolding revoke_api_key
  revoke_api_key-Maintains principal slug id =
      search (maintains_rules, authorized_organization-Maintains, revoke_key_body-Maintains) depth
        10
