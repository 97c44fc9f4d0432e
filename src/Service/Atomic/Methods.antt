-- ===== src/Service/Atomic/Methods.antt =====
-- Each method of apps/control-plane/internal/auth/service.go that runs a transaction and reads
-- nothing after it changes all or nothing.
use delta_uptime.Prelude.{ℕ, String, List}
use delta_uptime.Database.{User, AuthRefreshToken, Organization}
use delta_uptime.Input.{RegisterInput}
use delta_uptime.Effects.Quiet.{Quiet, quiet_rules}
use delta_uptime.Effects.Atomic.{Atomic, atomic_rules}
use delta_uptime.Service.{Env, Service, LoginInput, OrganizationInfo, Principal, TotpSetup}
use delta_uptime.Service.Quiet.{
  read_only_rules, Quiet-audit, Quiet-issue_session, Quiet-issue_session_with_model,
  Quiet-organizations_for_user, Quiet-verify_totp_if_enabled, Quiet-check_code,
}
use delta_uptime.Service.PasskeyAtomic.{Quiet-encrypt}
use delta_uptime.Service.Totp.{
  setup_totp, setup_body, enable_totp, enable_body, disable_totp, disable_body,
}
use delta_uptime.Service.MembersWhole.{Quiet-authorized_organization}
use delta_uptime.Service.Keys.{
  create_api_key, create_key_body, revoke_api_key, revoke_key_body, generate_api_key,
}
use delta_uptime.Service.Register.{register, register_body, hash_password}
use delta_uptime.Service.Login.{login, login_body, check_credentials}
use delta_uptime.Service.Refresh.{refresh, rotate, find_session}

module _ (env : Env) (s : Service) where
  Atomic-register_body :
      (input : RegisterInput) (hash : String) → Atomic (register_body env s input hash)
  unfolding register_body
  Atomic-register_body input hash =
      search (atomic_rules, quiet_rules, Quiet-issue_session, Quiet-audit) depth 16

  Quiet-hash_password : (password : String) → Quiet (hash_password env s password)
  unfolding hash_password
  Quiet-hash_password password = search quiet_rules

  pub register-Atomic : (input : RegisterInput) → Atomic (register env s input)
  unfolding register
  register-Atomic input =
      search (atomic_rules, quiet_rules, Atomic-register_body, Quiet-hash_password) depth 10

  Quiet-check_credentials : (input : LoginInput) → Quiet (check_credentials env s input)
  unfolding check_credentials
  Quiet-check_credentials input =
      search (quiet_rules, read_only_rules, Quiet-verify_totp_if_enabled) depth 12

  Atomic-login_body :
      (user : User) (orgs : List OrganizationInfo) → Atomic (login_body env s user orgs)
  unfolding login_body
  Atomic-login_body user orgs =
      search (atomic_rules, quiet_rules, Quiet-issue_session, Quiet-audit) depth 12

  pub login-Atomic : (input : LoginInput) → Atomic (login env s input)
  unfolding login
  login-Atomic input =
      search
        (
          atomic_rules, quiet_rules, Atomic-login_body, Quiet-check_credentials,
          Quiet-organizations_for_user,
        )
        depth 12

  Quiet-find_session : (hash : String) → Quiet (find_session env s hash)
  unfolding find_session
  Quiet-find_session hash = search quiet_rules

  Atomic-rotate : (session : AuthRefreshToken) → Atomic (rotate env s session)
  unfolding rotate
  Atomic-rotate session =
      search
        (
          atomic_rules, quiet_rules, Quiet-organizations_for_user, Quiet-issue_session_with_model,
          Quiet-audit,
        )
        depth 16

  pub refresh-Atomic : (token : String) → Atomic (refresh env s token)
  unfolding refresh
  refresh-Atomic token =
      search (atomic_rules, quiet_rules, Quiet-find_session, Atomic-rotate) depth 10

  Atomic-setup_body :
      (id : ℕ) (principal : Principal) (ciphertext nonce : List ℕ) (setup : TotpSetup)
      → Atomic (setup_body env s id principal ciphertext nonce setup)
  unfolding setup_body
  Atomic-setup_body id principal ciphertext nonce setup =
      search (atomic_rules, quiet_rules, Quiet-audit) depth 12

  pub setup_totp-Atomic : (principal : Principal) → Atomic (setup_totp env s principal)
  unfolding setup_totp
  setup_totp-Atomic principal =
      search (atomic_rules, quiet_rules, Quiet-encrypt, Atomic-setup_body) depth 12

  Atomic-enable_body : (id : ℕ) (principal : Principal) → Atomic (enable_body env s id principal)
  unfolding enable_body
  Atomic-enable_body id principal = search (atomic_rules, quiet_rules, Quiet-audit) depth 12

  pub enable_totp-Atomic :
      (principal : Principal) (code : String) → Atomic (enable_totp env s principal code)
  unfolding enable_totp
  enable_totp-Atomic principal code =
      search (atomic_rules, quiet_rules, read_only_rules, Quiet-check_code, Atomic-enable_body)
        depth 12

  Atomic-disable_body : (id : ℕ) (principal : Principal) → Atomic (disable_body env s id principal)
  unfolding disable_body
  Atomic-disable_body id principal = search (atomic_rules, quiet_rules, Quiet-audit) depth 12

  pub disable_totp-Atomic :
      (principal : Principal) (code : String) → Atomic (disable_totp env s principal code)
  unfolding disable_totp
  disable_totp-Atomic principal code =
      search (atomic_rules, quiet_rules, read_only_rules, Quiet-check_code, Atomic-disable_body)
        depth 12

  Quiet-generate_api_key : Quiet (generate_api_key env s)
  unfolding generate_api_key
  Quiet-generate_api_key = search quiet_rules

  Atomic-create_key_body :
      (principal : Principal) (org : Organization) (name raw prefix : String) (scopes : List String)
      → Atomic (create_key_body env s principal org name raw prefix scopes)
  unfolding create_key_body
  Atomic-create_key_body principal org name raw prefix scopes =
      search (atomic_rules, quiet_rules, Quiet-audit) depth 12

  pub create_api_key-Atomic :
      (principal : Principal) (slug name : String) (scopes : List String)
      → Atomic (create_api_key env s principal slug name scopes)
  unfolding create_api_key
  create_api_key-Atomic principal slug name scopes =
      search
        (
          atomic_rules, quiet_rules, Quiet-authorized_organization, Quiet-generate_api_key,
          Atomic-create_key_body,
        )
        depth 14

  Atomic-revoke_key_body :
      (principal : Principal) (org : Organization) (id : ℕ)
      → Atomic (revoke_key_body env s principal org id)
  unfolding revoke_key_body
  Atomic-revoke_key_body principal org id = search (atomic_rules, quiet_rules, Quiet-audit) depth 14

  pub revoke_api_key-Atomic :
      (principal : Principal) (slug id : String) → Atomic (revoke_api_key env s principal slug id)
  unfolding revoke_api_key
  revoke_api_key-Atomic principal slug id =
      search (atomic_rules, quiet_rules, Quiet-authorized_organization, Atomic-revoke_key_body)
        depth 12
