-- ===== src/Service/PasskeyAtomic.antt =====
-- The methods of the passkeys that run in a transaction change all or nothing.
use delta_uptime.Prelude.{ℕ, String, List}
use delta_uptime.Errors.{Result}
use delta_uptime.Database.{User, AuthWebauthnCredential, AuthWebauthnSession}
use delta_uptime.Effects.{in_tx}
use delta_uptime.Effects.Quiet.{Quiet, quiet_rules}
use delta_uptime.Effects.Atomic.{Atomic, atomic_rules}
use delta_uptime.Webauthn.{WebauthnUser, SessionData, Credential}
use delta_uptime.Service.{Env, Service, Principal, WebauthnFinishInput}
use delta_uptime.Service.Tokens.{encrypt}
use delta_uptime.Service.Quiet.{Quiet-audit, Quiet-issue_session, Quiet-organizations_for_user}
use delta_uptime.Service.Passkeys.{Stored, ensure_webauthn_user_handle, webauthn_user_from_model}
use delta_uptime.Service.PasskeySetup.{
  library_begin, begin_registration_body, begin_webauthn_registration, checked_registration,
  store_credential, finish_registration_body, finish_webauthn_registration,
}
use delta_uptime.Service.PasskeyLogin.{
  checked_login, reseal_credential, open_login_session, accept_credential, finish_login_body,
  finish_webauthn_login,
}

Quiet-ensure : (user : User) → Quiet (ensure_webauthn_user_handle in_tx user)
unfolding ensure_webauthn_user_handle
Quiet-ensure user = search quiet_rules

module _ (env : Env) (s : Service) where
  pub Quiet-encrypt : (plaintext : String) → Quiet (encrypt env s plaintext)
  unfolding encrypt
  Quiet-encrypt plaintext = search quiet_rules

  Quiet-user_from_model : (user : User) → Quiet (webauthn_user_from_model env s in_tx user)
  unfolding webauthn_user_from_model
  Quiet-user_from_model user = search (quiet_rules, Quiet-ensure) depth 10

  Quiet-library_begin :
      (call : WebauthnUser → List ℕ → ℕ → Result (String × SessionData)) (user : WebauthnUser)
      → Quiet (library_begin env s call user)
  unfolding library_begin
  Quiet-library_begin call user = search quiet_rules

  Atomic-begin_registration_body : (id : ℕ) → Atomic (begin_registration_body env s id)
  unfolding begin_registration_body
  Atomic-begin_registration_body id =
      search (atomic_rules, quiet_rules, Quiet-ensure, Quiet-user_from_model, Quiet-library_begin)
        depth 20

  pub begin_webauthn_registration-Atomic :
      (principal : Principal) → Atomic (begin_webauthn_registration env s principal)
  unfolding begin_webauthn_registration
  begin_webauthn_registration-Atomic principal =
      search (atomic_rules, quiet_rules, Atomic-begin_registration_body) depth 10

  Quiet-checked_registration :
      (session : AuthWebauthnSession) (user : WebauthnUser) (raw : String)
      → Quiet (checked_registration env s session user raw)
  unfolding checked_registration
  Quiet-checked_registration session user raw = search quiet_rules depth 12

  Atomic-store_credential :
      (id : ℕ) (session : AuthWebauthnSession) (credential : Credential)
      → Atomic (store_credential env s id session credential)
  unfolding store_credential
  Atomic-store_credential id session credential =
      search (atomic_rules, quiet_rules, Quiet-encrypt, Quiet-audit) depth 16

  Atomic-finish_registration_body :
      (user_id session_id : ℕ) (raw : String)
      → Atomic (finish_registration_body env s user_id session_id raw)
  unfolding finish_registration_body
  Atomic-finish_registration_body user_id session_id raw =
      search
        (
          atomic_rules, quiet_rules, Quiet-user_from_model, Quiet-checked_registration,
          Atomic-store_credential,
        )
        depth 16

  pub finish_webauthn_registration-Atomic :
      (principal : Principal) (input : WebauthnFinishInput)
      → Atomic (finish_webauthn_registration env s principal input)
  unfolding finish_webauthn_registration
  finish_webauthn_registration-Atomic principal input =
      search (atomic_rules, quiet_rules, Atomic-finish_registration_body) depth 12

  Quiet-checked_login :
      (session : AuthWebauthnSession) (user : WebauthnUser) (raw : String)
      → Quiet (checked_login env s session user raw)
  unfolding checked_login
  Quiet-checked_login session user raw = search quiet_rules depth 12

  Quiet-reseal_credential :
      (row : AuthWebauthnCredential) (credential : Credential)
      → Quiet (reseal_credential env s row credential)
  unfolding reseal_credential
  Quiet-reseal_credential row credential = search (quiet_rules, Quiet-encrypt) depth 10

  Atomic-open_login_session :
      (user : User) (session : AuthWebauthnSession) (row : AuthWebauthnCredential)
      → Atomic (open_login_session env s user session row)
  unfolding open_login_session
  Atomic-open_login_session user session row =
      search
        (atomic_rules, quiet_rules, Quiet-organizations_for_user, Quiet-issue_session, Quiet-audit)
        depth 16

  Atomic-accept_credential :
      (session : AuthWebauthnSession) (user : User) (wa : WebauthnUser) (stored : Stored)
      (raw : String)
      → Atomic (accept_credential env s session user wa stored raw)
  unfolding accept_credential
  Atomic-accept_credential session user wa stored raw =
      search
        (
          atomic_rules, quiet_rules, Quiet-checked_login, Quiet-reseal_credential,
          Atomic-open_login_session,
        )
        depth 16

  Atomic-finish_login_body : (id : ℕ) (raw : String) → Atomic (finish_login_body env s id raw)
  unfolding finish_login_body
  Atomic-finish_login_body id raw =
      search (atomic_rules, quiet_rules, Quiet-user_from_model, Atomic-accept_credential) depth 16

  pub finish_webauthn_login-Atomic :
      (input : WebauthnFinishInput) → Atomic (finish_webauthn_login env s input)
  unfolding finish_webauthn_login
  finish_webauthn_login-Atomic input =
      search (atomic_rules, quiet_rules, Atomic-finish_login_body) depth 12
