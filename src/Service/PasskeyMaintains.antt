-- ===== src/Service/PasskeyMaintains.antt =====
-- The methods of the passkeys maintain what every statement keeps.
use delta_uptime.Prelude.{ℕ, String, List, Option, none, some, refl}
use delta_uptime.Errors.{Result}
use delta_uptime.Database.{Db, User, AuthWebauthnCredential, AuthWebauthnSession}
use delta_uptime.Effects.{Handle}
use delta_uptime.Effects.Keeps.{Maintains, maintains_rules}
use delta_uptime.Effects.Quiet.{ReadOnly}
use delta_uptime.Webauthn.{WebauthnUser, SessionData, Credential}
use delta_uptime.Service.{Env, Service, Principal, WebauthnFinishInput}
use delta_uptime.Service.Stable.{Stable, reading}
use delta_uptime.Service.Quiet.{ReadOnly-get_user_by_id}
use delta_uptime.Service.Reading.{organizations_for_user-Maintains, encrypt-Maintains}
use delta_uptime.Service.Maintains.{audit-Maintains, issue_session-Maintains}
use delta_uptime.Service.Passkeys.{Stored, ensure_webauthn_user_handle, webauthn_user_from_model}
use delta_uptime.Service.PasskeySetup.{
  library_begin, begin_registration_body, begin_webauthn_registration, checked_registration,
  store_credential, finish_registration_body, finish_webauthn_registration,
}
use delta_uptime.Service.PasskeyLogin.{
  get_session_user, begin_webauthn_login, checked_login, reseal_credential, open_login_session,
  accept_credential, finish_login_body, finish_webauthn_login,
}

ReadOnly-get_session_user : (id : Option ℕ) → ReadOnly (get_session_user id)
unfolding get_session_user
ReadOnly-get_session_user none = record { same = λ now d. refl }
ReadOnly-get_session_user (some id) = ReadOnly-get_user_by_id id

module _ (env : Env) (s : Service) {P : Db → Type 0} (st : Stable P) where
  ensure-Maintains : (h : Handle) (user : User) → Maintains P (ensure_webauthn_user_handle h user)
  unfolding ensure_webauthn_user_handle
  ensure-Maintains h user = search (maintains_rules, st.on_set_handle) depth 10

  user_from_model-Maintains :
      (h : Handle) (user : User) → Maintains P (webauthn_user_from_model env s h user)
  unfolding webauthn_user_from_model
  user_from_model-Maintains h user = search (maintains_rules, reading, ensure-Maintains) depth 10

  library_begin-Maintains :
      (call : WebauthnUser → List ℕ → ℕ → Result (String × SessionData)) (user : WebauthnUser)
      → Maintains P (library_begin env s call user)
  unfolding library_begin
  library_begin-Maintains call user = search maintains_rules

  begin_registration_body-Maintains : (id : ℕ) → Maintains P (begin_registration_body env s id)
  unfolding begin_registration_body
  begin_registration_body-Maintains id =
      search
        (
          maintains_rules, reading, ensure-Maintains, user_from_model-Maintains,
          library_begin-Maintains, st.on_create_passkey_session,
        )
        depth 20

  pub begin_webauthn_registration-Maintains :
      (principal : Principal) → Maintains P (begin_webauthn_registration env s principal)
  unfolding begin_webauthn_registration
  begin_webauthn_registration-Maintains principal =
      search (maintains_rules, begin_registration_body-Maintains) depth 10

  checked_registration-Maintains :
      (session : AuthWebauthnSession) (user : WebauthnUser) (raw : String)
      → Maintains P (checked_registration env s session user raw)
  unfolding checked_registration
  checked_registration-Maintains session user raw = search maintains_rules depth 12

  store_credential-Maintains :
      (id : ℕ) (session : AuthWebauthnSession) (credential : Credential)
      → Maintains P (store_credential env s id session credential)
  unfolding store_credential
  store_credential-Maintains id session credential =
      search
        (
          maintains_rules,
          encrypt-Maintains,
          st.on_create_passkey,
          st.on_delete_passkey_session,
          audit-Maintains env s st,
        )
        depth 16

  finish_registration_body-Maintains :
      (user_id session_id : ℕ) (raw : String)
      → Maintains P (finish_registration_body env s user_id session_id raw)
  unfolding finish_registration_body
  finish_registration_body-Maintains user_id session_id raw =
      search
        (
          maintains_rules, reading, user_from_model-Maintains, checked_registration-Maintains,
          store_credential-Maintains,
        )
        depth 16

  pub finish_webauthn_registration-Maintains :
      (principal : Principal) (input : WebauthnFinishInput)
      → Maintains P (finish_webauthn_registration env s principal input)
  unfolding finish_webauthn_registration
  finish_webauthn_registration-Maintains principal input =
      search (maintains_rules, finish_registration_body-Maintains) depth 12

  pub begin_webauthn_login-Maintains :
      (email : String) → Maintains P (begin_webauthn_login env s email)
  unfolding begin_webauthn_login
  begin_webauthn_login-Maintains email =
      search
        (
          maintains_rules, reading, user_from_model-Maintains, library_begin-Maintains,
          st.on_create_passkey_session,
        )
        depth 20

  checked_login-Maintains :
      (session : AuthWebauthnSession) (user : WebauthnUser) (raw : String)
      → Maintains P (checked_login env s session user raw)
  unfolding checked_login
  checked_login-Maintains session user raw = search maintains_rules depth 12

  reseal_credential-Maintains :
      (row : AuthWebauthnCredential) (credential : Credential)
      → Maintains P (reseal_credential env s row credential)
  unfolding reseal_credential
  reseal_credential-Maintains row credential =
      search (maintains_rules, encrypt-Maintains, st.on_update_passkey) depth 10

  open_login_session-Maintains :
      (user : User) (session : AuthWebauthnSession) (row : AuthWebauthnCredential)
      → Maintains P (open_login_session env s user session row)
  unfolding open_login_session
  open_login_session-Maintains user session row =
      search
        (
          maintains_rules,
          organizations_for_user-Maintains,
          issue_session-Maintains env s st,
          st.on_delete_passkey_session,
          audit-Maintains env s st,
        )
        depth 16

  accept_credential-Maintains :
      (session : AuthWebauthnSession) (user : User) (wa : WebauthnUser) (stored : Stored)
      (raw : String)
      → Maintains P (accept_credential env s session user wa stored raw)
  unfolding accept_credential
  accept_credential-Maintains session user wa stored raw =
      search
        (
          maintains_rules, checked_login-Maintains, reseal_credential-Maintains,
          open_login_session-Maintains,
        )
        depth 16

  finish_login_body-Maintains :
      (id : ℕ) (raw : String) → Maintains P (finish_login_body env s id raw)
  unfolding finish_login_body
  finish_login_body-Maintains id raw =
      search
        (
          maintains_rules, reading, ReadOnly-get_session_user, user_from_model-Maintains,
          accept_credential-Maintains,
        )
        depth 16

  pub finish_webauthn_login-Maintains :
      (input : WebauthnFinishInput) → Maintains P (finish_webauthn_login env s input)
  unfolding finish_webauthn_login
  finish_webauthn_login-Maintains input =
      search (maintains_rules, finish_login_body-Maintains) depth 12
