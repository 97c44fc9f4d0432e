-- ===== src/Service/Atomic.antt =====
-- apps/control-plane/internal/auth/service.go and webauthn.go: the methods that run a transaction,
-- where they fail.
mod Methods
use delta_uptime.Prelude.{String, List, ◌≡◌, ◌⊎◌}
use delta_uptime.Errors.{Error, err}
use delta_uptime.Database.{Db}
use delta_uptime.Input.{RegisterInput}
use delta_uptime.Effects.{World, App}
use delta_uptime.Effects.Atomic.{db_of_Atomic}
use delta_uptime.Effects.Whole.{Whole}
use delta_uptime.Service.{
  Env, Service, LoginInput, Principal, TotpSetup, UserInfo, AuthResult, MembershipInfo, ApiKeyInfo,
  ApiKeyCreateResult, WebauthnBeginResult, WebauthnFinishInput, WebauthnCredentialInfo,
}
use delta_uptime.Service.PasskeyAtomic.{
  begin_webauthn_registration-Atomic, finish_webauthn_registration-Atomic,
  finish_webauthn_login-Atomic,
}
use delta_uptime.Service.PasskeySetup.{begin_webauthn_registration, finish_webauthn_registration}
use delta_uptime.Service.PasskeyLogin.{finish_webauthn_login}
use delta_uptime.Service.Totp.{setup_totp, enable_totp, disable_totp}
use delta_uptime.Service.Keys.{create_api_key, revoke_api_key}
use delta_uptime.Service.Register.{register}
use delta_uptime.Service.Login.{login}
use delta_uptime.Service.Refresh.{refresh}
use delta_uptime.Service.Members.{add_membership, update_membership}
use delta_uptime.Service.MembersWhole.{
  Added, Updated, add_membership-Whole, update_membership-Whole,
}
use delta_uptime.Service.Atomic.Methods.{
  register-Atomic, login-Atomic, refresh-Atomic, setup_totp-Atomic, enable_totp-Atomic,
  disable_totp-Atomic, create_api_key-Atomic, revoke_api_key-Atomic,
}

-- A call of one of the methods that run a transaction.
pub data Call : Type 0 where
  registering : RegisterInput → Call
  logging_in : LoginInput → Call
  refreshing : String → Call
  setting_up : Principal → Call
  enabling disabling : Principal → String → Call
  creating_key : Principal → String → String → List String → Call
  revoking_key : Principal → String → String → Call
  beginning_passkey : Principal → Call
  finishing_passkey : Principal → WebauthnFinishInput → Call
  passkey_login : WebauthnFinishInput → Call
  adding_member updating_member : Principal → String → String → String → Call

module _ (env : Env) (s : Service) where
  abbrev pub ResultOf : Call → Type 0
  ResultOf (registering input) = AuthResult
  ResultOf (logging_in input) = AuthResult
  ResultOf (refreshing token) = AuthResult
  ResultOf (setting_up p) = TotpSetup
  ResultOf (enabling p code) = UserInfo
  ResultOf (disabling p code) = UserInfo
  ResultOf (creating_key p slug name scopes) = ApiKeyCreateResult
  ResultOf (revoking_key p slug id) = ApiKeyInfo
  ResultOf (beginning_passkey p) = WebauthnBeginResult
  ResultOf (finishing_passkey p input) = WebauthnCredentialInfo
  ResultOf (passkey_login input) = AuthResult
  ResultOf (adding_member p slug email role) = MembershipInfo
  ResultOf (updating_member p slug id role) = MembershipInfo

  abbrev pub call : (c : Call) → App (ResultOf c)
  call (registering input) = register env s input
  call (logging_in input) = login env s input
  call (refreshing token) = refresh env s token
  call (setting_up p) = setup_totp env s p
  call (enabling p code) = enable_totp env s p code
  call (disabling p code) = disable_totp env s p code
  call (creating_key p slug name scopes) = create_api_key env s p slug name scopes
  call (revoking_key p slug id) = revoke_api_key env s p slug id
  call (beginning_passkey p) = begin_webauthn_registration env s p
  call (finishing_passkey p input) = finish_webauthn_registration env s p input
  call (passkey_login input) = finish_webauthn_login env s input
  call (adding_member p slug email role) = add_membership env s p slug email role
  call (updating_member p slug id role) = update_membership env s p slug id role

  -- What a call that failed may leave behind: the rows as they were or, for the two methods that
  -- read once more after their commit, the membership and its audit entry.
  abbrev pub LeftBehind : Call → Db → Db → Type 0
  LeftBehind (adding_member p slug email role) d d' = (d' ≡ d) ⊎ Added env s p role d d'
  LeftBehind (updating_member p slug id role) d d' = (d' ≡ d) ⊎ Updated env s p role d d'
  LeftBehind c d d' = d' ≡ d

  -- Each of the thirteen methods that run a transaction is all or nothing where it returns an
  -- error, wherever it fails and whichever calls to the outside fail, for a database whose commit
  -- takes effect as a whole or fails without effect. Registering, logging in, refreshing, setting
  -- up, enabling and disabling the second factor, creating and revoking an API key, beginning and
  -- finishing the registration of a passkey and finishing a login by one have changed no committed
  -- row. Adding a membership and changing its role have changed no committed row either, or have
  -- committed the membership together with its audit entry.
  pub call_all_or_nothing :
      (c : Call) (w : World) {e : Error} {v : World}
      → call c w ≡ (err e, v)
      → LeftBehind c w.db v.db
  call_all_or_nothing (registering input) w failed =
      db_of_Atomic _ (register-Atomic env s input) w failed
  call_all_or_nothing (logging_in input) w failed =
      db_of_Atomic _ (login-Atomic env s input) w failed
  call_all_or_nothing (refreshing token) w failed =
      db_of_Atomic _ (refresh-Atomic env s token) w failed
  call_all_or_nothing (setting_up p) w failed = db_of_Atomic _ (setup_totp-Atomic env s p) w failed
  call_all_or_nothing (enabling p code) w failed =
      db_of_Atomic _ (enable_totp-Atomic env s p code) w failed
  call_all_or_nothing (disabling p code) w failed =
      db_of_Atomic _ (disable_totp-Atomic env s p code) w failed
  call_all_or_nothing (creating_key p slug name scopes) w failed =
      db_of_Atomic _ (create_api_key-Atomic env s p slug name scopes) w failed
  call_all_or_nothing (revoking_key p slug id) w failed =
      db_of_Atomic _ (revoke_api_key-Atomic env s p slug id) w failed
  call_all_or_nothing (beginning_passkey p) w failed =
      db_of_Atomic _ (begin_webauthn_registration-Atomic env s p) w failed
  call_all_or_nothing (finishing_passkey p input) w failed =
      db_of_Atomic _ (finish_webauthn_registration-Atomic env s p input) w failed
  call_all_or_nothing (passkey_login input) w failed =
      db_of_Atomic _ (finish_webauthn_login-Atomic env s input) w failed
  call_all_or_nothing (adding_member p slug email role) w failed =
      (add_membership-Whole env s p slug email role).at w _ failed
  call_all_or_nothing (updating_member p slug id role) w failed =
      (update_membership-Whole env s p slug id role).at w _ failed
