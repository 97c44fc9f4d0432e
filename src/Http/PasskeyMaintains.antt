-- ===== src/Http/PasskeyMaintains.antt =====
-- The handlers of the passkeys maintain what every statement keeps.
use delta_uptime.Prelude.{String}
use delta_uptime.Errors.{Result}
use delta_uptime.Database.{Db}
use delta_uptime.Effects.Keeps.{Maintains}
use delta_uptime.Service.{Env, Service, WebauthnFinishInput}
use delta_uptime.Service.Stable.{Stable}
use delta_uptime.Service.PasskeyMaintains.{
  begin_webauthn_registration-Maintains, finish_webauthn_registration-Maintains,
  begin_webauthn_login-Maintains, finish_webauthn_login-Maintains,
}
use delta_uptime.Http.{Headers}
use delta_uptime.Http.Maintains.{handler_rules, authenticate_user-Maintains}
use delta_uptime.Http.Passkeys.{
  handle_webauthn_register_begin, handle_webauthn_register_finish, handle_webauthn_login_begin,
  handle_webauthn_login_finish,
}

module _ (env : Env) (s : Service) {P : Db → Type 0} (st : Stable P) where
  pub handle_webauthn_register_begin-Maintains :
      (headers : Headers) → Maintains P (handle_webauthn_register_begin env s headers)
  unfolding handle_webauthn_register_begin
  handle_webauthn_register_begin-Maintains headers = search (
    handler_rules,
    authenticate_user-Maintains env s st,
    begin_webauthn_registration-Maintains env s st,
  )

  pub handle_webauthn_register_finish-Maintains :
      (headers : Headers) (body : Result WebauthnFinishInput)
      → Maintains P (handle_webauthn_register_finish env s headers body)
  unfolding handle_webauthn_register_finish
  handle_webauthn_register_finish-Maintains headers body = search (
    handler_rules,
    authenticate_user-Maintains env s st,
    finish_webauthn_registration-Maintains env s st,
  )

  pub handle_webauthn_login_begin-Maintains :
      (body : Result String) → Maintains P (handle_webauthn_login_begin env s body)
  unfolding handle_webauthn_login_begin
  handle_webauthn_login_begin-Maintains body =
      search (handler_rules, begin_webauthn_login-Maintains env s st)

  pub handle_webauthn_login_finish-Maintains :
      (body : Result WebauthnFinishInput) → Maintains P (handle_webauthn_login_finish env s body)
  unfolding handle_webauthn_login_finish
  handle_webauthn_login_finish-Maintains body =
      search (handler_rules, finish_webauthn_login-Maintains env s st)
