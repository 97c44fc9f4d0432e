-- ===== src/Http/Passkeys.antt =====
-- apps/control-plane/internal/auth/http.go: the handlers of the passkeys.
use delta_uptime.Prelude.{String}
use delta_uptime.Errors.{Result}
use delta_uptime.Effects.{App}
use delta_uptime.Service.{
  Env, Service, AuthResult, WebauthnBeginResult, WebauthnFinishInput, WebauthnCredentialInfo,
}
use delta_uptime.Service.PasskeySetup.{begin_webauthn_registration, finish_webauthn_registration}
use delta_uptime.Service.PasskeyLogin.{begin_webauthn_login, finish_webauthn_login}
use delta_uptime.Http.{Reply, Headers, answer, with_body, with_caller, authenticate_user}

module _ (env : Env) (s : Service) where
  unfoldable pub handle_webauthn_register_begin : Headers → App (Reply WebauthnBeginResult)
  handle_webauthn_register_begin headers =
      with_caller (authenticate_user env s headers)
        (λ principal. answer 200 (begin_webauthn_registration env s principal))

  unfoldable pub handle_webauthn_register_finish :
      Headers → Result WebauthnFinishInput → App (Reply WebauthnCredentialInfo)
  handle_webauthn_register_finish headers body =
      with_caller (authenticate_user env s headers) λ principal.
        with_body body λ req. answer 201 (finish_webauthn_registration env s principal req)

  -- The body is the email.
  unfoldable pub handle_webauthn_login_begin : Result String → App (Reply WebauthnBeginResult)
  handle_webauthn_login_begin body =
      with_body body (λ email. answer 200 (begin_webauthn_login env s email))

  unfoldable pub handle_webauthn_login_finish : Result WebauthnFinishInput → App (Reply AuthResult)
  handle_webauthn_login_finish body =
      with_body body (λ req. answer 200 (finish_webauthn_login env s req))
