-- ===== src/Service/PasskeySetup.antt =====
-- `Service.BeginWebAuthnRegistration` and `Service.FinishWebAuthnRegistration` of
-- apps/control-plane/internal/auth/webauthn.go.
use Prim.Native.String.{len}
use delta_uptime.Prelude.{
  ℕ, String, Bool, ◌||◌, not, Option, none, some, List, [], ◌∷◌, ◌==◌, ltb, str_eq, if◌then◌else◌,
}
use delta_uptime.Errors.{Error, Result, sentinel, wrap, is_unique_violation, unauthorized}
use delta_uptime.Input.{invalid}
use delta_uptime.Database.{AuthWebauthnCredential, AuthWebauthnSession, text}
use delta_uptime.Database.Identity.{get_user_by_id}
use delta_uptime.Database.Controls.{AuditParams}
use delta_uptime.Database.Passkeys.{
  create_auth_webauthn_credential, create_auth_webauthn_session, get_auth_webauthn_session_by_id,
  delete_auth_webauthn_session,
}
use delta_uptime.Effects.{
  App, in_tx, pure, raise, lift, on_error, missing_or, ◌>>=◌, ◌>>◌, query, commit, transaction,
  time_now, rand_read,
}
use delta_uptime.Webauthn.{WebauthnUser, SessionData, Credential}
use delta_uptime.Service.{
  Env, Service, Principal, WebauthnBeginResult, WebauthnFinishInput, WebauthnCredentialInfo,
  principal_user,
}
use delta_uptime.Service.Tokens.{encrypt}
use delta_uptime.Service.Session.{parse_uuid, audit}
use delta_uptime.Service.Passkeys.{
  webauthn_flow_registration, credential_id_string, webauthn_credential_info,
  ensure_webauthn_user_handle, webauthn_user_from_model,
}

abbrev pub require : Bool → Error → App (Unit {0})
require b e = if b then pure tt else raise e

-- `fmt.Errorf("%w: text", ErrInvalidInput)`, which drops the cause.
abbrev pub replaced_by : String → Error → Error
replaced_by what e = invalid what

abbrev pub is_owner : Option ℕ → ℕ → Bool
is_owner none id = Bool.false
is_owner (some owner) id = owner == id

-- The session belongs to the flow and has not expired.
abbrev pub is_open_session : String → ℕ → AuthWebauthnSession → Bool
is_open_session flow now session =
    not (not (str_eq session.flow flow) || ltb session.expires_at now)

abbrev pub credential_error : Error → Error
credential_error e =
    if is_unique_violation e
    then invalid "credential already registered"
    else wrap "store webauthn credential" e

module _ (env : Env) (s : Service) where
  -- The library's call, with the challenge that it draws and the time that it reads.
  unfoldable pub library_begin :
      (WebauthnUser → List ℕ → ℕ → Result (String × SessionData))
      → WebauthnUser
      → App (String × SessionData)
  library_begin call user = do
    challenge ← rand_read 32
    now ← time_now
    lift (call user challenge now)

  unfoldable pub begin_registration_body : ℕ → App WebauthnBeginResult
  begin_registration_body user_id = do
    row ←
        on_error (query in_tx (get_user_by_id user_id))
          (missing_or unauthorized "get webauthn registration user")
    user ← ensure_webauthn_user_handle in_tx row
    (wa_user, _) ← webauthn_user_from_model env s in_tx user
    (options, session_data) ←
        on_error (library_begin env.webauthn.begin_registration wa_user)
          (wrap "begin webauthn registration")
    payload ←
        on_error (lift (env.webauthn.marshal_session session_data))
          (wrap "marshal webauthn registration session")
    session ←
        on_error
          (query in_tx (
            create_auth_webauthn_session user.id webauthn_flow_registration payload
              session_data.expires))
          (wrap "create webauthn registration session")
    on_error commit (wrap "commit webauthn registration tx")
    pure (record { session_id = env.uuid_string session.id; options = options })

  unfoldable pub begin_webauthn_registration : Principal → App WebauthnBeginResult
  begin_webauthn_registration principal =
      if not (str_eq principal.type principal_user) then raise (sentinel unauthorized) else (do
        user_id ← lift (parse_uuid env principal.user.id)
        transaction "begin webauthn registration tx" (begin_registration_body user_id))

  abbrev pub passkey_entry : String → ℕ → AuthWebauthnCredential → AuditParams
  passkey_entry action user_id row = record {
    organization_id = none;
    actor_type = principal_user;
    actor_user_id = some user_id;
    actor_api_key_id = none;
    action = action;
    target_type = "webauthn_credential";
    target_id = env.uuid_string row.id;
    metadata = ("credential_id", text (credential_id_string row.credential_id)) ∷ [];
  }

  -- The credential that the library makes of the answer of the browser.
  unfoldable pub checked_registration : AuthWebauthnSession → WebauthnUser → String → App Credential
  checked_registration session wa_user raw = do
    session_data ←
        on_error (lift (env.webauthn.unmarshal_session session.session_data))
          (wrap "unmarshal webauthn registration session")
    response ←
        on_error (lift (env.webauthn.parse_creation raw))
          (replaced_by "parse webauthn registration response")
    now ← time_now
    on_error (lift (env.webauthn.create_credential wa_user session_data response now))
        (replaced_by "validate webauthn registration")

  unfoldable pub store_credential :
      ℕ → AuthWebauthnSession → Credential → App WebauthnCredentialInfo
  store_credential user_id session credential = do
    serialized ←
        on_error (lift (env.webauthn.marshal_credential credential))
          (wrap "marshal webauthn credential")
    (ciphertext, nonce) ← on_error (encrypt env s serialized) (wrap "encrypt webauthn credential")
    row ←
        on_error
          (query in_tx (create_auth_webauthn_credential user_id credential.id ciphertext nonce))
          credential_error
    on_error (query in_tx (delete_auth_webauthn_session session.id))
        (wrap "delete webauthn registration session")
    audit in_tx (passkey_entry "auth.webauthn.register" user_id row)
    on_error commit (wrap "commit webauthn registration finish tx")
    pure (webauthn_credential_info row)

  unfoldable pub finish_registration_body : ℕ → ℕ → String → App WebauthnCredentialInfo
  finish_registration_body user_id session_id raw = do
    session ←
        on_error (query in_tx (get_auth_webauthn_session_by_id session_id))
          (missing_or unauthorized "get webauthn registration session")
    now ← time_now
    require (is_open_session webauthn_flow_registration now session) (sentinel unauthorized)
    require (is_owner session.user_id user_id) (sentinel unauthorized)
    user ←
        on_error (query in_tx (get_user_by_id user_id))
          (wrap "get webauthn registration finish user")
    (wa_user, _) ← webauthn_user_from_model env s in_tx user
    credential ← checked_registration session wa_user raw
    store_credential user.id session credential

  unfoldable pub finish_webauthn_registration :
      Principal → WebauthnFinishInput → App WebauthnCredentialInfo
  finish_webauthn_registration principal input =
      if not (str_eq principal.type principal_user)
      then raise (sentinel unauthorized)
      else if len input.credential == 0
      then raise (invalid "credential is required")
      else (do
        user_id ← lift (parse_uuid env principal.user.id)
        session_id ← lift (parse_uuid env input.session_id)
        transaction "begin webauthn registration finish tx"
            (finish_registration_body user_id session_id input.credential))
