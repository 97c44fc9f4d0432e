-- ===== src/Service/PasskeyLogin.antt =====
-- `Service.BeginWebAuthnLogin` and `Service.FinishWebAuthnLogin` of
-- apps/control-plane/internal/auth/webauthn.go. The first runs without a transaction.
use Prim.Native.String.{len}
use delta_uptime.Prelude.{ℕ, String, Bool, Option, none, some, [], ◌∷◌, ◌==◌, str_eq, if◌then◌else◌}
use delta_uptime.Errors.{Result, sentinel, wrap, invalid_credentials, ok, err}
use delta_uptime.Input.{normalize_email, invalid}
use delta_uptime.Database.{Query, User, AuthWebauthnCredential, AuthWebauthnSession, one}
use delta_uptime.Database.Identity.{get_user_by_id, get_user_by_email}
use delta_uptime.Database.Passkeys.{
  update_auth_webauthn_credential, create_auth_webauthn_session, get_auth_webauthn_session_by_id,
  delete_auth_webauthn_session,
}
use delta_uptime.Effects.{
  App, in_tx, pool, pure, raise, lift, on_error, missing_or, ◌>>=◌, ◌>>◌, query, commit,
  transaction, time_now,
}
use delta_uptime.Webauthn.{WebauthnUser, Credential}
use delta_uptime.Service.{Env, Service, AuthResult, WebauthnBeginResult, WebauthnFinishInput}
use delta_uptime.Service.Tokens.{encrypt}
use delta_uptime.Service.Session.{parse_uuid, audit, organizations_for_user, issue_session}
use delta_uptime.Service.Passkeys.{
  webauthn_flow_login, webauthn_user_from_model, Stored, stored_row,
}
use delta_uptime.Service.PasskeySetup.{
  require, replaced_by, is_open_session, library_begin, passkey_entry,
}

abbrev pub has_credentials : WebauthnUser → Bool
has_credentials user = elim user.credentials [ [] ↦ Bool.false | _ ∷ _ ↦ Bool.true ]

-- A session whose `user_id` is NULL matches no user.
unfoldable pub get_session_user : Option ℕ → Query User
get_session_user none now d = (one none, d)
get_session_user (some id) now d = get_user_by_id id now d

-- `storedCredential, ok := storedCredentials[…]`
abbrev pub known_row : Option AuthWebauthnCredential → Result AuthWebauthnCredential
known_row none = err (sentinel invalid_credentials)
known_row (some row) = ok row

module _ (env : Env) (s : Service) where
  unfoldable pub begin_webauthn_login : String → App WebauthnBeginResult
  begin_webauthn_login raw = do
    let email = normalize_email env.lower_rune raw
    if str_eq email "" then raise (invalid "email is required") else (do
      user ←
          on_error (query pool (get_user_by_email email))
            (missing_or invalid_credentials "get webauthn login user")
      (wa_user, _) ← webauthn_user_from_model env s pool user
      require (has_credentials wa_user) (sentinel invalid_credentials)
      (options, session_data) ←
          on_error (library_begin env s env.webauthn.begin_login wa_user)
            (wrap "begin webauthn login")
      payload ←
          on_error (lift (env.webauthn.marshal_session session_data))
            (wrap "marshal webauthn login session")
      session ←
          on_error
            (query pool (
              create_auth_webauthn_session user.id webauthn_flow_login payload
                session_data.expires))
            (wrap "create webauthn login session")
      pure (record { session_id = env.uuid_string session.id; options = options }))

  -- The credential that the library accepts.
  unfoldable pub checked_login : AuthWebauthnSession → WebauthnUser → String → App Credential
  checked_login session wa_user raw = do
    session_data ←
        on_error (lift (env.webauthn.unmarshal_session session.session_data))
          (wrap "unmarshal webauthn login session")
    response ←
        on_error (lift (env.webauthn.parse_assertion raw))
          (replaced_by "parse webauthn login response")
    now ← time_now
    on_error (lift (env.webauthn.validate_login wa_user session_data response now))
        (λ e. sentinel invalid_credentials)

  -- Store the credential as the library left it.
  unfoldable pub reseal_credential :
      AuthWebauthnCredential → Credential → App AuthWebauthnCredential
  reseal_credential row credential = do
    serialized ←
        on_error (lift (env.webauthn.marshal_credential credential))
          (wrap "marshal updated webauthn credential")
    (ciphertext, nonce) ←
        on_error (encrypt env s serialized) (wrap "encrypt updated webauthn credential")
    on_error (query in_tx (update_auth_webauthn_credential row.id ciphertext nonce))
        (wrap "update webauthn credential")

  unfoldable pub open_login_session :
      User → AuthWebauthnSession → AuthWebauthnCredential → App AuthResult
  open_login_session user session row = do
    orgs ← organizations_for_user env in_tx user.id
    auth_result ← issue_session env s in_tx user orgs
    on_error (query in_tx (delete_auth_webauthn_session session.id))
        (wrap "delete webauthn login session")
    audit in_tx (passkey_entry env s "auth.webauthn.login" user.id row)
    on_error commit (wrap "commit webauthn login finish tx")
    pure auth_result

  -- The rest of the method, for the user and the stored credentials.
  unfoldable pub accept_credential :
      AuthWebauthnSession → User → WebauthnUser → Stored → String → App AuthResult
  accept_credential session user wa_user stored raw = do
    require (has_credentials wa_user) (sentinel invalid_credentials)
    credential ← checked_login session wa_user raw
    row ← lift (known_row (stored_row credential.id stored))
    reseal_credential row credential
    open_login_session user session row

  unfoldable pub finish_login_body : ℕ → String → App AuthResult
  finish_login_body session_id raw = do
    session ←
        on_error (query in_tx (get_auth_webauthn_session_by_id session_id))
          (missing_or invalid_credentials "get webauthn login session")
    now ← time_now
    require (is_open_session webauthn_flow_login now session) (sentinel invalid_credentials)
    user ←
        on_error (query in_tx (get_session_user session.user_id))
          (missing_or invalid_credentials "get webauthn login user")
    (wa_user, stored) ← webauthn_user_from_model env s in_tx user
    accept_credential session user wa_user stored raw

  unfoldable pub finish_webauthn_login : WebauthnFinishInput → App AuthResult
  finish_webauthn_login input =
      if len input.credential == 0 then raise (invalid "credential is required") else (do
        session_id ← lift (parse_uuid env input.session_id)
        transaction "begin webauthn login finish tx"
            (finish_login_body session_id input.credential))
