-- ===== src/Tests/Passkeys.antt =====
-- Passkeys: a registration and a login.
use Prim.Native.String.{len}
use text.Mathlib.TextPositions.{len-append}
use delta_uptime.Prelude.{
  arith, ℕ, zero, suc, ◌+◌, ◌==◌, ◌≡◌, ◌≢◌, refl, Bool-cases, inl, inr, String, true, Option, none,
  some, List, [], ◌∷◌, str_eq, eq_iff, if◌then◌else◌,
}
use delta_uptime.Errors.{Result, ok, err, fault}
use delta_uptime.Database.{AuthWebauthnSession, AuthWebauthnCredential}
use delta_uptime.Effects.{World}
use delta_uptime.Webauthn.{Credential}
use delta_uptime.Service.{
  Env, AuthResult, WebauthnCredentialInfo, WebauthnFinishInput, principal_user,
}
use delta_uptime.Service.PasskeySetup.{finish_webauthn_registration}
use delta_uptime.Service.PasskeyLogin.{finish_webauthn_login}
use delta_uptime.Service.PasskeyEnrolled.{
  OpensSealed, ReadsBack, RegistrationShown, finish_webauthn_registration-ok, registered_row-opens,
}
use delta_uptime.Server.{here, next, pass, serve, Request, handle, post_webauthn_login_finish}
use delta_uptime.History.Lifecycle.{Moves, token_phase, refresh_tokens-refine}
use delta_uptime.History.Passkeys.{passkey_session_once}
use delta_uptime.Service.PasskeyStored.{Sealed, has_credential_id}
use delta_uptime.Service.PasskeyAdmitted.{PasskeyShown, finish_webauthn_login-ok}
use delta_uptime.Prelude.{exists, find, select, update_where}
use delta_uptime.Errors.{as_pg_code, errors_is, is_unique_violation}
use delta_uptime.Effects.{
  attempt, ◌>>=◌, lift, transaction, query, time_now, pure, rand_read, begin, bytes_from, called,
  commit, deferring_rollback, missing_or, on_error, outside, raise, run,
}
use delta_uptime.Database.Identity.{
  get_user_by_id, set_user_webauthn_handle, same_bytes, list_organizations_by_user,
  organizations_of,
}
use delta_uptime.Database.Controls.{create_audit_log, get_user_totp_credential_by_user_id}
use delta_uptime.Database.Sessions.{create_auth_refresh_token}
use delta_uptime.Database.Passkeys.{
  get_auth_webauthn_session_by_id, create_auth_webauthn_credential, delete_auth_webauthn_session,
  list_auth_webauthn_credentials_by_user_id, update_auth_webauthn_credential,
}
use delta_uptime.Service.PasskeySetup.{
  finish_registration_body, checked_registration, store_credential,
}
use delta_uptime.Service.PasskeyLogin.{
  finish_login_body, get_session_user, accept_credential, checked_login, reseal_credential,
  open_login_session,
}
use delta_uptime.Service.Passkeys.{
  webauthn_user_from_model, ensure_webauthn_user_handle, credential_id_string, open_row, open_rows,
  webauthn_credential_info, stored_row,
}
use delta_uptime.Service.Session.{
  parse_uuid, audit, organizations_for_user, issue_session, issue_session_with_model,
  user_has_enabled_totp,
}
use delta_uptime.Service.Tokens.{
  decrypt, encrypt, issue_access_token, generate_refresh_token, hash_refresh_token,
}
use delta_uptime.Text.Base64.{raw_encode, raw_url_encode}
use delta_uptime.Text.Utf8.{text_bytes, utf8_bytes}
use delta_uptime.Text.{hex}
use delta_uptime.Tests.Sample.{
  env as plain_env, s, w as plain_world, db as plain_db, owner, unary, library,
}

-- A credential of one byte, with the content "resp", is written as that byte in unary.
abbrev written : List ℕ → String → Result String
written (k ∷ []) content =
    if str_eq content "resp" then ok (unary k) else err (fault "json: unsupported value")
written _ content = err (fault "json: unsupported value")

abbrev unsealed : List ℕ → Option String
unsealed (n ∷ []) = some (unary n)
unsealed _ = none

-- The cipher keeps the length of a text.
abbrev env : Env
env = record plain_env {
  seal = λ key nonce plaintext. len plaintext ∷ [];
  unseal = λ key nonce ciphertext. unsealed ciphertext;
  webauthn = record library {
    marshal_credential = λ credential. written credential.id credential.content;
    unmarshal_credential = λ text. ok (record { id = len text ∷ []; content = "resp" });
  };
}

abbrev login_session : AuthWebauthnSession
login_session = record {
  id = 7;
  user_id = some 1;
  flow = "login";
  session_data = "c";
  expires_at = 20000000000;
  created_at = 0;
}

abbrev registration_session : AuthWebauthnSession
registration_session = record login_session { id = 8; flow = "registration" }

abbrev passkey : AuthWebauthnCredential
passkey = record {
  id = 9;
  user_id = 1;
  credential_id = 7 ∷ [];
  credential_ciphertext = 7 ∷ [];
  credential_nonce = 0 ∷ 0 ∷ 0 ∷ 0 ∷ 0 ∷ 0 ∷ 0 ∷ 0 ∷ 0 ∷ 0 ∷ 0 ∷ 0 ∷ [];
  created_at = 0;
  last_used_at = none;
}

abbrev w : World
w = record plain_world {
  db = record plain_db {
    webauthn_credentials = passkey ∷ [];
    webauthn_sessions = login_session ∷ registration_session ∷ [];
    next_id = 10;
  };
}

len-unary : (n : ℕ) → len (unary n) ≡ n
len-unary zero = refl
len-unary (suc n) = rw (len-append "i" (unary n), len-unary n) (omega arith)

written_back :
    (id : List ℕ) (content text : String)
    → written id content ≡ ok text
    → ◌≡◌ {A = Result Credential}
        (ok (record { id = len text ∷ []; content = "resp" }))
        (ok (record { id = id; content = content }))
written_back (k ∷ []) content text h = elim (Bool-cases (str_eq content "resp")) [
  | inl same ↦
      let is : unary k ≡ text = cc (rw same at h) in
      rw (← is, len-unary k, (eq_iff content "resp").0 same) refl
  | inr other ↦ cc (rw other at h)
]
written_back [] content text h = cc h
written_back (k ∷ (x ∷ xs)) content text h = cc h

reads : ReadsBack env s
reads credential text h = written_back credential.id credential.content text h

opened :
    (id : List ℕ) (content text : String)
    → written id content ≡ ok text
    → unsealed (len text ∷ []) ≡ some text
opened (k ∷ []) content text h = elim (Bool-cases (str_eq content "resp")) [
  | inl same ↦ let is : unary k ≡ text = cc (rw same at h) in rw (← is, len-unary k) refl
  | inr other ↦ cc (rw other at h)
]
opened [] content text h = cc h
opened (k ∷ (x ∷ xs)) content text h = cc h

opens : OpensSealed env s
opens nonce credential text size h = opened credential.id credential.content text h

abbrev value : {A : Type 0} → A → Result A → A
value a (ok b) = b
value a (err e) = a

abbrev answer : WebauthnFinishInput
answer = record { session_id = "iiiiiii"; credential = "resp" }

abbrev enrolment : WebauthnFinishInput
enrolment = record { session_id = "iiiiiiii"; credential = "resp" }

abbrev no_info : WebauthnCredentialInfo
no_info = record { id = ""; created_at = 0; last_used_at = none }

abbrev enrolled : WebauthnCredentialInfo
enrolled = value no_info (finish_webauthn_registration env s owner enrolment w).0

abbrev no_login : AuthResult
no_login = record {
  access_token = "";
  access_token_expires_at = 0;
  refresh_token = "";
  refresh_token_expires_at = 0;
  user = owner.user;
  organizations = [];
}

abbrev after_enrolment : World
after_enrolment = (finish_webauthn_registration env s owner enrolment w).1

abbrev logged_in : AuthResult
logged_in = value no_login (finish_webauthn_login env s answer w).0

both_run :
    (finish_webauthn_registration env s owner enrolment w
      ≡ (ok enrolled, (finish_webauthn_registration env s owner enrolment w).1))
    × (finish_webauthn_login env s answer w
        ≡ (ok logged_in, (finish_webauthn_login env s answer w).1))
unfolding finish_webauthn_registration finish_webauthn_login exists find select update_where
    as_pg_code errors_is is_unique_violation ◌>>=◌ lift transaction attempt query time_now pure
    rand_read begin bytes_from called commit deferring_rollback missing_or on_error outside raise
    run get_user_by_id set_user_webauthn_handle same_bytes list_organizations_by_user
    organizations_of create_audit_log get_user_totp_credential_by_user_id create_auth_refresh_token
    get_auth_webauthn_session_by_id create_auth_webauthn_credential delete_auth_webauthn_session
    list_auth_webauthn_credentials_by_user_id update_auth_webauthn_credential
    finish_registration_body checked_registration store_credential finish_login_body
    get_session_user accept_credential checked_login reseal_credential open_login_session
    webauthn_user_from_model ensure_webauthn_user_handle credential_id_string open_row open_rows
    webauthn_credential_info stored_row parse_uuid audit organizations_for_user issue_session
    issue_session_with_model user_has_enabled_totp decrypt encrypt issue_access_token
    generate_refresh_token hash_refresh_token raw_encode raw_url_encode text_bytes utf8_bytes hex
both_run = (refl, refl)

abbrev after_login : World
after_login = (finish_webauthn_login env s answer w).1

finish_webauthn_login-ok_example :
    (id : ℕ) × (parse_uuid env "iiiiiii" ≡ ok id)
    × PasskeyShown env s w id "resp"
    × (find (λ x. x.id == id) after_login.db.webauthn_sessions ≡ none)
finish_webauthn_login-ok_example = finish_webauthn_login-ok env s answer w both_run.1

finish_webauthn_registration-ok_example :
    (user_id session_id : ℕ) × (credential : Credential) × (row : AuthWebauthnCredential) × (str_eq
        owner.type principal_user
      ≡ true)
    × (parse_uuid env owner.user.id ≡ ok user_id)
    × (parse_uuid env "iiiiiiii" ≡ ok session_id)
    × RegistrationShown env s w user_id session_id "resp" credential
    × Sealed env s w w.db.webauthn_credentials after_enrolment user_id credential row
    × (enrolled ≡ webauthn_credential_info row)
    × (find (λ x. x.id == session_id) after_enrolment.db.webauthn_sessions ≡ none)
finish_webauthn_registration-ok_example =
    finish_webauthn_registration-ok env s owner enrolment w both_run.0

registered_row-opens_example :
    (user_id session_id : ℕ) × (credential : Credential) × (row : AuthWebauthnCredential)
    × (parse_uuid env owner.user.id ≡ ok user_id)
    × RegistrationShown env s w user_id session_id "resp" credential
    × (find (has_credential_id credential.id) after_enrolment.db.webauthn_credentials ≡ some row)
    × (row.user_id ≡ user_id)
    × (open_row env s row ≡ ok credential)
registered_row-opens_example = registered_row-opens env s owner enrolment w opens reads both_run.0

-- A minute later.
abbrev later : World
later = record after_login { now = after_login.now + 60000000000 }

passkey_session_once_example :
    finish_webauthn_login env s answer later ≢ (ok logged_in, after_login)
passkey_session_once_example =
    passkey_session_once env s answer w refl (omega arith, (omega arith, tt)) both_run.1
      (next here (pass 60000000000)) answer refl

-- The browser answers the challenge of the login.
abbrev finishing : Request
finishing = post_webauthn_login_finish (ok answer)

refresh_tokens-refine_example :
    Moves (token_phase "03" w.db) (token_phase "03" (handle env s finishing w).1.db)
refresh_tokens-refine_example = refresh_tokens-refine env s "03" refl (next here (serve finishing))
