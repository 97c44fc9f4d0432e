-- ===== src/Database/Passkeys.antt =====
-- packages/database/postgres/auth_webauthn_credentials.sql.go and auth_webauthn_sessions.sql.go,
-- with the constraints of migrations/00004_phase1_webauthn.sql.
use delta_uptime.Prelude.{
  ℕ, suc, String, ◌||◌, not, none, some, List, [], ◌∷◌, ◌++◌, ◌==◌, str_eq, if◌then◌else◌, find,
  exists, update_where, select,
}
use delta_uptime.Errors.{ok, err}
use delta_uptime.Database.{
  Query, AuthWebauthnCredential, AuthWebauthnSession, one, unique_violation, foreign_key_violation,
  check_violation,
}
use delta_uptime.Database.Identity.{same_bytes}

abbrev pub new_passkey : ℕ → List ℕ → List ℕ → List ℕ → ℕ → ℕ → AuthWebauthnCredential
new_passkey user_id credential_id ciphertext nonce now id = record {
  id = id;
  user_id = user_id;
  credential_id = credential_id;
  credential_ciphertext = ciphertext;
  credential_nonce = nonce;
  created_at = now;
  last_used_at = none;
}

unfoldable pub create_auth_webauthn_credential :
    ℕ → List ℕ → List ℕ → List ℕ → Query AuthWebauthnCredential
create_auth_webauthn_credential user_id credential_id ciphertext nonce now d =
    let credential = new_passkey user_id credential_id ciphertext nonce now d.next_id in
    if exists (λ c. same_bytes c.credential_id credential_id) d.webauthn_credentials
    then (err unique_violation, d)
    else if exists (λ u. u.id == user_id) d.users
    then (
      ok credential,
      record d {
        webauthn_credentials = d.webauthn_credentials ++ credential ∷ [];
        next_id = suc d.next_id;
      },
    )
    else (err foreign_key_violation, d)

unfoldable pub list_auth_webauthn_credentials_by_user_id : ℕ → Query (List AuthWebauthnCredential)
list_auth_webauthn_credentials_by_user_id user_id now d =
    (ok (select (λ c. c.user_id == user_id) d.webauthn_credentials), d)

abbrev pub resealed : List ℕ → List ℕ → ℕ → AuthWebauthnCredential → AuthWebauthnCredential
resealed ciphertext nonce now c = record c {
  credential_ciphertext = ciphertext;
  credential_nonce = nonce;
  last_used_at = some now;
}

unfoldable pub update_auth_webauthn_credential : ℕ → List ℕ → List ℕ → Query AuthWebauthnCredential
update_auth_webauthn_credential id ciphertext nonce now d =
    elim (find (λ c. c.id == id) d.webauthn_credentials) [
      | none ↦ (one none, d)
      | some credential ↦ (
        ok (resealed ciphertext nonce now credential),
        record d {
          webauthn_credentials =
              update_where (λ c. c.id == id) (resealed ciphertext nonce now) d.webauthn_credentials;
        },
      )
    ]

abbrev pub new_passkey_session : ℕ → String → String → ℕ → ℕ → ℕ → AuthWebauthnSession
new_passkey_session user_id flow session_data expires_at now id = record {
  id = id;
  user_id = some user_id;
  flow = flow;
  session_data = session_data;
  expires_at = expires_at;
  created_at = now;
}

-- The service always gives the session a user; the CHECK constraint is that on `flow`.
unfoldable pub create_auth_webauthn_session : ℕ → String → String → ℕ → Query AuthWebauthnSession
create_auth_webauthn_session user_id flow session_data expires_at now d =
    let session = new_passkey_session user_id flow session_data expires_at now d.next_id in
    if not (str_eq flow "registration" || str_eq flow "login")
    then (err check_violation, d)
    else if exists (λ u. u.id == user_id) d.users
    then (
      ok session,
      record d { webauthn_sessions = d.webauthn_sessions ++ session ∷ []; next_id = suc d.next_id },
    )
    else (err foreign_key_violation, d)

unfoldable pub get_auth_webauthn_session_by_id : ℕ → Query AuthWebauthnSession
get_auth_webauthn_session_by_id id now d = (one (find (λ s. s.id == id) d.webauthn_sessions), d)

unfoldable pub delete_auth_webauthn_session : ℕ → Query (Unit {0})
delete_auth_webauthn_session id now d =
    (ok tt, record d { webauthn_sessions = select (λ s. not (s.id == id)) d.webauthn_sessions })
