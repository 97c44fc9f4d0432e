-- ===== src/Service/PasskeyAdmitted.antt =====
-- `Service.FinishWebAuthnLogin` of apps/control-plane/internal/auth/webauthn.go: what a caller has
-- shown who got a session by a passkey.
use delta_uptime.Prelude.{
  ℕ, String, ◌≡◌, refl, sym, ap, ◌∙◌, true, Option, none, some, [], ◌==◌, ==_iff, find, find_sound,
  select, using,
}
use delta_uptime.Errors.{ok, wrap, sentinel, invalid_credentials}
use delta_uptime.Input.{invalid}
use delta_uptime.Database.{Db, User, AuthWebauthnCredential, AuthWebauthnSession}
use delta_uptime.Database.Identity.{get_user_by_id}
use delta_uptime.Database.Passkeys.{get_auth_webauthn_session_by_id, delete_auth_webauthn_session}
use delta_uptime.Effects.{World, called, in_tx, missing_or, ◌>>=◌, time_now}
use delta_uptime.Effects.Inversion.{bind-ok, pure-ok, lift-ok, on_error-ok, transaction-ok}
use delta_uptime.Effects.Steps.{
  one-ok, tx_step, open_tx_step, lift_step, lift_error_step, guard_step, commit_step,
}
use delta_uptime.Webauthn.{WebauthnUser, Credential, SessionData}
use delta_uptime.Service.{Env, Service, AuthResult, WebauthnFinishInput}
use delta_uptime.Service.Session.{parse_uuid, organizations_for_user, issue_session}
use Prim.Native.String.{len}
use delta_uptime.Service.Factor.{enabled_or_raise}
use delta_uptime.Service.Steps.{audit_step}
use delta_uptime.Service.Passkeys.{
  webauthn_flow_login, open_rows, webauthn_user_from_model, Stored, stored_row,
}
use delta_uptime.Service.PasskeySetup.{is_open_session, passkey_entry, replaced_by}
use delta_uptime.Service.PasskeyLogin.{
  finish_webauthn_login, finish_login_body, checked_login, accept_credential, reseal_credential,
  open_login_session, known_row, get_session_user, has_credentials,
}
use delta_uptime.Service.PasskeyUser.{user_from_model-ok, delete_session-ok, audited-passkeys}

-- The library accepted the answer of the browser to the challenge of the session.
abbrev pub Accepted : Env → AuthWebauthnSession → WebauthnUser → String → ℕ → Credential → Type 0
Accepted env session wa_user raw now credential =
    (session_data : SessionData) × (response : String) × (env.webauthn.unmarshal_session
        session.session_data
      ≡ ok session_data)
    × (env.webauthn.parse_assertion raw ≡ ok response)
    × (env.webauthn.validate_login wa_user session_data response now ≡ ok credential)

known_row-ok :
    (o : Option AuthWebauthnCredential) {row : AuthWebauthnCredential}
    → known_row o ≡ ok row
    → o ≡ some row
known_row-ok none e = cc e
known_row-ok (some row) e = ap some (cc e)

get_session_user-ok :
    (o : Option ℕ) (now : ℕ) (d : Db) {user : User} {d' : Db}
    → get_session_user o now d ≡ (ok user, d')
    → (id : ℕ) × (o ≡ some id) × (find (λ u. u.id == id) d.users ≡ some user) × (d' ≡ d)
unfolding get_session_user get_user_by_id
get_session_user-ok none now d e = cc (ap (λ x. x.0) e)
get_session_user-ok (some id) now d e =
    using (one-ok (find (λ u. u.id == id) d.users) d e) λ (found, same). (id, refl, found, same)

module _ (env : Env) (s : Service) where
  checked_login-ok :
      (session : AuthWebauthnSession) (wa_user : WebauthnUser) (raw : String) (w : World)
      {credential : Credential} {v : World}
      → checked_login env s session wa_user raw w ≡ (ok credential, v)
      → Accepted env session wa_user raw w.now credential × (v ≡ w)
  unfolding checked_login time_now ◌>>=◌
  checked_login-ok session wa_user raw w e =
      using
        (lift_error_step _ w (env.webauthn.unmarshal_session session.session_data)
          (wrap "unmarshal webauthn login session") e)
        λ (session_data, read, r1).
          using
            (lift_error_step _ w (env.webauthn.parse_assertion raw)
              (replaced_by "parse webauthn login response") r1)
            λ (response, parsed, r2).
              using
                (lift-ok (env.webauthn.validate_login wa_user session_data response w.now) w
                  (on_error-ok _ (λ x. sentinel invalid_credentials) w r2))
                λ (valid, same). ((session_data, response, read, parsed, valid), same)

  open_login_session-ok :
      (user : User) (session : AuthWebauthnSession) (row : AuthWebauthnCredential) (w : World)
      {r : AuthResult} {v : World}
      → open_login_session env s user session row w ≡ (ok r, v)
      → find (λ x. x.id == session.id) v.db.webauthn_sessions ≡ none
  unfolding open_login_session called
  open_login_session-ok user session row w e =
      let entry = passkey_entry env s "auth.webauthn.login" user.id row in
      using (bind-ok (organizations_for_user env in_tx user.id) _ w e) λ (orgs, v1, _, r1).
        using (bind-ok (issue_session env s in_tx user orgs) _ v1 r1) λ (auth, v2, _, r2).
          using
            (open_tx_step _ v2 (delete_auth_webauthn_session session.id)
              (wrap "delete webauthn login session") r2)
            λ (u, d, d1, opened, ran, r3).
              using (delete_session-ok session.id v2.now d ran) λ (gone, _).
                using (audit_step _ _ entry d1 refl r3) λ (log, d2, logged, r4).
                  using (commit_step _ _ (wrap "commit webauthn login finish tx") d2 refl r4) λ r5.
                    using (pure-ok auth _ r5)
                      λ (_, end). rw (end, (audited-passkeys entry v2.now d1 logged).1) gone

  accept_credential-ok :
      (session : AuthWebauthnSession) (user : User) (wa_user : WebauthnUser) (stored : Stored)
      (raw : String) (w : World) {r : AuthResult} {v : World}
      → accept_credential env s session user wa_user stored raw w ≡ (ok r, v)
      → ((credential : Credential) × (row : AuthWebauthnCredential) × Accepted env session wa_user
            raw w.now credential
          × (stored_row credential.id stored ≡ some row))
        × (find (λ x. x.id == session.id) v.db.webauthn_sessions ≡ none)
  unfolding accept_credential
  accept_credential-ok session user wa_user stored raw w e =
      using (guard_step _ w (has_credentials wa_user) (sentinel invalid_credentials) e) λ (_, r1).
        using (bind-ok (checked_login env s session wa_user raw) _ w r1)
          λ (credential, v1, checked, r2).
            using (checked_login-ok session wa_user raw w checked) λ (accepted, _).
              using (lift_step _ v1 (known_row (stored_row credential.id stored)) r2)
                λ (row, hit, r3).
                  using (bind-ok (reseal_credential env s row credential) _ v1 r3) λ (_, v2, _, r4).
                    (
                      (credential, row, accepted, known_row-ok _ hit),
                      open_login_session-ok user session row v2 r4,
                    )

  -- What a login by a passkey rests on.
  abbrev pub PasskeyShown : World → ℕ → String → Type 0
  PasskeyShown w session_id raw =
      (session : AuthWebauthnSession) × (user : User) × (user_id : ℕ) × (wa_user : WebauthnUser)
      × (stored : Stored) × (credential : Credential) × (row : AuthWebauthnCredential) × (find
            (λ x. x.id == session_id) w.db.webauthn_sessions
          ≡ some session)
      × (is_open_session webauthn_flow_login w.now session ≡ true)
      × (session.user_id ≡ some user_id)
      × (find (λ u. u.id == user_id) w.db.users ≡ some user)
      × (open_rows env s [] [] (select (λ c. c.user_id == user.id) w.db.webauthn_credentials)
          ≡ ok (wa_user.credentials, stored))
      × Accepted env session wa_user raw w.now credential
      × (stored_row credential.id stored ≡ some row)

  finish_login_body-ok :
      (session_id : ℕ) (raw : String) (w : World) {r : AuthResult} {v : World}
      → w.tx ≡ some w.db
      → finish_login_body env s session_id raw w ≡ (ok r, v)
      → PasskeyShown w session_id raw
        × (find (λ x. x.id == session_id) v.db.webauthn_sessions ≡ none)
  unfolding finish_login_body get_auth_webauthn_session_by_id time_now ◌>>=◌ called
  finish_login_body-ok session_id raw w opened e =
      using
        (tx_step _ w (get_auth_webauthn_session_by_id session_id)
          (missing_or invalid_credentials "get webauthn login session") w.db opened e)
        λ (session, d1, ran, r1).
          using (one-ok (find (λ x. x.id == session_id) w.db.webauthn_sessions) w.db ran)
            λ (found, same1).
              using
                (guard_step _ _ (is_open_session webauthn_flow_login w.now session)
                  (sentinel invalid_credentials) r1)
                λ (fresh, r2).
                  using
                    (tx_step _ _ (get_session_user session.user_id)
                      (missing_or invalid_credentials "get webauthn login user") d1 refl r2)
                    λ (user, d2, looked, r3).
                      using (get_session_user-ok session.user_id w.now d1 looked)
                        λ (user_id, owned, known, same2).
                          let same = same2 ∙ same1 in
                          using (bind-ok (webauthn_user_from_model env s in_tx user) _ _ r3)
                            λ ((wa_user, stored), v3, modelled, r4).
                              using (user_from_model-ok _ d2 refl env s user modelled)
                                λ (d3, _, now3, _, rows, _).
                                  using (accept_credential-ok session user wa_user stored raw v3 r4)
                                    λ ((credential, row, accepted, hit), gone). (
                                      (
                                        session,
                                        user,
                                        user_id,
                                        wa_user,
                                        stored,
                                        credential,
                                        row,
                                        found,
                                        fresh,
                                        owned,
                                        rw same1 at known,
                                        rw same at rows,
                                        rw now3 at accepted,
                                        hit,
                                      ),
                                      rw
                                          (sym (
                                            (==_iff session.id session_id).0 (
                                              find_sound (λ x. x.id == session_id)
                                                w.db.webauthn_sessions session found)))
                                          gone,
                                    )

  -- A login by a passkey succeeds only with a session of the login flow that has not expired, whose
  -- user exists, where the library accepts the answer to the challenge of that session for the
  -- user's stored credentials, and the credential that it names is one of them; and the session is
  -- gone afterwards.
  pub finish_webauthn_login-ok :
      (input : WebauthnFinishInput) (w : World) {r : AuthResult} {v : World}
      → finish_webauthn_login env s input w ≡ (ok r, v)
      → (id : ℕ) × (parse_uuid env input.session_id ≡ ok id)
        × PasskeyShown w id input.credential
        × (find (λ x. x.id == id) v.db.webauthn_sessions ≡ none)
  unfolding finish_webauthn_login called
  finish_webauthn_login-ok input w e =
      using
        (enabled_or_raise env s (len input.credential == 0) (invalid "credential is required") _ w
          e)
        λ (_, r0). using (lift_step _ w (parse_uuid env input.session_id) r0) λ (id, parsed, r1).
          using
            (transaction-ok "begin webauthn login finish tx"
              (finish_login_body env s id input.credential) w r1)
            λ (v1, ran, v-is).
              using (finish_login_body-ok id input.credential _ refl ran)
                λ (shown, gone). (id, parsed, shown, rw v-is gone)
