-- ===== src/Service/PasskeyEnrolled.antt =====
-- `Service.FinishWebAuthnRegistration` of apps/control-plane/internal/auth/webauthn.go: what a
-- registered passkey rests on.
use Prim.Native.String.{len}
use delta_uptime.Prelude.{
  ℕ, String, ◌≡◌, refl, sym, ap, ◌∙◌, true, not, none, some, List, ◌==◌, ==_iff, find, find_sound,
  length, str_eq, using, arith,
}
use delta_uptime.Errors.{ok, wrap, sentinel, unauthorized}
use delta_uptime.Input.{invalid}
use delta_uptime.Database.{AuthWebauthnCredential, AuthWebauthnSession}
use delta_uptime.Database.Identity.{get_user_by_id}
use delta_uptime.Database.Passkeys.{get_auth_webauthn_session_by_id}
use delta_uptime.Effects.{World, called, in_tx, missing_or, ◌>>=◌, time_now}
use delta_uptime.Effects.Inversion.{bind-ok, transaction-ok}
use delta_uptime.Effects.Steps.{one-ok, tx_step, lift_step, guard_step}
use delta_uptime.Webauthn.{WebauthnUser, Credential}
use delta_uptime.Service.{
  Env, Service, Principal, WebauthnFinishInput, WebauthnCredentialInfo, principal_user,
}
use delta_uptime.Service.Tokens.{decrypt}
use delta_uptime.Service.Session.{parse_uuid}
use delta_uptime.Service.Factor.{enabled_or_raise}
use delta_uptime.Service.Passkeys.{
  webauthn_flow_registration, webauthn_credential_info, webauthn_user_from_model, open_row,
}
use delta_uptime.Service.PasskeySetup.{
  is_open_session, is_owner, checked_registration, finish_registration_body,
  finish_webauthn_registration,
}
use delta_uptime.Service.PasskeyStored.{
  has_credential_id, Created, Sealed, Sealed-since, checked_registration-ok, store_credential-ok,
}
use delta_uptime.Service.PasskeyUser.{user_from_model-ok}

module _ (env : Env) (s : Service) where
  -- What a registration of a passkey rests on, for the user.
  abbrev pub RegistrationShown : World → ℕ → ℕ → String → Credential → Type 0
  RegistrationShown w user_id session_id raw credential =
      (session : AuthWebauthnSession) × (wa_user : WebauthnUser) × (find (λ x. x.id == session_id)
          w.db.webauthn_sessions
        ≡ some session)
      × (is_open_session webauthn_flow_registration w.now session ≡ true)
      × (is_owner session.user_id user_id ≡ true)
      × Created env s session wa_user raw w.now credential
      × (find (has_credential_id credential.id) w.db.webauthn_credentials ≡ none)

  finish_registration_body-ok :
      (user_id session_id : ℕ) (raw : String) (w : World) {r : WebauthnCredentialInfo} {v : World}
      → w.tx ≡ some w.db
      → finish_registration_body env s user_id session_id raw w ≡ (ok r, v)
      → (credential : Credential) × (row : AuthWebauthnCredential) × RegistrationShown w user_id
          session_id raw credential
        × Sealed env s w w.db.webauthn_credentials v user_id credential row
        × (r ≡ webauthn_credential_info row)
        × (find (λ x. x.id == session_id) v.db.webauthn_sessions ≡ none)
  unfolding finish_registration_body get_auth_webauthn_session_by_id get_user_by_id time_now ◌>>=◌
      called
  finish_registration_body-ok user_id session_id raw w {r} {v} opened e =
      using
        (tx_step _ w (get_auth_webauthn_session_by_id session_id)
          (missing_or unauthorized "get webauthn registration session") w.db opened e)
        λ (session, d1, ran, r1).
          using (one-ok (find (λ x. x.id == session_id) w.db.webauthn_sessions) w.db ran)
            λ (found, same1).
              using
                (guard_step _ _ (is_open_session webauthn_flow_registration w.now session)
                  (sentinel unauthorized) r1)
                λ (fresh, r2).
                  using
                    (guard_step _ _ (is_owner session.user_id user_id) (sentinel unauthorized) r2)
                    λ (owned, r3).
                      using
                        (tx_step _ _ (get_user_by_id user_id)
                          (wrap "get webauthn registration finish user") d1 refl r3)
                        λ (user, d2, looked, r4).
                          using (one-ok (find (λ u. u.id == user_id) d1.users) d1 looked)
                            λ (known, same2).
                              using (bind-ok (webauthn_user_from_model env s in_tx user) _ _ r4)
                                λ ((wa_user, stored), v3, modelled, r5).
                                  using (user_from_model-ok _ d2 refl env s user modelled)
                                    λ (d3, opened3, now3, draws, _, (same_c, _)).
                                      using
                                        (bind-ok (checked_registration env s session wa_user raw) _
                                          v3 r5)
                                        λ (credential, v4, checked, r6).
                                          using
                                            (checked_registration-ok env s session wa_user raw v3
                                              checked)
                                            λ (created, same4).
                                              using
                                                (store_credential-ok env s user.id session
                                                  credential v4 d3 (ap (λ x. x.tx) same4 ∙ opened3)
                                                  r6)
                                                λ (row, absent, stored_as, info, gone).
                                                  let user_is = (==_iff user.id user_id).0 (
                                                    find_sound (λ u. u.id == user_id) d1.users user
                                                      known) in
                                                  let session_is =
                                                    (==_iff session.id session_id).0 (
                                                      find_sound (λ x. x.id == session_id)
                                                        w.db.webauthn_sessions session found) in
                                                  (
                                                    credential,
                                                    row,
                                                    (
                                                      session,
                                                      wa_user,
                                                      found,
                                                      fresh,
                                                      owned,
                                                      rw now3 at created,
                                                      rw (same_c, same2, same1) at absent,
                                                    ),
                                                    Sealed-since env s w v4 v
                                                        w.db.webauthn_credentials user_id credential
                                                        row (rw (sym same4) at draws)
                                                        (ap (λ x. x.now) same4 ∙ now3)
                                                        (rw (user_is, same_c, same2, same1) at
                                                          stored_as),
                                                    info,
                                                    rw (sym session_is) gone,
                                                  )

  -- Registering a passkey succeeds only for a user, with a session of the registration flow that is
  -- the caller's own and has not expired, and with an answer from which the library makes a
  -- credential whose id no stored credential has. Then the table of credentials has grown by
  -- exactly one row, the credential under its id for the caller, and the session is gone. The row
  -- is sealed with a nonce of 12 bytes that this registration drew for it from the random stream,
  -- after all that was drawn before it and before all that is drawn next.
  pub finish_webauthn_registration-ok :
      (principal : Principal) (input : WebauthnFinishInput) (w : World) {r : WebauthnCredentialInfo}
      {v : World}
      → finish_webauthn_registration env s principal input w ≡ (ok r, v)
      → (user_id session_id : ℕ) × (credential : Credential) × (row : AuthWebauthnCredential)
        × (str_eq principal.type principal_user ≡ true)
        × (parse_uuid env principal.user.id ≡ ok user_id)
        × (parse_uuid env input.session_id ≡ ok session_id)
        × RegistrationShown w user_id session_id input.credential credential
        × Sealed env s w w.db.webauthn_credentials v user_id credential row
        × (r ≡ webauthn_credential_info row)
        × (find (λ x. x.id == session_id) v.db.webauthn_sessions ≡ none)
  unfolding finish_webauthn_registration called
  finish_webauthn_registration-ok principal input w e =
      using
        (enabled_or_raise env s (not (str_eq principal.type principal_user)) (sentinel unauthorized)
          _ w e)
        λ (is_user, r0).
          using
            (enabled_or_raise env s (len input.credential == 0) (invalid "credential is required") _
              w r0)
            λ (_, r1).
              using (lift_step _ w (parse_uuid env principal.user.id) r1) λ (user_id, p1, r2).
                using (lift_step _ w (parse_uuid env input.session_id) r2) λ (session_id, p2, r3).
                  using
                    (transaction-ok "begin webauthn registration finish tx"
                      (finish_registration_body env s user_id session_id input.credential) w r3)
                    λ (v1, ran, v-is).
                      using
                        (finish_registration_body-ok user_id session_id input.credential _ refl ran)
                        λ (credential, row, shown, stored_as, info, gone). (
                          user_id,
                          session_id,
                          credential,
                          row,
                          ground (arith, is_user),
                          p1,
                          p2,
                          shown,
                          rw v-is stored_as,
                          info,
                          rw v-is gone,
                        )

  -- Opening a sealed credential gives its text back: what AES-GCM promises for a nonce of its size.
  abbrev pub OpensSealed : Type 0
  OpensSealed =
      (nonce : List ℕ) (credential : Credential) (text : String)
      → length nonce ≡ 12
      → env.webauthn.marshal_credential credential ≡ ok text
      → env.unseal s.secrets_key nonce (env.seal s.secrets_key nonce text) ≡ some text

  -- Decoding an encoded credential gives it back.
  abbrev pub ReadsBack : Type 0
  ReadsBack =
      (credential : Credential) (text : String)
      → env.webauthn.marshal_credential credential ≡ ok text
      → env.webauthn.unmarshal_credential text ≡ ok credential

  open_stored :
      (row : AuthWebauthnCredential) (credential : Credential) (text : String) (nonce : List ℕ)
      → row.credential_ciphertext ≡ env.seal s.secrets_key nonce text
      → row.credential_nonce ≡ nonce
      → env.unseal s.secrets_key nonce (env.seal s.secrets_key nonce text) ≡ some text
      → length nonce ≡ 12
      → env.webauthn.unmarshal_credential text ≡ ok credential
      → open_row env s row ≡ ok credential
  unfolding open_row decrypt
  open_stored row credential text nonce cipher_is nonce_is opens size reads =
      rw (cipher_is, nonce_is, size) (rw opens (rw reads refl))

  -- Where the cipher opens what it sealed and the encoding of credentials can be read back, the row
  -- that a registration of a passkey stored opens to the credential that the library made.
  pub registered_row-opens :
      (principal : Principal) (input : WebauthnFinishInput) (w : World) {r : WebauthnCredentialInfo}
      {v : World}
      → OpensSealed
      → ReadsBack
      → finish_webauthn_registration env s principal input w ≡ (ok r, v)
      → (user_id session_id : ℕ) × (credential : Credential) × (row : AuthWebauthnCredential)
        × (parse_uuid env principal.user.id ≡ ok user_id)
        × RegistrationShown w user_id session_id input.credential credential
        × (find (has_credential_id credential.id) v.db.webauthn_credentials ≡ some row)
        × (row.user_id ≡ user_id)
        × (open_row env s row ≡ ok credential)
  registered_row-opens principal input w cipher json e =
      using (finish_webauthn_registration-ok principal input w e)
        λ (
          user_id,
          session_id,
          credential,
          row,
          _,
          p1,
          _,
          shown,
          (serialized, nonce, _, written, size, _, _, _, (there, row_is, _)),
          _,
          _,
        ).
          let opens =
            open_stored row credential serialized nonce (ap (λ x. x.credential_ciphertext) row_is)
              (ap (λ x. x.credential_nonce) row_is)
              (cipher nonce credential serialized size written) size
              (json credential serialized written) in
          (
            user_id,
            session_id,
            credential,
            row,
            p1,
            shown,
            there,
            ap (λ x. x.user_id) row_is,
            opens,
          )
