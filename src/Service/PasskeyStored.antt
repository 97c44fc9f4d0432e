-- ===== src/Service/PasskeyStored.antt =====
-- `Service.FinishWebAuthnRegistration` of apps/control-plane/internal/auth/webauthn.go: how the
-- new credential is stored.
use delta_uptime.Prelude.{
  ℕ, ◌+◌, ◌≤◌, ◌++◌, String, ◌≡◌, refl, sym, ap, ◌∙◌, Bool, false, none, some, List, [], ◌∷◌, ◌==◌,
  find, find-append_absent, exists, Bool-cases, inl, inr, length, using, arith,
}
use delta_uptime.Errors.{ok, wrap}
use delta_uptime.Database.{Db, AuthWebauthnCredential, AuthWebauthnSession}
use delta_uptime.Database.Identity.{same_bytes, same_bytes_refl}
use delta_uptime.Database.Passkeys.{
  new_passkey, delete_auth_webauthn_session, create_auth_webauthn_credential,
}
use delta_uptime.Effects.{World, called, ◌>>=◌, time_now, on_error, bytes_from}
use delta_uptime.Effects.Inversion.{bind-ok, pure-ok, lift-ok, on_error-ok}
use delta_uptime.Effects.Steps.{tx_step, lift_error_step, commit_step, Draws}
use delta_uptime.Webauthn.{WebauthnUser, Credential, SessionData}
use delta_uptime.Service.{Env, Service, WebauthnCredentialInfo}
use delta_uptime.Service.Tokens.{encrypt}
use delta_uptime.Service.Steps.{audit_step}
use delta_uptime.Service.Passkeys.{webauthn_credential_info}
use delta_uptime.Service.PasskeySetup.{
  passkey_entry, replaced_by, credential_error, checked_registration, store_credential,
}
use delta_uptime.Service.PasskeyUser.{delete_session-ok, audited-passkeys, encrypt-ok}

-- The credential with the id.
abbrev pub has_credential_id : List ℕ → AuthWebauthnCredential → Bool
has_credential_id id c = same_bytes c.credential_id id

find_of_exists :
    (id : List ℕ) (cs : List AuthWebauthnCredential)
    → exists (has_credential_id id) cs ≡ false
    → find (has_credential_id id) cs ≡ none
unfolding exists find
find_of_exists id [] e = refl
find_of_exists id (c ∷ cs) e = ground (arith, find_of_exists id cs)

-- The table of credentials has grown by exactly the row.
abbrev pub Added :
    List AuthWebauthnCredential
    → Db
    → ℕ
    → List ℕ
    → List ℕ
    → List ℕ
    → ℕ
    → AuthWebauthnCredential
    → Type 0
Added before d user_id id ciphertext nonce now row =
    (find (has_credential_id id) d.webauthn_credentials ≡ some row)
    × (row ≡ new_passkey user_id id ciphertext nonce now row.id)
    × (d.webauthn_credentials ≡ before ++ row ∷ [])

create_credential-ok :
    (user_id : ℕ) (id ciphertext nonce : List ℕ) (now : ℕ) (d : Db) {row : AuthWebauthnCredential}
    {d' : Db}
    → create_auth_webauthn_credential user_id id ciphertext nonce now d ≡ (ok row, d')
    → (find (has_credential_id id) d.webauthn_credentials ≡ none)
      × Added d.webauthn_credentials d' user_id id ciphertext nonce now row
unfolding create_auth_webauthn_credential
create_credential-ok user_id id ciphertext nonce now d {row} e =
    elim (Bool-cases (exists (has_credential_id id) d.webauthn_credentials)) [
      | inl taken ↦ cc (rw (taken, create_auth_webauthn_credential) at e)
      | inr free ↦ elim (Bool-cases (exists (λ u. u.id == user_id) d.users)) [
        | inl known ↦
            let new = new_passkey user_id id ciphertext nonce now d.next_id in
            let ran = rw (free, create_auth_webauthn_credential, known) at e in
            let is : new ≡ row = cc (ap (λ x. x.0) ran) in
            let absent = find_of_exists id d.webauthn_credentials free in
            (
              absent,
              (
                rw (sym is) (
                    rw (ap (λ x. x.1.webauthn_credentials) (sym ran)) (
                      find-append_absent (has_credential_id id) d.webauthn_credentials new absent
                        (same_bytes_refl id))),
                rw (sym is) refl,
                rw (sym is) (ap (λ x. x.1.webauthn_credentials) (sym ran)),
              ),
            )
        | inr unknown ↦ cc (rw (free, create_auth_webauthn_credential, unknown) at e)
      ]
    ]

module _ (env : Env) (s : Service) where
  -- The library made the credential of the answer to the challenge of the session.
  abbrev pub Created : AuthWebauthnSession → WebauthnUser → String → ℕ → Credential → Type 0
  Created session wa_user raw now credential =
      (session_data : SessionData) × (response : String) × (env.webauthn.unmarshal_session
          session.session_data
        ≡ ok session_data)
      × (env.webauthn.parse_creation raw ≡ ok response)
      × (env.webauthn.create_credential wa_user session_data response now ≡ ok credential)

  pub checked_registration-ok :
      (session : AuthWebauthnSession) (wa_user : WebauthnUser) (raw : String) (w : World)
      {credential : Credential} {v : World}
      → checked_registration env s session wa_user raw w ≡ (ok credential, v)
      → Created session wa_user raw w.now credential × (v ≡ w)
  unfolding checked_registration time_now ◌>>=◌
  checked_registration-ok session wa_user raw w e =
      using
        (lift_error_step _ w (env.webauthn.unmarshal_session session.session_data)
          (wrap "unmarshal webauthn registration session") e)
        λ (session_data, read, r1).
          using
            (lift_error_step _ w (env.webauthn.parse_creation raw)
              (replaced_by "parse webauthn registration response") r1)
            λ (response, parsed, r2).
              using
                (lift-ok (env.webauthn.create_credential wa_user session_data response w.now) w
                  (on_error-ok _ (replaced_by "validate webauthn registration") w r2))
                λ (valid, same). ((session_data, response, read, parsed, valid), same)

  -- Between two worlds the credential was added to a table of credentials, under its id, for the
  -- user, sealed with 12 bytes that were drawn from the random stream for it: none of them was
  -- drawn before, and the next draw is after them.
  abbrev pub Sealed :
      World → List AuthWebauthnCredential → World → ℕ → Credential → AuthWebauthnCredential → Type 0
  Sealed w before v user_id credential row =
      (serialized : String) × (nonce : List ℕ) × (n : ℕ) × (env.webauthn.marshal_credential
          credential
        ≡ ok serialized)
      × (length nonce ≡ 12)
      × (nonce ≡ bytes_from w.entropy n 12)
      × (w.drawn ≤ n)
      × (v.drawn ≡ n + 12)
      × Added before v.db user_id credential.id (env.seal s.secrets_key nonce serialized) nonce
          w.now row

  -- Nothing that was drawn in between takes the freshness away.
  pub Sealed-since :
      (u w v : World) (before : List AuthWebauthnCredential) (user_id : ℕ) (credential : Credential)
      (row : AuthWebauthnCredential)
      → Draws u w
      → w.now ≡ u.now
      → Sealed w before v user_id credential row
      → Sealed u before v user_id credential row
  Sealed-since u w v before user_id credential row (stream, ahead) same_now
        (serialized, nonce, n, written, size, bytes_are, low, high, added) =
      (
        serialized,
        nonce,
        n,
        written,
        size,
        rw stream at bytes_are,
        omega (arith, low, ahead),
        high,
        rw same_now at added,
      )

  pub store_credential-ok :
      (user_id : ℕ) (session : AuthWebauthnSession) (credential : Credential) (w : World) (d : Db)
      {r : WebauthnCredentialInfo} {v : World}
      → w.tx ≡ some d
      → store_credential env s user_id session credential w ≡ (ok r, v)
      → (row : AuthWebauthnCredential) × (find
            (has_credential_id credential.id)
            d.webauthn_credentials
          ≡ none)
        × Sealed w d.webauthn_credentials v user_id credential row
        × (r ≡ webauthn_credential_info row)
        × (find (λ x. x.id == session.id) v.db.webauthn_sessions ≡ none)
  unfolding store_credential called
  store_credential-ok user_id session credential w d opened e =
      using
        (lift_error_step _ w (env.webauthn.marshal_credential credential)
          (wrap "marshal webauthn credential") e)
        λ (serialized, written, r1).
          using
            (bind-ok (on_error (encrypt env s serialized) (wrap "encrypt webauthn credential")) _ w
              r1)
            λ ((ciphertext, nonce), v1, sealed, r2).
              using
                (encrypt-ok env s serialized w
                  (on_error-ok _ (wrap "encrypt webauthn credential") w sealed))
                λ (seal_is, size, tx_is, now_is, bytes_are, ahead).
                  using
                    (tx_step _ v1
                      (create_auth_webauthn_credential user_id credential.id ciphertext nonce)
                      credential_error d (tx_is ∙ opened) r2)
                    λ (row, d1, ran, r3).
                      let entry = passkey_entry env s "auth.webauthn.register" user_id row in
                      using
                        (create_credential-ok user_id credential.id ciphertext nonce v1.now d ran)
                        λ (absent, (there, row_is, table)).
                          using
                            (tx_step _ _ (delete_auth_webauthn_session session.id)
                              (wrap "delete webauthn registration session") d1 refl r3)
                            λ (u, d2, deleted, r4).
                              using (delete_session-ok session.id v1.now d1 deleted) λ (gone, kept).
                                using (audit_step _ _ entry d2 refl r4) λ (log, d3, logged, r5).
                                  using (audited-passkeys entry v1.now d2 logged)
                                    λ (same_c, same_s).
                                      using
                                        (commit_step _ _
                                          (wrap "commit webauthn registration finish tx") d3 refl
                                          r5)
                                        λ r6.
                                          using (pure-ok (webauthn_credential_info row) _ r6)
                                            λ (is, end). (
                                              row,
                                              absent,
                                              (
                                                serialized,
                                                nonce,
                                                w.drawn,
                                                written,
                                                size,
                                                bytes_are,
                                                omega arith,
                                                ap (λ x. x.drawn) end ∙ ahead,
                                                (
                                                  rw (end, same_c, kept) there,
                                                  rw (seal_is, now_is) at row_is,
                                                  rw (end, same_c, kept) table,
                                                ),
                                              ),
                                              sym is,
                                              rw (end, same_s) gone,
                                            )
