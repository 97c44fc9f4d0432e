-- ===== src/Service/Factor.antt =====
-- Setting up and disabling the second factor, of apps/control-plane/internal/auth/service.go.
use delta_uptime.Prelude.{
  ℕ, String, ◌≡◌, refl, sym, ap, ◌∙◌, Bool, true, false, not, none, some, List, [], ◌∷◌, find,
  exists, select, arith, if◌then◌else◌, Bool-cases, Option-cases, inl, inr, using, ◌==◌, ==_refl,
  find-update_where_hit, find_sound, find-append_absent,
}
use delta_uptime.Errors.{Error, Result, ok, wrap}
use delta_uptime.Input.{invalid}
use delta_uptime.Database.{Db, UserTotpCredential, AuditLog}
use delta_uptime.Database.Sessions.{is_null}
use delta_uptime.Database.Controls.{
  upsert_user_totp_credential, delete_user_totp_credential, get_user_totp_credential_by_user_id,
  of_user, new_credential, reset_secret, create_audit_log, AuditParams,
}
use delta_uptime.Database.Frames.{create_audit_log_frame}
use delta_uptime.Totp.{generate_secret}
use delta_uptime.Effects.{World, App, called, on_error, raise, rand_read}
use delta_uptime.Effects.Inversion.{bind-ok, pure-ok, transaction-ok}
use delta_uptime.Effects.Steps.{one-ok, tx_step, pool_step, lift_step, commit_step}
use delta_uptime.Service.{Env, Service, Principal, UserInfo, TotpSetup}
use delta_uptime.Service.Tokens.{encrypt}
use delta_uptime.Service.Session.{parse_uuid, check_code}
use delta_uptime.Service.Steps.{audit_step}
use delta_uptime.Service.Totp.{
  setup_totp, setup_body, disable_totp, disable_body, totp_entry, no_row_invalid,
}
use delta_uptime.Service.PasswordLogin.{Opens, check_code-ok}

module _ (env : Env) (s : Service) where
  upsert-ok :
      (id : ℕ) (ciphertext nonce : List ℕ) (now : ℕ) (d : Db) {c : UserTotpCredential} {d' : Db}
      → upsert_user_totp_credential id ciphertext nonce now d ≡ (ok c, d')
      → (k : UserTotpCredential) × (find (of_user id) d'.totp_credentials ≡ some k)
        × (k.enabled_at ≡ none)
  unfolding upsert_user_totp_credential
  upsert-ok id ciphertext nonce now d e =
      elim (Option-cases (find (of_user id) d.totp_credentials)) [
        | inl absent ↦ elim (Bool-cases (exists (λ u. u.id == id) d.users)) [
          | inl known ↦
              let same = rw (absent, upsert_user_totp_credential, known) at e in
              (
                new_credential id ciphertext nonce now,
                rw (ap (λ x. x.1.totp_credentials) (sym same)) (
                    find-append_absent (of_user id) d.totp_credentials
                      (new_credential id ciphertext nonce now) absent (==_refl id)),
                refl,
              )
          | inr unknown ↦ cc (rw (absent, upsert_user_totp_credential, unknown) at e)
        ]
        | inr (old, hit) ↦
            let same = rw (hit, upsert_user_totp_credential) at e in
            (
              reset_secret ciphertext nonce now old,
              rw (ap (λ x. x.1.totp_credentials) (sym same)) (
                  find-update_where_hit (of_user id) (of_user id)
                    (reset_secret ciphertext nonce now) d.totp_credentials old (λ y. refl) hit
                    (find_sound (of_user id) d.totp_credentials old hit)),
              refl,
            )
      ]

  pub audited-credentials :
      (entry : AuditParams) (now : ℕ) (d : Db) {r : Result AuditLog} {d' : Db}
      → create_audit_log entry now d ≡ (r, d')
      → d'.totp_credentials ≡ d.totp_credentials
  audited-credentials entry now d e =
      ap (λ x. x.1.totp_credentials) (sym e)
      ∙ ap (λ x. x.totp_credentials) (create_audit_log_frame now d entry)

  setup_body-ok :
      (id : ℕ) (principal : Principal) (ciphertext nonce : List ℕ) (setup : TotpSetup) (w : World)
      (d : Db) {r : TotpSetup} {v : World}
      → w.tx ≡ some d
      → setup_body env s id principal ciphertext nonce setup w ≡ (ok r, v)
      → (k : UserTotpCredential) × (find (of_user id) v.db.totp_credentials ≡ some k)
        × (k.enabled_at ≡ none)
  unfolding setup_body called
  setup_body-ok id principal ciphertext nonce setup w d opened e =
      let entry = totp_entry env s "auth.totp.setup" id principal in
      using
        (tx_step _ w (upsert_user_totp_credential id ciphertext nonce)
          (wrap "upsert totp credential") d opened e)
        λ (row, d1, ran, r1). using (upsert-ok id ciphertext nonce w.now d ran) λ (k, found, off).
          using (audit_step _ _ entry d1 refl r1) λ (log, d2, logged, r2).
            using (commit_step _ _ (wrap "commit totp setup tx") d2 refl r2) λ r3.
              using (pure-ok setup _ r3)
                λ (_, end). (k, rw (end, audited-credentials entry w.now d1 logged) found, off)

  -- Setting up a second factor leaves the caller with a credential that is not enabled, whatever
  -- was stored before: an enabled factor is switched off, although no code was asked for.
  pub setup_totp-ok :
      (principal : Principal) (w : World) {r : TotpSetup} {v : World}
      → setup_totp env s principal w ≡ (ok r, v)
      → (id : ℕ) × (k : UserTotpCredential) × (parse_uuid env principal.user.id ≡ ok id)
        × (find (of_user id) v.db.totp_credentials ≡ some k)
        × (k.enabled_at ≡ none)
  unfolding setup_totp
  setup_totp-ok principal w e =
      using (lift_step _ w (parse_uuid env principal.user.id) e) λ (id, parsed, r1).
        using (bind-ok (on_error (rand_read 20) (wrap "generate totp secret")) _ _ r1)
          λ (bytes, v2, _, r2).
            using
              (bind-ok
                (on_error (encrypt env s (generate_secret bytes)) (wrap "encrypt totp secret")) _ _
                r2)
              λ (sealed, v3, _, r3).
                using (transaction-ok "begin totp setup tx" _ _ r3) λ (v4, ran, v-is).
                  using (setup_body-ok id principal sealed.0 sealed.1 _ _ v3.db refl ran)
                    λ (k, found, off). (id, k, parsed, rw v-is found, off)

  none_left :
      (id : ℕ) (cs : List UserTotpCredential)
      → find (of_user id) (select (λ c. not (of_user id c)) cs) ≡ none
  unfolding find select
  none_left id [] = refl
  none_left id (c ∷ cs) = ground (arith, none_left id cs)

  delete-ok :
      (id now : ℕ) (d : Db) {u : Unit {0}} {d' : Db}
      → delete_user_totp_credential id now d ≡ (ok u, d')
      → find (of_user id) d'.totp_credentials ≡ none
  unfolding delete_user_totp_credential
  delete-ok id now d e =
      rw (ap (λ x. x.1.totp_credentials) (sym e)) (none_left id d.totp_credentials)

  disable_body-ok :
      (id : ℕ) (principal : Principal) (w : World) (d : Db) {r : UserInfo} {v : World}
      → w.tx ≡ some d
      → disable_body env s id principal w ≡ (ok r, v)
      → find (of_user id) v.db.totp_credentials ≡ none
  unfolding disable_body called
  disable_body-ok id principal w d opened e =
      let entry = totp_entry env s "auth.totp.disable" id principal in
      using
        (tx_step _ w (delete_user_totp_credential id) (wrap "delete totp credential") d opened e)
        λ (u, d1, ran, r1). using (delete-ok id w.now d ran) λ gone.
          using (audit_step _ _ entry d1 refl r1) λ (log, d2, logged, r2).
            using (commit_step _ _ (wrap "commit totp disable tx") d2 refl r2) λ r3.
              using (pure-ok (record principal.user { totp_enabled = false }) _ r3)
                λ (_, end). rw (end, audited-credentials entry w.now d1 logged) gone

  pub enabled_or_raise :
      {A : Type 0} (b : Bool) (e : Error) (m : App A) (w : World) {r : A} {v : World}
      → (if b then raise e else m) w ≡ (ok r, v)
      → (b ≡ false) × (m w ≡ (ok r, v))
  unfolding raise
  enabled_or_raise true e m w h = cc h
  enabled_or_raise false e m w h = (refl, h)

  -- Disabling the second factor succeeds only with an enabled credential and a code that it accepts
  -- at that time, and leaves no credential of the caller.
  pub disable_totp-ok :
      (principal : Principal) (code : String) (w : World) {r : UserInfo} {v : World}
      → disable_totp env s principal code w ≡ (ok r, v)
      → (id : ℕ) × (k : UserTotpCredential) × (parse_uuid env principal.user.id ≡ ok id)
        × (find (of_user id) w.db.totp_credentials ≡ some k)
        × (is_null k.enabled_at ≡ false)
        × Opens env s k code w.now
        × (find (of_user id) v.db.totp_credentials ≡ none)
  unfolding disable_totp get_user_totp_credential_by_user_id called
  disable_totp-ok principal code w e =
      using (lift_step _ w (parse_uuid env principal.user.id) e) λ (id, parsed, r1).
        using
          (pool_step _ _ (get_user_totp_credential_by_user_id id)
            (no_row_invalid "totp is not enabled") r1)
          λ (k, d, got, r2).
            using (one-ok (find (of_user id) w.db.totp_credentials) w.db got) λ (found, _).
              using (enabled_or_raise (is_null k.enabled_at) (invalid "totp is not enabled") _ _ r2)
                λ (on, r3). using (bind-ok (check_code env s k code) _ _ r3) λ (u, v4, e4, r4).
                  using
                    (transaction-ok "begin totp disable tx" (disable_body env s id principal) _ r4)
                    λ (v5, ran, v-is). using (check_code-ok env s k code _ e4) λ opens. (
                      id,
                      k,
                      parsed,
                      found,
                      on,
                      opens,
                      rw v-is (disable_body-ok id principal _ v4.db refl ran),
                    )
