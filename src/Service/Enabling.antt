-- ===== src/Service/Enabling.antt =====
-- `Service.EnableTOTP` of apps/control-plane/internal/auth/service.go: when the second factor is
-- switched on.
use delta_uptime.Prelude.{
  ℕ, String, ◌≡◌, refl, sym, ap, ◌∙◌, ◌/◌, Bool-cases, some, find, Option-cases, inl, inr, using,
  find-update_where_hit, find_sound, true, update_where,
}
use delta_uptime.Errors.{ok, wrap}
use delta_uptime.Database.{Db, UserTotpCredential}
use delta_uptime.Database.Controls.{
  enable_user_totp_credential, get_user_totp_credential_by_user_id, of_user, enabled,
}
use delta_uptime.Effects.{World, called, ◌>>=◌, raise, time_now}
use delta_uptime.Effects.Inversion.{bind-ok, pure-ok, transaction-ok}
use delta_uptime.Effects.Steps.{one-ok, tx_step, pool_step, lift_step, commit_step}
use delta_uptime.Service.{Env, Service, Principal, UserInfo}
use delta_uptime.Service.Session.{parse_uuid, check_code, verify_code, decrypt_totp_secret}
use delta_uptime.Service.Tokens.{second}
use delta_uptime.Service.Steps.{audit_step}
use delta_uptime.Service.Totp.{enable_totp, enable_body, totp_entry, no_row_invalid}
use delta_uptime.Service.PasswordLogin.{Opens, check_code-ok}
use delta_uptime.Service.Factor.{audited-credentials}

enable-ok :
    (id now : ℕ) (d : Db) {c : UserTotpCredential} {d' : Db}
    → enable_user_totp_credential id now d ≡ (ok c, d')
    → (old : UserTotpCredential) × (find (of_user id) d.totp_credentials ≡ some old)
      × (find (of_user id) d'.totp_credentials ≡ some (enabled now old))
      × (d'.totp_credentials ≡ update_where (of_user id) (enabled now) d.totp_credentials)
unfolding enable_user_totp_credential
enable-ok id now d e = elim (Option-cases (find (of_user id) d.totp_credentials)) [
  | inl absent ↦ cc (rw (absent, enable_user_totp_credential) at e)
  | inr (old, hit) ↦
      let same = rw (hit, enable_user_totp_credential) at e in
      (
        old,
        hit,
        rw (ap (λ x. x.1.totp_credentials) (sym same)) (
            find-update_where_hit (of_user id) (of_user id) (enabled now) d.totp_credentials old
              (λ y. refl) hit (find_sound (of_user id) d.totp_credentials old hit)),
        ap (λ x. x.1.totp_credentials) (sym same),
      )
]

module _ (env : Env) (s : Service) where
  enable_body-ok :
      (id : ℕ) (principal : Principal) (w : World) (d : Db) {r : UserInfo} {v : World}
      → w.tx ≡ some d
      → enable_body env s id principal w ≡ (ok r, v)
      → (old : UserTotpCredential) × (find (of_user id) d.totp_credentials ≡ some old)
        × (find (of_user id) v.db.totp_credentials ≡ some (enabled w.now old))
        × (v.db.totp_credentials ≡ update_where (of_user id) (enabled w.now) d.totp_credentials)
  unfolding enable_body called
  enable_body-ok id principal w d opened e =
      let entry = totp_entry env s "auth.totp.enable" id principal in
      using
        (tx_step _ w (enable_user_totp_credential id) (wrap "enable totp credential") d opened e)
        λ (row, d1, ran, r1). using (enable-ok id w.now d ran) λ (old, hit, found, table).
          using (audit_step _ _ entry d1 refl r1) λ (log, d2, logged, r2).
            using (commit_step _ _ (wrap "commit totp enable tx") d2 refl r2) λ r3.
              using (pure-ok (record principal.user { totp_enabled = true }) _ r3) λ (_, end). (
                old,
                hit,
                rw (end, audited-credentials env s entry w.now d1 logged) found,
                rw (end, audited-credentials env s entry w.now d1 logged) table,
              )

  -- Checking a code changes nothing.
  check_code_same :
      (credential : UserTotpCredential) (code : String) (w : World) {u : Unit {0}} {v : World}
      → check_code env s credential code w ≡ (ok u, v)
      → v ≡ w
  unfolding check_code time_now ◌>>=◌ raise
  check_code_same credential code w e =
      using (lift_step _ w (decrypt_totp_secret env s credential) e) λ (secret, opened, r1).
        elim (Bool-cases (verify_code env s secret code (w.now / second))) [
          | inl right ↦ (pure-ok tt w (rw right at r1)).1
          | inr wrong ↦ cc (rw wrong at r1)
        ]

  -- The second factor is switched on only with a code that the stored credential accepts at that
  -- time, and then this credential is enabled from that time on, with its secret unchanged, and
  -- the rows of the other users are as they were: the table is the old one with the caller's row
  -- replaced.
  pub enable_totp-ok :
      (principal : Principal) (code : String) (w : World) {r : UserInfo} {v : World}
      → enable_totp env s principal code w ≡ (ok r, v)
      → (id : ℕ) × (k : UserTotpCredential) × (parse_uuid env principal.user.id ≡ ok id)
        × (find (of_user id) w.db.totp_credentials ≡ some k)
        × Opens env s k code w.now
        × (find (of_user id) v.db.totp_credentials ≡ some (enabled w.now k))
        × (v.db.totp_credentials ≡ update_where (of_user id) (enabled w.now) w.db.totp_credentials)
  unfolding enable_totp get_user_totp_credential_by_user_id called
  enable_totp-ok principal code w e =
      using (lift_step _ w (parse_uuid env principal.user.id) e) λ (id, parsed, r1).
        using
          (pool_step _ _ (get_user_totp_credential_by_user_id id)
            (no_row_invalid "totp setup not started") r1)
          λ (k, d, got, r2).
            using (one-ok (find (of_user id) w.db.totp_credentials) w.db got) λ (found, same).
              using (bind-ok (check_code env s k code) _ _ r2) λ (u, v3, e3, r3).
                using (check_code-ok env s k code _ e3) λ opens.
                  using
                    (transaction-ok "begin totp enable tx" (enable_body env s id principal) v3 r3)
                    λ (v4, ran, v-is).
                      let stays = check_code_same k code _ e3 in
                      using (enable_body-ok id principal _ w.db refl (rw (stays, same) at ran))
                        λ (old, hit, on, table).
                          let both : old ≡ k = cc (sym hit ∙ found) in
                          (id, k, parsed, found, opens, rw v-is (rw both at on), rw v-is table)
