-- ===== src/Service/PasskeyUser.antt =====
-- apps/control-plane/internal/auth/webauthn.go: what the shared parts of the passkey methods have
-- done when they returned in a transaction.
use delta_uptime.Prelude.{
  ℕ, ◌+◌, String, ◌≡◌, refl, sym, ap, ◌∙◌, not, ◌&&◌, none, some, List, [], ◌∷◌, ◌==◌, find,
  find_sound, exists, select, Bool-cases, Option-cases, inl, inr, length, using, arith,
}
use delta_uptime.Errors.{Result, ok, wrap}
use delta_uptime.Database.{Db, User, AuthWebauthnSession, AuditLog}
use delta_uptime.Database.Identity.{set_user_webauthn_handle, same_bytes}
use delta_uptime.Database.Passkeys.{
  list_auth_webauthn_credentials_by_user_id, delete_auth_webauthn_session,
}
use delta_uptime.Database.Controls.{AuditParams, create_audit_log}
use delta_uptime.Database.Frames.{create_audit_log_frame}
use delta_uptime.Service.Tokens.{encrypt}
use delta_uptime.Effects.{World, called, in_tx, on_error, pure, rand_read, bytes_from}
use delta_uptime.Effects.Inversion.{bind-ok, on_error-ok, pure-ok, query_tx-ok}
use delta_uptime.Effects.Steps.{
  tx_step, rand_read-tx, rand_read-length, rand_read-drawn, Draws, lift_step,
}
use delta_uptime.Webauthn.{WebauthnUser}
use delta_uptime.Service.{Env, Service}
use delta_uptime.Service.Passkeys.{
  ensure_webauthn_user_handle, webauthn_user_from_model, has_no_bytes, open_rows, Stored,
}

-- The tables of the passkeys are the same.
abbrev pub SamePasskeys : Db → Db → Type 0
SamePasskeys d d' =
    (d'.webauthn_credentials ≡ d.webauthn_credentials)
    × (d'.webauthn_sessions ≡ d.webauthn_sessions)

set_handle-ok :
    (id : ℕ) (bytes : List ℕ) (now : ℕ) (d : Db) {u : User} {d' : Db}
    → set_user_webauthn_handle id bytes now d ≡ (ok u, d')
    → (u.id ≡ id) × SamePasskeys d d'
unfolding set_user_webauthn_handle
set_handle-ok id bytes now d e = elim (Option-cases (find (λ u. u.id == id) d.users)) [
  | inl absent ↦ cc (rw (absent, set_user_webauthn_handle) at e)
  | inr (old, hit) ↦ using (find_sound (λ u. u.id == id) d.users old hit) λ same.
      elim (Bool-cases
        (exists (λ u. not (u.id == id) && same_bytes u.webauthn_user_handle bytes) d.users)) [
          | inl taken ↦ cc (rw (hit, set_user_webauthn_handle, taken) at e)
          | inr free ↦ ground (arith, rw (hit, set_user_webauthn_handle, free) at e, same)
        ]
]

module _ (w : World) (d : Db) (opened : w.tx ≡ some d) where
  -- What the lookup of the handle leaves.
  abbrev pub HandleEnsured : User → User → World → Type 0
  HandleEnsured user u v =
      (d' : Db) × (v.tx ≡ some d')
      × (v.now ≡ w.now)
      × Draws w v
      × (u.id ≡ user.id)
      × SamePasskeys d d'

  ensure-ok :
      (user : User) {u : User} {v : World}
      → ensure_webauthn_user_handle in_tx user w ≡ (ok u, v)
      → HandleEnsured user u v
  unfolding ensure_webauthn_user_handle pure called
  ensure-ok user e = elim (Bool-cases (not (has_no_bytes user.webauthn_user_handle))) [
    | inl has ↦
        let done = rw has at e in
        (
          d,
          ap (λ x. x.1.tx) (sym done) ∙ opened,
          ap (λ x. x.1.now) (sym done),
          (ap (λ x. x.1.entropy) (sym done), omega (arith, ap (λ x. x.1.drawn) done)),
          ground (arith, done),
          (refl, refl),
        )
    | inr has_not ↦
        using
          (bind-ok (on_error (rand_read 32) (wrap "generate webauthn user handle")) _ w
            (rw has_not at e))
          λ (bytes, v1, drawn, r1).
            using
              (rand_read-tx 32 w
                (on_error-ok (rand_read 32) (wrap "generate webauthn user handle") w drawn))
              λ (same_tx, same_now).
                using
                  (rand_read-drawn 32 w
                    (on_error-ok (rand_read 32) (wrap "generate webauthn user handle") w drawn))
                  λ (_, stream, ahead).
                    using
                      (query_tx-ok (set_user_webauthn_handle user.id bytes) v1
                        (on_error-ok _ (wrap "set webauthn user handle") v1 r1))
                      λ (d1, d2, opened1, ran, v-is).
                        let same : d1 ≡ d = cc (sym opened1 ∙ same_tx ∙ opened) in
                        using (set_handle-ok user.id bytes v1.now d (rw same at ran))
                          λ (id_is, tables). (
                            d2,
                            ap (λ x. x.tx) v-is,
                            ap (λ x. x.now) v-is ∙ same_now,
                            (
                              ap (λ x. x.entropy) v-is ∙ stream,
                              omega (arith, ap (λ x. x.drawn) v-is, ahead),
                            ),
                            id_is,
                            tables,
                          )
  ]

  pub user_from_model-ok :
      (env : Env) (s : Service) (raw : User) {wa : WebauthnUser} {stored : Stored} {v : World}
      → webauthn_user_from_model env s in_tx raw w ≡ (ok (wa, stored), v)
      → (d' : Db) × (v.tx ≡ some d')
        × (v.now ≡ w.now)
        × Draws w v
        × (open_rows env s [] [] (select (λ c. c.user_id == raw.id) d.webauthn_credentials)
            ≡ ok (wa.credentials, stored))
        × SamePasskeys d d'
  unfolding webauthn_user_from_model list_auth_webauthn_credentials_by_user_id called
  user_from_model-ok env s raw e =
      using (bind-ok (ensure_webauthn_user_handle in_tx raw) _ w e) λ (user, v1, ensured, r1).
        using (ensure-ok raw ensured)
          λ (d1, opened1, now1, (stream, ahead), id_is, (credentials_is, sessions_is)).
            using
              (tx_step _ v1 (list_auth_webauthn_credentials_by_user_id user.id)
                (wrap "list webauthn credentials") d1 opened1 r1)
              λ (rows, d2, ran, r2).
                using (lift_step _ _ (open_rows env s [] [] rows) r2) λ (out, opened_rows, r3).
                  using (pure-ok _ _ r3) λ (is, end).
                    let rows_is : select (λ c. c.user_id == raw.id) d.webauthn_credentials ≡ rows =
                      rw (sym credentials_is, sym id_is) (cc (ap (λ x. x.0) ran)) in
                    let same : d1 ≡ d2 = ap (λ x. x.1) ran in
                    (
                      d2,
                      ap (λ x. x.tx) end,
                      ap (λ x. x.now) end ∙ now1,
                      (
                        ap (λ x. x.entropy) end ∙ stream,
                        omega (arith, ap (λ x. x.drawn) end, ahead),
                      ),
                      rw rows_is (opened_rows ∙ ap (λ x. ok (x.0.credentials, x.1)) is),
                      (rw (sym same) credentials_is, rw (sym same) sessions_is),
                    )

-- Deleting a session of the passkeys removes it.
session_gone :
    (id : ℕ) (sessions : List AuthWebauthnSession)
    → find (λ s. s.id == id) (select (λ s. not (s.id == id)) sessions) ≡ none
unfolding find select
session_gone id [] = refl
session_gone id (s ∷ sessions) = ground (arith, session_gone id sessions)

pub delete_session-ok :
    (id now : ℕ) (d : Db) {u : Unit {0}} {d' : Db}
    → delete_auth_webauthn_session id now d ≡ (ok u, d')
    → (find (λ s. s.id == id) d'.webauthn_sessions ≡ none)
      × (d'.webauthn_credentials ≡ d.webauthn_credentials)
unfolding delete_auth_webauthn_session
delete_session-ok id now d e = (
  rw (ap (λ x. x.1.webauthn_sessions) (sym e)) (session_gone id d.webauthn_sessions),
  ap (λ x. x.1.webauthn_credentials) (sym e),
)

-- The audit entry leaves the tables of the passkeys alone.
pub audited-passkeys :
    (entry : AuditParams) (now : ℕ) (d : Db) {r : Result AuditLog} {d' : Db}
    → create_audit_log entry now d ≡ (r, d')
    → SamePasskeys d d'
audited-passkeys entry now d e = (
  ap (λ x. x.1.webauthn_credentials) (sym e)
      ∙ ap (λ x. x.webauthn_credentials) (create_audit_log_frame now d entry),
  ap (λ x. x.1.webauthn_sessions) (sym e)
      ∙ ap (λ x. x.webauthn_sessions) (create_audit_log_frame now d entry),
)

-- What `SecretsManager.Encrypt` returned.
pub encrypt-ok :
    (env : Env) (s : Service) (plaintext : String) (w : World) {out : List ℕ × List ℕ} {v : World}
    → encrypt env s plaintext w ≡ (ok out, v)
    → (out.0 ≡ env.seal s.secrets_key out.1 plaintext)
      × (length out.1 ≡ 12)
      × (v.tx ≡ w.tx)
      × (v.now ≡ w.now)
      × (out.1 ≡ bytes_from w.entropy w.drawn 12)
      × (v.drawn ≡ w.drawn + 12)
unfolding encrypt
encrypt-ok env s plaintext w e =
    using (bind-ok (on_error (rand_read 12) (wrap "generate nonce")) _ w e)
      λ (nonce, v1, drawn, r1).
        let drew = on_error-ok (rand_read 12) (wrap "generate nonce") w drawn in
        using (rand_read-tx 12 w drew) λ (same_tx, same_now).
          using (rand_read-drawn 12 w drew) λ (bytes_are, _, ahead).
            using (pure-ok _ v1 r1) λ (is, end). (
              rw (sym is) refl,
              rw (sym is) (rand_read-length 12 w drew),
              ap (λ x. x.tx) end ∙ same_tx,
              ap (λ x. x.now) end ∙ same_now,
              rw (sym is) bytes_are,
              ap (λ x. x.drawn) end ∙ ahead,
            )
