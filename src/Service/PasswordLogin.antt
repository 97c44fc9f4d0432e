-- ===== src/Service/PasswordLogin.antt =====
-- `Service.Login` of apps/control-plane/internal/auth/service.go: what a caller has shown who got a
-- session.
use delta_uptime.Prelude.{
  ℕ, ◌/◌, String, ◌≡◌, refl, sym, ap, ◌∙◌, Bool, true, false, ◌||◌, none, some, find, str_eq,
  Option-cases, if◌then◌else◌, Bool-cases, ◌⊎◌, inl, inr, using,
}
use delta_uptime.Errors.{Error, ok, wrap, sentinel, errors_is, invalid_credentials}
use delta_uptime.Input.{normalize_email, invalid}
use delta_uptime.Text.{trim_space}
use delta_uptime.Database.{User, UserTotpCredential}
use delta_uptime.Database.Identity.{get_user_by_email}
use delta_uptime.Database.Sessions.{is_null}
use delta_uptime.Database.Controls.{get_user_totp_credential_by_user_id, of_user}
use delta_uptime.Password.{verify_password}
use delta_uptime.Effects.{
  World, App, pool, query, called, missing_or, raise, attempt, ◌>>=◌, time_now,
}
use delta_uptime.Effects.Inversion.{bind-ok, pure-ok, attempt-ok}
use delta_uptime.Effects.Steps.{
  one-ok, query_pool-cases, pool_step, lift_step, lift_error_step, guard_step,
}
use delta_uptime.Service.{Env, Service, LoginInput, AuthResult}
use delta_uptime.Service.Tokens.{second}
use delta_uptime.Service.Session.{
  decrypt_totp_secret, verify_code, check_code, second_factor, verify_totp_if_enabled,
}
use delta_uptime.Service.Login.{login, check_credentials}

module _ (env : Env) (s : Service) where
  -- A code that opens the credential at the time.
  abbrev pub Opens : UserTotpCredential → String → ℕ → Type 0
  Opens credential code now =
      (secret : String) × (decrypt_totp_secret env s credential ≡ ok secret)
      × (verify_code env s secret code (now / second) ≡ true)

  pub check_code-ok :
      (credential : UserTotpCredential) (code : String) (w : World) {u : Unit {0}} {v : World}
      → check_code env s credential code w ≡ (ok u, v)
      → Opens credential code w.now
  unfolding check_code time_now ◌>>=◌ raise
  check_code-ok credential code w e =
      using (lift_step _ w (decrypt_totp_secret env s credential) e) λ (secret, opened, r1).
        elim (Bool-cases (verify_code env s secret code (w.now / second))) [
          | inl right ↦ (secret, opened, right)
          | inr wrong ↦ cc (rw wrong at r1)
        ]

  -- The user has no enabled second factor, or the code opens it.
  abbrev pub PassesFactor : ℕ → String → World → Type 0
  PassesFactor user_id code w =
      (find (of_user user_id) w.db.totp_credentials ≡ none)
      ⊎ ((credential : UserTotpCredential) × (find (of_user user_id) w.db.totp_credentials
            ≡ some credential)
          × ((is_null credential.enabled_at ≡ true) ⊎ Opens credential code w.now))

  factor-ok :
      (credential : UserTotpCredential) (code : String) (w : World) {u : Unit {0}} {v : World}
      → second_factor env s code (ok credential) w ≡ (ok u, v)
      → (is_null credential.enabled_at ≡ true) ⊎ Opens credential code w.now
  unfolding raise
  factor-ok credential code w e = elim (Bool-cases (is_null credential.enabled_at)) [
    | inl off ↦ inl off
    | inr on ↦ elim (Bool-cases (str_eq (trim_space code) "")) [
      | inl blank ↦ cc (rw (on, blank) at e)
      | inr given ↦ inr (check_code-ok credential code w (rw (on, given) at e))
    ]
  ]

  pub verify_totp_if_enabled-ok :
      (user_id : ℕ) (code : String) (w : World) {u : Unit {0}} {v : World}
      → verify_totp_if_enabled env s pool user_id code w ≡ (ok u, v)
      → PassesFactor user_id code w
  unfolding verify_totp_if_enabled errors_is raise get_user_totp_credential_by_user_id
  verify_totp_if_enabled-ok user_id code w e =
      using
        (bind-ok (attempt (query pool (get_user_totp_credential_by_user_id user_id)))
          (second_factor env s code) w e)
        λ (r, v, e1, rest).
          using (attempt-ok (query pool (get_user_totp_credential_by_user_id user_id)) w e1) λ ran.
            elim (query_pool-cases (get_user_totp_credential_by_user_id user_id) w ran) [
              | inl failed ↦ cc (rw (failed, second_factor) at rest)
              | inr (given, time) ↦
                  elim (Option-cases (find (of_user user_id) w.db.totp_credentials)) [
                    | inl absent ↦ inl absent
                    | inr (credential, found) ↦ inr (
                      credential,
                      found,
                      rw (sym time)
                          (factor-ok credential code v (rw (sym (rw found at given)) at rest)),
                    )
                  ]
            ]

  check_credentials-ok :
      (input : LoginInput) (w : World) {user : User} {v : World}
      → check_credentials env s input w ≡ (ok user, v)
      → (find (λ u. str_eq u.email input.email) w.db.users ≡ some user)
        × (verify_password env.id_key user.password_hash input.password ≡ ok true)
        × PassesFactor user.id input.totp_code w
  unfolding check_credentials get_user_by_email called
  check_credentials-ok input w e =
      using
        (pool_step _ w (get_user_by_email input.email)
          (missing_or invalid_credentials "get user by email") e)
        λ (row, d, got, r1).
          using (one-ok (find (λ u. str_eq u.email input.email) w.db.users) w.db got)
            λ (found, same).
              using
                (lift_error_step _ _ (verify_password env.id_key row.password_hash input.password)
                  (wrap "verify password") r1)
                λ (right, checked, r2).
                  using (guard_step _ _ right (sentinel invalid_credentials) r2) λ (matches, r3).
                    using
                      (bind-ok (verify_totp_if_enabled env s pool row.id input.totp_code) _ _ r3)
                      λ (u, v1, e4, r4).
                        using (verify_totp_if_enabled-ok row.id input.totp_code _ e4) λ passed.
                          using (pure-ok row _ r4) λ (is, end). (
                            rw (sym is) found,
                            rw (sym is) (checked ∙ ap ok matches),
                            rw (sym is) (rw same at passed),
                          )

  guarded-ok :
      (b : Bool) (e : Error) (m : App AuthResult) (w : World) {r : AuthResult} {v : World}
      → (if b then raise e else m) w ≡ (ok r, v)
      → (b ≡ false) × (m w ≡ (ok r, v))
  unfolding raise
  guarded-ok true e m w h = cc h
  guarded-ok false e m w h = (refl, h)

  -- A login that succeeds was asked for with the email, up to case and outer space, of a stored
  -- user, with a password that this user's hash accepts, and, if the user has an enabled second
  -- factor, with a code that its decrypted secret accepts at that time.
  pub login-ok :
      (input : LoginInput) (w : World) {r : AuthResult} {v : World}
      → login env s input w ≡ (ok r, v)
      → (user : User) × (find
            (λ u. str_eq u.email (normalize_email env.lower_rune input.email))
            w.db.users
          ≡ some user)
        × (verify_password env.id_key user.password_hash input.password ≡ ok true)
        × PassesFactor user.id input.totp_code w
  unfolding login
  login-ok input w e =
      let email = normalize_email env.lower_rune input.email in
      let checked : LoginInput = record input { email = email } in
      using
        (guarded-ok (str_eq email "" || str_eq input.password "")
          (invalid "email and password are required") _ w e)
        λ (_, r1). using (bind-ok (check_credentials env s checked) _ w r1) λ (user, v1, e1, r2).
          using (check_credentials-ok checked w e1)
            λ (found, accepted, passed). (user, found, accepted, passed)
