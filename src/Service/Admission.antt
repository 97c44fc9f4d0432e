-- ===== src/Service/Admission.antt =====
-- `Service.Login` of apps/control-plane/internal/auth/service.go: when it succeeds.
use delta_uptime.Prelude.{
  ℕ, suc, ◌+◌, ◌/◌, String, ◌≡◌, refl, ap, ◌∙◌, true, false, ◌||◌, inl, inr, some, List, [], ◌∷◌,
  ◌++◌, str_eq, ◌==◌, eq_iff, find, exists, Bool-cases, using,
}
use delta_uptime.Errors.{ok, wrap, errors_is}
use delta_uptime.Text.{trim_space}
use delta_uptime.Input.{normalize_email}
use delta_uptime.Database.{Db, User}
use delta_uptime.Database.Identity.{get_user_by_email, list_organizations_by_user}
use delta_uptime.Database.Sessions.{is_null, new_token}
use delta_uptime.Database.Controls.{create_audit_log, get_user_totp_credential_by_user_id}
use delta_uptime.Password.{verify_password}
use delta_uptime.Effects.{
  World, pool, in_tx, query, outside, run, on_error, attempt, lift, time_now, pure, ◌>>=◌,
}
use delta_uptime.Effects.Succeeds.{
  running, Returns, bind_succeeds, transaction_succeeds, commit_runs,
}
use delta_uptime.Service.{Env, Service, LoginInput, AuthResult, OrganizationInfo}
use delta_uptime.Service.Tokens.{claims_at}
use delta_uptime.Service.Session.{
  organizations_for_user, issue_session, audit, check_code, verify_totp_if_enabled, verify_code,
}
use delta_uptime.Service.Login.{login, login_body, login_entry, check_credentials}
use delta_uptime.Service.PasswordLogin.{PassesFactor}
use delta_uptime.Service.Renewal.{next_hash, issue_runs, exists_of_found}

-- No call fails.
abbrev quiet : World → World
quiet w = record w { faults = [] }

module _ (env : Env) (s : Service) where
  -- A code that is accepted is not blank.
  accepted_filled :
      (secret code : String) (unix : ℕ)
      → verify_code env s secret code unix ≡ true
      → str_eq (trim_space code) "" ≡ false
  unfolding verify_code
  accepted_filled secret code unix accepted = elim (Bool-cases (str_eq (trim_space code) "")) [
    | inl blank ↦ cc (rw ((eq_iff (trim_space code) "").0 blank) at accepted)
    | inr filled ↦ filled
  ]

  passes_runs :
      (user_id : ℕ) (code : String) (w : World)
      → PassesFactor env s user_id code w
      → verify_totp_if_enabled env s pool user_id code (quiet w) ≡ (ok tt, quiet w)
  unfolding verify_totp_if_enabled get_user_totp_credential_by_user_id ◌>>=◌ attempt query outside
      run errors_is pure check_code lift time_now
  passes_runs user_id code w (inl absent) = rw absent refl
  passes_runs user_id code w (inr (credential, found, inl off)) = rw (found, off) refl
  passes_runs user_id code w (inr (credential, found, inr (secret, opened, accepted))) =
      elim (Bool-cases (is_null credential.enabled_at)) [
        | inl off ↦ rw (found, off) refl
        | inr on ↦
            rw
              (
                found,
                on,
                accepted_filled secret code (w.now / 1000000000) accepted,
                opened,
                accepted,
              )
              refl
      ]

  credentials_run :
      (input : LoginInput) (user : User) (w : World)
      → find (λ u. str_eq u.email input.email) w.db.users ≡ some user
      → verify_password env.id_key user.password_hash input.password ≡ ok true
      → PassesFactor env s user.id input.totp_code w
      → check_credentials env s input (quiet w) ≡ (ok user, quiet w)
  unfolding check_credentials get_user_by_email ◌>>=◌ query outside run on_error lift pure
  credentials_run input user w found right passed =
      rw (found, right, passes_runs user.id input.totp_code w passed) refl

  organizations_runs :
      (user_id : ℕ) (w : World)
      → (orgs : List OrganizationInfo) × (organizations_for_user env pool user_id (quiet w)
          ≡ (ok orgs, quiet w))
  unfolding organizations_for_user list_organizations_by_user ◌>>=◌ on_error pure query outside run
  organizations_runs user_id w = (_, refl)

  audit_runs :
      (user : User) (w : World) (d : Db) (n : ℕ)
      → exists (λ u. u.id == user.id) d.users ≡ true
      → (d' : Db) × (audit in_tx (login_entry env s user) (running w d n) ≡ (ok tt, running w d' n))
  unfolding audit create_audit_log ◌>>=◌ on_error pure query outside run
  audit_runs user w d n known =
      ((create_audit_log (login_entry env s user) w.now d).1, rw known refl)

  -- The rows after a session of the user was issued.
  abbrev with_session : User → World → Db → ℕ → Db
  with_session user w d n = record d {
    refresh_tokens =
        d.refresh_tokens
        ++ new_token user.id (next_hash env s w n) (w.now + s.refresh_ttl) w.now d.next_id ∷ [];
    next_id = suc d.next_id;
  }

  session_runs :
      (user : User) (orgs : List OrganizationInfo) (w : World) (d : Db) (n : ℕ) {signed : String}
      → env.sign_token s.access_secret (claims_at env s (env.uuid_string user.id) w.now) ≡ ok signed
      → exists (λ t. str_eq t.token_hash (next_hash env s w n)) d.refresh_tokens ≡ false
      → exists (λ u. u.id == user.id) d.users ≡ true
      → (r : AuthResult) × (issue_session env s in_tx user orgs (running w d n)
          ≡ (ok r, running w (with_session user w d n) (n + 32)))
  unfolding issue_session ◌>>=◌ pure
  session_runs user orgs w d n signing fresh known =
      using (issue_runs env s user orgs w d n signing fresh known)
        λ (result, issued). (result, rw issued refl)

  login_body_succeeds :
      (user : User) (orgs : List OrganizationInfo) (w : World) (d : Db) (n : ℕ) {signed : String}
      → env.sign_token s.access_secret (claims_at env s (env.uuid_string user.id) w.now) ≡ ok signed
      → exists (λ t. str_eq t.token_hash (next_hash env s w n)) d.refresh_tokens ≡ false
      → exists (λ u. u.id == user.id) d.users ≡ true
      → Returns (login_body env s user orgs) (running w d n)
  unfolding login_body issue_session pure
  login_body_succeeds user orgs w d n signing fresh known =
      let d1 = with_session user w d n in
      using (session_runs user orgs w d n signing fresh known) λ (result, issued).
        using (audit_runs user w d1 (n + 32) known) λ (d2, audited).
          bind_succeeds _ _ (running w d n) issued (
            bind_succeeds _ _ (running w d1 (n + 32)) audited (
              bind_succeeds _ _ (running w d2 (n + 32))
                (commit_runs (wrap "commit login tx") w d2 (n + 32)) (result, _, refl)))

  undisturbed_login :
      (input : LoginInput) (user : User) (w : World) {signed : String}
      → (str_eq (normalize_email env.lower_rune input.email) "" || str_eq input.password "") ≡ false
      → find (λ u. str_eq u.email (normalize_email env.lower_rune input.email)) w.db.users
        ≡ some user
      → verify_password env.id_key user.password_hash input.password ≡ ok true
      → PassesFactor env s user.id input.totp_code w
      → env.sign_token s.access_secret (claims_at env s (env.uuid_string user.id) w.now) ≡ ok signed
      → exists (λ t. str_eq t.token_hash (next_hash env s w w.drawn)) w.db.refresh_tokens ≡ false
      → Returns (login env s input) (quiet w)
  unfolding login
  undisturbed_login input user w filled found right passed signing fresh =
      let email = normalize_email env.lower_rune input.email in
      let checked : LoginInput = record input { email = email } in
      using (organizations_runs user.id w) λ (orgs, listed). rw filled (
        bind_succeeds (check_credentials env s checked) _ (quiet w)
          (credentials_run checked user w found right passed)
          (bind_succeeds (organizations_for_user env pool user.id) _ (quiet w) listed (
            transaction_succeeds "begin login tx" (login_body env s user orgs) (quiet w) refl (
              login_body_succeeds user orgs w w.db w.drawn signing fresh
                (exists_of_found (λ u. str_eq u.email email) w.db.users found)))))

  -- A login succeeds whenever no call fails, the email and the password are given, the email is
  -- that of a stored user, the user's hash accepts the password, the user has no enabled second
  -- factor or the code opens it, the access token can be signed, and the refresh token that is
  -- drawn is new.
  pub login-succeeds :
      (input : LoginInput) (user : User) (w : World) {signed : String}
      → w.faults ≡ []
      → (str_eq (normalize_email env.lower_rune input.email) "" || str_eq input.password "") ≡ false
      → find (λ u. str_eq u.email (normalize_email env.lower_rune input.email)) w.db.users
        ≡ some user
      → verify_password env.id_key user.password_hash input.password ≡ ok true
      → PassesFactor env s user.id input.totp_code w
      → env.sign_token s.access_secret (claims_at env s (env.uuid_string user.id) w.now) ≡ ok signed
      → exists (λ t. str_eq t.token_hash (next_hash env s w w.drawn)) w.db.refresh_tokens ≡ false
      → (r : AuthResult) × (v : World) × (login env s input w ≡ (ok r, v))
  login-succeeds input user w sound filled found right passed signing fresh =
      let same : w ≡ quiet w = ap (λ f. record w { faults = f }) sound in
      using (undisturbed_login input user w filled found right passed signing fresh)
        λ (r, v, ran). (r, v, ap (login env s input) same ∙ ran)
