-- ===== src/Service/Renewal.antt =====
-- `Service.Refresh` of apps/control-plane/internal/auth/service.go: when it succeeds.
use delta_uptime.Prelude.{
  ℕ, suc, ◌+◌, String, ◌≡◌, refl, Bool, true, false, not, some, List, [], ◌∷◌, ◌++◌, str_eq, ◌==◌,
  ==_refl, Option-cases, find, find-append, exists, update_where, Bool-cases, inl, inr, arith,
  using,
}
use delta_uptime.Errors.{ok, wrap, refresh_token_invalid, errors_is}
use delta_uptime.Text.{trim_space}
use delta_uptime.Text.Base64.{raw_url_encode}
use delta_uptime.Database.{Db, User, AuthRefreshToken}
use delta_uptime.Database.Identity.{get_user_by_id, list_organizations_by_user}
use delta_uptime.Database.Sessions.{
  create_auth_refresh_token, get_auth_refresh_token_by_token_hash, rotate_auth_refresh_token,
  new_token, is_live, used, is_null,
}
use delta_uptime.Database.Controls.{create_audit_log, get_user_totp_credential_by_user_id}
use delta_uptime.Effects.{
  World, lift, rand_read, outside, run, attempt, called, in_tx, query, on_error, missing_or,
  time_now, pure, bytes_from, ◌>>=◌,
}
use delta_uptime.Effects.Succeeds.{
  running, Returns, query_runs, bind_succeeds, transaction_succeeds, commit_runs,
}
use delta_uptime.Service.{Env, Service, AuthResult, OrganizationInfo}
use delta_uptime.Service.Tokens.{
  claims_at, hash_refresh_token, issue_access_token, generate_refresh_token,
}
use delta_uptime.Service.Session.{
  organizations_for_user, issue_session_with_model, user_has_enabled_totp, audit, user_info,
}
use delta_uptime.Service.Refresh.{refresh, rotate, find_session, is_fresh, refresh_entry}
use delta_uptime.Service.KeyLogin.{find_other}
use delta_uptime.History.Tokens.{has_hash}

module _ (env : Env) (s : Service) where
  -- The hash of the token that is drawn next.
  abbrev pub next_hash : World → ℕ → String
  next_hash w n = hash_refresh_token env s (raw_url_encode (bytes_from w.entropy n 32))

  -- Whatever is stored of the second factor, whether it is enabled is told.
  enabled_runs :
      (user_id : ℕ) (w : World) (d : Db) (n : ℕ)
      → (b : Bool) × (user_has_enabled_totp in_tx user_id (running w d n) ≡ (ok b, running w d n))
  unfolding user_has_enabled_totp get_user_totp_credential_by_user_id ◌>>=◌ errors_is pure query
      outside run attempt
  enabled_runs user_id w d n =
      elim (Option-cases (find (λ c. c.user_id == user_id) d.totp_credentials)) [
        | inl absent ↦ (false, rw absent refl)
        | inr (credential, found) ↦ (not (is_null credential.enabled_at), rw found refl)
      ]

  abbrev issued : User → List OrganizationInfo → World → ℕ → String → Bool → AuthResult
  issued user orgs w n signed enabled = record {
    access_token = signed;
    access_token_expires_at = w.now + s.access_ttl;
    refresh_token = raw_url_encode (bytes_from w.entropy n 32);
    refresh_token_expires_at = w.now + s.refresh_ttl;
    user = user_info env user enabled;
    organizations = orgs;
  }

  -- The session of a user, where the hash of the token that is drawn is new.
  pub issue_runs :
      (user : User) (orgs : List OrganizationInfo) (w : World) (d : Db) (n : ℕ) {signed : String}
      → env.sign_token s.access_secret (claims_at env s (env.uuid_string user.id) w.now) ≡ ok signed
      → exists (λ t. str_eq t.token_hash (next_hash w n)) d.refresh_tokens ≡ false
      → exists (λ u. u.id == user.id) d.users ≡ true
      → let t = new_token user.id (next_hash w n) (w.now + s.refresh_ttl) w.now d.next_id in
        (r : AuthResult) × (issue_session_with_model env s in_tx user orgs (running w d n) ≡ (
          ok (r, t),
          running w
              (record d { refresh_tokens = d.refresh_tokens ++ t ∷ []; next_id = suc d.next_id })
              (n + 32),
        ))
  unfolding issue_session_with_model issue_access_token generate_refresh_token ◌>>=◌ on_error lift
      time_now rand_read query outside run pure create_auth_refresh_token called
  issue_runs user orgs w d n {signed} signing fresh known =
      using
        (enabled_runs user.id w
          (record d {
            refresh_tokens =
                d.refresh_tokens
                ++ new_token user.id (next_hash w n) (w.now + s.refresh_ttl) w.now d.next_id ∷ [];
            next_id = suc d.next_id;
          })
          (n + 32))
        λ (enabled, told).
          (issued user orgs w n signed enabled, rw (signing, fresh, known, told) refl)

-- A live token is found by its id as long as it is found by its hash, also after a token is added.
live_found :
    (hash : String) (tokens : List AuthRefreshToken) (session new : AuthRefreshToken)
    → find (has_hash hash) tokens ≡ some session
    → is_live session.id session ≡ true
    → (row : AuthRefreshToken) × (find (is_live session.id) (tokens ++ new ∷ []) ≡ some row)
live_found hash tokens session new found live =
    using (find_other (has_hash hash) (is_live session.id) tokens session found live)
      λ (row, hit). (row, find-append (is_live session.id) tokens (new ∷ []) row hit)

added_exists :
    (id : ℕ) (tokens : List AuthRefreshToken) (new : AuthRefreshToken)
    → new.id ≡ id
    → exists (λ t. t.id == id) (tokens ++ new ∷ []) ≡ true
unfolding exists
added_exists id [] new same = rw (same, ==_refl id) refl
added_exists id (t ∷ tokens) new same = rw (added_exists id tokens new same) (ground arith)

pub exists_of_found :
    (p : User → Bool) (users : List User) {user : User}
    → find p users ≡ some user
    → exists (λ u. u.id == user.id) users ≡ true
unfolding find exists
exists_of_found p [] found = cc found
exists_of_found p (u ∷ users) {user} found = elim (Bool-cases (p u)) [
  | inl hit ↦ let same : u ≡ user = cc (rw hit at found) in rw (same, ==_refl user.id) refl
  | inr miss ↦ rw (exists_of_found p users (rw miss at found)) (ground arith)
]

rotate_auth_refresh_token-hits :
    (id replacement now : ℕ) (d : Db) (row : AuthRefreshToken)
    → find (is_live id) d.refresh_tokens ≡ some row
    → exists (λ t. t.id == replacement) d.refresh_tokens ≡ true
    → rotate_auth_refresh_token id replacement now d ≡ (
      ok (used now replacement row),
      record d {
        refresh_tokens = update_where (is_live id) (used now replacement) d.refresh_tokens;
      },
    )
unfolding rotate_auth_refresh_token
rotate_auth_refresh_token-hits id replacement now d row hit known =
    rw (hit, known, rotate_auth_refresh_token) refl

module _ (env : Env) (s : Service) where
  organizations_runs :
      (user_id : ℕ) (w : World) (d : Db) (n : ℕ)
      → (orgs : List OrganizationInfo) × (organizations_for_user env in_tx user_id (running w d n)
          ≡ (ok orgs, running w d n))
  unfolding organizations_for_user list_organizations_by_user ◌>>=◌ on_error pure query outside run
  organizations_runs user_id w d n = (_, refl)

  audit_runs :
      (user : User) (session : AuthRefreshToken) (w : World) (d : Db) (n : ℕ)
      → exists (λ u. u.id == user.id) d.users ≡ true
      → (d' : Db) × (audit in_tx (refresh_entry env s user session) (running w d n)
          ≡ (ok tt, running w d' n))
  unfolding audit create_audit_log ◌>>=◌ on_error pure query outside run
  audit_runs user session w d n known =
      ((create_audit_log (refresh_entry env s user session) w.now d).1, rw known refl)

  rotate_succeeds :
      (hash : String) (session : AuthRefreshToken) (user : User) (w : World) (d : Db) (n : ℕ)
      {signed : String}
      → find (has_hash hash) d.refresh_tokens ≡ some session
      → is_live session.id session ≡ true
      → find (λ u. u.id == session.user_id) d.users ≡ some user
      → env.sign_token s.access_secret (claims_at env s (env.uuid_string user.id) w.now) ≡ ok signed
      → exists (λ t. str_eq t.token_hash (next_hash env s w n)) d.refresh_tokens ≡ false
      → Returns (rotate env s session) (running w d n)
  unfolding rotate get_user_by_id pure
  rotate_succeeds hash session user w d n found live known signing fresh =
      let exists_user = exists_of_found (λ u. u.id == session.user_id) d.users known in
      let new = new_token user.id (next_hash env s w n) (w.now + s.refresh_ttl) w.now d.next_id in
      using (organizations_runs user.id w d n) λ (orgs, listed).
        using (issue_runs env s user orgs w d n signing fresh exists_user) λ (result, issued_now).
          using (live_found hash d.refresh_tokens session new found live) λ (row, hit).
            let there = added_exists d.next_id d.refresh_tokens new refl in
            let d1 = record d {
              refresh_tokens = d.refresh_tokens ++ new ∷ [];
              next_id = suc d.next_id;
            } in
            let d2 = record d1 {
              refresh_tokens =
                  update_where (is_live session.id) (used w.now new.id) d1.refresh_tokens;
            } in
            using (audit_runs user session w d2 (n + 32) exists_user) λ (d3, audited).
              bind_succeeds _ _ (running w d n)
                (query_runs (get_user_by_id session.user_id) (wrap "get refresh user") w d n
                  (rw known refl))
                (bind_succeeds _ _ (running w d n) listed (
                  bind_succeeds _ _ (running w d n) issued_now (
                    bind_succeeds _ _ (running w d1 (n + 32))
                      (query_runs (rotate_auth_refresh_token session.id new.id)
                        (missing_or refresh_token_invalid "rotate refresh token") w d1 (n + 32)
                        (rotate_auth_refresh_token-hits session.id new.id w.now d1 row hit there))
                      (bind_succeeds _ _ (running w d2 (n + 32)) audited (
                        bind_succeeds _ _ (running w d3 (n + 32))
                          (commit_runs (wrap "commit refresh tx") w d3 (n + 32))
                          (result, _, refl))))))

  find_session_runs :
      (hash : String) (session : AuthRefreshToken) (w : World) (d : Db) (n : ℕ)
      → find (has_hash hash) d.refresh_tokens ≡ some session
      → is_fresh env s w.now session ≡ true
      → find_session env s hash (running w d n) ≡ (ok session, running w d n)
  unfolding find_session get_auth_refresh_token_by_token_hash time_now ◌>>=◌ on_error query outside
      run pure
  find_session_runs hash session w d n found fresh = rw (found, fresh) refl

  -- A refresh succeeds whenever no call fails, the token is that of a session that is unused,
  -- unrevoked and not past its expiry, the session's user exists, its access token can be signed,
  -- and the refresh token that is drawn is new.
  pub refresh-succeeds :
      (token : String) (w : World) (session : AuthRefreshToken) (user : User) {signed : String}
      → w.faults ≡ []
      → str_eq (trim_space token) "" ≡ false
      → find (has_hash (hash_refresh_token env s token)) w.db.refresh_tokens ≡ some session
      → is_fresh env s w.now session ≡ true
      → find (λ u. u.id == session.user_id) w.db.users ≡ some user
      → env.sign_token s.access_secret (claims_at env s (env.uuid_string user.id) w.now) ≡ ok signed
      → exists (λ t. str_eq t.token_hash (next_hash env s w w.drawn)) w.db.refresh_tokens ≡ false
      → (r : AuthResult) × (v : World) × (refresh env s token w ≡ (ok r, v))
  unfolding refresh
  refresh-succeeds token w session user sound filled found fresh known signing new =
      let hash = hash_refresh_token env s token in
      let live : is_live session.id session ≡ true = ground (arith, fresh, ==_refl session.id) in
      rw filled (
        transaction_succeeds "begin refresh tx" (find_session env s hash >>= rotate env s) w sound (
          bind_succeeds (find_session env s hash) (rotate env s) (running w w.db w.drawn)
            (find_session_runs hash session w w.db w.drawn found fresh)
            (rotate_succeeds hash session user w w.db w.drawn found live known signing new)))
