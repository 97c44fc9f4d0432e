-- ===== src/History/Replay.antt =====
-- `Service.Refresh` of apps/control-plane/internal/auth/service.go: a refresh token works once.
use delta_uptime.Prelude.{
  ℕ, String, ◌≡◌, refl, sym, ap, ◌∙◌, Bool, true, false, none, some, find, arith, str_eq,
  if◌then◌else◌, ◌≢◌, using,
}
use delta_uptime.Errors.{Error, ok, sentinel, wrap, refresh_token_invalid}
use delta_uptime.Text.{trim_space}
use delta_uptime.Input.{invalid}
use delta_uptime.Database.{Db, AuthRefreshToken}
use delta_uptime.Database.Identity.{get_user_by_id}
use delta_uptime.Database.Sessions.{get_auth_refresh_token_by_token_hash, rotate_auth_refresh_token}
use delta_uptime.Effects.{
  World, App, called, in_tx, query, ◌>>=◌, on_error, missing_or, time_now, pure, raise, transaction,
}
use delta_uptime.Effects.Inversion.{bind-ok, pure-ok, transaction-ok}
use delta_uptime.Effects.Steps.{one-ok, tx_step, open_tx_step, kept_by, kept_step, commit_step}
use delta_uptime.Service.Steps.{audit_step}
use delta_uptime.Database.Controls.{create_audit_log}
use delta_uptime.Effects.Keeps.{Holds, maintains_rules}
use delta_uptime.Service.{Env, Service, AuthResult}
use delta_uptime.Service.Tokens.{hash_refresh_token}
use delta_uptime.Service.Session.{organizations_for_user, issue_session_with_model}
use delta_uptime.Service.Refresh.{refresh, rotate, find_session, is_fresh, refresh_entry}
use delta_uptime.Service.Stable.{reading}
use delta_uptime.Service.Reading.{organizations_for_user-Maintains}
use delta_uptime.Service.Maintains.{issue_session_with_model-Maintains}
use delta_uptime.Server.{Reach}
use delta_uptime.History.Reach.{Reach-Holds}
use delta_uptime.History.Tokens.{
  IsSpent, IsSpent-Stable, Located, Located-Stable, has_hash, is_usable,
  rotate_auth_refresh_token-ok,
}

if_pure-ok :
    {A : Type 0} (b : Bool) (x : A) (e : Error) (w : World) {a : A} {w' : World}
    → (if b then pure x else raise e) w ≡ (ok a, w')
    → (b ≡ true) × (x ≡ a) × (w' ≡ w)
unfolding raise
if_pure-ok true x e w h = let (same, end) = pure-ok x w h in (refl, same, end)
if_pure-ok false x e w h = cc h

module _ (env : Env) (s : Service) where
  -- The session that was found, in a transaction that is open on `d`.
  find_session-ok :
      (hash : String) (w : World) (d : Db) {session : AuthRefreshToken} {v : World}
      → w.tx ≡ some d
      → find_session env s hash w ≡ (ok session, v)
      → (find (has_hash hash) d.refresh_tokens ≡ some session)
        × (is_fresh env s w.now session ≡ true)
        × (v ≡ record (called w) { tx = some d })
  unfolding find_session get_auth_refresh_token_by_token_hash time_now called ◌>>=◌
  find_session-ok hash w d opened e =
      let (row, d', got, rest) =
        tx_step _ w (get_auth_refresh_token_by_token_hash hash)
          (missing_or refresh_token_invalid "get refresh token") d opened e in
      let (found, same) = one-ok (find (has_hash hash) d.refresh_tokens) d got in
      let (fresh, is, end) =
        if_pure-ok (is_fresh env s w.now row) row (sentinel refresh_token_invalid) _ rest in
      (rw (sym is) found, rw (sym is) fresh, rw (sym same) end)

  rotate-ok :
      (hash : String) (session : AuthRefreshToken) (w : World) {r : AuthResult} {v : World}
      → Holds (λ d. Located hash session.id d.refresh_tokens) w
      → rotate env s session w ≡ (ok r, v)
      → IsSpent hash v.db.refresh_tokens
  unfolding rotate called
  rotate-ok hash session w h e =
      using
        (kept_step _ w
          (on_error (query in_tx (get_user_by_id session.user_id)) (wrap "get refresh user"))
          (search (maintains_rules, reading)) h e)
        λ (user, v1, h1, _, r1).
          using
            (kept_step _ v1 (organizations_for_user env in_tx user.id)
              (organizations_for_user-Maintains env in_tx user.id) h1 r1)
            λ (orgs, v2, h2, _, r2).
              using
                (kept_step _ v2 (issue_session_with_model env s in_tx user orgs)
                  (issue_session_with_model-Maintains env s (Located-Stable hash session.id) in_tx
                    user orgs)
                  h2 r2)
                λ (issued, v3, h3, _, r3).
                  using
                    (open_tx_step _ v3 (rotate_auth_refresh_token session.id issued.1.id)
                      (missing_or refresh_token_invalid "rotate refresh token") r3)
                    λ (row, d, d', opened, rotated, r4).
                      using
                        (rotate_auth_refresh_token-ok hash session.id issued.1.id v3.now d
                          (rw opened at h3.1) rotated)
                        λ spent.
                          using
                            (audit_step _ (record (called v3) { tx = some d' })
                              (refresh_entry env s user session) d' refl r4)
                            λ (log, d2, logged, r5).
                              using
                                (kept_by {P = λ x. IsSpent hash x.refresh_tokens}
                                  (create_audit_log (refresh_entry env s user session)) v3.now d'
                                  ((IsSpent-Stable hash).on_create_audit_log
                                    (refresh_entry env s user session))
                                  logged spent)
                                λ kept.
                                  using
                                    (commit_step _
                                      (record (called (record (called v3) { tx = some d' })) {
                                        tx = some d2;
                                      })
                                      (wrap "commit refresh tx") d2 refl r5)
                                    λ r6. using (pure-ok issued.0 _ r6) λ (_, end). rw end kept

  found_fresh-ok :
      (hash : String) (w : World) {r : AuthResult} {v : World}
      → (find_session env s hash >>= rotate env s) (record (called w) { tx = some w.db })
        ≡ (ok r, v)
      → (session : AuthRefreshToken) × (find (has_hash hash) w.db.refresh_tokens ≡ some session)
        × (is_fresh env s w.now session ≡ true)
        × IsSpent hash v.db.refresh_tokens
  unfolding called
  found_fresh-ok hash w e =
      using
        (bind-ok (find_session env s hash) (rotate env s) (record (called w) { tx = some w.db }) e)
        λ (session, v1, e1, rest).
          using (find_session-ok hash (record (called w) { tx = some w.db }) w.db refl e1)
            λ (found, fresh, v1-is). (
              session,
              found,
              fresh,
              rotate-ok hash session (record (called (called w)) { tx = some w.db })
                  ((session, found, refl), (session, found, refl)) (rw v1-is at rest),
            )

  unless-ok :
      (b : Bool) (e : Error) (m : App AuthResult) (w : World) {r : AuthResult} {v : World}
      → (if b then raise e else m) w ≡ (ok r, v)
      → m w ≡ (ok r, v)
  unfolding raise
  unless-ok true e m w h = cc h
  unless-ok false e m w h = h

  -- A refresh that succeeds has found a session that was unused, unrevoked and not past its expiry,
  -- and leaves the session of this token used or revoked.
  pub refresh-ok :
      (token : String) (w : World) {r : AuthResult} {v : World}
      → refresh env s token w ≡ (ok r, v)
      → (session : AuthRefreshToken) × (find
            (has_hash (hash_refresh_token env s token))
            w.db.refresh_tokens
          ≡ some session)
        × (is_fresh env s w.now session ≡ true)
        × IsSpent (hash_refresh_token env s token) v.db.refresh_tokens
  unfolding refresh
  refresh-ok token w e =
      let hash = hash_refresh_token env s token in
      let body = find_session env s hash >>= rotate env s in
      using
        (unless-ok (str_eq (trim_space token) "") (invalid "refresh token is required")
          (transaction "begin refresh tx" body) w e)
        λ e1. using (transaction-ok "begin refresh tx" body w e1) λ (v1, ran, v-is).
          using (found_fresh-ok hash w ran)
            λ (session, found, fresh, spent). (session, found, fresh, rw v-is spent)

  refresh_closed :
      (token : String) (w : World) {r : AuthResult} {v : World}
      → refresh env s token w ≡ (ok r, v)
      → v.tx ≡ none
  unfolding refresh
  refresh_closed token w e =
      let body = find_session env s (hash_refresh_token env s token) >>= rotate env s in
      using
        (unless-ok (str_eq (trim_space token) "") (invalid "refresh token is required")
          (transaction "begin refresh tx" body) w e)
        λ e1.
          using (transaction-ok "begin refresh tx" body w e1) λ (v1, ran, v-is). ap (λ x. x.tx) v-is

  stale_not_fresh :
      (now : ℕ) (session : AuthRefreshToken)
      → is_usable session ≡ false
      → is_fresh env s now session ≡ true
      → ⊥
  stale_not_fresh now session = ground arith

  IsSpent-refresh :
      (token : String) (u : World) {r : AuthResult} {v : World}
      → IsSpent (hash_refresh_token env s token) u.db.refresh_tokens
      → refresh env s token u ≢ (ok r, v)
  IsSpent-refresh token u (t, known, dead) e =
      using (refresh-ok token u e) λ (session, found, fresh, _).
        let same : t ≡ session = cc (sym known ∙ found) in
        stale_not_fresh u.now t dead (rw same fresh)

  -- A refresh token is good for one refresh: after it succeeded, whatever requests the server
  -- serves next and however they interleave with the passing of time and with failures,
  -- presenting the same token never succeeds again.
  pub refresh_once :
      (token : String) (w : World) {r : AuthResult} {v : World}
      → refresh env s token w ≡ (ok r, v)
      → {u : World} → Reach env s v u
      → {r' : AuthResult} {x : World} → refresh env s token u ≢ (ok r', x)
  refresh_once token w e run = using (refresh-ok token w e) λ (session, found, fresh, spent).
      using (refresh_closed token w e) λ closed.
        using
          (Reach-Holds env s (IsSpent-Stable (hash_refresh_token env s token)) run
            (spent, rw closed tt))
          λ held. IsSpent-refresh token _ held.0
