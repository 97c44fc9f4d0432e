-- ===== src/History/Passkeys.antt =====
-- apps/control-plane/internal/auth/webauthn.go over whole runs of the server: a session of the
-- passkeys is good for one login.
use delta_uptime.Prelude.{ℕ, ◌≡◌, ◌≢◌, sym, ap, ◌∙◌, none, ◌==◌, using}
use Prim.Native.String.{len}
use delta_uptime.Input.{invalid}
use delta_uptime.Errors.{ok}
use delta_uptime.Effects.{World}
use delta_uptime.Effects.Inversion.{transaction-ok}
use delta_uptime.Effects.Steps.{lift_step}
use delta_uptime.Service.{Env, Service, AuthResult, WebauthnFinishInput}
use delta_uptime.Service.Session.{parse_uuid}
use delta_uptime.Service.Factor.{enabled_or_raise}
use delta_uptime.Service.PasskeyLogin.{finish_webauthn_login, finish_login_body}
use delta_uptime.Service.PasskeyAdmitted.{finish_webauthn_login-ok}
use delta_uptime.Service.PasskeyMaintains.{finish_webauthn_login-Maintains}
use delta_uptime.Server.{Reach}
use delta_uptime.History.Reach.{Reach-Holds}
use delta_uptime.History.PasskeyRows.{
  IsUsedUp, GivenOut, GivenOut-find, GivenOut-Stable, Past-Stable, IsUsedUp-Stable,
}

module _ (env : Env) (s : Service) where
  finish_closed :
      (input : WebauthnFinishInput) (w : World) {r : AuthResult} {v : World}
      → finish_webauthn_login env s input w ≡ (ok r, v)
      → v.tx ≡ none
  unfolding finish_webauthn_login
  finish_closed input w e =
      using
        (enabled_or_raise env s (len input.credential == 0) (invalid "credential is required") _ w
          e)
        λ (_, r0). using (lift_step _ w (parse_uuid env input.session_id) r0) λ (id, parsed, r1).
          using
            (transaction-ok "begin webauthn login finish tx"
              (finish_login_body env s id input.credential) w r1)
            λ (v1, ran, v-is). ap (λ x. x.tx) v-is

  -- After a login the session is used up.
  finish-IsUsedUp :
      (input : WebauthnFinishInput) (w : World) {r : AuthResult} {v : World}
      → w.tx ≡ none
      → GivenOut w.db.webauthn_sessions w.db.next_id
      → finish_webauthn_login env s input w ≡ (ok r, v)
      → (id : ℕ) × (parse_uuid env input.session_id ≡ ok id)
        × IsUsedUp id v.db.webauthn_sessions v.db.next_id
  finish-IsUsedUp input w closed fresh e =
      using (finish_webauthn_login-ok env s input w e)
        λ (id, parsed, (_, _, _, _, _, _, _, found, _, _, _, _, _, _), gone).
          let before = GivenOut-find id w.db.next_id w.db.webauthn_sessions fresh found in
          let after =
            (finish_webauthn_login-Maintains env s (Past-Stable id) input).at w
              (before, rw closed tt) in
          (id, parsed, (gone, rw (ap (λ x. x.1) e) at after.0))

  -- The counter of the ids stays ahead of the sessions: what `passkey_session_once` takes as its
  -- hypothesis is kept by every run.
  Reach-GivenOut :
      {w v : World}
      → Reach env s w v
      → w.tx ≡ none
      → GivenOut w.db.webauthn_sessions w.db.next_id
      → GivenOut v.db.webauthn_sessions v.db.next_id
  Reach-GivenOut run closed fresh = (Reach-Holds env s GivenOut-Stable run (fresh, rw closed tt)).0

  -- A session of the passkeys is good for one login: after a login by it, whatever requests the
  -- server serves next, no login with the same session succeeds, whatever the browser answers.
  pub passkey_session_once :
      (input : WebauthnFinishInput) (w : World) {r : AuthResult} {v : World}
      → w.tx ≡ none
      → GivenOut w.db.webauthn_sessions w.db.next_id
      → finish_webauthn_login env s input w ≡ (ok r, v)
      → {u : World} → Reach env s v u
      → (again : WebauthnFinishInput) → again.session_id ≡ input.session_id
      → {r' : AuthResult} {x : World} → finish_webauthn_login env s again u ≢ (ok r', x)
  passkey_session_once input w closed fresh e {u} run again same e' =
      using (finish-IsUsedUp input w closed fresh e) λ (id, parsed, used_up).
        using
          (Reach-Holds env s (IsUsedUp-Stable id) run (used_up, rw (finish_closed input w e) tt))
          λ held.
            using (finish_webauthn_login-ok env s again u e')
              λ (id', parsed', (_, _, _, _, _, _, _, found, _, _, _, _, _, _), _).
                let ids : id ≡ id' = cc (sym parsed ∙ ap (parse_uuid env) (sym same) ∙ parsed') in
                cc (sym held.0.0 ∙ rw (sym ids) at found)
