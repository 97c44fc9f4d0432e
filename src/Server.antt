-- ===== src/Server.antt =====
-- apps/control-plane/internal/auth/http.go: the routes of `NewHandler`, as the requests that the
-- server serves one after the other, and the states that a run of them reaches.
use delta_uptime.Prelude.{ℕ, ◌+◌, String, Bool, List}
use delta_uptime.Errors.{Result}
use delta_uptime.Input.{RegisterInput}
use delta_uptime.Effects.{World, App, ◌>>◌, pure}
use delta_uptime.Service.{Env, Service, LoginInput, WebauthnFinishInput}
use delta_uptime.Http.{
  Headers, handle_register, handle_login, handle_refresh, handle_me, handle_totp_setup,
  handle_totp_enable, handle_totp_disable, handle_organizations, handle_organization,
  handle_list_memberships, handle_create_membership, handle_update_membership, handle_list_api_keys,
  handle_create_api_key, handle_revoke_api_key, handle_list_audit_logs,
}
use delta_uptime.Http.Passkeys.{
  handle_webauthn_register_begin, handle_webauthn_register_finish, handle_webauthn_login_begin,
  handle_webauthn_login_finish,
}

-- A request with its decoded body, or the decoder's error; texts are the path's values, in order.
pub data Request : Type 0 where
  post_register : Result RegisterInput → Request
  post_login : Result LoginInput → Request
  post_refresh : Result String → Request
  get_me : Headers → Request
  post_totp_setup : Headers → Request
  post_totp_enable post_totp_disable : Headers → Result String → Request
  post_webauthn_register_begin : Headers → Request
  post_webauthn_register_finish : Headers → Result WebauthnFinishInput → Request
  post_webauthn_login_begin : Result String → Request
  post_webauthn_login_finish : Result WebauthnFinishInput → Request
  get_organizations : Headers → Request
  get_organization get_memberships : Headers → String → Request
  post_membership : Headers → String → Result (String × String) → Request
  patch_membership : Headers → String → String → Result String → Request
  get_api_keys : Headers → String → Request
  post_api_key : Headers → String → Result (String × List String) → Request
  delete_api_key : Headers → String → String → Request
  get_audit_logs : Headers → String → String → Request

abbrev pub done : {A : Type 0} → App A → App (Unit {0})
done m = m >> pure tt

module _ (env : Env) (s : Service) where
  -- The handler of each route, with its reply dropped.
  unfoldable pub handle : Request → App (Unit {0})
  handle (post_register body) = done (handle_register env s body)
  handle (post_login body) = done (handle_login env s body)
  handle (post_refresh body) = done (handle_refresh env s body)
  handle (get_me headers) = done (handle_me env s headers)
  handle (post_totp_setup headers) = done (handle_totp_setup env s headers)
  handle (post_totp_enable headers body) = done (handle_totp_enable env s headers body)
  handle (post_totp_disable headers body) = done (handle_totp_disable env s headers body)
  handle (post_webauthn_register_begin headers) =
      done (handle_webauthn_register_begin env s headers)
  handle (post_webauthn_register_finish headers body) =
      done (handle_webauthn_register_finish env s headers body)
  handle (post_webauthn_login_begin body) = done (handle_webauthn_login_begin env s body)
  handle (post_webauthn_login_finish body) = done (handle_webauthn_login_finish env s body)
  handle (get_organizations headers) = done (handle_organizations env s headers)
  handle (get_organization headers slug) = done (handle_organization env s headers slug)
  handle (get_memberships headers slug) = done (handle_list_memberships env s headers slug)
  handle (post_membership headers slug body) =
      done (handle_create_membership env s headers slug body)
  handle (patch_membership headers slug user_id body) =
      done (handle_update_membership env s headers slug user_id body)
  handle (get_api_keys headers slug) = done (handle_list_api_keys env s headers slug)
  handle (post_api_key headers slug body) = done (handle_create_api_key env s headers slug body)
  handle (delete_api_key headers slug id) = done (handle_revoke_api_key env s headers slug id)
  handle (get_audit_logs headers slug limit) =
      done (handle_list_audit_logs env s headers slug limit)

  -- One step of the server: a request is served, time passes, or the outside changes which calls
  -- fail and what bytes are drawn.
  pub data Step (w : World) : World → Type 0 where
    serve : (r : Request) → Step w (handle r w).1
    pass : (n : ℕ) → Step w (record w { now = w.now + n })
    change :
        (faults : List Bool) (entropy : ℕ → ℕ)
        → Step w (record w { faults = faults; entropy = entropy })

  pub data Reach (w : World) : World → Type 0 where
    here : Reach w w
    next : {u v : World} → Reach w u → Step u v → Reach w v
