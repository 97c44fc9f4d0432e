-- ===== src/History/Reach.antt =====
-- A property of the database that every statement keeps holds in every state that the server
-- reaches.
use delta_uptime.Database.{Db}
use delta_uptime.Effects.{World, App}
use delta_uptime.Effects.Keeps.{Maintains, Holds, Maintains-bind, Maintains-pure}
use delta_uptime.Service.{Env, Service}
use delta_uptime.Service.Stable.{Stable}
use delta_uptime.Http.Maintains.{
  handle_register-Maintains, handle_login-Maintains, handle_refresh-Maintains, handle_me-Maintains,
  handle_totp_setup-Maintains, handle_totp_enable-Maintains, handle_totp_disable-Maintains,
  handle_organizations-Maintains, handle_organization-Maintains, handle_list_memberships-Maintains,
  handle_create_membership-Maintains, handle_update_membership-Maintains,
  handle_list_api_keys-Maintains, handle_create_api_key-Maintains, handle_revoke_api_key-Maintains,
  handle_list_audit_logs-Maintains,
}
use delta_uptime.Http.PasskeyMaintains.{
  handle_webauthn_register_begin-Maintains, handle_webauthn_register_finish-Maintains,
  handle_webauthn_login_begin-Maintains, handle_webauthn_login_finish-Maintains,
}
use delta_uptime.Server.{
  Request, post_register, post_login, post_refresh, get_me, post_totp_setup, post_totp_enable,
  post_totp_disable, post_webauthn_register_begin, post_webauthn_register_finish,
  post_webauthn_login_begin, post_webauthn_login_finish, get_organizations, get_organization,
  get_memberships, post_membership, patch_membership, get_api_keys, post_api_key, delete_api_key,
  get_audit_logs, handle, Step, serve, pass, change, Reach, here, next, done,
}

done-Maintains : {P : Db → Type 0} {A : Type 0} {m : App A} → Maintains P m → Maintains P (done m)
done-Maintains {m} k = Maintains-bind m _ k (λ a. Maintains-pure tt)

module _ (env : Env) (s : Service) {P : Db → Type 0} (st : Stable P) where
  -- No request breaks what every statement keeps.
  handle-Maintains : (r : Request) → Maintains P (handle env s r)
  unfolding handle
  handle-Maintains (post_register body) = done-Maintains (handle_register-Maintains env s st body)
  handle-Maintains (post_login body) = done-Maintains (handle_login-Maintains env s st body)
  handle-Maintains (post_refresh body) = done-Maintains (handle_refresh-Maintains env s st body)
  handle-Maintains (get_me headers) = done-Maintains (handle_me-Maintains env s st headers)
  handle-Maintains (post_totp_setup headers) =
      done-Maintains (handle_totp_setup-Maintains env s st headers)
  handle-Maintains (post_totp_enable headers body) =
      done-Maintains (handle_totp_enable-Maintains env s st headers body)
  handle-Maintains (post_totp_disable headers body) =
      done-Maintains (handle_totp_disable-Maintains env s st headers body)
  handle-Maintains (post_webauthn_register_begin headers) =
      done-Maintains (handle_webauthn_register_begin-Maintains env s st headers)
  handle-Maintains (post_webauthn_register_finish headers body) =
      done-Maintains (handle_webauthn_register_finish-Maintains env s st headers body)
  handle-Maintains (post_webauthn_login_begin body) =
      done-Maintains (handle_webauthn_login_begin-Maintains env s st body)
  handle-Maintains (post_webauthn_login_finish body) =
      done-Maintains (handle_webauthn_login_finish-Maintains env s st body)
  handle-Maintains (get_organizations headers) =
      done-Maintains (handle_organizations-Maintains env s st headers)
  handle-Maintains (get_organization headers slug) =
      done-Maintains (handle_organization-Maintains env s st headers slug)
  handle-Maintains (get_memberships headers slug) =
      done-Maintains (handle_list_memberships-Maintains env s st headers slug)
  handle-Maintains (post_membership headers slug body) =
      done-Maintains (handle_create_membership-Maintains env s st headers slug body)
  handle-Maintains (patch_membership headers slug user_id body) =
      done-Maintains (handle_update_membership-Maintains env s st headers slug user_id body)
  handle-Maintains (get_api_keys headers slug) =
      done-Maintains (handle_list_api_keys-Maintains env s st headers slug)
  handle-Maintains (post_api_key headers slug body) =
      done-Maintains (handle_create_api_key-Maintains env s st headers slug body)
  handle-Maintains (delete_api_key headers slug id) =
      done-Maintains (handle_revoke_api_key-Maintains env s st headers slug id)
  handle-Maintains (get_audit_logs headers slug limit) =
      done-Maintains (handle_list_audit_logs-Maintains env s st headers slug limit)

  Step-Holds : {w v : World} → Step env s w v → Holds P w → Holds P v
  Step-Holds {w} (serve r) h = (handle-Maintains r).at w h
  Step-Holds (pass n) h = h
  Step-Holds (change faults entropy) h = h

  -- What every statement keeps holds in every state that the server reaches.
  pub Reach-Holds : {w v : World} → Reach env s w v → Holds P w → Holds P v
  Reach-Holds here h = h
  Reach-Holds (next run step) h = Step-Holds step (Reach-Holds run h)
