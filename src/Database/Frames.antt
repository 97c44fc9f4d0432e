-- ===== src/Database/Frames.antt =====
-- Which tables each writing statement may change.
use delta_uptime.Prelude.{ℕ, String, Bool, ◌≡◌, refl, Option, List, arith}
use delta_uptime.Database.{Db}
use delta_uptime.Database.Identity.{
  create_user, create_organization, create_membership, update_membership_role,
  set_user_webauthn_handle,
}
use delta_uptime.Database.Sessions.{create_auth_refresh_token, rotate_auth_refresh_token}
use delta_uptime.Database.Controls.{
  AuditParams, upsert_user_totp_credential, enable_user_totp_credential,
  delete_user_totp_credential, create_api_key, touch_api_key_last_used, revoke_api_key,
  create_audit_log,
}
use delta_uptime.Database.Passkeys.{
  create_auth_webauthn_credential, update_auth_webauthn_credential, create_auth_webauthn_session,
  delete_auth_webauthn_session,
}

module _ (now : ℕ) (d : Db) where
  pub create_user_frame :
      (email hash name : String) (admin : Bool)
      → let d' = (create_user email hash name admin now d).1 in
        d' ≡ record d { users = d'.users; next_id = d'.next_id }
  unfolding create_user
  create_user_frame email hash name admin = ground arith

  pub create_organization_frame :
      (slug name : String)
      → let d' = (create_organization slug name now d).1 in
        d' ≡ record d { organizations = d'.organizations; next_id = d'.next_id }
  unfolding create_organization
  create_organization_frame slug name = ground arith

  pub create_membership_frame :
      (org user : ℕ) (role : String)
      → let d' = (create_membership org user role now d).1 in
        d' ≡ record d { memberships = d'.memberships; next_id = d'.next_id }
  unfolding create_membership
  create_membership_frame org user role = ground arith

  pub update_membership_role_frame :
      (org user : ℕ) (role : String)
      → let d' = (update_membership_role org user role now d).1 in
        d' ≡ record d { memberships = d'.memberships }
  unfolding update_membership_role
  update_membership_role_frame org user role = ground arith

  pub create_auth_refresh_token_frame :
      (user : ℕ) (hash : String) (expires : ℕ)
      → let d' = (create_auth_refresh_token user hash expires now d).1 in
        d' ≡ record d { refresh_tokens = d'.refresh_tokens; next_id = d'.next_id }
  unfolding create_auth_refresh_token
  create_auth_refresh_token_frame user hash expires = ground arith

  pub rotate_auth_refresh_token_frame :
      (id replacement : ℕ)
      → let d' = (rotate_auth_refresh_token id replacement now d).1 in
        d' ≡ record d { refresh_tokens = d'.refresh_tokens }
  unfolding rotate_auth_refresh_token
  rotate_auth_refresh_token_frame id replacement = ground arith

  pub upsert_user_totp_credential_frame :
      (user : ℕ) (ciphertext nonce : List ℕ)
      → let d' = (upsert_user_totp_credential user ciphertext nonce now d).1 in
        d' ≡ record d { totp_credentials = d'.totp_credentials }
  unfolding upsert_user_totp_credential
  upsert_user_totp_credential_frame user ciphertext nonce = ground arith

  pub enable_user_totp_credential_frame :
      (user : ℕ)
      → let d' = (enable_user_totp_credential user now d).1 in
        d' ≡ record d { totp_credentials = d'.totp_credentials }
  unfolding enable_user_totp_credential
  enable_user_totp_credential_frame user = ground arith

  pub delete_user_totp_credential_frame :
      (user : ℕ)
      → let d' = (delete_user_totp_credential user now d).1 in
        d' ≡ record d { totp_credentials = d'.totp_credentials }
  unfolding delete_user_totp_credential
  delete_user_totp_credential_frame user = refl

  pub create_api_key_frame :
      (org : ℕ) (creator : Option ℕ) (name prefix hash : String) (scopes : List String)
      → let d' = (create_api_key org creator name prefix hash scopes now d).1 in
        d' ≡ record d { api_keys = d'.api_keys; next_id = d'.next_id }
  unfolding create_api_key
  create_api_key_frame org creator name prefix hash scopes = ground arith

  pub touch_api_key_last_used_frame :
      (id : ℕ)
      → let d' = (touch_api_key_last_used id now d).1 in d' ≡ record d { api_keys = d'.api_keys }
  unfolding touch_api_key_last_used
  touch_api_key_last_used_frame id = ground arith

  pub revoke_api_key_frame :
      (id : ℕ) → let d' = (revoke_api_key id now d).1 in d' ≡ record d { api_keys = d'.api_keys }
  unfolding revoke_api_key
  revoke_api_key_frame id = ground arith

  pub create_audit_log_frame :
      (arg : AuditParams)
      → let d' = (create_audit_log arg now d).1 in
        d' ≡ record d { audit_logs = d'.audit_logs; next_id = d'.next_id }
  unfolding create_audit_log
  create_audit_log_frame arg = ground arith

  pub set_user_webauthn_handle_frame :
      (id : ℕ) (handle : List ℕ)
      → let d' = (set_user_webauthn_handle id handle now d).1 in d' ≡ record d { users = d'.users }
  unfolding set_user_webauthn_handle
  set_user_webauthn_handle_frame id handle = ground arith

  pub create_auth_webauthn_credential_frame :
      (user : ℕ) (id ciphertext nonce : List ℕ)
      → let d' = (create_auth_webauthn_credential user id ciphertext nonce now d).1 in
        d' ≡ record d { webauthn_credentials = d'.webauthn_credentials; next_id = d'.next_id }
  unfolding create_auth_webauthn_credential
  create_auth_webauthn_credential_frame user id ciphertext nonce = ground arith

  pub update_auth_webauthn_credential_frame :
      (id : ℕ) (ciphertext nonce : List ℕ)
      → let d' = (update_auth_webauthn_credential id ciphertext nonce now d).1 in
        d' ≡ record d { webauthn_credentials = d'.webauthn_credentials }
  unfolding update_auth_webauthn_credential
  update_auth_webauthn_credential_frame id ciphertext nonce = ground arith

  pub create_auth_webauthn_session_frame :
      (user : ℕ) (flow session_data : String) (expires : ℕ)
      → let d' = (create_auth_webauthn_session user flow session_data expires now d).1 in
        d' ≡ record d { webauthn_sessions = d'.webauthn_sessions; next_id = d'.next_id }
  unfolding create_auth_webauthn_session
  create_auth_webauthn_session_frame user flow session_data expires = ground arith

  pub delete_auth_webauthn_session_frame :
      (id : ℕ)
      → let d' = (delete_auth_webauthn_session id now d).1 in
        d' ≡ record d { webauthn_sessions = d'.webauthn_sessions }
  unfolding delete_auth_webauthn_session
  delete_auth_webauthn_session_frame id = refl
