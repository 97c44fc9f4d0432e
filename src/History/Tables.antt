-- ===== src/History/Tables.antt =====
-- A property of one table is kept by every statement if the statements that write to the table keep
-- it: the frames take care of the others.
use delta_uptime.Prelude.{ℕ, String, Bool, Option, List}
use delta_uptime.Database.{User, AuthRefreshToken, ApiKey, AuditLog, Membership}
use delta_uptime.Database.Identity.{
  create_user, create_membership, update_membership_role, set_user_webauthn_handle,
}
use delta_uptime.Database.Sessions.{create_auth_refresh_token, rotate_auth_refresh_token}
use delta_uptime.Database.Controls.{
  AuditParams, create_api_key, touch_api_key_last_used, revoke_api_key, create_audit_log,
}
use delta_uptime.Database.Frames.{
  create_user_frame, create_organization_frame, create_membership_frame,
  update_membership_role_frame, create_auth_refresh_token_frame, rotate_auth_refresh_token_frame,
  upsert_user_totp_credential_frame, enable_user_totp_credential_frame,
  delete_user_totp_credential_frame, create_api_key_frame, touch_api_key_last_used_frame,
  revoke_api_key_frame, create_audit_log_frame, set_user_webauthn_handle_frame,
  create_auth_webauthn_credential_frame, update_auth_webauthn_credential_frame,
  create_auth_webauthn_session_frame, delete_auth_webauthn_session_frame,
}
use delta_uptime.Effects.Keeps.{Keeps}
use delta_uptime.Service.Stable.{Stable}

module _ (Q : List AuthRefreshToken → Type 0) where
  pub Stable_of_tokens :
      ((user : ℕ) (hash : String) (expires : ℕ)
        → Keeps (λ d. Q d.refresh_tokens) (create_auth_refresh_token user hash expires))
      → ((id replacement : ℕ)
          → Keeps (λ d. Q d.refresh_tokens) (rotate_auth_refresh_token id replacement))
      → Stable (λ d. Q d.refresh_tokens)
  Stable_of_tokens k0 k1 = record {
    on_create_user = λ email hash name admin. record {
      at = λ now d h. rw (create_user_frame now d email hash name admin) h;
    };
    on_create_organization =
        λ slug name. record { at = λ now d h. rw (create_organization_frame now d slug name) h };
    on_create_membership = λ org user role. record {
      at = λ now d h. rw (create_membership_frame now d org user role) h;
    };
    on_update_membership_role = λ org user role. record {
      at = λ now d h. rw (update_membership_role_frame now d org user role) h;
    };
    on_create_refresh_token = k0;
    on_rotate = k1;
    on_upsert_totp = λ user ciphertext nonce. record {
      at = λ now d h. rw (upsert_user_totp_credential_frame now d user ciphertext nonce) h;
    };
    on_enable_totp =
        λ user. record { at = λ now d h. rw (enable_user_totp_credential_frame now d user) h };
    on_delete_totp =
        λ user. record { at = λ now d h. rw (delete_user_totp_credential_frame now d user) h };
    on_create_api_key = λ org creator name prefix hash scopes. record {
      at = λ now d h. rw (create_api_key_frame now d org creator name prefix hash scopes) h;
    };
    on_touch_api_key =
        λ id. record { at = λ now d h. rw (touch_api_key_last_used_frame now d id) h };
    on_revoke_api_key = λ id. record { at = λ now d h. rw (revoke_api_key_frame now d id) h };
    on_create_audit_log = λ arg. record { at = λ now d h. rw (create_audit_log_frame now d arg) h };
    on_set_handle = λ id handle. record {
      at = λ now d h. rw (set_user_webauthn_handle_frame now d id handle) h;
    };
    on_create_passkey = λ user id ciphertext nonce. record {
      at = λ now d h. rw (create_auth_webauthn_credential_frame now d user id ciphertext nonce) h;
    };
    on_update_passkey = λ id ciphertext nonce. record {
      at = λ now d h. rw (update_auth_webauthn_credential_frame now d id ciphertext nonce) h;
    };
    on_create_passkey_session = λ user flow session_data expires. record {
      at =
          λ now d h. rw (create_auth_webauthn_session_frame now d user flow session_data expires) h;
    };
    on_delete_passkey_session =
        λ id. record { at = λ now d h. rw (delete_auth_webauthn_session_frame now d id) h };
  }

module _ (Q : List ApiKey → Type 0) where
  pub Stable_of_keys :
      ((org : ℕ) (creator : Option ℕ) (name prefix hash : String) (scopes : List String)
        → Keeps (λ d. Q d.api_keys) (create_api_key org creator name prefix hash scopes))
      → ((id : ℕ) → Keeps (λ d. Q d.api_keys) (touch_api_key_last_used id))
      → ((id : ℕ) → Keeps (λ d. Q d.api_keys) (revoke_api_key id))
      → Stable (λ d. Q d.api_keys)
  Stable_of_keys k0 k1 k2 = record {
    on_create_user = λ email hash name admin. record {
      at = λ now d h. rw (create_user_frame now d email hash name admin) h;
    };
    on_create_organization =
        λ slug name. record { at = λ now d h. rw (create_organization_frame now d slug name) h };
    on_create_membership = λ org user role. record {
      at = λ now d h. rw (create_membership_frame now d org user role) h;
    };
    on_update_membership_role = λ org user role. record {
      at = λ now d h. rw (update_membership_role_frame now d org user role) h;
    };
    on_create_refresh_token = λ user hash expires. record {
      at = λ now d h. rw (create_auth_refresh_token_frame now d user hash expires) h;
    };
    on_rotate = λ id replacement. record {
      at = λ now d h. rw (rotate_auth_refresh_token_frame now d id replacement) h;
    };
    on_upsert_totp = λ user ciphertext nonce. record {
      at = λ now d h. rw (upsert_user_totp_credential_frame now d user ciphertext nonce) h;
    };
    on_enable_totp =
        λ user. record { at = λ now d h. rw (enable_user_totp_credential_frame now d user) h };
    on_delete_totp =
        λ user. record { at = λ now d h. rw (delete_user_totp_credential_frame now d user) h };
    on_create_api_key = k0;
    on_touch_api_key = k1;
    on_revoke_api_key = k2;
    on_create_audit_log = λ arg. record { at = λ now d h. rw (create_audit_log_frame now d arg) h };
    on_set_handle = λ id handle. record {
      at = λ now d h. rw (set_user_webauthn_handle_frame now d id handle) h;
    };
    on_create_passkey = λ user id ciphertext nonce. record {
      at = λ now d h. rw (create_auth_webauthn_credential_frame now d user id ciphertext nonce) h;
    };
    on_update_passkey = λ id ciphertext nonce. record {
      at = λ now d h. rw (update_auth_webauthn_credential_frame now d id ciphertext nonce) h;
    };
    on_create_passkey_session = λ user flow session_data expires. record {
      at =
          λ now d h. rw (create_auth_webauthn_session_frame now d user flow session_data expires) h;
    };
    on_delete_passkey_session =
        λ id. record { at = λ now d h. rw (delete_auth_webauthn_session_frame now d id) h };
  }

module _ (Q : List AuditLog → Type 0) where
  pub Stable_of_logs :
      ((arg : AuditParams) → Keeps (λ d. Q d.audit_logs) (create_audit_log arg))
      → Stable (λ d. Q d.audit_logs)
  Stable_of_logs k0 = record {
    on_create_user = λ email hash name admin. record {
      at = λ now d h. rw (create_user_frame now d email hash name admin) h;
    };
    on_create_organization =
        λ slug name. record { at = λ now d h. rw (create_organization_frame now d slug name) h };
    on_create_membership = λ org user role. record {
      at = λ now d h. rw (create_membership_frame now d org user role) h;
    };
    on_update_membership_role = λ org user role. record {
      at = λ now d h. rw (update_membership_role_frame now d org user role) h;
    };
    on_create_refresh_token = λ user hash expires. record {
      at = λ now d h. rw (create_auth_refresh_token_frame now d user hash expires) h;
    };
    on_rotate = λ id replacement. record {
      at = λ now d h. rw (rotate_auth_refresh_token_frame now d id replacement) h;
    };
    on_upsert_totp = λ user ciphertext nonce. record {
      at = λ now d h. rw (upsert_user_totp_credential_frame now d user ciphertext nonce) h;
    };
    on_enable_totp =
        λ user. record { at = λ now d h. rw (enable_user_totp_credential_frame now d user) h };
    on_delete_totp =
        λ user. record { at = λ now d h. rw (delete_user_totp_credential_frame now d user) h };
    on_create_api_key = λ org creator name prefix hash scopes. record {
      at = λ now d h. rw (create_api_key_frame now d org creator name prefix hash scopes) h;
    };
    on_touch_api_key =
        λ id. record { at = λ now d h. rw (touch_api_key_last_used_frame now d id) h };
    on_revoke_api_key = λ id. record { at = λ now d h. rw (revoke_api_key_frame now d id) h };
    on_create_audit_log = k0;
    on_set_handle = λ id handle. record {
      at = λ now d h. rw (set_user_webauthn_handle_frame now d id handle) h;
    };
    on_create_passkey = λ user id ciphertext nonce. record {
      at = λ now d h. rw (create_auth_webauthn_credential_frame now d user id ciphertext nonce) h;
    };
    on_update_passkey = λ id ciphertext nonce. record {
      at = λ now d h. rw (update_auth_webauthn_credential_frame now d id ciphertext nonce) h;
    };
    on_create_passkey_session = λ user flow session_data expires. record {
      at =
          λ now d h. rw (create_auth_webauthn_session_frame now d user flow session_data expires) h;
    };
    on_delete_passkey_session =
        λ id. record { at = λ now d h. rw (delete_auth_webauthn_session_frame now d id) h };
  }

module _ (Q : List Membership → Type 0) where
  pub Stable_of_memberships :
      ((org user : ℕ) (role : String)
        → Keeps (λ d. Q d.memberships) (create_membership org user role))
      → ((org user : ℕ) (role : String)
          → Keeps (λ d. Q d.memberships) (update_membership_role org user role))
      → Stable (λ d. Q d.memberships)
  Stable_of_memberships k0 k1 = record {
    on_create_user = λ email hash name admin. record {
      at = λ now d h. rw (create_user_frame now d email hash name admin) h;
    };
    on_create_organization =
        λ slug name. record { at = λ now d h. rw (create_organization_frame now d slug name) h };
    on_create_membership = k0;
    on_update_membership_role = k1;
    on_create_refresh_token = λ user hash expires. record {
      at = λ now d h. rw (create_auth_refresh_token_frame now d user hash expires) h;
    };
    on_rotate = λ id replacement. record {
      at = λ now d h. rw (rotate_auth_refresh_token_frame now d id replacement) h;
    };
    on_upsert_totp = λ user ciphertext nonce. record {
      at = λ now d h. rw (upsert_user_totp_credential_frame now d user ciphertext nonce) h;
    };
    on_enable_totp =
        λ user. record { at = λ now d h. rw (enable_user_totp_credential_frame now d user) h };
    on_delete_totp =
        λ user. record { at = λ now d h. rw (delete_user_totp_credential_frame now d user) h };
    on_create_api_key = λ org creator name prefix hash scopes. record {
      at = λ now d h. rw (create_api_key_frame now d org creator name prefix hash scopes) h;
    };
    on_touch_api_key =
        λ id. record { at = λ now d h. rw (touch_api_key_last_used_frame now d id) h };
    on_revoke_api_key = λ id. record { at = λ now d h. rw (revoke_api_key_frame now d id) h };
    on_create_audit_log = λ arg. record { at = λ now d h. rw (create_audit_log_frame now d arg) h };
    on_set_handle = λ id handle. record {
      at = λ now d h. rw (set_user_webauthn_handle_frame now d id handle) h;
    };
    on_create_passkey = λ user id ciphertext nonce. record {
      at = λ now d h. rw (create_auth_webauthn_credential_frame now d user id ciphertext nonce) h;
    };
    on_update_passkey = λ id ciphertext nonce. record {
      at = λ now d h. rw (update_auth_webauthn_credential_frame now d id ciphertext nonce) h;
    };
    on_create_passkey_session = λ user flow session_data expires. record {
      at =
          λ now d h. rw (create_auth_webauthn_session_frame now d user flow session_data expires) h;
    };
    on_delete_passkey_session =
        λ id. record { at = λ now d h. rw (delete_auth_webauthn_session_frame now d id) h };
  }

module _ (Q : List User → Type 0) where
  pub Stable_of_users :
      ((email hash name : String) (admin : Bool)
        → Keeps (λ d. Q d.users) (create_user email hash name admin))
      → ((id : ℕ) (handle : List ℕ) → Keeps (λ d. Q d.users) (set_user_webauthn_handle id handle))
      → Stable (λ d. Q d.users)
  Stable_of_users k0 k1 = record {
    on_create_user = k0;
    on_create_organization =
        λ slug name. record { at = λ now d h. rw (create_organization_frame now d slug name) h };
    on_create_membership = λ org user role. record {
      at = λ now d h. rw (create_membership_frame now d org user role) h;
    };
    on_update_membership_role = λ org user role. record {
      at = λ now d h. rw (update_membership_role_frame now d org user role) h;
    };
    on_create_refresh_token = λ user hash expires. record {
      at = λ now d h. rw (create_auth_refresh_token_frame now d user hash expires) h;
    };
    on_rotate = λ id replacement. record {
      at = λ now d h. rw (rotate_auth_refresh_token_frame now d id replacement) h;
    };
    on_upsert_totp = λ user ciphertext nonce. record {
      at = λ now d h. rw (upsert_user_totp_credential_frame now d user ciphertext nonce) h;
    };
    on_enable_totp =
        λ user. record { at = λ now d h. rw (enable_user_totp_credential_frame now d user) h };
    on_delete_totp =
        λ user. record { at = λ now d h. rw (delete_user_totp_credential_frame now d user) h };
    on_create_api_key = λ org creator name prefix hash scopes. record {
      at = λ now d h. rw (create_api_key_frame now d org creator name prefix hash scopes) h;
    };
    on_touch_api_key =
        λ id. record { at = λ now d h. rw (touch_api_key_last_used_frame now d id) h };
    on_revoke_api_key = λ id. record { at = λ now d h. rw (revoke_api_key_frame now d id) h };
    on_create_audit_log = λ arg. record { at = λ now d h. rw (create_audit_log_frame now d arg) h };
    on_set_handle = k1;
    on_create_passkey = λ user id ciphertext nonce. record {
      at = λ now d h. rw (create_auth_webauthn_credential_frame now d user id ciphertext nonce) h;
    };
    on_update_passkey = λ id ciphertext nonce. record {
      at = λ now d h. rw (update_auth_webauthn_credential_frame now d id ciphertext nonce) h;
    };
    on_create_passkey_session = λ user flow session_data expires. record {
      at =
          λ now d h. rw (create_auth_webauthn_session_frame now d user flow session_data expires) h;
    };
    on_delete_passkey_session =
        λ id. record { at = λ now d h. rw (delete_auth_webauthn_session_frame now d id) h };
  }
