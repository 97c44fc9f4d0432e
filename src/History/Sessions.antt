-- ===== src/History/Sessions.antt =====
-- A property of the sessions of the passkeys and of the counter of the ids is kept by every
-- statement if the statements that write to the table keep it.
use delta_uptime.Prelude.{ℕ, ◌≤◌, String, Bool, Option, List, arith}
use delta_uptime.Database.{Db, AuthWebauthnSession}
use delta_uptime.Database.Identity.{create_user, create_organization, create_membership}
use delta_uptime.Database.Sessions.{create_auth_refresh_token}
use delta_uptime.Database.Controls.{create_api_key, create_audit_log, AuditParams}
use delta_uptime.Database.Passkeys.{
  create_auth_webauthn_credential, create_auth_webauthn_session, delete_auth_webauthn_session,
}
use delta_uptime.Database.Frames.{
  create_user_frame, create_organization_frame, create_membership_frame,
  update_membership_role_frame, create_auth_refresh_token_frame, rotate_auth_refresh_token_frame,
  upsert_user_totp_credential_frame, enable_user_totp_credential_frame,
  delete_user_totp_credential_frame, create_api_key_frame, touch_api_key_last_used_frame,
  revoke_api_key_frame, create_audit_log_frame, set_user_webauthn_handle_frame,
  create_auth_webauthn_credential_frame, update_auth_webauthn_credential_frame,
}
use delta_uptime.Effects.Keeps.{Keeps}
use delta_uptime.Service.Stable.{Stable}

-- Ids are given out in order: no statement takes the counter back.
module _ (now : ℕ) (d : Db) where
  create_user_grows :
      (email hash name : String) (admin : Bool)
      → d.next_id ≤ (create_user email hash name admin now d).1.next_id
  unfolding create_user
  create_user_grows email hash name admin = ground arith

  create_organization_grows :
      (slug name : String) → d.next_id ≤ (create_organization slug name now d).1.next_id
  unfolding create_organization
  create_organization_grows slug name = ground arith

  create_membership_grows :
      (org user : ℕ) (role : String) → d.next_id ≤ (create_membership org user role now d).1.next_id
  unfolding create_membership
  create_membership_grows org user role = ground arith

  create_auth_refresh_token_grows :
      (user : ℕ) (hash : String) (expires : ℕ)
      → d.next_id ≤ (create_auth_refresh_token user hash expires now d).1.next_id
  unfolding create_auth_refresh_token
  create_auth_refresh_token_grows user hash expires = ground arith

  create_api_key_grows :
      (org : ℕ) (creator : Option ℕ) (name prefix hash : String) (scopes : List String)
      → d.next_id ≤ (create_api_key org creator name prefix hash scopes now d).1.next_id
  unfolding create_api_key
  create_api_key_grows org creator name prefix hash scopes = ground arith

  create_audit_log_grows : (arg : AuditParams) → d.next_id ≤ (create_audit_log arg now d).1.next_id
  unfolding create_audit_log
  create_audit_log_grows arg = ground arith

  create_passkey_grows :
      (user : ℕ) (id ciphertext nonce : List ℕ)
      → d.next_id ≤ (create_auth_webauthn_credential user id ciphertext nonce now d).1.next_id
  unfolding create_auth_webauthn_credential
  create_passkey_grows user id ciphertext nonce = ground arith

-- A property of the sessions of the passkeys and of the counter of the ids.
module _ (Q : List AuthWebauthnSession → ℕ → Type 0)
    (grow : (sessions : List AuthWebauthnSession) (m n : ℕ)
      → m ≤ n
      → Q sessions m
      → Q sessions n) where
  abbrev pub OfSessions : Db → Type 0
  OfSessions d = Q d.webauthn_sessions d.next_id

  pub sessions-Stable :
      ((user : ℕ) (flow session_data : String) (expires : ℕ)
        → Keeps OfSessions (create_auth_webauthn_session user flow session_data expires))
      → ((id : ℕ) → Keeps OfSessions (delete_auth_webauthn_session id))
      → Stable OfSessions
  sessions-Stable k0 k1 = record {
    on_create_user = λ email hash name admin. record {
      at = λ now d h.
          rw (create_user_frame now d email hash name admin)
            (grow _ _ _ (create_user_grows now d email hash name admin) h);
    };
    on_create_organization = λ slug name. record {
      at = λ now d h.
          rw (create_organization_frame now d slug name)
            (grow _ _ _ (create_organization_grows now d slug name) h);
    };
    on_create_membership = λ org user role. record {
      at = λ now d h.
          rw (create_membership_frame now d org user role)
            (grow _ _ _ (create_membership_grows now d org user role) h);
    };
    on_update_membership_role = λ org user role. record {
      at = λ now d h. rw (update_membership_role_frame now d org user role) h;
    };
    on_create_refresh_token = λ user hash expires. record {
      at = λ now d h.
          rw (create_auth_refresh_token_frame now d user hash expires)
            (grow _ _ _ (create_auth_refresh_token_grows now d user hash expires) h);
    };
    on_rotate = λ id replacement. record {
      at = λ now d h. rw (rotate_auth_refresh_token_frame now d id replacement) h;
    };
    on_upsert_totp = λ user ciphertext nonce. record {
      at = λ now d h. rw (upsert_user_totp_credential_frame now d user ciphertext nonce) h;
    };
    on_enable_totp =
        λ user. record { at = λ now d h. rw (enable_user_totp_credential_frame now d user) h };
    on_delete_totp =
        λ user. record { at = λ now d h. rw (delete_user_totp_credential_frame now d user) h };
    on_create_api_key = λ org creator name prefix hash scopes. record {
      at = λ now d h.
          rw (create_api_key_frame now d org creator name prefix hash scopes)
            (grow _ _ _ (create_api_key_grows now d org creator name prefix hash scopes) h);
    };
    on_touch_api_key =
        λ id. record { at = λ now d h. rw (touch_api_key_last_used_frame now d id) h };
    on_revoke_api_key = λ id. record { at = λ now d h. rw (revoke_api_key_frame now d id) h };
    on_create_audit_log = λ arg. record {
      at = λ now d h.
          rw (create_audit_log_frame now d arg) (grow _ _ _ (create_audit_log_grows now d arg) h);
    };
    on_set_handle = λ id handle. record {
      at = λ now d h. rw (set_user_webauthn_handle_frame now d id handle) h;
    };
    on_create_passkey = λ user id ciphertext nonce. record {
      at = λ now d h.
          rw (create_auth_webauthn_credential_frame now d user id ciphertext nonce)
            (grow _ _ _ (create_passkey_grows now d user id ciphertext nonce) h);
    };
    on_update_passkey = λ id ciphertext nonce. record {
      at = λ now d h. rw (update_auth_webauthn_credential_frame now d id ciphertext nonce) h;
    };
    on_create_passkey_session = k0;
    on_delete_passkey_session = k1;
  }
