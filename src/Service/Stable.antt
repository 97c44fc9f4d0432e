-- ===== src/Service/Stable.antt =====
-- What every statement of the service keeps, every method and every handler keeps. `Stable P` asks
-- for each statement that writes; the statements that read keep everything.
use delta_uptime.Prelude.{ℕ, String, Bool, Option, List, refl}
use delta_uptime.Database.{Db}
use delta_uptime.Database.Identity.{
  create_user, create_organization, create_membership, update_membership_role,
  get_organization_by_id, get_organization_by_slug, list_users_by_organization,
  set_user_webauthn_handle,
}
use delta_uptime.Database.Passkeys.{
  create_auth_webauthn_credential, update_auth_webauthn_credential, create_auth_webauthn_session,
  delete_auth_webauthn_session, list_auth_webauthn_credentials_by_user_id,
  get_auth_webauthn_session_by_id,
}
use delta_uptime.Database.Sessions.{
  create_auth_refresh_token, rotate_auth_refresh_token, get_auth_refresh_token_by_token_hash,
}
use delta_uptime.Database.Controls.{
  AuditParams, upsert_user_totp_credential, enable_user_totp_credential,
  delete_user_totp_credential, create_api_key as insert_api_key, get_api_key_by_prefix,
  list_api_keys_by_organization, touch_api_key_last_used, revoke_api_key as revoke_row,
  create_audit_log, list_audit_logs_by_organization,
}
use delta_uptime.Effects.Quiet.{ReadOnly}
use delta_uptime.Effects.Keeps.{Keeps, Maintains, Keeps-ReadOnly, maintains_rules}
use delta_uptime.Service.Quiet.{read_only_rules}

pub record Stable (P : Db → Type 0) : Type 0 where
  pub on_create_user :
      (email hash name : String) (admin : Bool) → Keeps P (create_user email hash name admin)
  pub on_create_organization : (slug name : String) → Keeps P (create_organization slug name)
  pub on_create_membership :
      (org user : ℕ) (role : String) → Keeps P (create_membership org user role)
  pub on_update_membership_role :
      (org user : ℕ) (role : String) → Keeps P (update_membership_role org user role)
  pub on_create_refresh_token :
      (user : ℕ) (hash : String) (expires : ℕ)
      → Keeps P (create_auth_refresh_token user hash expires)
  pub on_rotate : (id replacement : ℕ) → Keeps P (rotate_auth_refresh_token id replacement)
  pub on_upsert_totp :
      (user : ℕ) (ciphertext nonce : List ℕ)
      → Keeps P (upsert_user_totp_credential user ciphertext nonce)
  pub on_enable_totp : (user : ℕ) → Keeps P (enable_user_totp_credential user)
  pub on_delete_totp : (user : ℕ) → Keeps P (delete_user_totp_credential user)
  pub on_create_api_key :
      (org : ℕ) (creator : Option ℕ) (name prefix hash : String) (scopes : List String)
      → Keeps P (insert_api_key org creator name prefix hash scopes)
  pub on_touch_api_key : (id : ℕ) → Keeps P (touch_api_key_last_used id)
  pub on_revoke_api_key : (id : ℕ) → Keeps P (revoke_row id)
  pub on_create_audit_log : (arg : AuditParams) → Keeps P (create_audit_log arg)
  pub on_set_handle : (id : ℕ) (handle : List ℕ) → Keeps P (set_user_webauthn_handle id handle)
  pub on_create_passkey :
      (user : ℕ) (id ciphertext nonce : List ℕ)
      → Keeps P (create_auth_webauthn_credential user id ciphertext nonce)
  pub on_update_passkey :
      (id : ℕ) (ciphertext nonce : List ℕ)
      → Keeps P (update_auth_webauthn_credential id ciphertext nonce)
  pub on_create_passkey_session :
      (user : ℕ) (flow session_data : String) (expires : ℕ)
      → Keeps P (create_auth_webauthn_session user flow session_data expires)
  pub on_delete_passkey_session : (id : ℕ) → Keeps P (delete_auth_webauthn_session id)

pub ReadOnly-get_organization_by_id : (id : ℕ) → ReadOnly (get_organization_by_id id)
unfolding get_organization_by_id
ReadOnly-get_organization_by_id id = record { same = λ now d. refl }

pub ReadOnly-get_organization_by_slug : (slug : String) → ReadOnly (get_organization_by_slug slug)
unfolding get_organization_by_slug
ReadOnly-get_organization_by_slug slug = record { same = λ now d. refl }

pub ReadOnly-list_users_by_organization : (id : ℕ) → ReadOnly (list_users_by_organization id)
unfolding list_users_by_organization
ReadOnly-list_users_by_organization id = record { same = λ now d. refl }

pub ReadOnly-get_token : (hash : String) → ReadOnly (get_auth_refresh_token_by_token_hash hash)
unfolding get_auth_refresh_token_by_token_hash
ReadOnly-get_token hash = record { same = λ now d. refl }

pub ReadOnly-get_key : (prefix : String) → ReadOnly (get_api_key_by_prefix prefix)
unfolding get_api_key_by_prefix
ReadOnly-get_key prefix = record { same = λ now d. refl }

pub ReadOnly-list_keys : (id : ℕ) → ReadOnly (list_api_keys_by_organization id)
unfolding list_api_keys_by_organization
ReadOnly-list_keys id = record { same = λ now d. refl }

pub ReadOnly-list_logs :
    (id limit offset : ℕ) → ReadOnly (list_audit_logs_by_organization id limit offset)
unfolding list_audit_logs_by_organization
ReadOnly-list_logs id limit offset = record { same = λ now d. refl }

pub ReadOnly-list_passkeys : (id : ℕ) → ReadOnly (list_auth_webauthn_credentials_by_user_id id)
unfolding list_auth_webauthn_credentials_by_user_id
ReadOnly-list_passkeys id = record { same = λ now d. refl }

pub ReadOnly-get_passkey_session : (id : ℕ) → ReadOnly (get_auth_webauthn_session_by_id id)
unfolding get_auth_webauthn_session_by_id
ReadOnly-get_passkey_session id = record { same = λ now d. refl }

pub ruleset reading = (
  Keeps-ReadOnly, read_only_rules, ReadOnly-get_organization_by_id,
  ReadOnly-get_organization_by_slug, ReadOnly-list_users_by_organization, ReadOnly-get_token,
  ReadOnly-get_key, ReadOnly-list_keys, ReadOnly-list_logs, ReadOnly-list_passkeys,
  ReadOnly-get_passkey_session,
)
