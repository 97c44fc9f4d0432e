-- ===== src/Database.antt =====
-- packages/database/postgres/models.go and migrations/*.sql: the rows of the tables, and what a
-- statement is. A `uuid` or `timestamptz` column that is NOT NULL is a number (nanoseconds for a
-- time), one that may be NULL is an `Option`. A table is the list of its rows in the order of
-- insertion, which is the order of `created_at` and of the generated ids.
pub mod Identity
pub mod Sessions
pub mod Controls
pub mod Passkeys
pub mod Frames
use delta_uptime.Prelude.{ℕ, String, Bool, Option, none, some, List, []}
use delta_uptime.Errors.{Error, Result, ok, err, sentinel, pg, no_rows}

pub record User : Type 0 where
  pub id : ℕ
  pub email : String
  pub password_hash : String
  pub display_name : String
  pub is_system_admin : Bool
  pub created_at : ℕ
  pub updated_at : ℕ
  -- NULL is read as the empty slice
  pub webauthn_user_handle : List ℕ

pub record Organization : Type 0 where
  pub id : ℕ
  pub slug : String
  pub name : String
  pub created_at : ℕ
  pub updated_at : ℕ

pub record Membership : Type 0 where
  pub id : ℕ
  pub organization_id : ℕ
  pub user_id : ℕ
  pub role : String
  pub created_at : ℕ

pub record AuthRefreshToken : Type 0 where
  pub id : ℕ
  pub user_id : ℕ
  pub token_hash : String
  pub expires_at : ℕ
  pub created_at : ℕ
  pub used_at : Option ℕ
  pub revoked_at : Option ℕ
  pub replaced_by_token_id : Option ℕ

pub record UserTotpCredential : Type 0 where
  pub user_id : ℕ
  pub secret_ciphertext : List ℕ
  pub secret_nonce : List ℕ
  pub enabled_at : Option ℕ
  pub created_at : ℕ
  pub updated_at : ℕ

pub record ApiKey : Type 0 where
  pub id : ℕ
  pub organization_id : ℕ
  pub created_by_user_id : Option ℕ
  pub name : String
  pub key_prefix : String
  pub key_hash : String
  pub scopes : List String
  pub last_used_at : Option ℕ
  pub revoked_at : Option ℕ
  pub created_at : ℕ

-- A value of the `metadata` object: the service writes texts and lists of texts.
pub data MetadataValue : Type 0 where
  text : String → MetadataValue
  texts : List String → MetadataValue

abbrev pub Metadata : Type 0
Metadata = List (String × MetadataValue)

pub record AuditLog : Type 0 where
  pub id : ℕ
  pub organization_id : Option ℕ
  pub actor_type : String
  pub actor_user_id : Option ℕ
  pub actor_api_key_id : Option ℕ
  pub action : String
  pub target_type : String
  pub target_id : String
  pub metadata : Metadata
  pub occurred_at : ℕ

pub record AuthWebauthnCredential : Type 0 where
  pub id : ℕ
  pub user_id : ℕ
  pub credential_id : List ℕ
  pub credential_ciphertext : List ℕ
  pub credential_nonce : List ℕ
  pub created_at : ℕ
  pub last_used_at : Option ℕ

pub record AuthWebauthnSession : Type 0 where
  pub id : ℕ
  pub user_id : Option ℕ
  pub flow : String
  pub session_data : String
  pub expires_at : ℕ
  pub created_at : ℕ

-- `next_id` is what `gen_random_uuid()` yields next: a counter, so that a new id is one that was
-- never given out.
pub record Db : Type 0 where
  pub users : List User
  pub organizations : List Organization
  pub memberships : List Membership
  pub refresh_tokens : List AuthRefreshToken
  pub totp_credentials : List UserTotpCredential
  pub api_keys : List ApiKey
  pub audit_logs : List AuditLog
  pub webauthn_credentials : List AuthWebauthnCredential
  pub webauthn_sessions : List AuthWebauthnSession
  pub next_id : ℕ

abbrev pub empty : Db
empty = record {
  users = [];
  organizations = [];
  memberships = [];
  refresh_tokens = [];
  totp_credentials = [];
  api_keys = [];
  audit_logs = [];
  webauthn_credentials = [];
  webauthn_sessions = [];
  next_id = 1;
}

-- A statement at the time `now()`. A statement that fails changes nothing.
abbrev pub Query : Type 0 → Type 0
Query A = ℕ → Db → Result A × Db

-- The result of a `:one` query.
abbrev pub one {ℓ} : {A : Type ℓ} → Option A → Result A
one none = err (sentinel no_rows)
one (some row) = ok row

abbrev pub unique_violation : Error
unique_violation = pg "23505"

abbrev pub foreign_key_violation : Error
foreign_key_violation = pg "23503"

abbrev pub check_violation : Error
check_violation = pg "23514"
