-- ===== src/Database/Controls.antt =====
-- packages/database/postgres/user_totp_credentials.sql.go, api_keys.sql.go and audit_logs.sql.go,
-- with the constraints of migrations/00003_phase1_identity_controls.sql.
use delta_uptime.Prelude.{
  ℕ, suc, String, Bool, true, false, ◌&&◌, ◌||◌, not, Option, none, some, List, [], ◌∷◌, ◌++◌, ◌==◌,
  str_eq, if◌then◌else◌, find, exists, update_where, select, reverse, take, drop,
}
use delta_uptime.Errors.{ok, err}
use delta_uptime.Database.{
  Query, UserTotpCredential, ApiKey, AuditLog, Metadata, one, unique_violation,
  foreign_key_violation, check_violation,
}
use delta_uptime.Database.Sessions.{is_null}

abbrev pub of_user : ℕ → UserTotpCredential → Bool
of_user user_id c = c.user_id == user_id

abbrev pub reset_secret : List ℕ → List ℕ → ℕ → UserTotpCredential → UserTotpCredential
reset_secret ciphertext nonce now c = record c {
  secret_ciphertext = ciphertext;
  secret_nonce = nonce;
  enabled_at = none;
  updated_at = now;
}

abbrev pub new_credential : ℕ → List ℕ → List ℕ → ℕ → UserTotpCredential
new_credential user_id ciphertext nonce now = record {
  user_id = user_id;
  secret_ciphertext = ciphertext;
  secret_nonce = nonce;
  enabled_at = none;
  created_at = now;
  updated_at = now;
}

-- `INSERT … ON CONFLICT (user_id) DO UPDATE`
unfoldable pub upsert_user_totp_credential : ℕ → List ℕ → List ℕ → Query UserTotpCredential
upsert_user_totp_credential user_id ciphertext nonce now d =
    let fresh = new_credential user_id ciphertext nonce now in
    elim (find (of_user user_id) d.totp_credentials) [
      | none ↦
          if exists (λ u. u.id == user_id) d.users
          then (ok fresh, record d { totp_credentials = d.totp_credentials ++ fresh ∷ [] })
          else (err foreign_key_violation, d)
      | some old ↦ (
        ok (reset_secret ciphertext nonce now old),
        record d {
          totp_credentials =
              update_where (of_user user_id) (reset_secret ciphertext nonce now) d.totp_credentials;
        },
      )
    ]

unfoldable pub get_user_totp_credential_by_user_id : ℕ → Query UserTotpCredential
get_user_totp_credential_by_user_id user_id now d =
    (one (find (of_user user_id) d.totp_credentials), d)

abbrev pub enabled : ℕ → UserTotpCredential → UserTotpCredential
enabled now c = record c { enabled_at = some now; updated_at = now }

unfoldable pub enable_user_totp_credential : ℕ → Query UserTotpCredential
enable_user_totp_credential user_id now d = elim (find (of_user user_id) d.totp_credentials) [
  | none ↦ (one none, d)
  | some credential ↦ (
    ok (enabled now credential),
    record d { totp_credentials = update_where (of_user user_id) (enabled now) d.totp_credentials },
  )
]

unfoldable pub delete_user_totp_credential : ℕ → Query (Unit {0})
delete_user_totp_credential user_id now d = (
  ok tt,
  record d { totp_credentials = select (λ c. not (of_user user_id c)) d.totp_credentials },
)

-- A foreign key that may be NULL.
abbrev pub refers {ℓ} : {A : Type ℓ} → (ℕ → A → Bool) → Option ℕ → List A → Bool
refers has_id none rows = true
refers has_id (some id) rows = exists (has_id id) rows

abbrev pub key_is : ℕ → ApiKey → Bool
key_is id k = k.id == id

abbrev pub new_key : ℕ → Option ℕ → String → String → String → List String → ℕ → ℕ → ApiKey
new_key organization_id created_by_user_id name key_prefix key_hash scopes now id = record {
  id = id;
  organization_id = organization_id;
  created_by_user_id = created_by_user_id;
  name = name;
  key_prefix = key_prefix;
  key_hash = key_hash;
  scopes = scopes;
  last_used_at = none;
  revoked_at = none;
  created_at = now;
}

unfoldable pub create_api_key : ℕ → Option ℕ → String → String → String → List String → Query ApiKey
create_api_key organization_id created_by_user_id name key_prefix key_hash scopes now d =
    let key =
      new_key organization_id created_by_user_id name key_prefix key_hash scopes now d.next_id in
    if exists (λ k. str_eq k.key_prefix key_prefix || str_eq k.key_hash key_hash) d.api_keys
    then (err unique_violation, d)
    else if exists (λ o. o.id == organization_id) d.organizations
        && refers (λ id u. u.id == id) created_by_user_id d.users
    then (ok key, record d { api_keys = d.api_keys ++ key ∷ []; next_id = suc d.next_id })
    else (err foreign_key_violation, d)

unfoldable pub get_api_key_by_prefix : String → Query ApiKey
get_api_key_by_prefix key_prefix now d =
    (one (find (λ k. str_eq k.key_prefix key_prefix) d.api_keys), d)

unfoldable pub get_api_key_by_id : ℕ → Query ApiKey
get_api_key_by_id id now d = (one (find (key_is id) d.api_keys), d)

-- `ORDER BY created_at DESC, id DESC`
unfoldable pub list_api_keys_by_organization : ℕ → Query (List ApiKey)
list_api_keys_by_organization organization_id now d =
    (ok (reverse (select (λ k. k.organization_id == organization_id) d.api_keys)), d)

abbrev pub touched : ℕ → ApiKey → ApiKey
touched now k = record k { last_used_at = some now }

unfoldable pub touch_api_key_last_used : ℕ → Query ApiKey
touch_api_key_last_used id now d = elim (find (key_is id) d.api_keys) [
  | none ↦ (one none, d)
  | some key ↦ (
    ok (touched now key),
    record d { api_keys = update_where (key_is id) (touched now) d.api_keys },
  )
]

-- `WHERE id = $1 AND revoked_at IS NULL`
abbrev pub is_active_key : ℕ → ApiKey → Bool
is_active_key id k = k.id == id && is_null k.revoked_at

abbrev pub revoked_key : ℕ → ApiKey → ApiKey
revoked_key now k = record k { revoked_at = some now }

unfoldable pub revoke_api_key : ℕ → Query ApiKey
revoke_api_key id now d = elim (find (is_active_key id) d.api_keys) [
  | none ↦ (one none, d)
  | some key ↦ (
    ok (revoked_key now key),
    record d { api_keys = update_where (is_active_key id) (revoked_key now) d.api_keys },
  )
]

-- The CHECK constraint on the column `actor_type`.
abbrev is_actor_type : String → Bool
is_actor_type t = str_eq t "user" || str_eq t "api_key" || str_eq t "system"

pub record AuditParams : Type 0 where
  pub organization_id : Option ℕ
  pub actor_type : String
  pub actor_user_id : Option ℕ
  pub actor_api_key_id : Option ℕ
  pub action : String
  pub target_type : String
  pub target_id : String
  pub metadata : Metadata

abbrev pub new_log : AuditParams → ℕ → ℕ → AuditLog
new_log arg now id = record {
  id = id;
  organization_id = arg.organization_id;
  actor_type = arg.actor_type;
  actor_user_id = arg.actor_user_id;
  actor_api_key_id = arg.actor_api_key_id;
  action = arg.action;
  target_type = arg.target_type;
  target_id = arg.target_id;
  metadata = arg.metadata;
  occurred_at = now;
}

unfoldable pub create_audit_log : AuditParams → Query AuditLog
create_audit_log arg now d =
    let log = new_log arg now d.next_id in
    if not (is_actor_type arg.actor_type)
    then (err check_violation, d)
    else if refers (λ id o. o.id == id) arg.organization_id d.organizations
        && refers (λ id u. u.id == id) arg.actor_user_id d.users
        && refers key_is arg.actor_api_key_id d.api_keys
    then (ok log, record d { audit_logs = d.audit_logs ++ log ∷ []; next_id = suc d.next_id })
    else (err foreign_key_violation, d)

abbrev pub refers_to : ℕ → Option ℕ → Bool
refers_to id none = false
refers_to id (some j) = j == id

-- `ORDER BY occurred_at DESC, id DESC LIMIT $2 OFFSET $3`
unfoldable pub list_audit_logs_by_organization : ℕ → ℕ → ℕ → Query (List AuditLog)
list_audit_logs_by_organization organization_id limit offset now d =
    let rows = select (λ l. refers_to organization_id l.organization_id) d.audit_logs in
    (ok (take limit (drop offset (reverse rows))), d)
