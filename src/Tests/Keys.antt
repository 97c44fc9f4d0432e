-- ===== src/Tests/Keys.antt =====
-- API keys: letting one in, creating one and revoking one.
use delta_uptime.Prelude.{ℕ, ◌+◌, String, ◌≡◌, ◌≢◌, refl, List, [], ◌∷◌, true, none, some}
use delta_uptime.Errors.{Result, ok, err}
use delta_uptime.Access.{api_key_write}
use delta_uptime.Database.{ApiKey, Organization}
use delta_uptime.Database.Controls.{is_active_key, revoked_key}
use delta_uptime.Effects.{World}
use delta_uptime.Service.{Principal, ApiKeyInfo, ApiKeyCreateResult}
use delta_uptime.Service.Identify.{key_matches, key_principal}
use delta_uptime.Service.Authorized.{Holder, has_slug}
use delta_uptime.Service.KeyLogin.{
  with_prefix, authenticate_api_key-ok, authenticate_api_key-lets_in,
}
use delta_uptime.Service.NewKey.{Stored, create_api_key-ok, create_api_key-authenticate}
use delta_uptime.Server.{here, next, pass}
use delta_uptime.History.Keys.{IsRevoked}
use delta_uptime.History.Columns.{DistinctPrefixes}
use delta_uptime.History.Revocation.{revoke_api_key-ok, revoke_final}
use delta_uptime.Tests.Sample.{env, s, w, owner, key, key_text}
use delta_uptime.Prelude.{find, exists, select, update_where}
use delta_uptime.Errors.{errors_is, as_pg_code, is_unique_violation}
use delta_uptime.Effects.{
  transaction, query, time_now, pure, lift, called, commit, deferring_rollback, missing_or,
  on_error, outside, raise, rand_read, run, ◌>>=◌,
}
use delta_uptime.Text.{
  trim_space, trim_left, trim_right, is_space, hex, to_lower, lower_char, split, replace_all,
  cut_prefix,
}
use delta_uptime.Text.Base64.{raw_url_encode}
use delta_uptime.Input.{
  normalize_email, normalize_slug, validate_role, validate_scopes, scopes_loop, api_key_text,
  parse_api_key_prefix, validate_slug, slug_chars,
}
use delta_uptime.Access.{has, lookup, insert}
use delta_uptime.Database.Identity.{organizations_of, get_user_by_email, get_organization_by_slug}
use delta_uptime.Database.Controls.{
  create_audit_log, get_user_totp_credential_by_user_id, create_api_key as insert_api_key,
  get_api_key_by_prefix, touch_api_key_last_used, revoke_api_key as revoke_row,
  upsert_user_totp_credential,
}
use delta_uptime.Service.Tokens.{
  issue_access_token, generate_refresh_token, hash_secret, encrypt, decrypt,
}
use delta_uptime.Service.Session.{
  audit, user_has_enabled_totp, must_uuid, parse_uuid, verify_totp_if_enabled, verify_code,
}
use delta_uptime.Service.Identify.{
  principal_for_user, authenticate_api_key, require_permission, scopes_to_permissions,
}
use delta_uptime.Service.Members.{authorized_organization, update_membership_body}
use delta_uptime.Service.Keys.{
  create_api_key, create_key_body, revoke_api_key, revoke_key_body, generate_api_key,
}

abbrev value : {A : Type 0} → A → Result A → A
value a (ok b) = b
value a (err e) = a

abbrev visitor : Principal
visitor = value owner (authenticate_api_key env s key_text w).0

let_in :
    authenticate_api_key env s key_text w ≡ (ok visitor, (authenticate_api_key env s key_text w).1)
unfolding find exists select is_unique_violation transaction query time_now pure lift is_space hex
    to_lower lower_char split replace_all scopes_loop api_key_text parse_api_key_prefix
    get_user_totp_credential_by_user_id insert_api_key get_api_key_by_prefix touch_api_key_last_used
    revoke_row upsert_user_totp_credential generate_refresh_token hash_secret encrypt
    principal_for_user authenticate_api_key require_permission
let_in = refl

authenticate_api_key-ok_example :
    (prefix : String) × (k : ApiKey) × (parse_api_key_prefix key_text ≡ ok prefix)
    × (find (with_prefix prefix) w.db.api_keys ≡ some k)
    × (key_matches env s key_text k ≡ true)
    × (visitor ≡ key_principal env s k)
authenticate_api_key-ok_example = authenticate_api_key-ok env s key_text w let_in

authenticate_api_key-lets_in_example :
    (authenticate_api_key env s key_text w).0 ≡ ok (key_principal env s key)
unfolding find exists select is_space hex to_lower lower_char split replace_all scopes_loop
    api_key_text parse_api_key_prefix hash_secret encrypt decrypt
authenticate_api_key-lets_in_example =
    authenticate_api_key-lets_in env s key_text "01020304" key w refl refl refl refl

abbrev no_info : ApiKeyInfo
no_info = record {
  id = "";
  name = "";
  prefix = "";
  scopes = [];
  last_used_at = none;
  revoked_at = none;
  created_at = 0;
  created_by_user_id = "";
}

abbrev wanted : List String
wanted = " audit:read" ∷ "audit:read" ∷ "api_key:read" ∷ []

abbrev created : ApiKeyCreateResult
created =
    value (record { info = no_info; token = "" })
      (create_api_key env s owner "ACME" "ci" wanted w).0

abbrev with_key : World
with_key = (create_api_key env s owner "ACME" "ci" wanted w).1

create_runs : create_api_key env s owner "ACME" "ci" wanted w ≡ (ok created, with_key)
unfolding find exists select is_unique_violation transaction query time_now pure lift called commit
    deferring_rollback raise rand_read run ◌>>=◌ trim_space trim_left trim_right is_space hex
    to_lower lower_char split replace_all cut_prefix raw_url_encode normalize_email normalize_slug
    validate_role validate_scopes scopes_loop api_key_text has lookup insert organizations_of
    get_user_by_email get_organization_by_slug create_audit_log get_user_totp_credential_by_user_id
    insert_api_key issue_access_token generate_refresh_token hash_secret audit user_has_enabled_totp
    must_uuid require_permission scopes_to_permissions authorized_organization
    update_membership_body create_api_key create_key_body revoke_api_key revoke_key_body
    generate_api_key
create_runs = refl

create_api_key-ok_example :
    (org : Organization) × (valid : List String) × (find (has_slug env s "ACME") w.db.organizations
      ≡ some org)
    × Holder owner (env.uuid_string org.id) api_key_write
    × (validate_scopes wanted ≡ ok valid)
    × (parse_api_key_prefix created.token ≡ ok created.info.prefix)
    × Stored env s created.token created.info.prefix org.id valid with_key.db.api_keys
create_api_key-ok_example = create_api_key-ok env s owner "ACME" "ci" wanted w create_runs

create_api_key-authenticate_example :
    (p : Principal) × (org : Organization) × (valid : List String) × ((authenticate_api_key env s
        created.token with_key).0
      ≡ ok p)
    × (validate_scopes wanted ≡ ok valid)
    × (find (has_slug env s "ACME") w.db.organizations ≡ some org)
    × (p.permissions ≡ (env.uuid_string org.id, scopes_to_permissions valid) ∷ [])
unfolding find exists select is_unique_violation transaction query time_now pure lift called commit
    deferring_rollback raise rand_read run ◌>>=◌ trim_space trim_left trim_right is_space hex
    to_lower lower_char split replace_all cut_prefix raw_url_encode normalize_email normalize_slug
    validate_role validate_scopes scopes_loop api_key_text has lookup insert organizations_of
    get_user_by_email get_organization_by_slug create_audit_log get_user_totp_credential_by_user_id
    insert_api_key issue_access_token generate_refresh_token hash_secret audit user_has_enabled_totp
    must_uuid require_permission scopes_to_permissions authorized_organization
    update_membership_body create_api_key create_key_body revoke_api_key revoke_key_body
    generate_api_key
create_api_key-authenticate_example =
    create_api_key-authenticate env s owner "ACME" "ci" wanted w create_runs refl

abbrev gone : ApiKeyInfo
gone = value no_info (revoke_api_key env s owner "acme" "iiiii" w).0

abbrev without_key : World
without_key = (revoke_api_key env s owner "acme" "iiiii" w).1

revoke_runs : revoke_api_key env s owner "acme" "iiiii" w ≡ (ok gone, without_key)
unfolding find exists select is_unique_violation transaction query time_now pure lift called commit
    deferring_rollback ◌>>=◌ trim_space trim_left to_lower lower_char split replace_all cut_prefix
    raw_url_encode normalize_email normalize_slug validate_role has lookup insert organizations_of
    get_user_by_email get_organization_by_slug create_audit_log get_user_totp_credential_by_user_id
    insert_api_key get_api_key_by_prefix touch_api_key_last_used revoke_row audit
    user_has_enabled_totp must_uuid parse_uuid verify_totp_if_enabled verify_code require_permission
    scopes_to_permissions authorized_organization revoke_api_key revoke_key_body generate_api_key
revoke_runs = refl

one_key : DistinctPrefixes w.db.api_keys
unfolding exists
one_key = (refl, tt)

revoke_api_key-ok_example :
    (org : Organization) × (k : ApiKey) × (id : ℕ) × (find
        (has_slug env s "acme")
        w.db.organizations
      ≡ some org)
    × Holder owner (env.uuid_string org.id) api_key_write
    × (env.uuid_scan "iiiii" ≡ some id)
    × (find (is_active_key id) w.db.api_keys ≡ some k)
    × (k.organization_id ≡ org.id)
    × (gone.prefix ≡ k.key_prefix)
    × IsRevoked gone.prefix without_key.db.api_keys
    × (without_key.db.api_keys ≡ update_where (is_active_key id) (revoked_key w.now) w.db.api_keys)
    × (without_key.tx ≡ none)
revoke_api_key-ok_example = revoke_api_key-ok env s owner "acme" "iiiii" w one_key revoke_runs

abbrev later : World
later = record without_key { now = without_key.now + 1000 }

revoke_final_example : authenticate_api_key env s key_text later ≢ (ok visitor, later)
unfolding find exists select update_where errors_is as_pg_code is_unique_violation transaction query
    time_now pure lift called commit deferring_rollback missing_or on_error outside ◌>>=◌ trim_space
    trim_left to_lower lower_char split replace_all cut_prefix raw_url_encode normalize_email
    normalize_slug validate_role parse_api_key_prefix validate_slug slug_chars has lookup insert
    organizations_of get_user_by_email get_organization_by_slug create_audit_log
    get_user_totp_credential_by_user_id insert_api_key get_api_key_by_prefix touch_api_key_last_used
    revoke_row audit user_has_enabled_totp must_uuid parse_uuid verify_totp_if_enabled verify_code
    require_permission scopes_to_permissions authorized_organization revoke_api_key revoke_key_body
    generate_api_key
revoke_final_example =
    revoke_final env s owner "acme" "iiiii" w one_key revoke_runs (next here (pass 1000)) key_text
      refl
