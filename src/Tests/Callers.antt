-- ===== src/Tests/Callers.antt =====
-- Callers: access tokens and API keys in the headers of a request.
use delta_uptime.Prelude.{String, ◌≡◌, refl, true, some, str_eq}
use delta_uptime.Errors.{Result, ok, err, sentinel, unauthorized}
use delta_uptime.Service.{Principal, principal_user}
use delta_uptime.Http.{Headers}
use delta_uptime.Http.Callers.{authenticate_user-ok}
use delta_uptime.Tests.Sample.{env, s, w, owner, key_text}
use delta_uptime.Prelude.{find, exists, select, update_where}
use delta_uptime.Errors.{errors_is, as_pg_code, is_unique_violation}
use delta_uptime.Effects.{
  transaction, query, time_now, pure, lift, attempt, begin, bytes_from, called, commit,
  deferring_rollback, missing_or, on_error, outside, raise, rand_read, run, ◌>>=◌,
}
use delta_uptime.Text.{
  trim_space, trim_left, trim_right, is_space, hex, to_lower, lower_char, split, replace_all,
  cut_prefix,
}
use delta_uptime.Input.{
  normalize_email, normalize_slug, validate_role, validate_scopes, scopes_loop, api_key_text,
  parse_api_key_prefix, validate_slug, slug_chars,
}
use delta_uptime.Access.{has, lookup, insert, permissions_for_role}
use delta_uptime.Database.Identity.{
  get_user_by_id, list_organizations_by_user, organizations_of, get_user_by_email,
  get_organization_by_slug, create_membership, update_membership_role, get_organization_by_id,
}
use delta_uptime.Database.Sessions.{
  get_auth_refresh_token_by_token_hash, create_auth_refresh_token, rotate_auth_refresh_token,
}
use delta_uptime.Database.Controls.{
  create_audit_log, get_user_totp_credential_by_user_id, create_api_key as insert_api_key,
  get_api_key_by_prefix, touch_api_key_last_used, revoke_api_key as revoke_row,
  upsert_user_totp_credential, delete_user_totp_credential,
}
use delta_uptime.Service.Tokens.{
  hash_refresh_token, issue_access_token, generate_refresh_token, hash_secret, encrypt, decrypt,
  parse_access_token,
}
use delta_uptime.Service.Session.{
  organizations_for_user, issue_session_with_model, issue_session, audit, user_has_enabled_totp,
  must_uuid, parse_uuid, verify_totp_if_enabled, verify_code, check_code, decrypt_totp_secret,
}
use delta_uptime.Service.Identify.{
  roles_of, permissions_of, principal_for_user, authenticate_api_key, require_permission,
  scopes_to_permissions, authenticate_access_token,
}
use delta_uptime.Http.{authenticate_user, authenticate_principal, bearer_token}

abbrev value : {A : Type 0} → A → Result A → A
value a (ok b) = b
value a (err e) = a

abbrev headers : Headers
headers = record { authorization = "Bearer i"; x_api_key = " " }

abbrev caller : Principal
caller = value owner (authenticate_user env s headers w).0

caller_runs : authenticate_user env s headers w ≡ (ok caller, (authenticate_user env s headers w).1)
unfolding find exists select update_where errors_is as_pg_code is_unique_violation transaction query
    time_now pure lift attempt begin bytes_from called commit deferring_rollback missing_or on_error
    outside raise rand_read run ◌>>=◌ trim_space trim_left trim_right is_space hex to_lower
    lower_char split replace_all cut_prefix normalize_email normalize_slug validate_role
    validate_scopes scopes_loop api_key_text parse_api_key_prefix validate_slug slug_chars has
    lookup insert permissions_for_role get_user_by_id list_organizations_by_user organizations_of
    get_user_by_email get_organization_by_slug create_membership update_membership_role
    get_organization_by_id get_auth_refresh_token_by_token_hash create_auth_refresh_token
    rotate_auth_refresh_token create_audit_log get_user_totp_credential_by_user_id insert_api_key
    get_api_key_by_prefix touch_api_key_last_used revoke_row upsert_user_totp_credential
    delete_user_totp_credential hash_refresh_token issue_access_token generate_refresh_token
    hash_secret encrypt decrypt parse_access_token organizations_for_user issue_session_with_model
    issue_session audit user_has_enabled_totp must_uuid parse_uuid verify_totp_if_enabled
    verify_code check_code decrypt_totp_secret roles_of permissions_of principal_for_user
    authenticate_api_key require_permission scopes_to_permissions authenticate_access_token
    authenticate_user authenticate_principal bearer_token
caller_runs = refl

authenticate_user-ok_example :
    (token : String) × (str_eq (trim_space headers.x_api_key) "" ≡ true)
    × (bearer_token headers.authorization ≡ some token)
    × (authenticate_access_token env s token w ≡ (ok caller, (authenticate_user env s headers w).1))
    × (str_eq caller.type principal_user ≡ true)
authenticate_user-ok_example = authenticate_user-ok env s headers w caller_runs

-- A valid API key is no user, even beside a valid access token.
key_refused :
    (authenticate_user env s (record headers { x_api_key = key_text }) w).0
    ≡ err (sentinel unauthorized)
unfolding find exists select update_where errors_is as_pg_code is_unique_violation transaction query
    time_now pure lift attempt begin bytes_from called commit deferring_rollback missing_or on_error
    outside raise rand_read run ◌>>=◌ trim_space trim_left trim_right is_space hex to_lower
    lower_char split replace_all cut_prefix normalize_email normalize_slug validate_role
    validate_scopes scopes_loop api_key_text parse_api_key_prefix validate_slug slug_chars has
    lookup insert permissions_for_role get_user_by_id list_organizations_by_user organizations_of
    get_user_by_email get_organization_by_slug create_membership update_membership_role
    get_organization_by_id get_auth_refresh_token_by_token_hash create_auth_refresh_token
    rotate_auth_refresh_token create_audit_log get_user_totp_credential_by_user_id insert_api_key
    get_api_key_by_prefix touch_api_key_last_used revoke_row upsert_user_totp_credential
    delete_user_totp_credential hash_refresh_token issue_access_token generate_refresh_token
    hash_secret encrypt decrypt parse_access_token organizations_for_user issue_session_with_model
    issue_session audit user_has_enabled_totp must_uuid parse_uuid verify_totp_if_enabled
    verify_code check_code decrypt_totp_secret roles_of permissions_of principal_for_user
    authenticate_api_key require_permission scopes_to_permissions authenticate_access_token
    authenticate_user authenticate_principal bearer_token
key_refused = refl
