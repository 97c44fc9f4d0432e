-- ===== src/Tests/Sessions.antt =====
-- Sessions: logging in, refreshing and replaying a refresh token.
use delta_uptime.Prelude.{◌+◌, String, ◌≡◌, ◌≢◌, refl, List, [], true, false, some, str_eq}
use delta_uptime.Errors.{Result, ok, err, sentinel, totp_required}
use delta_uptime.Password.{verify_password, scan_params, scan_uint, scan_digits, skip_space}
use delta_uptime.Text.Base64.{raw_std_decode, std_values, std_value, pack}
use delta_uptime.Database.Identity.{same_bytes}
use delta_uptime.Totp.{
  code_at, hotp, truncated, big_endian_uint32, six_digits, put_uint64, to_upper, upper_char,
}
use delta_uptime.Text.Base32.{decode, values, value as value32, pack as pack32}
use delta_uptime.Effects.{World}
use delta_uptime.Service.{AuthResult, LoginInput}
use delta_uptime.Access.{Permission, permissions_for_role, has, lookup, insert}
use delta_uptime.Database.{AuthRefreshToken, User, Organization}
use delta_uptime.Service.{Principal}
use delta_uptime.Service.Refresh.{is_fresh}
use delta_uptime.History.Tokens.{IsSpent, has_hash}
use delta_uptime.Service.PasswordLogin.{PassesFactor}
use delta_uptime.Service.Grants.{IsMemberAs, principal_for_user-IsMemberAs}
use delta_uptime.Server.{here, next, pass}
use delta_uptime.History.Replay.{refresh-ok, refresh_once}
use delta_uptime.Service.PasswordLogin.{login-ok}
use delta_uptime.Tests.Sample.{env, s, w, alice, owner}
use delta_uptime.Prelude.{find, exists, select, update_where}
use delta_uptime.Errors.{errors_is, as_pg_code, is_unique_violation}
use delta_uptime.Effects.{
  transaction, query, time_now, pure, lift, attempt, begin, bytes_from, called, commit,
  deferring_rollback, on_error, outside, raise, rand_read, run, ◌>>=◌,
}
use delta_uptime.Text.{
  trim_space, trim_left, trim_right, is_space, hex, to_lower, lower_char, split, replace_all,
  cut_prefix,
}
use delta_uptime.Text.Base64.{raw_url_encode}
use delta_uptime.Input.{normalize_email, normalize_slug, validate_role}
use delta_uptime.Database.Identity.{
  get_user_by_id, list_organizations_by_user, organizations_of, get_user_by_email,
  get_organization_by_slug, create_membership, update_membership_role, get_organization_by_id,
}
use delta_uptime.Database.Sessions.{
  get_auth_refresh_token_by_token_hash, create_auth_refresh_token, rotate_auth_refresh_token,
}
use delta_uptime.Database.Controls.{
  create_audit_log, get_user_totp_credential_by_user_id, create_api_key as insert_api_key,
  get_api_key_by_prefix, upsert_user_totp_credential, delete_user_totp_credential,
}
use delta_uptime.Service.Tokens.{
  hash_refresh_token, issue_access_token, generate_refresh_token, hash_secret, encrypt, decrypt,
  parse_access_token,
}
use delta_uptime.Service.Session.{
  organizations_for_user, issue_session_with_model, issue_session, audit, user_has_enabled_totp,
  must_uuid, parse_uuid, verify_totp_if_enabled, verify_code, check_code, decrypt_totp_secret,
}
use delta_uptime.Service.Refresh.{refresh, find_session, rotate}
use delta_uptime.Service.Login.{login, check_credentials, login_body}
use delta_uptime.Service.Identify.{
  roles_of, permissions_of, principal_for_user, authenticate_api_key,
}

abbrev value : {A : Type 0} → A → Result A → A
value a (ok b) = b
value a (err e) = a

abbrev no_result : AuthResult
no_result = record {
  access_token = "";
  access_token_expires_at = 0;
  refresh_token = "";
  refresh_token_expires_at = 0;
  user = record {
    id = "";
    email = "";
    display_name = "";
    is_system_admin = false;
    totp_enabled = false;
  };
  organizations = [];
}

-- What the first refresh returns, and the state after it.
abbrev first : AuthResult
first = value no_result (refresh env s "tok" w).0

abbrev after : World
after = (refresh env s "tok" w).1

refreshed : refresh env s "tok" w ≡ (ok first, after)
unfolding find exists select is_unique_violation transaction query time_now pure lift attempt begin
    bytes_from called commit deferring_rollback raise rand_read run ◌>>=◌ trim_space trim_left
    trim_right is_space hex replace_all cut_prefix raw_url_encode get_user_by_id
    list_organizations_by_user organizations_of update_membership_role get_organization_by_id
    get_auth_refresh_token_by_token_hash create_auth_refresh_token rotate_auth_refresh_token
    create_audit_log get_user_totp_credential_by_user_id insert_api_key get_api_key_by_prefix
    delete_user_totp_credential hash_refresh_token issue_access_token generate_refresh_token
    hash_secret encrypt decrypt parse_access_token organizations_for_user issue_session_with_model
    issue_session audit user_has_enabled_totp must_uuid pack32 check_code decrypt_totp_secret
    refresh find_session rotate login
refreshed = refl

-- An hour later.
abbrev later : World
later = record after { now = after.now + 3600000000000 }

refresh_once_example : refresh env s "tok" later ≢ (ok first, after)
refresh_once_example = refresh_once env s "tok" w refreshed (next here (pass 3600000000000))

refresh-ok_example :
    (session : AuthRefreshToken) × (find
        (has_hash (hash_refresh_token env s "tok"))
        w.db.refresh_tokens
      ≡ some session)
    × (is_fresh env s w.now session ≡ true)
    × IsSpent (hash_refresh_token env s "tok") after.db.refresh_tokens
refresh-ok_example = refresh-ok env s "tok" w refreshed

abbrev credentials : LoginInput
credentials = record {
  email = " alice@example.com";
  password = "long password";
  totp_code = "123456";
}

abbrev logged : AuthResult
logged = value no_result (login env s credentials w).0

abbrev logged_in : World
logged_in = (login env s credentials w).1

login_runs : login env s credentials w ≡ (ok logged, logged_in)
unfolding find exists select is_unique_violation transaction query time_now pure lift attempt begin
    bytes_from called commit deferring_rollback raise rand_read run ◌>>=◌ trim_space trim_left
    trim_right is_space hex to_lower lower_char split replace_all cut_prefix raw_url_encode
    normalize_email normalize_slug validate_role get_user_by_id list_organizations_by_user
    organizations_of get_user_by_email get_organization_by_slug create_membership
    create_auth_refresh_token rotate_auth_refresh_token create_audit_log
    get_user_totp_credential_by_user_id insert_api_key get_api_key_by_prefix
    delete_user_totp_credential hash_refresh_token issue_access_token generate_refresh_token
    hash_secret encrypt decrypt parse_access_token organizations_for_user issue_session_with_model
    issue_session audit user_has_enabled_totp must_uuid parse_uuid verify_totp_if_enabled
    verify_code code_at hotp truncated big_endian_uint32 six_digits put_uint64 to_upper upper_char
    decode values value32 pack32 check_code decrypt_totp_secret refresh find_session rotate login
    check_credentials verify_password scan_params scan_uint scan_digits skip_space raw_std_decode
    same_bytes login_body roles_of
login_runs = refl

login-ok_example :
    (user : User) × (find
        (λ u. str_eq u.email (normalize_email env.lower_rune credentials.email))
        w.db.users
      ≡ some user)
    × (verify_password env.id_key user.password_hash credentials.password ≡ ok true)
    × PassesFactor env s user.id credentials.totp_code w
login-ok_example = login-ok env s credentials w login_runs

-- Without the code, the second factor keeps the session shut.
login_without_code :
    (login env s (record credentials { totp_code = "" }) w).0 ≡ err (sentinel totp_required)
unfolding find exists select is_unique_violation transaction query time_now pure lift attempt begin
    raise trim_space trim_left trim_right is_space hex to_lower lower_char split replace_all
    cut_prefix raw_url_encode normalize_email list_organizations_by_user organizations_of
    get_user_by_email create_audit_log get_user_totp_credential_by_user_id insert_api_key
    upsert_user_totp_credential parse_uuid verify_totp_if_enabled find_session rotate login
    check_credentials verify_password scan_params raw_std_decode std_values std_value pack
    same_bytes login_body
login_without_code = refl

-- The principal of a user.
abbrev no_principal : Principal
no_principal = owner

abbrev alice_now : Principal
alice_now = value no_principal (principal_for_user env s alice w).0

principal_runs :
    principal_for_user env s alice w ≡ (ok alice_now, (principal_for_user env s alice w).1)
unfolding find exists select is_unique_violation transaction query time_now pure lift attempt begin
    bytes_from get_user_by_id list_organizations_by_user organizations_of
    get_user_totp_credential_by_user_id issue_access_token generate_refresh_token parse_access_token
    organizations_for_user issue_session_with_model issue_session audit user_has_enabled_totp
    permissions_of principal_for_user authenticate_api_key
principal_runs = refl

abbrev owner_permissions : List Permission
owner_permissions = permissions_for_role "owner"

principal_for_user-IsMemberAs_example :
    (o : Organization) × (role : String) × (env.uuid_string o.id ≡ "ii")
    × (has "membership:write" (permissions_for_role role) ≡ true)
    × IsMemberAs o.id alice.id role w.db.memberships
unfolding has lookup insert permissions_for_role roles_of permissions_of principal_for_user
    authenticate_api_key organizations_for_user issue_session_with_model user_has_enabled_totp
    must_uuid get_user_by_id list_organizations_by_user find exists select update_where transaction
    query time_now pure lift attempt on_error outside errors_is as_pg_code
    get_user_totp_credential_by_user_id insert_api_key
principal_for_user-IsMemberAs_example =
    principal_for_user-IsMemberAs env s alice w "ii" "membership:write" principal_runs
      (owner_permissions, refl, refl)
