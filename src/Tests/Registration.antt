-- ===== src/Tests/Registration.antt =====
-- A registration.
use delta_uptime.Prelude.{ℕ, ◌≡◌, refl, List, [], false}
use delta_uptime.Errors.{Result, ok, err}
use delta_uptime.Input.{RegisterInput}
use delta_uptime.Password.{hash_password as hash_with_salt}
use delta_uptime.Effects.{World}
use delta_uptime.Service.{AuthResult}
use delta_uptime.Service.Enrolment.{Enrols, register-ok}
use delta_uptime.Tests.Sample.{env, s, w}
use delta_uptime.Prelude.{find, exists, select, update_where}
use delta_uptime.Errors.{errors_is, as_pg_code, is_unique_violation}
use delta_uptime.Effects.{
  transaction, query, time_now, pure, lift, attempt, begin, bytes_from, called, commit,
  deferring_rollback, missing_or, on_error, outside, raise, rand_read, run, ◌>>=◌,
}
use delta_uptime.Text.{
  trim_space, trim_left, trim_right, is_space, hex, to_lower, lower_char, split, replace_all,
  cut_prefix,
}
use delta_uptime.Text.Base64.{raw_url_encode}
use delta_uptime.Input.{
  normalize_email, normalize_slug, validate_role, validate_scopes, scopes_loop, api_key_text,
  parse_api_key_prefix, validate_slug, slug_chars, validate_registration_input,
}
use delta_uptime.Access.{has, lookup, insert, permissions_for_role}
use delta_uptime.Database.Identity.{
  get_user_by_id, list_organizations_by_user, organizations_of, get_user_by_email,
  get_organization_by_slug, create_membership, update_membership_role, get_organization_by_id,
  create_user, create_organization,
}
use delta_uptime.Database.Sessions.{
  get_auth_refresh_token_by_token_hash, create_auth_refresh_token, rotate_auth_refresh_token,
}
use delta_uptime.Database.Controls.{
  create_audit_log, get_user_totp_credential_by_user_id, create_api_key as insert_api_key,
  get_api_key_by_prefix, touch_api_key_last_used, revoke_api_key as revoke_row,
  upsert_user_totp_credential, delete_user_totp_credential,
}
use delta_uptime.Service.Tokens.{
  hash_refresh_token, issue_access_token, generate_refresh_token, hash_secret, encrypt, decrypt,
  parse_access_token,
}
use delta_uptime.Service.Session.{
  organizations_for_user, issue_session_with_model, issue_session, audit, user_has_enabled_totp,
  must_uuid, parse_uuid, verify_totp_if_enabled, verify_code, check_code, decrypt_totp_secret,
}
use delta_uptime.Service.Register.{register, register_body, normalize_registration, hash_password}

abbrev value : {A : Type 0} → A → Result A → A
value a (ok b) = b
value a (err e) = a

abbrev no_result : AuthResult
no_result = record {
  access_token = "";
  access_token_expires_at = 0;
  refresh_token = "";
  refresh_token_expires_at = 0;
  user = record {
    id = "";
    email = "";
    display_name = "";
    is_system_admin = false;
    totp_enabled = false;
  };
  organizations = [];
}

abbrev form : RegisterInput
form = record {
  email = "carol@example.com ";
  password = "a very long password";
  display_name = "Carol";
  organization_name = "Initech";
  organization_slug = "Initech";
}

abbrev registered : AuthResult
registered = value no_result (register env s form w).0

abbrev enrolled : World
enrolled = (register env s form w).1

register_runs : register env s form w ≡ (ok registered, enrolled)
unfolding find exists select update_where errors_is as_pg_code is_unique_violation transaction query
    time_now pure lift attempt begin bytes_from called commit deferring_rollback missing_or on_error
    outside raise rand_read run ◌>>=◌ trim_space trim_left trim_right is_space hex to_lower
    lower_char split replace_all cut_prefix raw_url_encode normalize_email normalize_slug
    validate_role validate_scopes scopes_loop api_key_text parse_api_key_prefix validate_slug
    slug_chars validate_registration_input has lookup insert permissions_for_role get_user_by_id
    list_organizations_by_user organizations_of get_user_by_email get_organization_by_slug
    create_membership update_membership_role get_organization_by_id create_user create_organization
    get_auth_refresh_token_by_token_hash create_auth_refresh_token rotate_auth_refresh_token
    create_audit_log get_user_totp_credential_by_user_id insert_api_key get_api_key_by_prefix
    touch_api_key_last_used revoke_row upsert_user_totp_credential delete_user_totp_credential
    hash_refresh_token issue_access_token generate_refresh_token hash_secret encrypt decrypt
    parse_access_token organizations_for_user issue_session_with_model issue_session audit
    user_has_enabled_totp must_uuid parse_uuid verify_totp_if_enabled verify_code check_code
    decrypt_totp_secret register register_body normalize_registration hash_password
register_runs = refl

register-ok_example :
    (salt : List ℕ) × (validate_registration_input env.parse_address
        (normalize_registration env s form)
      ≡ ok tt)
    × Enrols
        (normalize_registration env s form)
        (hash_with_salt env.id_key form.password salt)
        w.now
        w.db
        enrolled.db
register-ok_example = register-ok env s form w register_runs
