-- ===== src/Tests/Parts.antt =====
-- All or nothing, the tables and the log over a run, and the laws of the small parts.
use delta_uptime.Prelude.{◌+◌, String, ◌≡◌, ◌↔◌, ◌⊎◌, refl, List, [], ◌∷◌, true, map, All}
use delta_uptime.Errors.{Error, ok, err, sentinel, wrap, refresh_token_invalid}
use delta_uptime.Access.{Permission, organization_read, membership_write}
use delta_uptime.Access.Laws.{has-membership_write_iff}
use delta_uptime.Input.Laws.{
  validate_scopes-ok, Distinct, Allowed, parse_api_key_prefix-api_key_text, validate_role_iff,
}
use delta_uptime.Effects.{World}
use delta_uptime.Service.Atomic.{call, refreshing, call_all_or_nothing}
use delta_uptime.Http.{service_error}
use delta_uptime.Http.Laws.{IsInternal, service_error-IsInternal_iff}
use delta_uptime.Server.{Reach, here, next, pass, serve, handle, post_refresh}
use delta_uptime.History.Columns.{IsSound, Reach-IsSound}
use delta_uptime.History.Logs.{Extends, Reach-Extends}
use delta_uptime.Tests.Sample.{env, s, w}
use delta_uptime.Prelude.{find, exists, select, update_where}
use delta_uptime.Errors.{errors_is, as_pg_code, is_unique_violation}
use delta_uptime.Effects.{
  transaction, query, time_now, pure, lift, attempt, begin, bytes_from, called, commit,
  deferring_rollback, missing_or, on_error, outside, raise, rand_read, run, ◌>>=◌,
}
use delta_uptime.Text.{
  trim_space, trim_left, trim_right, is_space, hex, to_lower, lower_char, split, replace_all,
  cut_prefix,
}
use delta_uptime.Input.{
  normalize_email, normalize_slug, validate_role, validate_scopes, scopes_loop, api_key_text,
  parse_api_key_prefix, validate_slug, slug_chars,
}
use delta_uptime.Access.{has, lookup, insert, permissions_for_role}
use delta_uptime.Database.Identity.{
  get_user_by_id, list_organizations_by_user, organizations_of, get_user_by_email,
  get_organization_by_slug, create_membership, update_membership_role, get_organization_by_id,
}
use delta_uptime.Database.Sessions.{
  get_auth_refresh_token_by_token_hash, create_auth_refresh_token, rotate_auth_refresh_token,
}
use delta_uptime.Database.Controls.{
  create_audit_log, get_user_totp_credential_by_user_id, create_api_key as insert_api_key,
  get_api_key_by_prefix, touch_api_key_last_used, revoke_api_key as revoke_row,
  upsert_user_totp_credential, delete_user_totp_credential,
}
use delta_uptime.Service.Tokens.{
  hash_refresh_token, issue_access_token, generate_refresh_token, hash_secret, encrypt, decrypt,
  parse_access_token,
}
use delta_uptime.Service.Session.{
  organizations_for_user, issue_session_with_model, issue_session, audit, user_has_enabled_totp,
  must_uuid, parse_uuid, verify_totp_if_enabled, verify_code, check_code, decrypt_totp_secret,
}
use delta_uptime.Service.Refresh.{refresh, find_session, rotate}

-- A token that no session has.
abbrev unmoved : World
unmoved = (refresh env s "unknown token" w).1

refused :
    call env s (refreshing "unknown token") w ≡ (err (sentinel refresh_token_invalid), unmoved)
unfolding find exists select update_where errors_is as_pg_code is_unique_violation transaction query
    time_now pure lift attempt begin bytes_from called commit deferring_rollback missing_or on_error
    outside raise rand_read run ◌>>=◌ trim_space trim_left trim_right is_space hex to_lower
    lower_char split replace_all cut_prefix normalize_email normalize_slug validate_role
    validate_scopes scopes_loop api_key_text parse_api_key_prefix validate_slug slug_chars has
    lookup insert permissions_for_role get_user_by_id list_organizations_by_user organizations_of
    get_user_by_email get_organization_by_slug create_membership update_membership_role
    get_organization_by_id get_auth_refresh_token_by_token_hash create_auth_refresh_token
    rotate_auth_refresh_token create_audit_log get_user_totp_credential_by_user_id insert_api_key
    get_api_key_by_prefix touch_api_key_last_used revoke_row upsert_user_totp_credential
    delete_user_totp_credential hash_refresh_token issue_access_token generate_refresh_token
    hash_secret encrypt decrypt parse_access_token organizations_for_user issue_session_with_model
    issue_session audit user_has_enabled_totp must_uuid parse_uuid verify_totp_if_enabled
    verify_code check_code decrypt_totp_secret refresh find_session rotate
refused = refl

call_all_or_nothing_example : unmoved.db ≡ w.db
call_all_or_nothing_example = call_all_or_nothing env s (refreshing "unknown token") w refused

sound : IsSound w.db
unfolding exists
sound = ((refl, (refl, tt)), (refl, tt), (refl, tt), (refl, tt))

-- A refresh is served, then time passes.
abbrev served : World
served = (handle env s (post_refresh (ok "tok")) w).1

abbrev later : World
later = record served { now = served.now + 5 }

two_steps : Reach env s w later
two_steps = next {u = served} (next {u = w} here (serve (post_refresh (ok "tok")))) (pass 5)

Reach-IsSound_example : IsSound later.db
Reach-IsSound_example = Reach-IsSound env s two_steps refl sound

Reach-Extends_example : Extends w.db.audit_logs later.db.audit_logs
Reach-Extends_example = Reach-Extends env s two_steps refl

abbrev scopes : List String
scopes = " audit:read" ∷ "api_key:read" ∷ "audit:read" ∷ []

abbrev clean : List String
clean = "audit:read" ∷ "api_key:read" ∷ []

scopes_run : validate_scopes scopes ≡ ok clean
unfolding find exists select update_where errors_is as_pg_code is_unique_violation transaction query
    time_now pure lift attempt begin bytes_from called commit deferring_rollback missing_or on_error
    outside raise rand_read run ◌>>=◌ trim_space trim_left trim_right is_space hex to_lower
    lower_char split replace_all cut_prefix normalize_email normalize_slug validate_role
    validate_scopes scopes_loop api_key_text parse_api_key_prefix validate_slug slug_chars has
    lookup insert permissions_for_role get_user_by_id list_organizations_by_user organizations_of
    get_user_by_email get_organization_by_slug create_membership update_membership_role
    get_organization_by_id get_auth_refresh_token_by_token_hash create_auth_refresh_token
    rotate_auth_refresh_token create_audit_log get_user_totp_credential_by_user_id insert_api_key
    get_api_key_by_prefix touch_api_key_last_used revoke_row upsert_user_totp_credential
    delete_user_totp_credential hash_refresh_token issue_access_token generate_refresh_token
    hash_secret encrypt decrypt parse_access_token organizations_for_user issue_session_with_model
    issue_session audit user_has_enabled_totp must_uuid parse_uuid verify_totp_if_enabled
    verify_code check_code decrypt_totp_secret refresh find_session rotate
scopes_run = refl

validate_scopes-ok_example :
    Distinct clean
    × All Allowed clean
    × ((p : String) → has p clean ≡ has p (map trim_space scopes))
validate_scopes-ok_example = validate_scopes-ok scopes clean scopes_run

parse_api_key_prefix-api_key_text_example :
    parse_api_key_prefix (api_key_text (1 ∷ 255 ∷ []) (7 ∷ [])) ≡ ok (hex (1 ∷ 255 ∷ []))
parse_api_key_prefix-api_key_text_example =
    parse_api_key_prefix-api_key_text (1 ∷ 255 ∷ []) (7 ∷ [])

validate_role_iff_example :
    ((validate_role "viewer" ≡ ok tt)
      ↔ ((p : Permission) × (has p (permissions_for_role "viewer") ≡ true)))
    × ((validate_role "viewer" ≡ ok tt)
        ↔ (has organization_read (permissions_for_role "viewer") ≡ true))
validate_role_iff_example = validate_role_iff "viewer"

abbrev failure : Error
failure = wrap "commit login tx" (Error.fault "timeout")

service_error-IsInternal_iff_example :
    (service_error failure ≡ (500, "internal server error")) ↔ IsInternal failure
service_error-IsInternal_iff_example = service_error-IsInternal_iff failure

has-membership_write_iff_example :
    (has membership_write (permissions_for_role "operator") ≡ true)
    ↔ (◌≡◌ {A = String} "operator" "owner" ⊎ ◌≡◌ {A = String} "operator" "admin")
has-membership_write_iff_example = has-membership_write_iff "operator"
