-- ===== src/Tests/Factors.antt =====
-- The second factor: its codes, setting it up and disabling it.
use delta_uptime.Prelude.{ℕ, ◌≡◌, ◌↔◌, refl, true, false, none, some}
use delta_uptime.Errors.{Result, ok, err}
use delta_uptime.Database.{UserTotpCredential}
use delta_uptime.Database.Sessions.{is_null}
use delta_uptime.Database.Controls.{of_user}
use delta_uptime.Totp.{
  code_at, hotp, truncated, big_endian_uint32, six_digits, put_uint64, to_upper, upper_char,
}
use delta_uptime.Text.Base32.{decode, values, value as value32, pack as pack32}
use delta_uptime.Effects.{World, pool}
use delta_uptime.Service.{TotpSetup, UserInfo}
use delta_uptime.Service.PasswordLogin.{Opens}
use delta_uptime.Service.Factor.{setup_totp-ok, disable_totp-ok}
use delta_uptime.Service.Window.{InWindow, verify_code_iff}
use delta_uptime.Service.Enabling.{enable_totp-ok}
use delta_uptime.Service.Totp.{enable_totp, enable_body}
use delta_uptime.Database.Controls.{enable_user_totp_credential, enabled}
use delta_uptime.Tests.Sample.{env, s, w, owner}
use delta_uptime.Prelude.{find, exists, select, update_where}
use delta_uptime.Errors.{errors_is, as_pg_code, is_unique_violation}
use delta_uptime.Effects.{
  transaction, query, time_now, pure, lift, attempt, begin, bytes_from, called, commit,
  deferring_rollback, missing_or, on_error, outside, raise, rand_read, run, ◌>>=◌,
}
use delta_uptime.Text.{trim_space, trim_left}
use delta_uptime.Database.Sessions.{rotate_auth_refresh_token}
use delta_uptime.Database.Controls.{
  create_audit_log, get_user_totp_credential_by_user_id, create_api_key as insert_api_key,
  revoke_api_key as revoke_row, upsert_user_totp_credential, delete_user_totp_credential,
}
use delta_uptime.Service.Tokens.{
  hash_refresh_token, hash_secret, encrypt, decrypt, parse_access_token,
}
use delta_uptime.Service.Session.{
  issue_session, audit, user_has_enabled_totp, must_uuid, parse_uuid, verify_totp_if_enabled,
  verify_code, check_code, decrypt_totp_secret,
}
use delta_uptime.Service.Identify.{roles_of, permissions_of}
use delta_uptime.Service.Totp.{setup_totp, setup_body, disable_totp, disable_body}

abbrev value : {A : Type 0} → A → Result A → A
value a (ok b) = b
value a (err e) = a

verify_code_iff_example :
    (verify_code env s "secret" " 123456" 59 ≡ true) ↔ InWindow env s "secret" " 123456" 59
verify_code_iff_example = verify_code_iff env s "secret" " 123456" 59

abbrev setup : TotpSetup
setup = value (record { secret = ""; otpauth_url = "" }) (setup_totp env s owner w).0

abbrev set_up : World
set_up = (setup_totp env s owner w).1

setup_runs : setup_totp env s owner w ≡ (ok setup, set_up)
unfolding find exists select is_unique_violation transaction query time_now pure lift called commit
    deferring_rollback raise rand_read run rotate_auth_refresh_token create_audit_log
    get_user_totp_credential_by_user_id revoke_row upsert_user_totp_credential
    delete_user_totp_credential hash_secret encrypt decrypt issue_session audit
    user_has_enabled_totp must_uuid parse_uuid verify_totp_if_enabled setup_totp setup_body
setup_runs = refl

setup_totp-ok_example :
    (id : ℕ) × (k : UserTotpCredential) × (parse_uuid env owner.user.id ≡ ok id)
    × (find (of_user id) set_up.db.totp_credentials ≡ some k)
    × (k.enabled_at ≡ none)
setup_totp-ok_example = setup_totp-ok env s owner w setup_runs

-- The factor of the user was enabled before, and the login that needed a code needs none now.
switched_off : (verify_totp_if_enabled env s pool 1 "" set_up).0 ≡ ok tt
unfolding find exists select update_where errors_is as_pg_code is_unique_violation transaction query
    time_now pure lift attempt begin bytes_from called commit deferring_rollback raise rand_read run
    rotate_auth_refresh_token create_audit_log get_user_totp_credential_by_user_id revoke_row
    upsert_user_totp_credential delete_user_totp_credential hash_secret encrypt decrypt
    issue_session audit user_has_enabled_totp must_uuid parse_uuid verify_totp_if_enabled setup_totp
    setup_body
switched_off = refl

abbrev disabled : UserInfo
disabled = value owner.user (disable_totp env s owner "123456" w).0

abbrev without : World
without = (disable_totp env s owner "123456" w).1

disable_runs : disable_totp env s owner "123456" w ≡ (ok disabled, without)
unfolding find exists select is_unique_violation transaction query time_now pure lift called commit
    deferring_rollback ◌>>=◌ trim_space trim_left rotate_auth_refresh_token create_audit_log
    get_user_totp_credential_by_user_id revoke_row upsert_user_totp_credential
    delete_user_totp_credential hash_secret encrypt decrypt issue_session audit
    user_has_enabled_totp must_uuid parse_uuid verify_totp_if_enabled verify_code code_at hotp
    truncated big_endian_uint32 six_digits put_uint64 to_upper upper_char decode values value32
    pack32 check_code decrypt_totp_secret setup_body disable_totp disable_body
disable_runs = refl

disable_totp-ok_example :
    (id : ℕ) × (k : UserTotpCredential) × (parse_uuid env owner.user.id ≡ ok id)
    × (find (of_user id) w.db.totp_credentials ≡ some k)
    × (is_null k.enabled_at ≡ false)
    × Opens env s k "123456" w.now
    × (find (of_user id) without.db.totp_credentials ≡ none)
disable_totp-ok_example = disable_totp-ok env s owner "123456" w disable_runs

-- The pending factor is enabled by a code.
abbrev on : UserInfo
on = value owner.user (enable_totp env s owner "123456" set_up).0

abbrev switched_on : World
switched_on = (enable_totp env s owner "123456" set_up).1

enable_runs : enable_totp env s owner "123456" set_up ≡ (ok on, switched_on)
unfolding find exists select update_where errors_is as_pg_code is_unique_violation transaction query
    time_now pure lift called commit deferring_rollback missing_or on_error outside raise rand_read
    run ◌>>=◌ trim_space trim_left create_audit_log get_user_totp_credential_by_user_id
    insert_api_key upsert_user_totp_credential delete_user_totp_credential hash_refresh_token
    encrypt decrypt parse_access_token audit user_has_enabled_totp must_uuid parse_uuid
    verify_totp_if_enabled verify_code code_at hotp truncated big_endian_uint32 six_digits
    put_uint64 to_upper upper_char decode values value32 pack32 check_code decrypt_totp_secret
    roles_of permissions_of setup_totp setup_body disable_totp disable_body enable_totp enable_body
    enable_user_totp_credential
enable_runs = refl

enable_totp-ok_example :
    (id : ℕ) × (k : UserTotpCredential) × (parse_uuid env owner.user.id ≡ ok id)
    × (find (of_user id) set_up.db.totp_credentials ≡ some k)
    × Opens env s k "123456" set_up.now
    × (find (of_user id) switched_on.db.totp_credentials ≡ some (enabled set_up.now k))
    × (switched_on.db.totp_credentials
        ≡ update_where (of_user id) (enabled set_up.now) set_up.db.totp_credentials)
enable_totp-ok_example = enable_totp-ok env s owner "123456" set_up enable_runs
