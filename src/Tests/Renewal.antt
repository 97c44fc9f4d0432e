-- ===== src/Tests/Renewal.antt =====
-- A refresh and a login that must succeed.
use delta_uptime.Prelude.{◌≡◌, refl, find, exists}
use delta_uptime.Errors.{ok}
use delta_uptime.Text.{hex, trim_space, trim_left, trim_right, is_space}
use delta_uptime.Text.Base64.{raw_url_encode, raw_encode}
use delta_uptime.Text.Utf8.{text_bytes, utf8_bytes}
use delta_uptime.Effects.{World, bytes_from}
use delta_uptime.Service.{AuthResult}
use delta_uptime.Service.Tokens.{hash_refresh_token}
use delta_uptime.Service.Refresh.{refresh}
use delta_uptime.Service.Renewal.{refresh-succeeds}
use delta_uptime.Prelude.{inr}
use delta_uptime.Text.{to_lower, lower_char, split, cut_prefix}
use delta_uptime.Text.Base64.{raw_std_decode, std_values, std_value, pack}
use delta_uptime.Text.Base32.{decode, values, value as value32, pack as pack32}
use delta_uptime.Input.{normalize_email}
use delta_uptime.Password.{verify_password, scan_params, scan_uint, scan_digits, skip_space}
use delta_uptime.Totp.{
  code_at, hotp, truncated, big_endian_uint32, six_digits, put_uint64, to_upper, upper_char,
}
use delta_uptime.Database.Identity.{same_bytes}
use delta_uptime.Service.{LoginInput}
use delta_uptime.Service.Tokens.{decrypt}
use delta_uptime.Service.Session.{decrypt_totp_secret, verify_code}
use delta_uptime.Service.Login.{login}
use delta_uptime.Service.PasswordLogin.{PassesFactor}
use delta_uptime.Service.Admission.{login-succeeds}
use delta_uptime.Tests.Sample.{env, s, w, session, alice, factor}

refresh-succeeds_example : (r : AuthResult) × (v : World) × (refresh env s "tok" w ≡ (ok r, v))
unfolding find exists hex trim_space trim_left trim_right is_space raw_url_encode raw_encode
    text_bytes utf8_bytes bytes_from hash_refresh_token
refresh-succeeds_example =
    refresh-succeeds env s "tok" w session alice refl refl refl refl refl refl refl

abbrev credentials : LoginInput
credentials = record {
  email = " alice@example.com";
  password = "long password";
  totp_code = "123456";
}

-- Alice has an enabled second factor, which her code opens.
shown : PassesFactor env s 1 "123456" w
unfolding find decrypt_totp_secret decrypt verify_code code_at hotp truncated big_endian_uint32
    six_digits put_uint64 to_upper upper_char decode values value32 pack32 trim_space trim_left
    trim_right is_space
shown = inr (factor, refl, inr ("SECRET", refl, refl))

login-succeeds_example : (r : AuthResult) × (v : World) × (login env s credentials w ≡ (ok r, v))
unfolding find exists hex trim_space trim_left trim_right is_space raw_url_encode raw_encode
    text_bytes utf8_bytes bytes_from hash_refresh_token normalize_email to_lower lower_char
    verify_password split scan_params scan_uint scan_digits skip_space raw_std_decode std_values
    std_value pack same_bytes cut_prefix
login-succeeds_example =
    login-succeeds env s credentials alice w refl refl refl refl shown refl refl
