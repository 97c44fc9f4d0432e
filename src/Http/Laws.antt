-- ===== src/Http/Laws.antt =====
-- How errors are answered.
use delta_uptime.Prelude.{◌≡◌, ◌↔◌, refl, true, arith}
use delta_uptime.Errors.{
  Error, Sentinel, errors_is, invalid_input, email_taken, organization_slug_taken,
  invalid_credentials, refresh_token_invalid, unauthorized, totp_required, totp_invalid,
  permission_denied, api_key_invalid, membership_exists, no_rows,
}
use delta_uptime.Http.{service_error}

-- No sentinel of the package is in the chain.
abbrev pub IsInternal : Error → Type 0
IsInternal e = (t : Sentinel) → errors_is e t ≡ true → t ≡ no_rows

hidden-IsInternal : (e : Error) → service_error e ≡ (500, "internal server error") → IsInternal e
unfolding service_error
hidden-IsInternal e h no_rows found = refl
hidden-IsInternal e h invalid_input found = ground arith
hidden-IsInternal e h email_taken found = ground arith
hidden-IsInternal e h organization_slug_taken found = ground arith
hidden-IsInternal e h invalid_credentials found = ground arith
hidden-IsInternal e h refresh_token_invalid found = ground arith
hidden-IsInternal e h unauthorized found = ground arith
hidden-IsInternal e h totp_required found = ground arith
hidden-IsInternal e h totp_invalid found = ground arith
hidden-IsInternal e h permission_denied found = ground arith
hidden-IsInternal e h api_key_invalid found = ground arith
hidden-IsInternal e h membership_exists found = ground arith

IsInternal-hidden : (e : Error) → IsInternal e → service_error e ≡ (500, "internal server error")
unfolding service_error
IsInternal-hidden e h = ground (
  arith,
  h invalid_input,
  h email_taken,
  h organization_slug_taken,
  h invalid_credentials,
  h refresh_token_invalid,
  h unauthorized,
  h totp_required,
  h totp_invalid,
  h permission_denied,
  h api_key_invalid,
  h membership_exists,
)

-- A service error is answered by 500 and a text that tells nothing of it exactly when no sentinel
-- of the package is in its chain.
pub service_error-IsInternal_iff :
    (e : Error) → (service_error e ≡ (500, "internal server error")) ↔ IsInternal e
service_error-IsInternal_iff e = (hidden-IsInternal e, IsInternal-hidden e)
