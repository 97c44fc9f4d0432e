-- ===== src/Errors.antt =====
-- apps/control-plane/internal/auth/service.go: the error values, and how `fmt.Errorf`,
-- `errors.Is` and `errors.As` read them. A function that may fail returns a `Result`.
use Prim.Native.String.{◌++◌}
use delta_uptime.Prelude.{
  ◌≡◌, ◌⊎◌, inl, inr, refl, String, ℕ, Bool, false, ◌||◌, Option, none, some, ◌==◌, str_eq,
}

-- The sentinel values of `errors.New`; the last is `pgx.ErrNoRows`.
pub data Sentinel : Type 0 where
  invalid_input email_taken organization_slug_taken invalid_credentials : Sentinel
  refresh_token_invalid unauthorized totp_required totp_invalid : Sentinel
  permission_denied api_key_invalid membership_exists no_rows : Sentinel

pub data Error : Type 0 where
  sentinel : Sentinel → Error
  -- a `*pgconn.PgError` with its code
  pg : String → Error
  -- any other error of a library or of the system
  fault : String → Error
  -- `fmt.Errorf("text: %w", err)`
  wrap : String → Error → Error
  -- `fmt.Errorf("%w: text", err)`
  detail : Error → String → Error
  -- `fmt.Errorf("%w: text: %w", err, cause)`
  both : Error → String → Error → Error

pub data Result {ℓ} (A : Type ℓ) : Type ℓ where
  ok : A → Result A
  err : Error → Result A

pub Result-cases {ℓ} :
    {A : Type ℓ} (r : Result A) → ((a : A) × (r ≡ ok a)) ⊎ ((e : Error) × (r ≡ err e))
Result-cases (ok a) = inl (a, refl)
Result-cases (err e) = inr (e, refl)

abbrev sentinel_id : Sentinel → ℕ
sentinel_id invalid_input = 0
sentinel_id email_taken = 1
sentinel_id organization_slug_taken = 2
sentinel_id invalid_credentials = 3
sentinel_id refresh_token_invalid = 4
sentinel_id unauthorized = 5
sentinel_id totp_required = 6
sentinel_id totp_invalid = 7
sentinel_id permission_denied = 8
sentinel_id api_key_invalid = 9
sentinel_id membership_exists = 10
sentinel_id no_rows = 11

-- The texts that `errors.New` is given.
unfoldable pub text : Sentinel → String
text invalid_input = "invalid input"
text email_taken = "email already exists"
text organization_slug_taken = "organization slug already exists"
text invalid_credentials = "invalid credentials"
text refresh_token_invalid = "refresh token is invalid"
text unauthorized = "unauthorized"
text totp_required = "totp code is required"
text totp_invalid = "invalid totp code"
text permission_denied = "permission denied"
text api_key_invalid = "invalid api key"
text membership_exists = "membership already exists"
text no_rows = "no rows in result set"

-- `err.Error()`. A server error prints its code; its other fields are not kept.
unfoldable pub message : Error → String
unfolding text
message (sentinel s) = text s
message (pg code) = code
message (fault what) = what
message (wrap what e) = what ++ (": " ++ message e)
message (detail e what) = message e ++ (": " ++ what)
message (both e what cause) = message e ++ (": " ++ (what ++ (": " ++ message cause)))

-- `errors.Is(err, target)`: the target is the error or stands in its chain of wrapped errors.
unfoldable pub errors_is : Error → Sentinel → Bool
errors_is (sentinel s) t = sentinel_id s == sentinel_id t
errors_is (pg code) t = false
errors_is (fault what) t = false
errors_is (wrap what e) t = errors_is e t
errors_is (detail e what) t = errors_is e t
errors_is (both e what cause) t = errors_is e t || errors_is cause t

abbrev or_else : Option String → Option String → Option String
or_else none later = later
or_else (some code) _ = some code

-- `errors.As(err, &pgErr)`: the code of the first `*pgconn.PgError` of the chain.
unfoldable pub as_pg_code : Error → Option String
as_pg_code (sentinel s) = none
as_pg_code (pg code) = some code
as_pg_code (fault what) = none
as_pg_code (wrap what e) = as_pg_code e
as_pg_code (detail e what) = as_pg_code e
as_pg_code (both e what cause) = or_else (as_pg_code e) (as_pg_code cause)

abbrev is_code : String → Option String → Bool
is_code code none = false
is_code code (some c) = str_eq c code

unfoldable pub is_unique_violation : Error → Bool
unfolding as_pg_code
is_unique_violation e = is_code "23505" (as_pg_code e)
