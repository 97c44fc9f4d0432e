-- ===== src/Input.antt =====
-- apps/control-plane/internal/auth/service.go: normalising and validating what a request brings,
-- and the text of an API key.
pub mod Laws
use Prim.Native.Char.{Char, code}
use Prim.Native.String.{[], ◌∷◌, len, ◌++◌}
use mathlib.Core.List
use delta_uptime.Prelude.{
  ℕ, String, Bool, true, false, ◌&&◌, ◌||◌, not, List, Option, none, some, ltb, ◌==◌, if◌then◌else◌,
  str_eq, length,
}
use delta_uptime.Errors.{Error, Result, ok, err, sentinel, detail, invalid_input}
use delta_uptime.Access.{
  Permission, has, organization_read, membership_read, membership_write, api_key_read,
  api_key_write, audit_read,
}
use delta_uptime.Text.{is_between, trim_space, to_lower, replace_all, split, hex}

pub record RegisterInput : Type 0 where
  pub email : String
  pub password : String
  pub display_name : String
  pub organization_name : String
  pub organization_slug : String

-- `fmt.Errorf("%w: text", ErrInvalidInput)`
abbrev pub invalid : String → Error
invalid what = detail (sentinel invalid_input) what

unfoldable pub normalize_email : (Char → Char) → String → String
normalize_email lower_rune email = to_lower lower_rune (trim_space email)

unfoldable pub normalize_slug : (Char → Char) → String → String
normalize_slug lower_rune slug = replace_all (to_lower lower_rune (trim_space slug)) " " "-"

abbrev pub is_slug_char : Char → Bool
is_slug_char c = is_between b'a' b'z' (code c) || is_between b'0' b'9' (code c) || code c == b'-'

-- The loop of `validateSlug`.
unfoldable pub slug_chars : String → Result (Unit {0})
slug_chars [] = ok tt
slug_chars (r ∷ slug) =
    if is_slug_char r
    then slug_chars slug
    else err (invalid "organization_slug may contain only lowercase latin letters, digits, and '-'")

unfoldable pub validate_slug : String → Result (Unit {0})
unfolding slug_chars
validate_slug slug =
    if str_eq slug "" then err (invalid "organization_slug is required") else slug_chars slug

unfoldable pub validate_role : String → Result (Unit {0})
validate_role role =
    if str_eq role "owner"
      || str_eq role "admin"
      || str_eq role "operator"
      || str_eq role "viewer"
      || str_eq role "billing"
    then ok tt
    else err (invalid "invalid role")

-- `mail.ParseAddress` succeeds on the address.
unfoldable pub validate_registration_input : (String → Bool) → RegisterInput → Result (Unit {0})
unfolding validate_slug
validate_registration_input parse_address input =
    if not (parse_address input.email)
    then err (invalid "invalid email")
    else if ltb (len input.password) 10
    then err (invalid "password must be at least 10 characters")
    else if str_eq input.display_name ""
    then err (invalid "display_name is required")
    else if str_eq input.organization_name ""
    then err (invalid "organization_name is required")
    else validate_slug input.organization_slug

abbrev pub allowed_scopes : List Permission
allowed_scopes = List.◌∷◌ organization_read (
    List.◌∷◌ membership_read (
      List.◌∷◌ membership_write
        (List.◌∷◌ api_key_read (List.◌∷◌ api_key_write (List.◌∷◌ audit_read List.[])))))

-- `if !slices.Contains(normalized, scope) { normalized = append(normalized, scope) }`
abbrev add_scope : String → List String → List String
add_scope scope normalized =
    if has scope normalized then normalized else List.◌++◌ normalized (List.◌∷◌ scope List.[])

-- The loop of `validateScopes`; a scope that is not allowed ends it. The text of `%q` is the scope
-- without its quotes.
unfoldable pub scopes_loop : List String → List String → Result (List String)
scopes_loop normalized List.[] = ok normalized
scopes_loop normalized (List.◌∷◌ scope scopes) =
    let rest = scopes_loop (add_scope (trim_space scope) normalized) scopes in
    if has (trim_space scope) allowed_scopes
    then rest
    else err (invalid ("unsupported scope " ++ trim_space scope))

unfoldable pub validate_scopes : List String → Result (List String)
unfolding scopes_loop
validate_scopes List.[] = err (invalid "at least one scope is required")
validate_scopes (List.◌∷◌ scope scopes) = scopes_loop List.[] (List.◌∷◌ scope scopes)

-- The text that `generateAPIKey` makes of 4 and 18 random bytes.
unfoldable pub api_key_text : List ℕ → List ℕ → String
api_key_text prefix secret = "duk_" ++ (hex prefix ++ ("_" ++ hex secret))

abbrev malformed : Result String
malformed = err (invalid "malformed api key")

-- `len(parts) != 3 || parts[0] != "duk"`
abbrev second_part : List String → Result String
second_part (List.◌∷◌ a (List.◌∷◌ b (List.◌∷◌ c List.[]))) =
    if str_eq a "duk" then ok b else malformed
second_part _ = malformed

unfoldable pub parse_api_key_prefix : String → Result String
parse_api_key_prefix raw = second_part (split raw "_")
