-- ===== src/Access.antt =====
-- apps/control-plane/internal/auth/permissions.go: the permissions that each preset role carries.
-- A `map[Permission]struct{}` is the list of its keys; `has` is the test `_, ok := set[p]`.
pub mod Laws
use delta_uptime.Prelude.{
  String, Bool, true, false, ◌||◌, Option, none, some, List, [], ◌∷◌, str_eq, if◌then◌else◌,
}

abbrev pub Permission : Type 0
Permission = String

abbrev pub organization_read : Permission
organization_read = "organization:read"

abbrev pub membership_read : Permission
membership_read = "membership:read"

abbrev pub membership_write : Permission
membership_write = "membership:write"

abbrev pub api_key_read : Permission
api_key_read = "api_key:read"

abbrev pub api_key_write : Permission
api_key_write = "api_key:write"

abbrev pub audit_read : Permission
audit_read = "audit:read"

abbrev pub totp_write : Permission
totp_write = "totp:write"

-- Membership of a text in a set of texts.
unfoldable pub has : String → List String → Bool
has p [] = false
has p (q ∷ set) = str_eq q p || has p set

-- `m[key]` with its `ok`: a map is its entries.
unfoldable pub lookup {ℓ} : {V : Type ℓ} → String → List (String × V) → Option V
lookup key [] = none
lookup key (entry ∷ entries) = if str_eq entry.0 key then some entry.1 else lookup key entries

-- `m[key] = value`.
unfoldable pub insert {ℓ} : {V : Type ℓ} → String → V → List (String × V) → List (String × V)
insert key value [] = (key, value) ∷ []
insert key value (entry ∷ entries) =
    if str_eq entry.0 key then (key, value) ∷ entries else entry ∷ insert key value entries

unfoldable pub role_permissions : List (String × List Permission)
role_permissions =
    (
      "owner",
      organization_read ∷ membership_read ∷ membership_write ∷ api_key_read ∷ api_key_write
          ∷ audit_read ∷ totp_write ∷ [],
    )
    ∷ (
      "admin",
      organization_read ∷ membership_read ∷ membership_write ∷ api_key_read ∷ api_key_write
          ∷ audit_read ∷ totp_write ∷ [],
    )
    ∷ ("operator", organization_read ∷ membership_read ∷ audit_read ∷ totp_write ∷ [])
    ∷ ("viewer", organization_read ∷ membership_read ∷ audit_read ∷ totp_write ∷ [])
    ∷ ("billing", organization_read ∷ api_key_read ∷ audit_read ∷ totp_write ∷ [])
    ∷ []

-- The copy of a set, key by key.
abbrev copy_set : Option (List Permission) → List Permission
copy_set none = []
copy_set (some base) = base

unfoldable pub permissions_for_role : String → List Permission
unfolding lookup role_permissions
permissions_for_role role = copy_set (lookup role role_permissions)
