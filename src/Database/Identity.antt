-- ===== src/Database/Identity.antt =====
-- packages/database/postgres/users.sql.go, organizations.sql.go and memberships.sql.go, with the
-- constraints of migrations/00001_init.sql and 00004_phase1_webauthn.sql.
use delta_uptime.Prelude.{
  ◌≡◌, refl, arith, ℕ, suc, String, Bool, true, false, ◌&&◌, ◌||◌, not, none, some, List, [], ◌∷◌,
  ◌++◌, ◌==◌, str_eq, if◌then◌else◌, find, exists, update_where, map, select,
}
use delta_uptime.Errors.{ok, err}
use delta_uptime.Database.{
  Query, User, Organization, Membership, one, unique_violation, foreign_key_violation,
  check_violation,
}

-- A row with the defaults of its columns.
abbrev pub new_user : String → String → String → Bool → ℕ → ℕ → User
new_user email password_hash display_name is_system_admin now id = record {
  id = id;
  email = email;
  password_hash = password_hash;
  display_name = display_name;
  is_system_admin = is_system_admin;
  created_at = now;
  updated_at = now;
  webauthn_user_handle = [];
}

unfoldable pub create_user : String → String → String → Bool → Query User
create_user email password_hash display_name is_system_admin now d =
    let user = new_user email password_hash display_name is_system_admin now d.next_id in
    if exists (λ u. str_eq u.email email) d.users
    then (err unique_violation, d)
    else (ok user, record d { users = d.users ++ user ∷ []; next_id = suc d.next_id })

unfoldable pub get_user_by_id : ℕ → Query User
get_user_by_id id now d = (one (find (λ u. u.id == id) d.users), d)

unfoldable pub get_user_by_email : String → Query User
get_user_by_email email now d = (one (find (λ u. str_eq u.email email) d.users), d)

-- Equality of byte strings.
unfoldable pub same_bytes : List ℕ → List ℕ → Bool
same_bytes [] [] = true
same_bytes [] (b ∷ bs) = false
same_bytes (a ∷ as') [] = false
same_bytes (a ∷ as') (b ∷ bs) = a == b && same_bytes as' bs

pub same_bytes_refl : (bytes : List ℕ) → same_bytes bytes bytes ≡ true
unfolding same_bytes
same_bytes_refl [] = refl
same_bytes_refl (b ∷ bytes) = ground (arith, same_bytes_refl bytes)

abbrev pub with_handle : List ℕ → ℕ → User → User
with_handle handle now u = record u { webauthn_user_handle = handle; updated_at = now }

-- The unique index on the handles that are not NULL.
unfoldable pub set_user_webauthn_handle : ℕ → List ℕ → Query User
unfolding same_bytes
set_user_webauthn_handle id handle now d = elim (find (λ u. u.id == id) d.users) [
  | none ↦ (one none, d)
  | some user ↦
      if exists (λ u. not (u.id == id) && same_bytes u.webauthn_user_handle handle) d.users
      then (err unique_violation, d)
      else (
        ok (with_handle handle now user),
        record d { users = update_where (λ u. u.id == id) (with_handle handle now) d.users },
      )
]

abbrev pub new_organization : String → String → ℕ → ℕ → Organization
new_organization slug name now id = record {
  id = id;
  slug = slug;
  name = name;
  created_at = now;
  updated_at = now;
}

unfoldable pub create_organization : String → String → Query Organization
create_organization slug name now d =
    let org = new_organization slug name now d.next_id in
    if exists (λ o. str_eq o.slug slug) d.organizations
    then (err unique_violation, d)
    else (ok org, record d { organizations = d.organizations ++ org ∷ []; next_id = suc d.next_id })

unfoldable pub get_organization_by_id : ℕ → Query Organization
get_organization_by_id id now d = (one (find (λ o. o.id == id) d.organizations), d)

unfoldable pub get_organization_by_slug : String → Query Organization
get_organization_by_slug slug now d = (one (find (λ o. str_eq o.slug slug) d.organizations), d)

abbrev pub is_member : ℕ → ℕ → Membership → Bool
is_member organization_id user_id m = m.organization_id == organization_id && m.user_id == user_id

-- The CHECK constraint on the column `role`.
abbrev pub is_preset_role : String → Bool
is_preset_role role =
    str_eq role "owner"
    || str_eq role "admin"
    || str_eq role "operator"
    || str_eq role "viewer"
    || str_eq role "billing"

abbrev pub new_membership : ℕ → ℕ → String → ℕ → ℕ → Membership
new_membership organization_id user_id role now id = record {
  id = id;
  organization_id = organization_id;
  user_id = user_id;
  role = role;
  created_at = now;
}

unfoldable pub create_membership : ℕ → ℕ → String → Query Membership
create_membership organization_id user_id role now d =
    let membership = new_membership organization_id user_id role now d.next_id in
    if not (is_preset_role role)
    then (err check_violation, d)
    else if exists (is_member organization_id user_id) d.memberships
    then (err unique_violation, d)
    else if exists (λ o. o.id == organization_id) d.organizations
        && exists (λ u. u.id == user_id) d.users
    then (
      ok membership,
      record d { memberships = d.memberships ++ membership ∷ []; next_id = suc d.next_id },
    )
    else (err foreign_key_violation, d)

abbrev pub with_role : String → Membership → Membership
with_role role m = record m { role = role }

unfoldable pub update_membership_role : ℕ → ℕ → String → Query Membership
update_membership_role organization_id user_id role now d =
    elim (find (is_member organization_id user_id) d.memberships) [
      | none ↦ (one none, d)
      | some membership ↦ if not (is_preset_role role) then (err check_violation, d) else (
        ok (with_role role membership),
        record d {
          memberships =
              update_where (is_member organization_id user_id) (with_role role) d.memberships;
        },
      )
    ]

unfoldable pub get_membership : ℕ → ℕ → Query Membership
get_membership organization_id user_id now d =
    (one (find (is_member organization_id user_id) d.memberships), d)

unfoldable pub list_memberships_by_organization : ℕ → Query (List Membership)
list_memberships_by_organization organization_id now d =
    (ok (select (λ m. m.organization_id == organization_id) d.memberships), d)

unfoldable pub list_memberships_by_user : ℕ → Query (List Membership)
list_memberships_by_user user_id now d = (ok (select (λ m. m.user_id == user_id) d.memberships), d)

pub record OrganizationRow : Type 0 where
  pub organization : Organization
  pub role : String

pub record UserRow : Type 0 where
  pub user : User
  pub role : String

abbrev pub organization_row : Organization → Membership → OrganizationRow
organization_row o m = record { organization = o; role = m.role }

abbrev user_row : User → Membership → UserRow
user_row u m = record { user = u; role = m.role }

-- The join of the organizations with the memberships of a user, in the order of the organizations.
unfoldable pub organizations_of : ℕ → List Membership → List Organization → List OrganizationRow
organizations_of user_id memberships [] = []
organizations_of user_id memberships (o ∷ os) =
    map (organization_row o) (select (is_member o.id user_id) memberships)
    ++ organizations_of user_id memberships os

unfoldable pub list_organizations_by_user : ℕ → Query (List OrganizationRow)
unfolding organizations_of
list_organizations_by_user user_id now d =
    (ok (organizations_of user_id d.memberships d.organizations), d)

unfoldable pub users_of : ℕ → List Membership → List User → List UserRow
users_of organization_id memberships [] = []
users_of organization_id memberships (u ∷ us) =
    map (user_row u) (select (is_member organization_id u.id) memberships)
    ++ users_of organization_id memberships us

unfoldable pub list_users_by_organization : ℕ → Query (List UserRow)
unfolding users_of
list_users_by_organization organization_id now d =
    (ok (users_of organization_id d.memberships d.users), d)
