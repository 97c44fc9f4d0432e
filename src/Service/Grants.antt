-- ===== src/Service/Grants.antt =====
-- `principalForUser` and `AuthenticateAccessToken` of
-- apps/control-plane/internal/auth/service.go: where the permissions of a user come from.
use delta_uptime.Prelude.{
  ℕ, String, ◌≡◌, refl, sym, ap, ◌∙◌, true, some, List, [], ◌∷◌, ◌++◌, map, select, str_eq,
  Bool-cases, ◌⊎◌, inl, inr, using, eq_iff, AnyOf,
}
use mathlib.Core.List.{map-append}
use delta_uptime.Errors.{ok, wrap}
use delta_uptime.Access.{Permission, has, lookup, insert, permissions_for_role}
use delta_uptime.Access.Laws.{lookup-insert}
use delta_uptime.Database.{User, Organization, Membership}
use delta_uptime.Database.Identity.{
  list_organizations_by_user, organizations_of, organization_row, is_member,
}
use delta_uptime.Effects.{World, pool}
use delta_uptime.Effects.Inversion.{bind-ok, pure-ok}
use delta_uptime.Effects.Steps.{pool_step}
use delta_uptime.Service.{Env, Service, Principal, OrganizationInfo}
use delta_uptime.Service.Session.{organization_info, organizations_for_user, user_has_enabled_totp}
use delta_uptime.Service.Identify.{permissions_of, principal_for_user, user_principal}
use delta_uptime.Service.Authorized.{Holder}

-- A permission list that stands under the id was there before, or is the preset of the role in an
-- organization of this id.
permissions_of-lookup :
    (id : String) (m : List (String × List Permission)) (orgs : List OrganizationInfo)
    (held : List Permission)
    → lookup id (permissions_of m orgs) ≡ some held
    → (lookup id m ≡ some held)
      ⊎ AnyOf (λ o. (o.id ≡ id) × (permissions_for_role o.role ≡ held)) orgs
unfolding permissions_of
permissions_of-lookup id m [] held e = inl e
permissions_of-lookup id m (o ∷ os) held e =
    elim (permissions_of-lookup id (insert o.id (permissions_for_role o.role) m) os held e) [
      | inr later ↦ inr (inr later)
      | inl here ↦
          let put = sym (lookup-insert o.id id (permissions_for_role o.role) m) ∙ here in
          elim (Bool-cases (str_eq o.id id)) [
            | inl same ↦ inr (inl ((eq_iff o.id id).0 same, cc (rw same at put)))
            | inr other ↦ inl (rw other at put)
          ]
    ]

-- A membership of the user in the organization, with the role.
abbrev pub IsMemberAs : ℕ → ℕ → String → List Membership → Type 0
IsMemberAs org user role = AnyOf (λ m. (is_member org user m ≡ true) × (m.role ≡ role))

AnyOf-append :
    {A : Type 0} (P : A → Type 0) (xs ys : List A) → AnyOf P (xs ++ ys) → AnyOf P xs ⊎ AnyOf P ys
AnyOf-append P [] ys h = inr h
AnyOf-append P (x ∷ xs) ys (inl h) = inl (inl h)
AnyOf-append P (x ∷ xs) ys (inr h) = elim (AnyOf-append P xs ys h) [
  | inl k ↦ inl (inr k)
  | inr k ↦ inr k
]

module _ (env : Env) where
  rows-IsMemberAs :
      (id : String) (held : List Permission) (user : ℕ) (o : Organization) (ms : List Membership)
      → AnyOf
          (λ i. (i.id ≡ id) × (permissions_for_role i.role ≡ held))
          (map (organization_info env) (map (organization_row o) (select (is_member o.id user) ms)))
      → (env.uuid_string o.id ≡ id)
        × ((role : String) × (permissions_for_role role ≡ held) × IsMemberAs o.id user role ms)
  unfolding select
  rows-IsMemberAs id held user o [] h = elim h [ ]
  rows-IsMemberAs id held user o (m ∷ ms) h = elim (Bool-cases (is_member o.id user m)) [
    | inl joined ↦ elim (rw joined at h) [
      | inl (same, preset) ↦ (same, (m.role, preset, inl (joined, refl)))
      | inr later ↦
          let (same, (role, preset, there)) = rows-IsMemberAs id held user o ms later in
          (same, (role, preset, inr there))
    ]
    | inr apart ↦
        let (same, (role, preset, there)) = rows-IsMemberAs id held user o ms (rw apart at h) in
        (same, (role, preset, inr there))
  ]

  all_rows-IsMemberAs :
      (id : String) (held : List Permission) (user : ℕ) (ms : List Membership)
      (os : List Organization)
      → AnyOf
          (λ i. (i.id ≡ id) × (permissions_for_role i.role ≡ held))
          (map (organization_info env) (organizations_of user ms os))
      → (o : Organization) × (role : String) × (env.uuid_string o.id ≡ id)
        × (permissions_for_role role ≡ held)
        × IsMemberAs o.id user role ms
  unfolding organizations_of
  all_rows-IsMemberAs id held user ms [] h = elim h [ ]
  all_rows-IsMemberAs id held user ms (o ∷ os) h =
      let rows = map (organization_row o) (select (is_member o.id user) ms) in
      let both = rw (map-append (organization_info env) rows (organizations_of user ms os)) at h in
      elim (AnyOf-append _ (map (organization_info env) rows)
        (map (organization_info env) (organizations_of user ms os)) both) [
          | inl here ↦
              let (same, (role, preset, there)) = rows-IsMemberAs id held user o ms here in
              (o, role, same, preset, there)
          | inr later ↦ all_rows-IsMemberAs id held user ms os later
        ]

module _ (env : Env) (s : Service) where
  principal_for_user-ok :
      (user : User) (w : World) {p : Principal} {v : World}
      → principal_for_user env s user w ≡ (ok p, v)
      → p.permissions
        ≡ permissions_of [] (
            map
              (organization_info env)
              (organizations_of user.id w.db.memberships w.db.organizations))
  unfolding principal_for_user organizations_for_user list_organizations_by_user
  principal_for_user-ok user w e =
      using (bind-ok (organizations_for_user env pool user.id) _ w e) λ (orgs, v1, e1, r1).
        using
          (pool_step _ w (list_organizations_by_user user.id) (wrap "list organizations by user")
            e1)
          λ (rows, d, got, r2).
            using (pure-ok (map (organization_info env) rows) _ r2) λ (orgs-are, _).
              using (bind-ok (user_has_enabled_totp pool user.id) _ v1 r1) λ (t, v3, _, r3).
                using (pure-ok (user_principal env s user orgs t) v3 r3) λ (is, _).
                  let given : organizations_of user.id w.db.memberships w.db.organizations ≡ rows =
                    cc (ap (λ x. x.0) got) in
                  rw (sym is, sym orgs-are, sym given) refl

  -- The permissions of a user come from memberships alone: who holds a permission in the
  -- organization of an id, when a user's principal is made, is a member of an organization with
  -- that id, in a role whose preset has the permission.
  pub principal_for_user-IsMemberAs :
      (user : User) (w : World) {p : Principal} {v : World} (id : String) (permission : Permission)
      → principal_for_user env s user w ≡ (ok p, v)
      → Holder p id permission
      → (o : Organization) × (role : String) × (env.uuid_string o.id ≡ id)
        × (has permission (permissions_for_role role) ≡ true)
        × IsMemberAs o.id user.id role w.db.memberships
  unfolding lookup
  principal_for_user-IsMemberAs user w id permission e (held, found, granted) =
      let orgs =
        map (organization_info env)
          (organizations_of user.id w.db.memberships w.db.organizations) in
      elim (permissions_of-lookup id [] orgs held (rw (principal_for_user-ok user w e) at found)) [
        | inl nothing ↦ cc nothing
        | inr some_org ↦
            let (o, role, same, preset, there) =
              all_rows-IsMemberAs env id held user.id w.db.memberships w.db.organizations
                some_org in
            (o, role, same, rw preset granted, there)
      ]
