-- ===== src/Service/Members.antt =====
-- apps/control-plane/internal/auth/service.go: organizations and their memberships.
use delta_uptime.Prelude.{ℕ, String, List, [], ◌∷◌, Option, none, some, if◌then◌else◌}
use delta_uptime.Errors.{
  Error, sentinel, wrap, errors_is, is_unique_violation, unauthorized, membership_exists, no_rows,
}
use delta_uptime.Access.{Permission, lookup, organization_read, membership_read, membership_write}
use delta_uptime.Input.{normalize_email, normalize_slug, validate_role, invalid}
use delta_uptime.Database.{User, Organization, MetadataValue}
use delta_uptime.Database.Identity.{
  get_organization_by_slug, get_user_by_email, get_user_by_id, create_membership,
  update_membership_role, list_users_by_organization, UserRow,
}
use delta_uptime.Database.Controls.{AuditParams}
use delta_uptime.Effects.{
  App, pool, in_tx, pure, raise, lift, on_error, missing_or, ◌>>=◌, ◌>>◌, query, for_each, commit,
  transaction,
}
use delta_uptime.Service.{Env, Service, Principal, OrganizationInfo, MembershipInfo}
use delta_uptime.Service.Session.{parse_uuid, must_uuid, user_info, audit, user_has_enabled_totp}
use delta_uptime.Service.Identify.{require_permission}

-- `m[key]` without its `ok`: the zero value stands for a missing key.
abbrev role_or_empty : Option String → String
role_or_empty none = ""
role_or_empty (some role) = role

module _ (env : Env) (s : Service) where
  -- The start of every method on an organization: it is looked up by its slug, and the caller must
  -- have the permission in it.
  unfoldable pub authorized_organization : Principal → String → Permission → App Organization
  authorized_organization principal slug permission = do
    org ←
        on_error (query pool (get_organization_by_slug (normalize_slug env.lower_rune slug)))
          (missing_or unauthorized "get organization")
    lift (require_permission principal (env.uuid_string org.id) permission)
    pure org

  unfoldable pub get_organization : Principal → String → App OrganizationInfo
  get_organization principal slug = do
    org ← authorized_organization principal slug organization_read
    pure (record {
      id = env.uuid_string org.id;
      slug = org.slug;
      name = org.name;
      role = role_or_empty (lookup (env.uuid_string org.id) principal.organization_roles);
    })

  -- One round of the loop of `ListMemberships`.
  unfoldable pub membership_info : UserRow → App MembershipInfo
  membership_info row = do
    totp_enabled ← user_has_enabled_totp pool row.user.id
    pure (record { user = user_info env row.user totp_enabled; role = row.role })

  unfoldable pub list_memberships : Principal → String → App (List MembershipInfo)
  list_memberships principal slug = do
    org ← authorized_organization principal slug membership_read
    rows ←
        on_error (query pool (list_users_by_organization org.id))
          (wrap "list users by organization")
    for_each membership_info rows

  abbrev pub create_error : Error → Error
  create_error e =
      if is_unique_violation e then sentinel membership_exists else wrap "create membership" e

  abbrev pub absent_user : Error → Error
  absent_user e =
      if errors_is e no_rows
      then invalid "user must exist before membership can be added"
      else wrap "get user by email" e

  abbrev pub add_entry : Principal → Organization → User → String → AuditParams
  add_entry principal org user role = record {
    organization_id = some org.id;
    actor_type = principal.type;
    actor_user_id = must_uuid env principal.user.id;
    actor_api_key_id = must_uuid env principal.api_key_id;
    action = "membership.create";
    target_type = "membership";
    target_id = env.uuid_string user.id;
    metadata = ("role", MetadataValue.text role) ∷ ("email", MetadataValue.text user.email) ∷ [];
  }

  -- The transaction of `AddMembership`, and the read that follows its commit.
  unfoldable pub add_membership_body : Principal → Organization → User → String → App MembershipInfo
  add_membership_body principal org user role = do
    on_error (query in_tx (create_membership org.id user.id role)) create_error
    audit in_tx (add_entry principal org user role)
    on_error commit (wrap "commit membership create tx")
    totp_enabled ← user_has_enabled_totp pool user.id
    pure (record { user = user_info env user totp_enabled; role = role })

  unfoldable pub add_membership : Principal → String → String → String → App MembershipInfo
  add_membership principal slug raw_email role = do
    org ← authorized_organization principal slug membership_write
    let email = normalize_email env.lower_rune raw_email
    if env.parse_address email then pure tt else raise (invalid "invalid email")
    lift (validate_role role)
    user ← on_error (query pool (get_user_by_email email)) absent_user
    transaction "begin membership create tx" (add_membership_body principal org user role)

  abbrev pub update_entry : Principal → Organization → User → String → AuditParams
  update_entry principal org user role = record {
    organization_id = some org.id;
    actor_type = principal.type;
    actor_user_id = must_uuid env principal.user.id;
    actor_api_key_id = must_uuid env principal.api_key_id;
    action = "membership.update_role";
    target_type = "membership";
    target_id = env.uuid_string user.id;
    metadata = ("role", MetadataValue.text role) ∷ [];
  }

  unfoldable pub update_membership_body : Principal → Organization → ℕ → String → App MembershipInfo
  update_membership_body principal org user_id role = do
    membership ←
        on_error (query in_tx (update_membership_role org.id user_id role))
          (missing_or unauthorized "update membership role")
    user ←
        on_error (query in_tx (get_user_by_id membership.user_id))
          (wrap "get updated membership user")
    audit in_tx (update_entry principal org user role)
    on_error commit (wrap "commit membership update tx")
    totp_enabled ← user_has_enabled_totp pool user.id
    pure (record { user = user_info env user totp_enabled; role = membership.role })

  unfoldable pub update_membership : Principal → String → String → String → App MembershipInfo
  update_membership principal slug raw_user_id role = do
    org ← authorized_organization principal slug membership_write
    lift (validate_role role)
    user_id ← lift (parse_uuid env raw_user_id)
    transaction "begin membership update tx" (update_membership_body principal org user_id role)
