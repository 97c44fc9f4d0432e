-- ===== src/Service/Identify.antt =====
-- apps/control-plane/internal/auth/service.go: who makes a request, and what the caller may do.
use delta_uptime.Prelude.{
  String, Bool, false, ◌&&◌, ◌||◌, not, List, [], ◌∷◌, Option, none, some, str_eq, if◌then◌else◌,
}
use delta_uptime.Errors.{
  Error, Result, ok, err, sentinel, wrap, unauthorized, api_key_invalid, permission_denied,
}
use delta_uptime.Access.{Permission, has, lookup, insert, permissions_for_role}
use delta_uptime.Input.{parse_api_key_prefix}
use delta_uptime.Database.{User, ApiKey}
use delta_uptime.Database.Identity.{get_user_by_id, get_organization_by_id}
use delta_uptime.Database.Sessions.{is_null}
use delta_uptime.Database.Controls.{get_api_key_by_prefix, touch_api_key_last_used}
use delta_uptime.Effects.{
  App, pool, pure, raise, lift, on_error, missing_or, ◌>>=◌, ◌>>◌, query, for_each,
}
use delta_uptime.Service.{
  Env, Service, Principal, UserInfo, OrganizationInfo, AuthResult, principal_user,
  principal_api_key,
}
use delta_uptime.Service.Tokens.{parse_access_token, hash_secret}
use delta_uptime.Service.Session.{
  parse_uuid, user_info, organizations_for_user, user_has_enabled_totp,
}

-- The maps that the loop over the organizations of a user fills.
unfoldable pub roles_of : List (String × String) → List OrganizationInfo → List (String × String)
roles_of roles [] = roles
roles_of roles (org ∷ orgs) = roles_of (insert org.id org.role roles) orgs

unfoldable pub permissions_of :
    List (String × List Permission) → List OrganizationInfo → List (String × List Permission)
permissions_of permissions [] = permissions
permissions_of permissions (org ∷ orgs) =
    permissions_of (insert org.id (permissions_for_role org.role) permissions) orgs

-- `scopesToPermissions`: the scopes as a set.
unfoldable pub scopes_to_permissions : List String → List Permission
scopes_to_permissions scopes = scopes

abbrev pub permitted : Permission → Option (List Permission) → Result (Unit {0})
permitted permission none = err (sentinel unauthorized)
permitted permission (some perms) =
    if has permission perms then ok tt else err (sentinel permission_denied)

unfoldable pub require_permission : Principal → String → Permission → Result (Unit {0})
require_permission principal organization_id permission =
    permitted permission (lookup organization_id principal.permissions)

-- The zero value of a struct.
abbrev pub no_user : UserInfo
no_user = record {
  id = "";
  email = "";
  display_name = "";
  is_system_admin = false;
  totp_enabled = false;
}

module _ (env : Env) (s : Service) where
  abbrev pub user_principal : User → List OrganizationInfo → Bool → Principal
  user_principal user orgs totp_enabled = record {
    type = principal_user;
    user = user_info env user totp_enabled;
    api_key_id = "";
    organization_roles = roles_of [] orgs;
    permissions = permissions_of [] orgs;
  }

  unfoldable pub principal_for_user : User → App Principal
  principal_for_user user = do
    orgs ← organizations_for_user env pool user.id
    totp_enabled ← user_has_enabled_totp pool user.id
    pure (user_principal user orgs totp_enabled)

  abbrev as_unauthorized : Error → Error
  as_unauthorized e = sentinel unauthorized

  unfoldable pub authenticate_access_token : String → App Principal
  authenticate_access_token access_token = do
    user_id ← on_error (parse_access_token env s access_token) as_unauthorized
    id ← on_error (lift (parse_uuid env user_id)) as_unauthorized
    user ← on_error (query pool (get_user_by_id id)) (missing_or unauthorized "get current user")
    principal_for_user user

  -- A stored key that the presented text opens.
  abbrev pub key_matches : String → ApiKey → Bool
  key_matches raw key = is_null key.revoked_at && str_eq key.key_hash (hash_secret env s raw)

  abbrev pub key_principal : ApiKey → Principal
  key_principal key = record {
    type = principal_api_key;
    user = no_user;
    api_key_id = env.uuid_string key.id;
    organization_roles = (env.uuid_string key.organization_id, "api_key") ∷ [];
    permissions = (env.uuid_string key.organization_id, scopes_to_permissions key.scopes) ∷ [];
  }

  unfoldable pub authenticate_api_key : String → App Principal
  authenticate_api_key raw = do
    prefix ← on_error (lift (parse_api_key_prefix raw)) (λ e. sentinel api_key_invalid)
    key ←
        on_error (query pool (get_api_key_by_prefix prefix))
          (missing_or api_key_invalid "get api key")
    if not (is_null key.revoked_at) || not (str_eq key.key_hash (hash_secret env s raw))
        then raise (sentinel api_key_invalid)
        else (do
          on_error (query pool (touch_api_key_last_used key.id)) (wrap "touch api key")
          pure (key_principal key))

  -- One round of the loop over the organizations of an API key; the role is not used.
  unfoldable pub organization_of_key : String × String → App OrganizationInfo
  organization_of_key (org_id, _) = do
    id ← lift (parse_uuid env org_id)
    org ← on_error (query pool (get_organization_by_id id)) (wrap "get organization for api key")
    pure
        (record { id = env.uuid_string org.id; slug = org.slug; name = org.name; role = "api_key" })

  unfoldable pub organizations_for_principal : Principal → App (List OrganizationInfo)
  organizations_for_principal principal =
      if str_eq principal.type principal_user
      then (do
        user_id ← lift (parse_uuid env principal.user.id)
        organizations_for_user env pool user_id)
      else if str_eq principal.type principal_api_key
      then for_each organization_of_key principal.organization_roles
      else raise (sentinel unauthorized)

  -- `Service.Me`: the session's part of the result is the zero value.
  unfoldable pub me : String → App AuthResult
  me access_token = do
    principal ← authenticate_access_token access_token
    orgs ← organizations_for_principal principal
    pure (record {
      access_token = "";
      access_token_expires_at = 0;
      refresh_token = "";
      refresh_token_expires_at = 0;
      user = principal.user;
      organizations = orgs;
    })
