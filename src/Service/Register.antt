-- ===== src/Service/Register.antt =====
-- `Service.Register` of apps/control-plane/internal/auth/service.go.
use delta_uptime.Prelude.{String, false, [], ◌∷◌, none, some}
use delta_uptime.Errors.{wrap}
use delta_uptime.Text.{trim_space}
use delta_uptime.Input.{RegisterInput, normalize_email, normalize_slug, validate_registration_input}
use delta_uptime.Database.{User, Organization, MetadataValue}
use delta_uptime.Database.Identity.{create_user, create_organization, create_membership}
use delta_uptime.Database.Controls.{AuditParams}
use delta_uptime.Password.{hash_password as hash_with_salt}
use delta_uptime.Effects.{
  App, in_tx, pure, lift, on_error, ◌>>=◌, ◌>>◌, query, commit, transaction, rand_read,
}
use delta_uptime.Service.{Env, Service, AuthResult, OrganizationInfo, principal_user}
use delta_uptime.Service.Session.{
  map_create_user_error, map_create_organization_error, issue_session, audit,
}

module _ (env : Env) (s : Service) where
  unfoldable pub normalize_registration : RegisterInput → RegisterInput
  normalize_registration input = record input {
    email = normalize_email env.lower_rune input.email;
    display_name = trim_space input.display_name;
    organization_name = trim_space input.organization_name;
    organization_slug = normalize_slug env.lower_rune input.organization_slug;
  }

  -- `HashPassword`: the salt is drawn, the rest is a function of it.
  unfoldable pub hash_password : String → App String
  hash_password password = do
    salt ← on_error (rand_read 16) (wrap "generate salt")
    pure (hash_with_salt env.id_key password salt)

  abbrev pub owned : Organization → OrganizationInfo
  owned org = record {
    id = env.uuid_string org.id;
    slug = org.slug;
    name = org.name;
    role = "owner";
  }

  abbrev pub register_entry : User → Organization → AuditParams
  register_entry user org = record {
    organization_id = some org.id;
    actor_type = principal_user;
    actor_user_id = some user.id;
    actor_api_key_id = none;
    action = "auth.register";
    target_type = "user";
    target_id = env.uuid_string user.id;
    metadata = ("organization_slug", MetadataValue.text org.slug) ∷ [];
  }

  -- The statements of the transaction, up to the commit.
  unfoldable pub register_body : RegisterInput → String → App AuthResult
  register_body input password_hash = do
    user ←
        on_error (query in_tx (create_user input.email password_hash input.display_name false))
          map_create_user_error
    org ←
        on_error (query in_tx (create_organization input.organization_slug input.organization_name))
          map_create_organization_error
    on_error (query in_tx (create_membership org.id user.id "owner"))
        (wrap "create owner membership")
    auth_result ← issue_session env s in_tx user (owned org ∷ [])
    audit in_tx (register_entry user org)
    on_error commit (wrap "commit register tx")
    pure auth_result

  unfoldable pub register : RegisterInput → App AuthResult
  register raw = do
    let input = normalize_registration raw
    lift (validate_registration_input env.parse_address input)
    password_hash ← on_error (hash_password input.password) (wrap "hash password")
    transaction "begin tx" (register_body input password_hash)
