-- ===== src/Service/Keys.antt =====
-- apps/control-plane/internal/auth/service.go: creating, listing and revoking API keys.
use delta_uptime.Prelude.{
  ℕ, String, List, [], ◌∷◌, Option, none, some, str_eq, ◌==◌, if◌then◌else◌, map,
}
use delta_uptime.Errors.{sentinel, wrap, unauthorized}
use delta_uptime.Access.{api_key_read, api_key_write}
use delta_uptime.Text.{trim_space, hex}
use delta_uptime.Input.{validate_scopes, api_key_text, invalid}
use delta_uptime.Database.{ApiKey, Organization, MetadataValue}
use delta_uptime.Database.Controls.{
  AuditParams, create_api_key as insert_api_key, list_api_keys_by_organization,
  revoke_api_key as revoke_row,
}
use delta_uptime.Effects.{
  App, pool, in_tx, pure, raise, lift, on_error, missing_or, ◌>>=◌, ◌>>◌, query, commit,
  transaction, rand_read,
}
use delta_uptime.Service.{Env, Service, Principal, ApiKeyInfo, ApiKeyCreateResult}
use delta_uptime.Service.Tokens.{hash_secret}
use delta_uptime.Service.Session.{parse_uuid, must_uuid, audit}
use delta_uptime.Service.Members.{authorized_organization}

-- The text of a nullable id: the zero value stands for NULL.
abbrev pub id_text : (ℕ → String) → Option ℕ → String
id_text uuid_string none = ""
id_text uuid_string (some id) = uuid_string id

module _ (env : Env) (s : Service) where
  abbrev pub api_key_info_from_model : ApiKey → ApiKeyInfo
  api_key_info_from_model key = record {
    id = env.uuid_string key.id;
    name = key.name;
    prefix = key.key_prefix;
    scopes = key.scopes;
    last_used_at = key.last_used_at;
    revoked_at = key.revoked_at;
    created_at = key.created_at;
    created_by_user_id = id_text env.uuid_string key.created_by_user_id;
  }

  -- `generateAPIKey`: the text of the key, and its prefix.
  unfoldable pub generate_api_key : App (String × String)
  generate_api_key = do
    prefix ← on_error (rand_read 4) (wrap "generate random bytes")
    secret ← on_error (rand_read 18) (wrap "generate random bytes")
    pure (api_key_text prefix secret, hex prefix)

  -- The entry names the user, and no API key as the actor.
  abbrev pub create_key_entry : Principal → Organization → ApiKey → AuditParams
  create_key_entry principal org key = record {
    organization_id = some org.id;
    actor_type = principal.type;
    actor_user_id = must_uuid env principal.user.id;
    actor_api_key_id = none;
    action = "api_key.create";
    target_type = "api_key";
    target_id = env.uuid_string key.id;
    metadata =
        ("name", MetadataValue.text key.name)
        ∷ ("scopes", MetadataValue.texts key.scopes)
        ∷ ("prefix", MetadataValue.text key.key_prefix)
        ∷ [];
  }

  unfoldable pub create_key_body :
      Principal → Organization → (name raw prefix : String) → List String → App ApiKeyCreateResult
  create_key_body principal org name raw prefix scopes = do
    key ←
        on_error
          (query in_tx (
            insert_api_key org.id (must_uuid env principal.user.id) name prefix
              (hash_secret env s raw) scopes))
          (wrap "create api key")
    audit in_tx (create_key_entry principal org key)
    on_error commit (wrap "commit api key create tx")
    pure (record { info = api_key_info_from_model key; token = raw })

  unfoldable pub create_api_key : Principal → String → String → List String → App ApiKeyCreateResult
  create_api_key principal slug raw_name raw_scopes = do
    org ← authorized_organization env s principal slug api_key_write
    scopes ← lift (validate_scopes raw_scopes)
    let name = trim_space raw_name
    if str_eq name "" then raise (invalid "api key name is required") else pure tt
    (raw, prefix) ← generate_api_key
    transaction "begin api key create tx" (create_key_body principal org name raw prefix scopes)

  unfoldable pub list_api_keys : Principal → String → App (List ApiKeyInfo)
  list_api_keys principal slug = do
    org ← authorized_organization env s principal slug api_key_read
    keys ← on_error (query pool (list_api_keys_by_organization org.id)) (wrap "list api keys")
    pure (map api_key_info_from_model keys)

  abbrev pub revoke_entry : Principal → Organization → ApiKey → AuditParams
  revoke_entry principal org key = record {
    organization_id = some org.id;
    actor_type = principal.type;
    actor_user_id = must_uuid env principal.user.id;
    actor_api_key_id = must_uuid env principal.api_key_id;
    action = "api_key.revoke";
    target_type = "api_key";
    target_id = env.uuid_string key.id;
    metadata = ("prefix", MetadataValue.text key.key_prefix) ∷ [];
  }

  -- A key of another organization is found out only after the update, which is then rolled back.
  unfoldable pub revoke_key_body : Principal → Organization → ℕ → App ApiKeyInfo
  revoke_key_body principal org key_id = do
    key ← on_error (query in_tx (revoke_row key_id)) (missing_or unauthorized "revoke api key")
    if key.organization_id == org.id then pure tt else raise (sentinel unauthorized)
    audit in_tx (revoke_entry principal org key)
    on_error commit (wrap "commit api key revoke tx")
    pure (api_key_info_from_model key)

  unfoldable pub revoke_api_key : Principal → String → String → App ApiKeyInfo
  revoke_api_key principal slug api_key_id = do
    org ← authorized_organization env s principal slug api_key_write
    key_id ← lift (parse_uuid env api_key_id)
    transaction "begin api key revoke tx" (revoke_key_body principal org key_id)
