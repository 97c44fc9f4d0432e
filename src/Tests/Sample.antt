-- ===== src/Tests/Sample.antt =====
-- A concrete environment, a service and a database: one user, who owns one organization, with a
-- session, an enabled second factor and an API key.
use Prim.Native.String.{len, ◌++◌}
use delta_uptime.Prelude.{◌+◌, ℕ, zero, suc, String, true, false, none, some, [], ◌∷◌}
use delta_uptime.Errors.{ok}
use delta_uptime.Database.{
  Db, User, Organization, Membership, AuthRefreshToken, UserTotpCredential, ApiKey,
}
use delta_uptime.Effects.{World}
use delta_uptime.Webauthn.{Webauthn}
use delta_uptime.Service.{Env, Service, Principal}

-- An id is printed in unary, and read by its length.
abbrev pub unary : ℕ → String
unary zero = ""
unary (suc n) = "i" ++ unary n

-- A credential is written as its content, and the library accepts the text "signed".
abbrev pub library : Webauthn
library = record {
  begin_registration =
      λ user challenge now. ok ("options", record { expires = now + 300; content = "c" });
  begin_login = λ user challenge now. ok ("options", record { expires = now + 300; content = "c" });
  create_credential = λ user session response now. ok (record { id = 9 ∷ []; content = response });
  validate_login = λ user session response now. ok (record { id = 7 ∷ []; content = response });
  parse_creation = λ raw. ok raw;
  parse_assertion = λ raw. ok raw;
  marshal_session = λ session. ok session.content;
  unmarshal_session = λ text. ok (record { expires = 0; content = text });
  marshal_credential = λ credential. ok credential.content;
  unmarshal_credential = λ text. ok (record { id = 7 ∷ []; content = text });
}

abbrev pub env : Env
env = record {
  lower_rune = λ c. c;
  parse_address = λ email. true;
  uuid_string = unary;
  uuid_scan = λ raw. some (len raw);
  id_key = λ password salt iterations memory parallelism size. len password ∷ [];
  sign_token = λ secret claims. ok claims.subject;
  parse_token = λ now token key. ok (record { valid = true; subject = token });
  hmac_sha256 = λ key value. len value ∷ [];
  seal = λ key nonce plaintext. [];
  unseal = λ key nonce ciphertext. some "SECRET";
  hmac_sha1 = λ key message. 0 ∷ 1 ∷ 226 ∷ 64 ∷ 0 ∷ [];
  upper_rune = λ c. c;
  webauthn = library;
}

abbrev pub s : Service
s = record {
  access_secret = "a";
  refresh_secret = "r";
  access_ttl = 900000000000;
  refresh_ttl = 9000000000000;
  secrets_key = 107 ∷ [];
  issuer = "DeltaUptime";
}

abbrev pub alice : User
alice = record {
  id = 1;
  email = "alice@example.com";
  password_hash = "$argon2id$v=19$m=65536,t=3,p=2$AA$DQ";
  display_name = "Alice";
  is_system_admin = false;
  created_at = 0;
  updated_at = 0;
  webauthn_user_handle = [];
}

abbrev pub bob : User
bob = record alice { id = 6; email = "bob@example.com" }

abbrev pub acme : Organization
acme = record { id = 2; slug = "acme"; name = "Acme"; created_at = 0; updated_at = 0 }

abbrev pub ownership : Membership
ownership = record { id = 3; organization_id = 2; user_id = 1; role = "owner"; created_at = 0 }

-- The session of the token "tok".
abbrev pub session : AuthRefreshToken
session = record {
  id = 4;
  user_id = 1;
  token_hash = "03";
  expires_at = 100000000000;
  created_at = 0;
  used_at = none;
  revoked_at = none;
  replaced_by_token_id = none;
}

abbrev pub factor : UserTotpCredential
factor = record {
  user_id = 1;
  secret_ciphertext = [];
  secret_nonce = 0 ∷ 0 ∷ 0 ∷ 0 ∷ 0 ∷ 0 ∷ 0 ∷ 0 ∷ 0 ∷ 0 ∷ 0 ∷ 0 ∷ [];
  enabled_at = some 5;
  created_at = 0;
  updated_at = 0;
}

abbrev pub key_text : String
key_text = "duk_01020304_05"

abbrev pub key : ApiKey
key = record {
  id = 5;
  organization_id = 2;
  created_by_user_id = some 1;
  name = "deploy";
  key_prefix = "01020304";
  key_hash = "0f";
  scopes = "audit:read" ∷ [];
  last_used_at = none;
  revoked_at = none;
  created_at = 0;
}

abbrev pub db : Db
db = record {
  users = alice ∷ bob ∷ [];
  organizations = acme ∷ [];
  memberships = ownership ∷ [];
  refresh_tokens = session ∷ [];
  totp_credentials = factor ∷ [];
  api_keys = key ∷ [];
  audit_logs = [];
  webauthn_credentials = [];
  webauthn_sessions = [];
  next_id = 7;
}

abbrev pub w : World
w = record { db = db; tx = none; now = 10000000000; faults = []; entropy = λ n. n; drawn = 0 }

-- Alice in her organization.
abbrev pub owner : Principal
owner = record {
  type = "user";
  user = record {
    id = "i";
    email = "alice@example.com";
    display_name = "Alice";
    is_system_admin = false;
    totp_enabled = true;
  };
  api_key_id = "";
  organization_roles = ("ii", "owner") ∷ [];
  permissions = ("ii", "api_key:write" ∷ "membership:write" ∷ []) ∷ [];
}
