-- ===== src/Service.antt =====
-- apps/control-plane/internal/auth/service.go, types.go and tokens.go: what the service is made
-- of, its inputs and results, and what it calls outside the repository.
pub mod Tokens
pub mod Session
pub mod Quiet
pub mod Stable
pub mod Steps
pub mod Reading
pub mod Maintains
pub mod Register
pub mod Login
pub mod Refresh
pub mod Identify
pub mod Totp
pub mod Members
pub mod Keys
pub mod Listing
pub mod Atomic
pub mod Grants
pub mod Joining
pub mod MembersWhole
pub mod Trail
pub mod Window
pub mod Issuing
pub mod Enabling
pub mod Enrolment
pub mod PasswordLogin
pub mod NewKey
pub mod Factor
pub mod Authorized
pub mod KeyLogin
pub mod Passkeys
pub mod PasskeySetup
pub mod PasskeyLogin
pub mod PasskeyUser
pub mod PasskeyAdmitted
pub mod PasskeyStored
pub mod PasskeyEnrolled
pub mod PasskeyAtomic
pub mod PasskeyMaintains
pub mod Authenticator
pub mod Renewal
pub mod Admission
use Prim.Native.Char.{Char}
use delta_uptime.Prelude.{ℕ, String, Bool, Option, List}
use delta_uptime.Errors.{Result}
use delta_uptime.Access.{Permission}
use delta_uptime.Database.{Metadata}
use delta_uptime.Webauthn.{Webauthn}

-- The registered claims of an access token; the times are whole seconds.
pub record Claims : Type 0 where
  pub subject : String
  pub issued_at : ℕ
  pub not_before : ℕ
  pub expires_at : ℕ

-- What `jwt.ParseWithClaims` returns.
pub record ParsedToken : Type 0 where
  pub valid : Bool
  pub subject : String

-- The code outside the repository, and the parts of the standard library that are taken as given:
-- Unicode's case mapping, `net/mail`, `pgtype.UUID`, argon2id, golang-jwt, HMAC, AES-GCM,
-- go-webauthn.
pub record Env : Type 0 where
  pub lower_rune : Char → Char
  pub parse_address : String → Bool
  pub uuid_string : ℕ → String
  pub uuid_scan : String → Option ℕ
  -- `argon2.IDKey`: password, salt, iterations, memory, parallelism, length
  pub id_key : String → List ℕ → ℕ → ℕ → ℕ → ℕ → List ℕ
  -- the text of a token that a secret signs
  pub sign_token : String → Claims → Result String
  -- at a time, a token and the key function of its algorithm
  pub parse_token : ℕ → String → (String → Result String) → Result ParsedToken
  -- a key and a text
  pub hmac_sha256 : List ℕ → String → List ℕ
  -- a key, a nonce and a text
  pub seal : List ℕ → List ℕ → String → List ℕ
  pub unseal : List ℕ → List ℕ → List ℕ → Option String
  -- a key and a message
  pub hmac_sha1 : List ℕ → List ℕ → List ℕ
  pub upper_rune : Char → Char
  pub webauthn : Webauthn

pub record Service : Type 0 where
  pub access_secret : String
  pub refresh_secret : String
  pub access_ttl : ℕ
  pub refresh_ttl : ℕ
  pub secrets_key : List ℕ
  pub issuer : String

pub record LoginInput : Type 0 where
  pub email : String
  pub password : String
  pub totp_code : String

pub record UserInfo : Type 0 where
  pub id : String
  pub email : String
  pub display_name : String
  pub is_system_admin : Bool
  pub totp_enabled : Bool

pub record OrganizationInfo : Type 0 where
  pub id : String
  pub slug : String
  pub name : String
  pub role : String

pub record AuthResult : Type 0 where
  pub access_token : String
  pub access_token_expires_at : ℕ
  pub refresh_token : String
  pub refresh_token_expires_at : ℕ
  pub user : UserInfo
  pub organizations : List OrganizationInfo

-- `PrincipalTypeUser` and `PrincipalTypeAPIKey`
abbrev pub principal_user : String
principal_user = "user"

abbrev pub principal_api_key : String
principal_api_key = "api_key"

pub record Principal : Type 0 where
  pub type : String
  pub user : UserInfo
  pub api_key_id : String
  pub organization_roles : List (String × String)
  pub permissions : List (String × List Permission)

pub record TotpSetup : Type 0 where
  pub secret : String
  pub otpauth_url : String

pub record MembershipInfo : Type 0 where
  pub user : UserInfo
  pub role : String

-- The zero time of Go is `none`.
pub record ApiKeyInfo : Type 0 where
  pub id : String
  pub name : String
  pub prefix : String
  pub scopes : List String
  pub last_used_at : Option ℕ
  pub revoked_at : Option ℕ
  pub created_at : ℕ
  pub created_by_user_id : String

pub record ApiKeyCreateResult : Type 0 where
  pub info : ApiKeyInfo
  pub token : String

pub record AuditLogInfo : Type 0 where
  pub id : String
  pub actor_type : String
  pub actor_user_id : String
  pub actor_api_key_id : String
  pub action : String
  pub target_type : String
  pub target_id : String
  pub metadata : Metadata
  pub occurred_at : ℕ

pub record WebauthnBeginResult : Type 0 where
  pub session_id : String
  pub options : String

pub record WebauthnFinishInput : Type 0 where
  pub session_id : String
  pub credential : String

pub record WebauthnCredentialInfo : Type 0 where
  pub id : String
  pub created_at : ℕ
  pub last_used_at : Option ℕ
