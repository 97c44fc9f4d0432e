-- ===== src/Webauthn.antt =====
-- github.com/go-webauthn/webauthn and the JSON encoding of its values, as far as
-- apps/control-plane/internal/auth/webauthn.go calls them: arguments of the model. A value of the
-- library is what the program reads of it and a text for the rest.
use delta_uptime.Prelude.{ℕ, String, List}
use delta_uptime.Errors.{Result}

-- `webauthn.Credential`: its id and the rest.
pub record Credential : Type 0 where
  pub id : List ℕ
  pub content : String

-- `webauthn.SessionData`: the time when the session expires and the rest.
pub record SessionData : Type 0 where
  pub expires : ℕ
  pub content : String

-- `webAuthnUser`: what the library asks of a user.
pub record WebauthnUser : Type 0 where
  pub id : List ℕ
  pub name : String
  pub display_name : String
  pub credentials : List Credential

-- `webauthn.Config`, as the program fills it.
pub record Config : Type 0 where
  pub rp_id : String
  pub rp_display_name : String
  pub rp_origins : List String
  pub resident_key : String
  pub user_verification : String
  pub attestation_preference : String

-- `url.URL`: `host` has the port, `hostname` has not.
pub record Url : Type 0 where
  pub scheme : String
  pub host : String
  pub hostname : String

-- The library reads a clock and draws its own random challenge: the time and the bytes are
-- arguments.
pub record Webauthn : Type 0 where
  -- the options for the browser and the data of the session
  pub begin_registration : WebauthnUser → List ℕ → ℕ → Result (String × SessionData)
  pub begin_login : WebauthnUser → List ℕ → ℕ → Result (String × SessionData)
  pub create_credential : WebauthnUser → SessionData → String → ℕ → Result Credential
  pub validate_login : WebauthnUser → SessionData → String → ℕ → Result Credential
  -- `ParseCredentialCreationResponseBytes` and `ParseCredentialRequestResponseBytes`
  pub parse_creation : String → Result String
  pub parse_assertion : String → Result String
  -- `json.Marshal` and `json.Unmarshal`
  pub marshal_session : SessionData → Result String
  pub unmarshal_session : String → Result SessionData
  pub marshal_credential : Credential → Result String
  pub unmarshal_credential : String → Result Credential
