-- ===== src/Service/Passkeys.antt =====
-- apps/control-plane/internal/auth/webauthn.go: the configuration of the library, and what the four
-- methods of the passkeys share.
use Prim.Native.String.{◌++◌ as join}
use delta_uptime.Prelude.{
  ℕ, String, Bool, true, false, ◌||◌, not, Option, List, [], ◌∷◌, ◌++◌, str_eq, find, if◌then◌else◌,
}
use delta_uptime.Errors.{Result, ok, err, wrap}
use delta_uptime.Text.{trim_space}
use delta_uptime.Text.Base64.{raw_url_encode}
use delta_uptime.Input.{invalid}
use delta_uptime.Database.{User, AuthWebauthnCredential}
use delta_uptime.Database.Identity.{set_user_webauthn_handle, same_bytes}
use delta_uptime.Database.Passkeys.{list_auth_webauthn_credentials_by_user_id}
use delta_uptime.Effects.{App, Handle, pure, lift, on_error, ◌>>=◌, query, rand_read}
use delta_uptime.Webauthn.{Credential, WebauthnUser, Config, Url}
use delta_uptime.Service.{Env, Service, WebauthnCredentialInfo}
use delta_uptime.Service.Tokens.{decrypt}

abbrev pub webauthn_flow_registration : String
webauthn_flow_registration = "registration"

abbrev pub webauthn_flow_login : String
webauthn_flow_login = "login"

-- `newWebAuthnManager`, over `url.Parse` and `webauthn.New`.
module _ {Manager : Type 0} (parse_url : String → Result Url)
    (create : Config → Result Manager) where
  abbrev config_for : Url → Config
  config_for url = record {
    rp_id = url.hostname;
    rp_display_name = "DeltaUptime";
    rp_origins = join url.scheme (join "://" url.host) ∷ [];
    resident_key = "preferred";
    user_verification = "required";
    attestation_preference = "none";
  }

  abbrev manager_at : Result Url → Result Manager
  manager_at (err e) = err (wrap "parse PUBLIC_PANEL_URL" e)
  manager_at (ok url) =
      if str_eq url.scheme "" || str_eq url.hostname ""
      then err (invalid "PUBLIC_PANEL_URL must include scheme and host")
      else create (config_for url)

  unfoldable pub new_webauthn_manager : String → Result Manager
  new_webauthn_manager public_panel_url = manager_at (parse_url (trim_space public_panel_url))

abbrev pub has_no_bytes : List ℕ → Bool
has_no_bytes [] = true
has_no_bytes (b ∷ bs) = false

-- `credentialIDString`
unfoldable pub credential_id_string : List ℕ → String
credential_id_string id = raw_url_encode id

unfoldable pub webauthn_credential_info : AuthWebauthnCredential → WebauthnCredentialInfo
unfolding credential_id_string
webauthn_credential_info model = record {
  id = credential_id_string model.credential_id;
  created_at = model.created_at;
  last_used_at = model.last_used_at;
}

-- A user without a handle gets one of 32 random bytes.
unfoldable pub ensure_webauthn_user_handle : Handle → User → App User
ensure_webauthn_user_handle handle user =
    if not (has_no_bytes user.webauthn_user_handle) then pure user else (do
      bytes ← on_error (rand_read 32) (wrap "generate webauthn user handle")
      on_error (query handle (set_user_webauthn_handle user.id bytes))
          (wrap "set webauthn user handle"))

-- The map `stored`, of the ids to the rows: an entry that is put later stands first.
abbrev pub Stored : Type 0
Stored = List AuthWebauthnCredential

unfoldable pub stored_row : List ℕ → Stored → Option AuthWebauthnCredential
unfolding same_bytes
stored_row id stored = find (λ row. same_bytes row.credential_id id) stored

-- `if err != nil { return …, err }`
abbrev pub and_then : {A B : Type 0} → Result A → (A → Result B) → Result B
and_then (ok a) f = f a
and_then (err e) f = err e

module _ (env : Env) (s : Service) where
  abbrev unmarshaled : Result String → Result Credential
  unmarshaled (err e) = err (wrap "decrypt webauthn credential" e)
  unmarshaled (ok plaintext) = elim (env.webauthn.unmarshal_credential plaintext) [
    | ok credential ↦ ok credential
    | err e ↦ err (wrap "unmarshal webauthn credential" e)
  ]

  unfoldable pub open_row : AuthWebauthnCredential → Result Credential
  open_row row = unmarshaled (decrypt env s row.credential_ciphertext row.credential_nonce)

  -- The loop over the rows.
  unfoldable pub open_rows :
      List Credential → Stored → List AuthWebauthnCredential → Result (List Credential × Stored)
  open_rows credentials stored [] = ok (credentials, stored)
  open_rows credentials stored (row ∷ rows) =
      and_then (open_row row)
        λ credential. open_rows (credentials ++ credential ∷ []) (row ∷ stored) rows

  -- `webAuthnUserFromModel`: the user as the library sees it, and the rows by their ids.
  unfoldable pub webauthn_user_from_model : Handle → User → App (WebauthnUser × Stored)
  webauthn_user_from_model handle raw = do
    user ← ensure_webauthn_user_handle handle raw
    rows ←
        on_error (query handle (list_auth_webauthn_credentials_by_user_id user.id))
          (wrap "list webauthn credentials")
    (credentials, stored) ← lift (open_rows [] [] rows)
    pure (
      record {
        id = user.webauthn_user_handle;
        name = user.email;
        display_name = user.display_name;
        credentials = credentials;
      },
      stored,
    )
