-- ===== src/Service/Tokens.antt =====
-- apps/control-plane/internal/auth/tokens.go and secrets.go: access tokens, refresh tokens, and the
-- encryption and hashing under the master key. The clock counts nanoseconds.
use delta_uptime.Prelude.{
  ℕ, ◌+◌, ◌/◌, String, ◌||◌, not, List, Option, none, some, ◌==◌, str_eq, if◌then◌else◌, length,
}
use delta_uptime.Errors.{Result, ok, err, sentinel, fault, wrap, detail, unauthorized}
use delta_uptime.Text.{hex}
use delta_uptime.Text.Utf8.{text_bytes}
use delta_uptime.Text.Base64.{raw_url_encode}
use delta_uptime.Input.{invalid}
use delta_uptime.Effects.{App, pure, lift, on_error, ◌>>=◌, time_now, rand_read}
use delta_uptime.Service.{Env, Service, Claims, ParsedToken}

abbrev pub second : ℕ
second = 1000000000

-- `NewTokenManager`; a duration that is not positive is 0.
unfoldable pub new_token_manager : String → String → ℕ → ℕ → Result (Unit {0})
new_token_manager access_secret refresh_secret access_ttl refresh_ttl =
    if str_eq access_secret "" || str_eq refresh_secret ""
    then err (invalid "access and refresh secrets are required")
    else if access_ttl == 0 || refresh_ttl == 0
    then err (invalid "token TTLs must be positive")
    else ok tt

module _ (env : Env) (s : Service) where
  abbrev pub claims_at : String → ℕ → Claims
  claims_at user_id now = record {
    subject = user_id;
    issued_at = now / second;
    not_before = now / second;
    expires_at = (now + s.access_ttl) / second;
  }

  -- The token and the time when it expires.
  unfoldable pub issue_access_token : String → App (String × ℕ)
  issue_access_token user_id = do
    now ← time_now
    signed ←
        on_error (lift (env.sign_token s.access_secret (claims_at user_id now)))
          (wrap "sign access token")
    pure (signed, now + s.access_ttl)

  -- The key function: the secret, if the token says HS256.
  abbrev pub signing_key : String → Result String
  signing_key alg =
      if str_eq alg "HS256"
      then ok s.access_secret
      else err (detail (sentinel unauthorized) "unexpected signing method")

  abbrev subject_of : Result ParsedToken → Result String
  subject_of (err e) = err e
  subject_of (ok t) =
      if not t.valid || str_eq t.subject "" then err (sentinel unauthorized) else ok t.subject

  unfoldable pub parse_access_token : String → App String
  parse_access_token token = do
    now ← time_now
    lift (subject_of (env.parse_token now token signing_key))

  unfoldable pub hash_refresh_token : String → String
  hash_refresh_token token = hex (env.hmac_sha256 (text_bytes s.refresh_secret) token)

  -- The token, its hash and the time when it expires.
  unfoldable pub generate_refresh_token : App (String × String × ℕ)
  unfolding hash_refresh_token
  generate_refresh_token = do
    raw ← on_error (rand_read 32) (wrap "generate refresh token")
    now ← time_now
    let token = raw_url_encode raw
    pure (token, hash_refresh_token token, now + s.refresh_ttl)

  -- `SecretsManager.Encrypt`: the ciphertext and its nonce.
  unfoldable pub encrypt : String → App (List ℕ × List ℕ)
  encrypt plaintext = do
    nonce ← on_error (rand_read 12) (wrap "generate nonce")
    pure (env.seal s.secrets_key nonce plaintext, nonce)

  abbrev opened : Option String → Result String
  opened none = err (wrap "decrypt secret" (fault "message authentication failed"))
  opened (some plaintext) = ok plaintext

  -- `SecretsManager.Decrypt`
  unfoldable pub decrypt : List ℕ → List ℕ → Result String
  decrypt ciphertext nonce =
      if not (length nonce == 12)
      then err (invalid "invalid nonce size")
      else opened (env.unseal s.secrets_key nonce ciphertext)

  -- `SecretsManager.Hash`
  unfoldable pub hash_secret : String → String
  hash_secret value = hex (env.hmac_sha256 s.secrets_key value)
