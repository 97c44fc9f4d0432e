-- ===== src/Service/Authenticator.antt =====
-- The second factor as a whole: the secret of totp.go's `GenerateSecret`, its codes, and
-- `VerifyCode`.
use Prim.Native.String.{len}
use delta_uptime.Prelude.{ℕ, ◌+◌, ◌/◌, ◌≤◌, ◌≡◌, sym, ◌∙◌, List, true}
use delta_uptime.Text.{trim_space}
use delta_uptime.Text.Base64.RoundTrip.{AllBytes}
use delta_uptime.Totp.{generate_secret, hotp, truncated, put_uint64}
use delta_uptime.Totp.Laws.{len-six_digits, trim_space-six_digits, code_at-generate_secret}
use delta_uptime.Service.{Env, Service}
use delta_uptime.Service.Session.{verify_code}
use delta_uptime.Service.Window.{verify_code_iff}

len-hotp :
    (hmac_sha1 : List ℕ → List ℕ → List ℕ) (key : List ℕ) (k : ℕ)
    → (len (trim_space (hotp hmac_sha1 key k)) ≡ 6)
      × (trim_space (hotp hmac_sha1 key k) ≡ hotp hmac_sha1 key k)
unfolding hotp
len-hotp hmac_sha1 key k =
    let n = truncated (hmac_sha1 key (put_uint64 k)) in
    (rw (trim_space-six_digits n) (len-six_digits n), trim_space-six_digits n)

module _ (env : Env) (s : Service) where
  -- An authenticator that was given the secret of a user, and whose clock is at most one period of
  -- 30 seconds off, shows a code that the second factor accepts, whatever bytes the secret was
  -- made of.
  pub verify_code-hotp :
      (bytes : List ℕ) (k unix : ℕ)
      → AllBytes bytes
      → k ≤ unix / 30 + 1
      → unix / 30 ≤ k + 1
      → verify_code env s (generate_secret bytes) (hotp env.hmac_sha1 bytes k) unix ≡ true
  verify_code-hotp bytes k unix h low high =
      let (size, trimmed) = len-hotp env.hmac_sha1 bytes k in
      (verify_code_iff env s (generate_secret bytes) (hotp env.hmac_sha1 bytes k) unix).1 (
        size,
        (
          k,
          low,
          high,
          code_at-generate_secret env.upper_rune env.hmac_sha1 bytes k h ∙ sym trimmed,
        ),
      )
