-- ===== src/Service/Window.antt =====
-- `TOTPManager.VerifyCode` of apps/control-plane/internal/auth/totp.go: which codes are accepted.
use delta_uptime.Prelude.{
  ℕ, ◌+◌, ◌-◌, ◌/◌, ◌≤◌, String, ◌≡◌, ◌↔◌, true, ◌||◌, ◌&&◌, str_eq, arith, ltb, Bool-cases, ◌⊎◌,
  inl, inr, ◌==◌, ==_iff, eq_iff, eq_refl,
}
use Prim.Native.String.{len}
use delta_uptime.Text.{trim_space}
use delta_uptime.Totp.{code_at}
use delta_uptime.Service.{Env, Service}
use delta_uptime.Service.Session.{verify_code}

module _ (env : Env) (s : Service) where
  -- The code of a counter at most one step of 30 seconds away from the time.
  abbrev pub InWindow : String → String → ℕ → Type 0
  InWindow secret code unix =
      (len (trim_space code) ≡ 6)
      × ((k : ℕ) × (k ≤ unix / 30 + 1)
          × (unix / 30 ≤ k + 1)
          × (code_at env.hmac_sha1 env.upper_rune secret k ≡ trim_space code))

  near :
      (k c : ℕ) → k ≤ c + 1 → c ≤ k + 1 → (k ≡ c) ⊎ ((k ≡ c + 1) ⊎ ((ltb 0 c ≡ true) × (k ≡ c - 1)))
  near k c low high = elim (Bool-cases (k == c)) [
    | inl now ↦ inl ((==_iff k c).0 now)
    | inr not_now ↦ elim (Bool-cases (k == c + 1)) [
      | inl next ↦ inr (inl ((==_iff k (c + 1)).0 next))
      | inr not_next ↦
          inr (inr (ground (arith, not_now, not_next), ground (arith, not_now, not_next)))
    ]
  ]

  window_sound :
      (secret trimmed : String) (c : ℕ)
      → ((ltb 0 c && str_eq (code_at env.hmac_sha1 env.upper_rune secret (c - 1)) trimmed)
          || str_eq (code_at env.hmac_sha1 env.upper_rune secret c) trimmed
          || str_eq (code_at env.hmac_sha1 env.upper_rune secret (c + 1)) trimmed)
        ≡ true
      → (k : ℕ) × (k ≤ c + 1)
        × (c ≤ k + 1)
        × (code_at env.hmac_sha1 env.upper_rune secret k ≡ trimmed)
  window_sound secret trimmed c e =
      elim (Bool-cases (str_eq (code_at env.hmac_sha1 env.upper_rune secret c) trimmed)) [
        | inl now ↦ (
          c,
          omega arith,
          omega arith,
          (eq_iff (code_at env.hmac_sha1 env.upper_rune secret c) trimmed).0 now,
        )
        | inr not_now ↦
            elim (Bool-cases
              (str_eq (code_at env.hmac_sha1 env.upper_rune secret (c + 1)) trimmed)) [
                | inl next ↦ (
                  c + 1,
                  omega arith,
                  omega arith,
                  (eq_iff (code_at env.hmac_sha1 env.upper_rune secret (c + 1)) trimmed).0 next,
                )
                | inr not_next ↦
                    let before : str_eq (code_at env.hmac_sha1 env.upper_rune secret (c - 1))
                          trimmed
                        ≡ true =
                      ground (arith, e, not_now, not_next) in
                    (
                      c - 1,
                      omega arith,
                      omega arith,
                      (eq_iff (code_at env.hmac_sha1 env.upper_rune secret (c - 1)) trimmed).0
                          before,
                    )
              ]
      ]

  verify_code-InWindow :
      (secret code : String) (unix : ℕ)
      → verify_code env s secret code unix ≡ true
      → InWindow secret code unix
  unfolding verify_code
  verify_code-InWindow secret code unix e = elim (Bool-cases (len (trim_space code) == 6)) [
    | inl six ↦ (
      (==_iff (len (trim_space code)) 6).0 six,
      window_sound secret (trim_space code) (unix / 30) (rw six at e),
    )
    | inr other ↦ cc (rw other at e)
  ]

  InWindow-verify_code :
      (secret code : String) (unix : ℕ)
      → InWindow secret code unix
      → verify_code env s secret code unix ≡ true
  unfolding verify_code
  InWindow-verify_code secret code unix (six, window) =
      let (k, low, high, same) = window in
      let match : str_eq (code_at env.hmac_sha1 env.upper_rune secret k) (trim_space code) ≡ true =
        rw same (eq_refl (trim_space code)) in
      elim (near k (unix / 30) low high) [
        | inl now ↦ ground (arith, six, match, now)
        | inr (inl next) ↦ ground (arith, six, match, next)
        | inr (inr (positive, before)) ↦ ground (arith, six, match, before, positive)
      ]

  -- A code is accepted exactly if, without its outer space, it has six bytes and is the code of a
  -- counter at most one step of 30 seconds before or after the time.
  pub verify_code_iff :
      (secret code : String) (unix : ℕ)
      → (verify_code env s secret code unix ≡ true) ↔ InWindow secret code unix
  verify_code_iff secret code unix =
      (verify_code-InWindow secret code unix, InWindow-verify_code secret code unix)
