-- ===== src/Config/Laws.antt =====
-- What a configuration that was loaded satisfies.
use delta_uptime.Prelude.{
  ℕ, ◌<◌, String, ◌≡◌, refl, true, false, Option, str_eq, arith, Bool-cases, inl, inr, ◌⊎◌, using,
}
use delta_uptime.Errors.{Result, ok, err}
use delta_uptime.Config.{
  Config, dev_access_secret, dev_refresh_secret, dev_master_key, dev_panel_url, getenv, positive,
  parse_duration_env, config_with, checked, with_refresh_ttl, with_access_ttl, load,
}

-- The secrets and the URL are not the defaults.
abbrev pub OwnSecrets : Config → Type 0
OwnSecrets cfg =
    (str_eq cfg.jwt_access_secret dev_access_secret ≡ false)
    × (str_eq cfg.jwt_refresh_secret dev_refresh_secret ≡ false)
    × (str_eq cfg.secrets_master_key dev_master_key ≡ false)
    × (str_eq cfg.public_panel_url dev_panel_url ≡ false)

positive-ok :
    (lookup_env : String → Option String) (parse_duration : String → Result ℕ) (key : String)
    (r : Result ℕ) {n : ℕ}
    → positive lookup_env parse_duration key r ≡ ok n
    → 0 < n
positive-ok lookup_env parse_duration key (err e) h = cc h
positive-ok lookup_env parse_duration key (ok value) h = ground (arith, h)

module _ (lookup_env : String → Option String) (parse_duration : String → Result ℕ) where
  checked-ok :
      (cfg : Config) {c : Config}
      → checked lookup_env parse_duration cfg ≡ ok c
      → (cfg ≡ c) × ((str_eq cfg.app_env "development" ≡ true) ⊎ OwnSecrets cfg)
  unfolding checked
  checked-ok cfg h = elim (Bool-cases (str_eq cfg.app_env "development")) [
    | inl dev ↦ (cc (rw dev at h), inl dev)
    | inr other ↦ elim (Bool-cases (str_eq cfg.jwt_access_secret dev_access_secret)) [
      | inl a ↦ cc (rw (other, a) at h)
      | inr na ↦ elim (Bool-cases (str_eq cfg.jwt_refresh_secret dev_refresh_secret)) [
        | inl b ↦ cc (rw (other, na, b) at h)
        | inr nb ↦ elim (Bool-cases (str_eq cfg.secrets_master_key dev_master_key)) [
          | inl c ↦ cc (rw (other, na, nb, c) at h)
          | inr nc ↦ elim (Bool-cases (str_eq cfg.public_panel_url dev_panel_url)) [
            | inl d ↦ cc (rw (other, na, nb, nc, d) at h)
            | inr nd ↦ (cc (rw (other, na, nb, nc, nd) at h), inr (na, nb, nc, nd))
          ]
        ]
      ]
    ]
  ]

  -- What `load` shows of its configuration.
  abbrev Loaded : Config → Type 0
  Loaded cfg =
      (0 < cfg.access_token_ttl)
      × (0 < cfg.refresh_token_ttl)
      × ((str_eq cfg.app_env "development" ≡ true) ⊎ OwnSecrets cfg)

  with_refresh_ttl-ok :
      (access_ttl : ℕ) (r : Result ℕ) {cfg : Config}
      → 0 < access_ttl
      → ((n : ℕ) → r ≡ ok n → 0 < n)
      → with_refresh_ttl lookup_env parse_duration access_ttl r ≡ ok cfg
      → Loaded cfg
  with_refresh_ttl-ok access_ttl (err e) p q h = cc h
  with_refresh_ttl-ok access_ttl (ok refresh_ttl) p q h =
      using (checked-ok (config_with lookup_env parse_duration access_ttl refresh_ttl) h)
        λ (same, own). rw (← same) (p, q refresh_ttl refl, own)

  with_access_ttl-ok :
      (r : Result ℕ) {cfg : Config}
      → ((n : ℕ) → r ≡ ok n → 0 < n)
      → with_access_ttl lookup_env parse_duration r ≡ ok cfg
      → Loaded cfg
  unfolding parse_duration_env
  with_access_ttl-ok (err e) q h = cc h
  with_access_ttl-ok (ok access_ttl) q h =
      with_refresh_ttl-ok access_ttl
        (parse_duration_env lookup_env parse_duration "REFRESH_TOKEN_TTL" "720h")
        (q access_ttl refl)
        (λ n.
          positive-ok lookup_env parse_duration "REFRESH_TOKEN_TTL"
            (parse_duration (getenv lookup_env parse_duration "REFRESH_TOKEN_TTL" "720h")))
        h

  -- A configuration that loads has positive lifetimes of the tokens, and outside development none
  -- of its secrets and not its panel URL is the default of the source.
  pub load-ok :
      {cfg : Config}
      → load lookup_env parse_duration ≡ ok cfg
      → (0 < cfg.access_token_ttl)
        × (0 < cfg.refresh_token_ttl)
        × ((str_eq cfg.app_env "development" ≡ true) ⊎ OwnSecrets cfg)
  unfolding load parse_duration_env
  load-ok h =
      with_access_ttl-ok (parse_duration_env lookup_env parse_duration "ACCESS_TOKEN_TTL" "15m")
        (λ n.
          positive-ok lookup_env parse_duration "ACCESS_TOKEN_TTL"
            (parse_duration (getenv lookup_env parse_duration "ACCESS_TOKEN_TTL" "15m")))
        h
