-- ===== src/Database/Sessions.antt =====
-- packages/database/postgres/auth_refresh_tokens.sql.go, with the constraints of
-- migrations/00002_auth_refresh_tokens.sql.
use delta_uptime.Prelude.{
  ℕ, suc, String, Bool, ◌&&◌, Option, none, some, [], ◌∷◌, ◌++◌, ◌==◌, str_eq, if◌then◌else◌, find,
  exists, update_where, true, false,
}
use delta_uptime.Errors.{ok, err}
use delta_uptime.Database.{Query, AuthRefreshToken, one, unique_violation, foreign_key_violation}

abbrev pub is_null {ℓ} : {A : Type ℓ} → Option A → Bool
is_null none = true
is_null (some a) = false

-- A row with the defaults of its columns.
abbrev pub new_token : ℕ → String → ℕ → ℕ → ℕ → AuthRefreshToken
new_token user_id token_hash expires_at now id = record {
  id = id;
  user_id = user_id;
  token_hash = token_hash;
  expires_at = expires_at;
  created_at = now;
  used_at = none;
  revoked_at = none;
  replaced_by_token_id = none;
}

unfoldable pub create_auth_refresh_token : ℕ → String → ℕ → Query AuthRefreshToken
create_auth_refresh_token user_id token_hash expires_at now d =
    let token = new_token user_id token_hash expires_at now d.next_id in
    if exists (λ t. str_eq t.token_hash token_hash) d.refresh_tokens
    then (err unique_violation, d)
    else if exists (λ u. u.id == user_id) d.users
    then (
      ok token,
      record d { refresh_tokens = d.refresh_tokens ++ token ∷ []; next_id = suc d.next_id },
    )
    else (err foreign_key_violation, d)

unfoldable pub get_auth_refresh_token_by_token_hash : String → Query AuthRefreshToken
get_auth_refresh_token_by_token_hash token_hash now d =
    (one (find (λ t. str_eq t.token_hash token_hash) d.refresh_tokens), d)

-- `WHERE id = $1 AND used_at IS NULL AND revoked_at IS NULL`
abbrev pub is_live : ℕ → AuthRefreshToken → Bool
is_live id t = t.id == id && is_null t.used_at && is_null t.revoked_at

abbrev pub used : ℕ → ℕ → AuthRefreshToken → AuthRefreshToken
used now replacement t = record t { used_at = some now; replaced_by_token_id = some replacement }

unfoldable pub rotate_auth_refresh_token : ℕ → ℕ → Query AuthRefreshToken
rotate_auth_refresh_token id replacement now d = elim (find (is_live id) d.refresh_tokens) [
  | none ↦ (one none, d)
  | some token ↦
      if exists (λ t. t.id == replacement) d.refresh_tokens
      then (
        ok (used now replacement token),
        record d {
          refresh_tokens = update_where (is_live id) (used now replacement) d.refresh_tokens;
        },
      )
      else (err foreign_key_violation, d)
]

-- `WHERE id = $1 AND revoked_at IS NULL`
abbrev is_unrevoked : ℕ → AuthRefreshToken → Bool
is_unrevoked id t = t.id == id && is_null t.revoked_at

abbrev revoked : ℕ → AuthRefreshToken → AuthRefreshToken
revoked now t = record t { revoked_at = some now }

unfoldable pub revoke_auth_refresh_token : ℕ → Query AuthRefreshToken
revoke_auth_refresh_token id now d = elim (find (is_unrevoked id) d.refresh_tokens) [
  | none ↦ (one none, d)
  | some token ↦ (
    ok (revoked now token),
    record d { refresh_tokens = update_where (is_unrevoked id) (revoked now) d.refresh_tokens },
  )
]
