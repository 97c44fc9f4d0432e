-- ===== src/History/Tokens.antt =====
-- The refresh tokens through the server's life: a token keeps its id and its hash, and one that was
-- used or revoked stays so.
use delta_uptime.Prelude.{
  ℕ, String, ◌≡◌, refl, Bool, false, some, List, [], ◌∷◌, find, arith, str_eq, Option-cases, inl,
  inr, find-append, find-update_where_other, find-update_where_hit, ==_refl, Bool-cases, exists,
  update_where, ◌==◌, ◌&&◌, sym, ap,
}
use delta_uptime.Errors.{ok}
use delta_uptime.Database.{Db, AuthRefreshToken}
use delta_uptime.Database.Sessions.{
  create_auth_refresh_token, rotate_auth_refresh_token, is_null, is_live, used, new_token,
}
use delta_uptime.Effects.Keeps.{Keeps}
use delta_uptime.Service.Stable.{Stable}
use delta_uptime.History.Tables.{Stable_of_tokens}

abbrev pub has_hash : String → AuthRefreshToken → Bool
has_hash hash t = str_eq t.token_hash hash

-- A token that was neither used nor revoked.
abbrev pub is_usable : AuthRefreshToken → Bool
is_usable t = is_null t.used_at && is_null t.revoked_at

-- The token that is found under the hash was used or revoked.
abbrev pub IsSpent : String → List AuthRefreshToken → Type 0
IsSpent hash tokens =
    (t : AuthRefreshToken) × (find (has_hash hash) tokens ≡ some t) × (is_usable t ≡ false)

create_auth_refresh_token-IsSpent :
    (hash : String) (user : ℕ) (new : String) (expires : ℕ)
    → Keeps (λ d. IsSpent hash d.refresh_tokens) (create_auth_refresh_token user new expires)
unfolding create_auth_refresh_token
create_auth_refresh_token-IsSpent hash user new expires = record {
  at = λ now d (t, found, spent). (
    t,
    ground (
      arith,
      find-append (has_hash hash) d.refresh_tokens (new_token user new expires now d.next_id ∷ []) t
          found,
    ),
    spent,
  );
}

rotated-IsSpent :
    (hash : String) (id replacement now : ℕ) (tokens : List AuthRefreshToken) (t : AuthRefreshToken)
    → find (has_hash hash) tokens ≡ some t
    → is_usable t ≡ false
    → IsSpent hash (update_where (is_live id) (used now replacement) tokens)
rotated-IsSpent hash id replacement now tokens t found spent = (
  t,
  find-update_where_other (has_hash hash) (is_live id) (used now replacement) tokens t (λ u. refl)
      found (ground (arith, spent)),
  spent,
)

rotate_auth_refresh_token-IsSpent :
    (hash : String) (id replacement : ℕ)
    → Keeps (λ d. IsSpent hash d.refresh_tokens) (rotate_auth_refresh_token id replacement)
unfolding rotate_auth_refresh_token
rotate_auth_refresh_token-IsSpent hash id replacement = record {
  at = λ now d (t, found, spent).
      let after = rotated-IsSpent hash id replacement now d.refresh_tokens t found spent in
      elim (Option-cases (find (is_live id) d.refresh_tokens)) [
        | inl absent ↦ rw (absent, rotate_auth_refresh_token) (t, found, spent)
        | inr (live, hit) ↦ elim (Bool-cases (exists (λ u. u.id == replacement) d.refresh_tokens)) [
          | inl known ↦ rw (hit, known, rotate_auth_refresh_token) after
          | inr unknown ↦ rw (hit, unknown, rotate_auth_refresh_token) (t, found, spent)
        ]
      ];
}

pub IsSpent-Stable : (hash : String) → Stable (λ d. IsSpent hash d.refresh_tokens)
IsSpent-Stable hash =
    Stable_of_tokens (IsSpent hash) (create_auth_refresh_token-IsSpent hash)
      (rotate_auth_refresh_token-IsSpent hash)

-- The token that is found under the hash has this id.
abbrev pub Located : String → ℕ → List AuthRefreshToken → Type 0
Located hash id tokens =
    (t : AuthRefreshToken) × (find (has_hash hash) tokens ≡ some t) × (t.id ≡ id)

create_auth_refresh_token-Located :
    (hash : String) (id user : ℕ) (new : String) (expires : ℕ)
    → Keeps (λ d. Located hash id d.refresh_tokens) (create_auth_refresh_token user new expires)
unfolding create_auth_refresh_token
create_auth_refresh_token-Located hash id user new expires = record {
  at = λ now d (t, found, same). (
    t,
    ground (
      arith,
      find-append (has_hash hash) d.refresh_tokens (new_token user new expires now d.next_id ∷ []) t
          found,
    ),
    same,
  );
}

rotated-Located :
    (hash : String) (id row replacement now : ℕ) (tokens : List AuthRefreshToken)
    → Located hash id tokens
    → Located hash id (update_where (is_live row) (used now replacement) tokens)
rotated-Located hash id row replacement now tokens (t, found, same) =
    elim (Bool-cases (is_live row t)) [
      | inl hit ↦ (
        used now replacement t,
        find-update_where_hit (has_hash hash) (is_live row) (used now replacement) tokens t
            (λ u. refl) found hit,
        same,
      )
      | inr miss ↦ (
        t,
        find-update_where_other (has_hash hash) (is_live row) (used now replacement) tokens t
            (λ u. refl) found miss,
        same,
      )
    ]

rotate_auth_refresh_token-Located :
    (hash : String) (id row replacement : ℕ)
    → Keeps (λ d. Located hash id d.refresh_tokens) (rotate_auth_refresh_token row replacement)
unfolding rotate_auth_refresh_token
rotate_auth_refresh_token-Located hash id row replacement = record {
  at = λ now d h.
      let after = rotated-Located hash id row replacement now d.refresh_tokens h in
      elim (Option-cases (find (is_live row) d.refresh_tokens)) [
        | inl absent ↦ rw (absent, rotate_auth_refresh_token) h
        | inr (live, hit) ↦ elim (Bool-cases (exists (λ u. u.id == replacement) d.refresh_tokens)) [
          | inl known ↦ rw (hit, known, rotate_auth_refresh_token) after
          | inr unknown ↦ rw (hit, unknown, rotate_auth_refresh_token) h
        ]
      ];
}

pub Located-Stable : (hash : String) (id : ℕ) → Stable (λ d. Located hash id d.refresh_tokens)
Located-Stable hash id =
    Stable_of_tokens (Located hash id) (create_auth_refresh_token-Located hash id)
      (rotate_auth_refresh_token-Located hash id)

-- A rotation that was carried out leaves the token of this id used or revoked.
Located-IsSpent :
    (hash : String) (id replacement now : ℕ) (tokens : List AuthRefreshToken)
    → Located hash id tokens
    → IsSpent hash (update_where (is_live id) (used now replacement) tokens)
Located-IsSpent hash id replacement now tokens (t, found, same) = elim (Bool-cases (is_live id t)) [
  | inl hit ↦ (
    used now replacement t,
    find-update_where_hit (has_hash hash) (is_live id) (used now replacement) tokens t (λ u. refl)
        found hit,
    refl,
  )
  | inr miss ↦ (
    t,
    find-update_where_other (has_hash hash) (is_live id) (used now replacement) tokens t (λ u. refl)
        found miss,
    ground (arith, miss, same, ==_refl id),
  )
]

pub rotate_auth_refresh_token-ok :
    (hash : String) (id replacement now : ℕ) (d : Db) {row : AuthRefreshToken} {d' : Db}
    → Located hash id d.refresh_tokens
    → rotate_auth_refresh_token id replacement now d ≡ (ok row, d')
    → IsSpent hash d'.refresh_tokens
unfolding rotate_auth_refresh_token
rotate_auth_refresh_token-ok hash id replacement now d h e =
    let after = Located-IsSpent hash id replacement now d.refresh_tokens h in
    elim (Option-cases (find (is_live id) d.refresh_tokens)) [
      | inl absent ↦ cc (rw (absent, rotate_auth_refresh_token) at e)
      | inr (live, hit) ↦ elim (Bool-cases (exists (λ u. u.id == replacement) d.refresh_tokens)) [
        | inl known ↦
            rw (sym (ap (λ x. x.1) (rw (hit, known, rotate_auth_refresh_token) at e))) after
        | inr unknown ↦ cc (rw (hit, unknown, rotate_auth_refresh_token) at e)
      ]
    ]
