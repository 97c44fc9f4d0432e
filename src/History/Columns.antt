-- ===== src/History/Columns.antt =====
-- The columns that no two rows share, and the roles of the memberships, in every state that the
-- server reaches.
use delta_uptime.Prelude.{
  ℕ, String, ◌≡◌, refl, Bool, true, false, ◌||◌, Option, none, List, [], ◌∷◌, ◌++◌, exists, ◌==◌,
  update_where, str_eq, arith, ◌⊎◌, inl, inr, All, All-append, Bool-cases,
}
use delta_uptime.Prelude.Unique.{
  DistinctBy, DistinctBy-append, DistinctBy-update_where, exists_left,
}
use delta_uptime.Database.{Db, User, AuthRefreshToken, ApiKey, Membership}
use delta_uptime.Database.Identity.{
  set_user_webauthn_handle, with_handle, create_user, new_user, create_membership, new_membership,
  update_membership_role, with_role, is_preset_role, is_member,
}
use delta_uptime.Database.Sessions.{
  create_auth_refresh_token, rotate_auth_refresh_token, is_live, used, new_token,
}
use delta_uptime.Database.Controls.{
  create_api_key, touch_api_key_last_used, revoke_api_key, new_key, key_is, touched, is_active_key,
  revoked_key,
}
use delta_uptime.Effects.{World}
use delta_uptime.Service.{Env, Service}
use delta_uptime.Service.Stable.{Stable}
use delta_uptime.Server.{Reach}
use delta_uptime.History.Reach.{Reach-Holds}
use delta_uptime.History.Tables.{
  Stable_of_users, Stable_of_tokens, Stable_of_keys, Stable_of_memberships,
}

abbrev pub DistinctEmails : List User → Type 0
DistinctEmails = DistinctBy (λ u. u.email)

abbrev pub DistinctHashes : List AuthRefreshToken → Type 0
DistinctHashes = DistinctBy (λ t. t.token_hash)

abbrev pub DistinctPrefixes : List ApiKey → Type 0
DistinctPrefixes = DistinctBy (λ k. k.key_prefix)

abbrev pub PresetRoles : List Membership → Type 0
PresetRoles = All (λ m. is_preset_role m.role ≡ true)

module _ (now : ℕ) (d : Db) where
  create_user-cases :
      (email hash name : String) (admin : Bool)
      → ((create_user email hash name admin now d).1.users ≡ d.users)
        ⊎ (((create_user email hash name admin now d).1.users
              ≡ d.users ++ new_user email hash name admin now d.next_id ∷ [])
            × (exists (λ u. str_eq u.email email) d.users ≡ false))
  unfolding create_user
  create_user-cases email hash name admin = ground arith

  set_user_webauthn_handle-cases :
      (id : ℕ) (handle : List ℕ)
      → ((set_user_webauthn_handle id handle now d).1.users ≡ d.users)
        ⊎ ((set_user_webauthn_handle id handle now d).1.users
            ≡ update_where (λ u. u.id == id) (with_handle handle now) d.users)
  unfolding set_user_webauthn_handle
  set_user_webauthn_handle-cases id handle = ground arith

  create_auth_refresh_token-cases :
      (user : ℕ) (hash : String) (expires : ℕ)
      → ((create_auth_refresh_token user hash expires now d).1.refresh_tokens ≡ d.refresh_tokens)
        ⊎ (((create_auth_refresh_token user hash expires now d).1.refresh_tokens
              ≡ d.refresh_tokens ++ new_token user hash expires now d.next_id ∷ [])
            × (exists (λ t. str_eq t.token_hash hash) d.refresh_tokens ≡ false))
  unfolding create_auth_refresh_token
  create_auth_refresh_token-cases user hash expires = ground arith

  rotate_auth_refresh_token-cases :
      (id replacement : ℕ)
      → ((rotate_auth_refresh_token id replacement now d).1.refresh_tokens ≡ d.refresh_tokens)
        ⊎ ((rotate_auth_refresh_token id replacement now d).1.refresh_tokens
            ≡ update_where (is_live id) (used now replacement) d.refresh_tokens)
  unfolding rotate_auth_refresh_token
  rotate_auth_refresh_token-cases id replacement = ground arith

  pub create_api_key-cases :
      (org : ℕ) (creator : Option ℕ) (name prefix hash : String) (scopes : List String)
      → ((create_api_key org creator name prefix hash scopes now d).1.api_keys ≡ d.api_keys)
        ⊎ (((create_api_key org creator name prefix hash scopes now d).1.api_keys
              ≡ d.api_keys ++ new_key org creator name prefix hash scopes now d.next_id ∷ [])
            × (exists (λ k. str_eq k.key_prefix prefix || str_eq k.key_hash hash) d.api_keys
                ≡ false))
  unfolding create_api_key
  create_api_key-cases org creator name prefix hash scopes = ground arith

  touch_api_key_last_used-cases :
      (id : ℕ)
      → ((touch_api_key_last_used id now d).1.api_keys ≡ d.api_keys)
        ⊎ ((touch_api_key_last_used id now d).1.api_keys
            ≡ update_where (key_is id) (touched now) d.api_keys)
  unfolding touch_api_key_last_used
  touch_api_key_last_used-cases id = ground arith

  revoke_api_key-cases :
      (id : ℕ)
      → ((revoke_api_key id now d).1.api_keys ≡ d.api_keys)
        ⊎ ((revoke_api_key id now d).1.api_keys
            ≡ update_where (is_active_key id) (revoked_key now) d.api_keys)
  unfolding revoke_api_key
  revoke_api_key-cases id = ground arith

  create_membership-cases :
      (org user : ℕ) (role : String)
      → ((create_membership org user role now d).1.memberships ≡ d.memberships)
        ⊎ (((create_membership org user role now d).1.memberships
              ≡ d.memberships ++ new_membership org user role now d.next_id ∷ [])
            × (is_preset_role role ≡ true))
  unfolding create_membership
  create_membership-cases org user role = elim (Bool-cases (is_preset_role role)) [
    | inl known ↦ ground arith
    | inr unknown ↦ ground arith
  ]

  update_membership_role-cases :
      (org user : ℕ) (role : String)
      → ((update_membership_role org user role now d).1.memberships ≡ d.memberships)
        ⊎ (((update_membership_role org user role now d).1.memberships
              ≡ update_where (is_member org user) (with_role role) d.memberships)
            × (is_preset_role role ≡ true))
  unfolding update_membership_role
  update_membership_role-cases org user role = elim (Bool-cases (is_preset_role role)) [
    | inl known ↦ ground arith
    | inr unknown ↦ ground arith
  ]

DistinctEmails-Stable : Stable (λ d. DistinctEmails d.users)
DistinctEmails-Stable =
    Stable_of_users DistinctEmails
      (λ email hash name admin. record {
        at = λ now d h. elim (create_user-cases now d email hash name admin) [
          | inl same ↦ rw same h
          | inr (grown, absent) ↦ rw grown (
              DistinctBy-append (λ u. u.email) d.users
                (new_user email hash name admin now d.next_id) h absent)
        ];
      })
      (λ id handle. record {
        at = λ now d h. elim (set_user_webauthn_handle-cases now d id handle) [
          | inl same ↦ rw same h
          | inr changed ↦ rw changed (
              DistinctBy-update_where (λ u. u.email) (λ u. u.id == id) (with_handle handle now)
                d.users (λ u. refl) h)
        ];
      })

DistinctHashes-Stable : Stable (λ d. DistinctHashes d.refresh_tokens)
DistinctHashes-Stable =
    Stable_of_tokens DistinctHashes
      (λ user hash expires. record {
        at = λ now d h. elim (create_auth_refresh_token-cases now d user hash expires) [
          | inl same ↦ rw same h
          | inr (grown, absent) ↦ rw grown (
              DistinctBy-append (λ t. t.token_hash) d.refresh_tokens
                (new_token user hash expires now d.next_id) h absent)
        ];
      })
      (λ id replacement. record {
        at = λ now d h. elim (rotate_auth_refresh_token-cases now d id replacement) [
          | inl same ↦ rw same h
          | inr changed ↦ rw changed (
              DistinctBy-update_where (λ t. t.token_hash) (is_live id) (used now replacement)
                d.refresh_tokens (λ t. refl) h)
        ];
      })

pub DistinctPrefixes-Stable : Stable (λ d. DistinctPrefixes d.api_keys)
DistinctPrefixes-Stable =
    Stable_of_keys DistinctPrefixes
      (λ org creator name prefix hash scopes. record {
        at = λ now d h. elim (create_api_key-cases now d org creator name prefix hash scopes) [
          | inl same ↦ rw same h
          | inr (grown, absent) ↦ rw grown (
              DistinctBy-append (λ k. k.key_prefix) d.api_keys
                (new_key org creator name prefix hash scopes now d.next_id) h
                (exists_left (λ k. str_eq k.key_prefix prefix) (λ k. str_eq k.key_hash hash)
                  d.api_keys absent))
        ];
      })
      (λ id. record {
        at = λ now d h. elim (touch_api_key_last_used-cases now d id) [
          | inl same ↦ rw same h
          | inr changed ↦ rw changed (
              DistinctBy-update_where (λ k. k.key_prefix) (key_is id) (touched now) d.api_keys
                (λ k. refl) h)
        ];
      })
      (λ id. record {
        at = λ now d h. elim (revoke_api_key-cases now d id) [
          | inl same ↦ rw same h
          | inr changed ↦ rw changed (
              DistinctBy-update_where (λ k. k.key_prefix) (is_active_key id) (revoked_key now)
                d.api_keys (λ k. refl) h)
        ];
      })

update_where-PresetRoles :
    (org user : ℕ) (role : String) (ms : List Membership)
    → is_preset_role role ≡ true
    → PresetRoles ms
    → PresetRoles (update_where (is_member org user) (with_role role) ms)
unfolding update_where
update_where-PresetRoles org user role [] known h = tt
update_where-PresetRoles org user role (m ∷ ms) known (k, h) =
    (ground (arith, k, known), update_where-PresetRoles org user role ms known h)

PresetRoles-Stable : Stable (λ d. PresetRoles d.memberships)
PresetRoles-Stable =
    Stable_of_memberships PresetRoles
      (λ org user role. record {
        at = λ now d h. elim (create_membership-cases now d org user role) [
          | inl same ↦ rw same h
          | inr (grown, known) ↦ rw grown (
              All-append _ d.memberships (new_membership org user role now d.next_id ∷ []) h
                (known, tt))
        ];
      })
      (λ org user role. record {
        at = λ now d h. elim (update_membership_role-cases now d org user role) [
          | inl same ↦ rw same h
          | inr (changed, known) ↦
              rw changed (update_where-PresetRoles org user role d.memberships known h)
        ];
      })

-- What the tables satisfy between two requests.
abbrev pub IsSound : Db → Type 0
IsSound d =
    DistinctEmails d.users
    × DistinctHashes d.refresh_tokens
    × DistinctPrefixes d.api_keys
    × PresetRoles d.memberships

module _ (env : Env) (s : Service) where
  -- In every state that the server reaches from a sound database without an open transaction, no
  -- two users share an email, no two refresh tokens a hash, no two API keys a prefix, and every
  -- membership has one of the preset roles.
  pub Reach-IsSound : {w v : World} → Reach env s w v → w.tx ≡ none → IsSound w.db → IsSound v.db
  Reach-IsSound run closed (emails, hashes, prefixes, roles) = (
    (Reach-Holds env s DistinctEmails-Stable run (emails, rw closed tt)).0,
    (Reach-Holds env s DistinctHashes-Stable run (hashes, rw closed tt)).0,
    (Reach-Holds env s DistinctPrefixes-Stable run (prefixes, rw closed tt)).0,
    (Reach-Holds env s PresetRoles-Stable run (roles, rw closed tt)).0,
  )
