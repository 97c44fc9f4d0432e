-- ===== src/History/Keys.antt =====
-- An API key that was revoked stays revoked, whatever its row goes through.
use delta_uptime.Prelude.{
  ℕ, String, ◌≡◌, refl, Bool, false, Option, some, List, [], ◌∷◌, find, arith, str_eq, Option-cases,
  inl, inr, find-append, find-update_where_other, find-update_where_hit, Bool-cases, update_where,
}
use delta_uptime.Database.{ApiKey}
use delta_uptime.Database.Sessions.{is_null}
use delta_uptime.Database.Controls.{
  create_api_key, touch_api_key_last_used, revoke_api_key, new_key, key_is, touched, is_active_key,
  revoked_key,
}
use delta_uptime.Effects.Keeps.{Keeps}
use delta_uptime.Service.Stable.{Stable}
use delta_uptime.History.Tables.{Stable_of_keys}

abbrev pub has_prefix : String → ApiKey → Bool
has_prefix prefix k = str_eq k.key_prefix prefix

-- The key that is found under the prefix was revoked.
abbrev pub IsRevoked : String → List ApiKey → Type 0
IsRevoked prefix keys =
    (k : ApiKey) × (find (has_prefix prefix) keys ≡ some k) × (is_null k.revoked_at ≡ false)

create_api_key-IsRevoked :
    (prefix : String) (org : ℕ) (creator : Option ℕ) (name new hash : String) (scopes : List String)
    → Keeps (λ d. IsRevoked prefix d.api_keys) (create_api_key org creator name new hash scopes)
unfolding create_api_key
create_api_key-IsRevoked prefix org creator name new hash scopes = record {
  at = λ now d (k, found, revoked). (
    k,
    ground (
      arith,
      find-append (has_prefix prefix) d.api_keys
          (new_key org creator name new hash scopes now d.next_id ∷ []) k found,
    ),
    revoked,
  );
}

touched-IsRevoked :
    (prefix : String) (id now : ℕ) (keys : List ApiKey)
    → IsRevoked prefix keys
    → IsRevoked prefix (update_where (key_is id) (touched now) keys)
touched-IsRevoked prefix id now keys (k, found, revoked) = elim (Bool-cases (key_is id k)) [
  | inl hit ↦ (
    touched now k,
    find-update_where_hit (has_prefix prefix) (key_is id) (touched now) keys k (λ u. refl) found
        hit,
    revoked,
  )
  | inr miss ↦ (
    k,
    find-update_where_other (has_prefix prefix) (key_is id) (touched now) keys k (λ u. refl) found
        miss,
    revoked,
  )
]

touch_api_key_last_used-IsRevoked :
    (prefix : String) (id : ℕ)
    → Keeps (λ d. IsRevoked prefix d.api_keys) (touch_api_key_last_used id)
unfolding touch_api_key_last_used
touch_api_key_last_used-IsRevoked prefix id = record {
  at = λ now d h. elim (Option-cases (find (key_is id) d.api_keys)) [
    | inl absent ↦ rw (absent, touch_api_key_last_used) h
    | inr (key, hit) ↦
        rw (hit, touch_api_key_last_used) (touched-IsRevoked prefix id now d.api_keys h)
  ];
}

rerevoked-IsRevoked :
    (prefix : String) (id now : ℕ) (keys : List ApiKey)
    → IsRevoked prefix keys
    → IsRevoked prefix (update_where (is_active_key id) (revoked_key now) keys)
rerevoked-IsRevoked prefix id now keys (k, found, revoked) = (
  k,
  find-update_where_other (has_prefix prefix) (is_active_key id) (revoked_key now) keys k
      (λ u. refl) found (ground (arith, revoked)),
  revoked,
)

revoke_api_key-IsRevoked :
    (prefix : String) (id : ℕ) → Keeps (λ d. IsRevoked prefix d.api_keys) (revoke_api_key id)
unfolding revoke_api_key
revoke_api_key-IsRevoked prefix id = record {
  at = λ now d h. elim (Option-cases (find (is_active_key id) d.api_keys)) [
    | inl absent ↦ rw (absent, revoke_api_key) h
    | inr (key, hit) ↦ rw (hit, revoke_api_key) (rerevoked-IsRevoked prefix id now d.api_keys h)
  ];
}

pub IsRevoked-Stable : (prefix : String) → Stable (λ d. IsRevoked prefix d.api_keys)
IsRevoked-Stable prefix =
    Stable_of_keys (IsRevoked prefix) (create_api_key-IsRevoked prefix)
      (touch_api_key_last_used-IsRevoked prefix) (revoke_api_key-IsRevoked prefix)
