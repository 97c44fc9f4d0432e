-- ===== src/History/Lifecycle.antt =====
-- The life of a refresh token, which is good for one use, as a machine of three phases, and the
-- table auth_refresh_tokens as an implementation of it.
use delta_uptime.Prelude.{
  String, ◌≡◌, ◌≢◌, refl, Option, none, some, find, if◌then◌else◌, Option-cases, Bool-cases, inl,
  inr,
}
use delta_uptime.Database.{Db, AuthRefreshToken}
use delta_uptime.Effects.{World}
use delta_uptime.Service.{Env, Service}
use delta_uptime.Server.{Reach}
use delta_uptime.History.Reach.{Reach-Holds}
use delta_uptime.History.Tokens.{has_hash, is_usable, IsSpent, IsSpent-Stable, Located-Stable}

pub data Phase : Type 0 where
  unissued live spent : Phase

-- What a credential may do.
pub data PhaseStep : Phase → Phase → Type 0 where
  issue : PhaseStep unissued live
  spend : PhaseStep live spent

-- Any number of steps.
pub data Moves (p : Phase) : Phase → Type 0 where
  still : Moves p p
  move : {q r : Phase} → Moves p q → PhaseStep q r → Moves p r

-- What is never unissued again, and never alive again after it was spent, moves as the machine
-- does.
in_order : (p q : Phase) → (p ≢ unissued → q ≢ unissued) → (p ≡ spent → q ≡ spent) → Moves p q
in_order unissued unissued kept final = still
in_order unissued live kept final = move still issue
in_order unissued spent kept final = move (move still issue) spend
in_order live unissued kept final = elim (kept (λ e. cc e) refl) [ ]
in_order live live kept final = still
in_order live spent kept final = move still spend
in_order spent unissued kept final = cc (final refl)
in_order spent live kept final = cc (final refl)
in_order spent spent kept final = still

abbrev found_token_phase : Option AuthRefreshToken → Phase
found_token_phase none = unissued
found_token_phase (some t) = if is_usable t then live else spent

-- The phase of the refresh token that has a hash.
abbrev pub token_phase : String → Db → Phase
token_phase hash d = found_token_phase (find (has_hash hash) d.refresh_tokens)

token_issued :
    (hash : String) (d : Db)
    → token_phase hash d ≢ unissued
    → (t : AuthRefreshToken) × (find (has_hash hash) d.refresh_tokens ≡ some t)
token_issued hash d h = elim (Option-cases (find (has_hash hash) d.refresh_tokens)) [
  | inl absent ↦ elim (h (rw absent refl)) [ ]
  | inr found ↦ found
]

token_issued_of :
    (hash : String) (d : Db) {t : AuthRefreshToken}
    → find (has_hash hash) d.refresh_tokens ≡ some t
    → token_phase hash d ≢ unissued
token_issued_of hash d {t} found e = elim (Bool-cases (is_usable t)) [
  | inl usable ↦ cc (rw (found, usable) at e)
  | inr dead ↦ cc (rw (found, dead) at e)
]

token_spent : (hash : String) (d : Db) → token_phase hash d ≡ spent → IsSpent hash d.refresh_tokens
token_spent hash d e = elim (Option-cases (find (has_hash hash) d.refresh_tokens)) [
  | inl absent ↦ cc (rw absent at e)
  | inr (t, found) ↦ elim (Bool-cases (is_usable t)) [
    | inl usable ↦ cc (rw (found, usable) at e)
    | inr dead ↦ (t, found, dead)
  ]
]

module _ (env : Env) (s : Service) where
  -- Over every run of the server, the refresh token of a hash goes through the phases in order: it
  -- is issued at most once, and once it was used or revoked it is never usable again.
  pub refresh_tokens-refine :
      (hash : String) {w v : World}
      → w.tx ≡ none
      → Reach env s w v
      → Moves (token_phase hash w.db) (token_phase hash v.db)
  refresh_tokens-refine hash {w} {v} closed run =
      in_order (token_phase hash w.db) (token_phase hash v.db)
        (λ issued.
          let (t, found) = token_issued hash w.db issued in
          let held =
            Reach-Holds env s (Located-Stable hash t.id) run ((t, found, refl), rw closed tt) in
          token_issued_of hash v.db held.0.1)
        (λ was_spent.
          let (t, found, dead) =
            (Reach-Holds env s (IsSpent-Stable hash) run
              (token_spent hash w.db was_spent, rw closed tt)).0 in
          rw (found, dead) refl)
