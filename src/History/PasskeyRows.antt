-- ===== src/History/PasskeyRows.antt =====
-- The table auth_webauthn_sessions through the server's life: a session that was deleted stays
-- away.
use delta_uptime.Prelude.{
  ℕ, ◌+◌, ◌≤◌, ◌<◌, String, ◌≡◌, refl, Bool, false, not, none, some, List, [], ◌∷◌, ◌++◌, ◌==◌,
  find, select, All, All-append, arith, Bool-cases, inl, inr, ◌⊎◌,
}
use delta_uptime.Database.{Db, AuthWebauthnSession}
use delta_uptime.Database.Passkeys.{
  create_auth_webauthn_session, delete_auth_webauthn_session, new_passkey_session,
}
use delta_uptime.Effects.Keeps.{Keeps}
use delta_uptime.Service.Stable.{Stable}
use delta_uptime.History.Sessions.{sessions-Stable, OfSessions}

abbrev pub has_session_id : ℕ → AuthWebauthnSession → Bool
has_session_id id x = x.id == id

-- No session has the id, and none will be given it.
abbrev pub IsUsedUp : ℕ → List AuthWebauthnSession → ℕ → Type 0
IsUsedUp id sessions next_id = (find (has_session_id id) sessions ≡ none) × (id < next_id)

-- The ids of the sessions have been given out.
abbrev pub GivenOut : List AuthWebauthnSession → ℕ → Type 0
GivenOut sessions next_id = All (λ x. x.id < next_id) sessions

create_session-cases :
    (user : ℕ) (flow session_data : String) (expires now : ℕ) (d : Db)
    → let d' = (create_auth_webauthn_session user flow session_data expires now d).1 in
      ((d'.webauthn_sessions ≡ d.webauthn_sessions) × (d'.next_id ≡ d.next_id))
      ⊎ ((d'.webauthn_sessions
            ≡ d.webauthn_sessions
              ++ new_passkey_session user flow session_data expires now d.next_id ∷ [])
          × (d'.next_id ≡ d.next_id + 1))
unfolding create_auth_webauthn_session
create_session-cases user flow session_data expires now d = ground arith

find-append_absent :
    (id : ℕ) (sessions : List AuthWebauthnSession) (x : AuthWebauthnSession)
    → find (has_session_id id) sessions ≡ none
    → has_session_id id x ≡ false
    → find (has_session_id id) (sessions ++ x ∷ []) ≡ none
unfolding find
find-append_absent id [] x absent other = ground (arith, other)
find-append_absent id (y ∷ sessions) x absent other =
    ground (arith, find-append_absent id sessions x)

find-select_absent :
    (id gone : ℕ) (sessions : List AuthWebauthnSession)
    → find (has_session_id id) sessions ≡ none
    → find (has_session_id id) (select (λ x. not (x.id == gone)) sessions) ≡ none
unfolding find select
find-select_absent id gone [] absent = refl
find-select_absent id gone (y ∷ sessions) absent =
    ground (arith, find-select_absent id gone sessions)

All-select :
    (n gone : ℕ) (sessions : List AuthWebauthnSession)
    → GivenOut sessions n
    → GivenOut (select (λ x. not (x.id == gone)) sessions) n
unfolding select
All-select n gone [] h = tt
All-select n gone (y ∷ sessions) (here, h) = elim (Bool-cases (y.id == gone)) [
  | inl hit ↦ rw hit (All-select n gone sessions h)
  | inr miss ↦ rw miss (here, All-select n gone sessions h)
]

pub GivenOut_grows :
    (sessions : List AuthWebauthnSession) (m n : ℕ)
    → m ≤ n
    → GivenOut sessions m
    → GivenOut sessions n
GivenOut_grows [] m n le h = tt
GivenOut_grows (x ∷ sessions) m n le (here, h) = (omega arith, GivenOut_grows sessions m n le h)

pub GivenOut-find :
    (id n : ℕ) (sessions : List AuthWebauthnSession) {x : AuthWebauthnSession}
    → GivenOut sessions n
    → find (has_session_id id) sessions ≡ some x
    → id < n
unfolding find
GivenOut-find id n [] h found = cc found
GivenOut-find id n (y ∷ sessions) {x} (here, h) found =
    ground (arith, GivenOut-find id n sessions {x = x} h)

deleted-IsUsedUp :
    (id gone : ℕ)
    → Keeps
        (OfSessions (IsUsedUp id) (λ xs m n le h. (h.0, omega arith)))
        (delete_auth_webauthn_session gone)
unfolding delete_auth_webauthn_session
deleted-IsUsedUp id gone = record {
  at = λ now d h. (find-select_absent id gone d.webauthn_sessions h.0, h.1);
}

deleted-GivenOut :
    (gone : ℕ) → Keeps (OfSessions GivenOut GivenOut_grows) (delete_auth_webauthn_session gone)
unfolding delete_auth_webauthn_session
deleted-GivenOut gone = record { at = λ now d h. All-select d.next_id gone d.webauthn_sessions h }

pub IsUsedUp-Stable :
    (id : ℕ) → Stable (OfSessions (IsUsedUp id) (λ xs m n le h. (h.0, omega arith)))
IsUsedUp-Stable id =
    sessions-Stable (IsUsedUp id) (λ xs m n le h. (h.0, omega arith))
      (λ user flow session_data expires. record {
        at = λ now d h. elim (create_session-cases user flow session_data expires now d) [
          | inl (same, next) ↦ rw (same, next) h
          | inr (grown, next) ↦
              rw (grown, next)
                (
                  find-append_absent id d.webauthn_sessions
                      (new_passkey_session user flow session_data expires now d.next_id) h.0
                      (ground (arith, h.1)),
                  omega (arith, h.1),
                )
        ];
      })
      (deleted-IsUsedUp id)

pub GivenOut-Stable : Stable (OfSessions GivenOut GivenOut_grows)
GivenOut-Stable =
    sessions-Stable GivenOut GivenOut_grows
      (λ user flow session_data expires. record {
        at = λ now d h. elim (create_session-cases user flow session_data expires now d) [
          | inl (same, next) ↦ rw (same, next) h
          | inr (grown, next) ↦
              rw (grown, next)
                (All-append _ d.webauthn_sessions
                  (new_passkey_session user flow session_data expires now d.next_id ∷ [])
                  (GivenOut_grows d.webauthn_sessions d.next_id (d.next_id + 1) (omega arith) h)
                  (omega arith, tt))
        ];
      })
      deleted-GivenOut

-- The counter is past the id.
abbrev pub Past : ℕ → List AuthWebauthnSession → ℕ → Type 0
Past id sessions next_id = id < next_id

created-Past :
    (id user : ℕ) (flow session_data : String) (expires : ℕ)
    → Keeps
        (OfSessions (Past id) (λ xs m n le h. omega arith))
        (create_auth_webauthn_session user flow session_data expires)
unfolding create_auth_webauthn_session
created-Past id user flow session_data expires = record { at = λ now d h. ground arith }

deleted-Past :
    (id gone : ℕ)
    → Keeps (OfSessions (Past id) (λ xs m n le h. omega arith)) (delete_auth_webauthn_session gone)
unfolding delete_auth_webauthn_session
deleted-Past id gone = record { at = λ now d h. h }

pub Past-Stable : (id : ℕ) → Stable (OfSessions (Past id) (λ xs m n le h. omega arith))
Past-Stable id =
    sessions-Stable (Past id) (λ xs m n le h. omega arith) (created-Past id) (deleted-Past id)
