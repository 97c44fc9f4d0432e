-- ===== src/Input/Laws.antt =====
-- What the validators accept, and that the prefix of an API key is read back.
use Prim.Native.String.{[], ◌∷◌, ◌++◌}
use mathlib.Core.List
use text.Mathlib.TextLemmas.{nil-append, cons-append}
use delta_uptime.Prelude.{
  ℕ, String, sym, ◌≡◌, ◌≢◌, ◌↔◌, refl, List, All, ◌||◌, str_eq, map, All-append, true, false, arith,
  eq_iff, ap, Bool-cases, inl, inr, ◌∙◌,
}
use delta_uptime.Errors.{ok, Result-cases}
use delta_uptime.Access.{Permission, has, permissions_for_role, organization_read}
use delta_uptime.Text.{hex, split, trim_space}
use delta_uptime.Text.Laws.{Lacks, hex-Lacks, split-append, split_of_Lacks}
use delta_uptime.Input.{
  api_key_text, parse_api_key_prefix, validate_role, validate_slug, slug_chars, is_slug_char,
  scopes_loop, validate_scopes, allowed_scopes, add_scope,
}

split_three :
    (a b c : String)
    → Lacks "_" a
    → Lacks "_" b
    → Lacks "_" c
    → split (a ++ ("_" ∷ (b ++ ("_" ∷ c)))) "_" ≡ List.◌∷◌ a (List.◌∷◌ b (List.◌∷◌ c List.[]))
split_three a b c la lb lc =
    rw (split-append a (b ++ ("_" ∷ c)) "_" la, split-append b c "_" lb, split_of_Lacks c "_" lc)
      refl

bar_append : (t : String) → "_" ++ t ≡ "_" ∷ t
bar_append t = rw (cons-append, nil-append) refl

duk_append : (t : String) → "duk_" ++ t ≡ "duk" ++ ("_" ∷ t)
duk_append t =
    rw
      (
        cons-append "d" "uk_" t,
        cons-append "u" "k_" t,
        cons-append "k" "_" t,
        bar_append t,
        cons-append "d" "uk" ("_" ∷ t),
        cons-append "u" "k" ("_" ∷ t),
        cons-append "k" "" ("_" ∷ t),
        nil-append,
      )
      refl

api_key_text_parts :
    (prefix secret : List ℕ)
    → api_key_text prefix secret ≡ "duk" ++ ("_" ∷ (hex prefix ++ ("_" ∷ hex secret)))
unfolding api_key_text
api_key_text_parts prefix secret =
    duk_append (hex prefix ++ ("_" ++ hex secret))
    ∙ ap (λ t. "duk" ++ ("_" ∷ (hex prefix ++ t))) (bar_append (hex secret))

-- The prefix that `generateAPIKey` stores is the one that `parseAPIKeyPrefix` finds in its text.
pub parse_api_key_prefix-api_key_text :
    (prefix secret : List ℕ) → parse_api_key_prefix (api_key_text prefix secret) ≡ ok (hex prefix)
unfolding parse_api_key_prefix
parse_api_key_prefix-api_key_text prefix secret =
    rw
      (
        api_key_text_parts prefix secret,
        split_three "duk" (hex prefix) (hex secret) (refl, (refl, (refl, tt))) (hex-Lacks prefix)
            (hex-Lacks secret),
      )
      refl

no_other_role :
    (role : String) (p : Permission)
    → validate_role role ≢ ok tt
    → has p (permissions_for_role role) ≡ false
unfolding validate_role has permissions_for_role
no_other_role role p invalid_role = ground (
  arith,
  invalid_role,
  eq_iff role "owner",
  eq_iff "owner" role,
  eq_iff role "admin",
  eq_iff "admin" role,
  eq_iff role "operator",
  eq_iff "operator" role,
  eq_iff role "viewer",
  eq_iff "viewer" role,
  eq_iff role "billing",
  eq_iff "billing" role,
)

reads_organization_iff :
    (role : String)
    → (validate_role role ≡ ok tt) ↔ (has organization_read (permissions_for_role role) ≡ true)
unfolding validate_role has permissions_for_role
reads_organization_iff role = ground (
  arith,
  eq_iff role "owner",
  eq_iff "owner" role,
  eq_iff role "admin",
  eq_iff "admin" role,
  eq_iff role "operator",
  eq_iff "operator" role,
  eq_iff role "viewer",
  eq_iff "viewer" role,
  eq_iff role "billing",
  eq_iff "billing" role,
)

-- A role is valid exactly if the role table gives it some permission, and exactly if the table
-- gives it the permission to read its organization.
pub validate_role_iff :
    (role : String)
    → ((validate_role role ≡ ok tt)
        ↔ ((p : Permission) × (has p (permissions_for_role role) ≡ true)))
      × ((validate_role role ≡ ok tt) ↔ (has organization_read (permissions_for_role role) ≡ true))
validate_role_iff role = (
  (
    λ valid. (organization_read, (reads_organization_iff role).0 valid),
    λ (p, granted). elim (Result-cases (validate_role role)) [
      | inl (u, valid) ↦ valid
      | inr (e, failed) ↦ cc (sym granted ∙ no_other_role role p (λ valid. cc (sym valid ∙ failed)))
    ],
  ),
  reads_organization_iff role,
)

abbrev pub SlugChars : String → Type 0
SlugChars [] = Unit
SlugChars (c ∷ s) = (is_slug_char c ≡ true) × SlugChars s

slug_chars-ok_iff : (s : String) → (slug_chars s ≡ ok tt) ↔ SlugChars s
unfolding slug_chars
slug_chars-ok_iff [] = ground arith
slug_chars-ok_iff (c ∷ s) = ground (arith, slug_chars-ok_iff s)

-- A slug is valid exactly if it is not empty and each of its characters is a lower-case Latin
-- letter, a digit or a dash.
pub validate_slug_iff : (s : String) → (validate_slug s ≡ ok tt) ↔ ((s ≢ "") × SlugChars s)
unfolding validate_slug
validate_slug_iff s = ground (arith, slug_chars-ok_iff s, eq_iff s "")

-- No text stands twice in the list.
abbrev pub Distinct : List String → Type 0
Distinct List.[] = Unit
Distinct (List.◌∷◌ x xs) = (has x xs ≡ false) × Distinct xs

has-append :
    (p s : String) (xs : List String)
    → has p (List.◌++◌ xs (List.◌∷◌ s List.[])) ≡ (has p xs || str_eq s p)
unfolding has
has-append p s List.[] = ground arith
has-append p s (List.◌∷◌ x xs) = ground (arith, has-append p s xs)

Distinct-append :
    (s : String) (xs : List String)
    → has s xs ≡ false
    → Distinct xs
    → Distinct (List.◌++◌ xs (List.◌∷◌ s List.[]))
unfolding has
Distinct-append s List.[] new d = ground arith
Distinct-append s (List.◌∷◌ x xs) new d =
    ground (arith, has-append x s xs, Distinct-append s xs, eq_iff x s, eq_iff s x)

abbrev pub Allowed : String → Type 0
Allowed scope = has scope allowed_scopes ≡ true

-- What holds of the list that the loop has built so far.
abbrev IsNormal : List String → Type 0
IsNormal xs = Distinct xs × All Allowed xs

add_scope-IsNormal :
    (s : String) (xs : List String) → Allowed s → IsNormal xs → IsNormal (add_scope s xs)
add_scope-IsNormal s xs ok_s h = elim (Bool-cases (has s xs)) [
  | inl old ↦ rw old h
  | inr new ↦
      rw new
        (Distinct-append s xs new h.0, All-append Allowed xs (List.◌∷◌ s List.[]) h.1 (ok_s, tt))
]

has-add_scope :
    (p s : String) (xs : List String) → has p (add_scope s xs) ≡ (has p xs || str_eq s p)
has-add_scope p s xs = ground (arith, has-append p s xs, eq_iff s p)

scopes_loop-ok :
    (normalized scopes out : List String)
    → scopes_loop normalized scopes ≡ ok out
    → IsNormal normalized
    → IsNormal out
      × ((p : String) → has p out ≡ (has p normalized || has p (map trim_space scopes)))
unfolding scopes_loop has
scopes_loop-ok normalized List.[] out e h =
    let same : normalized ≡ out = cc in rw (← same) (h, λ p. ground arith)
scopes_loop-ok normalized (List.◌∷◌ scope scopes) out e h =
    elim (Bool-cases (has (trim_space scope) allowed_scopes)) [
      | inl good ↦
          let (normal, same) =
            scopes_loop-ok (add_scope (trim_space scope) normalized) scopes out (rw good at e)
              (add_scope-IsNormal (trim_space scope) normalized good h) in
          (normal, λ p. ground (arith, same p, has-add_scope p (trim_space scope) normalized))
      | inr bad ↦ cc (rw bad at e)
    ]

-- The accepted scopes are allowed ones, without repetition, and they are as a set the scopes of
-- the request with the white space trimmed.
pub validate_scopes-ok :
    (scopes out : List String)
    → validate_scopes scopes ≡ ok out
    → Distinct out × All Allowed out × ((p : String) → has p out ≡ has p (map trim_space scopes))
unfolding validate_scopes has
validate_scopes-ok List.[] out e = cc
validate_scopes-ok (List.◌∷◌ scope scopes) out e =
    let (normal, same) = scopes_loop-ok List.[] (List.◌∷◌ scope scopes) out e (tt, tt) in
    (normal.0, normal.1, λ p. ground (arith, same p))
