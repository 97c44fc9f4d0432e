-- ===== src/Access/Laws.antt =====
-- Which role may do what.
use delta_uptime.Prelude.{
  String, ◌≡◌, refl, ◌↔◌, ◌⊎◌, true, some, List, [], ◌∷◌, arith, str_eq, eq_iff, if◌then◌else◌,
}
use delta_uptime.Access.{has, lookup, insert, permissions_for_role, membership_write}

-- After an assignment to a key of a map, the key has the new value, and every other key has the
-- value that it had.
pub lookup-insert {ℓ} :
    {V : Type ℓ} (key other : String) (value : V) (entries : List (String × V))
    → lookup other (insert key value entries)
      ≡ (if str_eq key other then some value else lookup other entries)
unfolding lookup insert
lookup-insert key other value [] = refl
lookup-insert key other value (entry ∷ entries) = ground (
  arith,
  lookup-insert key other value entries,
  eq_iff entry.0 key,
  eq_iff entry.0 other,
  eq_iff key other,
)

-- A role may change memberships exactly when it is "owner" or "admin".
pub has-membership_write_iff :
    (role : String)
    → (has membership_write (permissions_for_role role) ≡ true)
      ↔ ((role ≡ "owner") ⊎ (role ≡ "admin"))
unfolding has permissions_for_role
has-membership_write_iff role = ground (
  arith,
  eq_iff "owner" role,
  eq_iff "admin" role,
  eq_iff "operator" role,
  eq_iff "viewer" role,
  eq_iff "billing" role,
)
