-- ===== src/Service/Authorized.antt =====
-- apps/control-plane/internal/auth/service.go: what a method on an organization has checked when it
-- went on.
use delta_uptime.Prelude.{
  String, ◌≡◌, refl, sym, Bool, true, Option, none, some, List, find, str_eq, arith,
}
use delta_uptime.Errors.{ok, unauthorized}
use delta_uptime.Access.{Permission, has, lookup}
use delta_uptime.Input.{normalize_slug}
use delta_uptime.Database.{Organization}
use delta_uptime.Database.Identity.{get_organization_by_slug}
use delta_uptime.Effects.{World, App, called, missing_or, ◌>>=◌}
use delta_uptime.Effects.Inversion.{bind-ok, pure-ok}
use delta_uptime.Effects.Steps.{one-ok, pool_step, lift_step}
use delta_uptime.Service.{Env, Service, Principal}
use delta_uptime.Service.Identify.{require_permission, permitted}
use delta_uptime.Service.Members.{authorized_organization}
use delta_uptime.Prelude.{using}

-- The caller holds the permission in the organization.
abbrev pub Holder : Principal → String → Permission → Type 0
Holder principal organization_id permission =
    (held : List Permission) × (lookup organization_id principal.permissions ≡ some held)
    × (has permission held ≡ true)

permitted-ok :
    (o : Option (List Permission)) (permission : Permission) {u : Unit {0}}
    → permitted permission o ≡ ok u
    → (held : List Permission) × (o ≡ some held) × (has permission held ≡ true)
permitted-ok none permission e = cc e
permitted-ok (some held) permission e = (held, refl, ground (arith, e))

pub require_permission-ok :
    (principal : Principal) (organization_id : String) (permission : Permission) {u : Unit {0}}
    → require_permission principal organization_id permission ≡ ok u
    → Holder principal organization_id permission
unfolding require_permission
require_permission-ok principal organization_id permission e =
    permitted-ok (lookup organization_id principal.permissions) permission e

module _ (env : Env) (s : Service) where
  abbrev pub has_slug : String → Organization → Bool
  has_slug slug o = str_eq o.slug (normalize_slug env.lower_rune slug)

  pub authorized_organization-ok :
      (principal : Principal) (slug : String) (permission : Permission) (w : World)
      {org : Organization} {v : World}
      → authorized_organization env s principal slug permission w ≡ (ok org, v)
      → (find (has_slug slug) w.db.organizations ≡ some org)
        × Holder principal (env.uuid_string org.id) permission
        × (v ≡ called w)
  unfolding authorized_organization get_organization_by_slug called
  authorized_organization-ok principal slug permission w e =
      using
        (pool_step _ w (get_organization_by_slug (normalize_slug env.lower_rune slug))
          (missing_or unauthorized "get organization") e)
        λ (row, d, got, r1).
          using (one-ok (find (has_slug slug) w.db.organizations) w.db got) λ (found, same).
            using
              (lift_step _ _ (require_permission principal (env.uuid_string row.id) permission) r1)
              λ (u, allowed, r2). using (pure-ok row _ r2) λ (is, end). (
                rw (sym is) found,
                rw (sym is)
                    (require_permission-ok principal (env.uuid_string row.id) permission allowed),
                rw (sym same) end,
              )

  -- The same as a step of a method.
  pub authorized_step :
      {B : Type 0} (f : Organization → App B) (principal : Principal) (slug : String)
      (permission : Permission) (w : World) {b : B} {v : World}
      → (authorized_organization env s principal slug permission >>= f) w ≡ (ok b, v)
      → (org : Organization) × (find (has_slug slug) w.db.organizations ≡ some org)
        × Holder principal (env.uuid_string org.id) permission
        × (f org (called w) ≡ (ok b, v))
  authorized_step f principal slug permission w e =
      using (bind-ok (authorized_organization env s principal slug permission) f w e)
        λ (org, v1, e1, rest).
          using (authorized_organization-ok principal slug permission w e1)
            λ (found, holder, v1-is). (org, found, holder, rw v1-is at rest)
