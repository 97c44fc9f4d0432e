-- ===== src/Service/MembersWhole.antt =====
-- `Service.AddMembership` and `Service.UpdateMembership` of
-- apps/control-plane/internal/auth/service.go where they fail: they read once more after their
-- commit, so that a failure may find the change committed.
use delta_uptime.Prelude.{ℕ, String, ◌≡◌, refl, some, ◌⊎◌, inl, inr}
use delta_uptime.Errors.{Error, ok, err, wrap, unauthorized}
use delta_uptime.Access.{Permission, membership_write}
use delta_uptime.Database.{Db, User, Organization, Membership, AuditLog}
use delta_uptime.Database.Identity.{create_membership, update_membership_role, get_user_by_id}
use delta_uptime.Database.Controls.{AuditParams, create_audit_log}
use delta_uptime.Effects.{World, App, pure, ◌>>◌, called, in_tx, missing_or}
use delta_uptime.Effects.Inversion.{pure-ok}
use delta_uptime.Effects.Steps.{tx_step}
use delta_uptime.Effects.Quiet.{Quiet, quiet_rules}
use delta_uptime.Effects.Whole.{
  Whole, Whole-bind, Whole-transaction, tx_fails, commit_fails, step_fails,
}
use delta_uptime.Service.{Env, Service, Principal}
use delta_uptime.Service.Session.{audit}
use delta_uptime.Service.Quiet.{read_only_rules, Quiet-audit, Quiet-user_has_enabled_totp}
use delta_uptime.Service.Stable.{ReadOnly-get_organization_by_slug}
use delta_uptime.Service.Members.{
  authorized_organization, add_membership, add_membership_body, add_entry, create_error,
  update_membership, update_membership_body, update_entry,
}

module _ {B : Type 0} (k : App B) (w : World) {e : Error} {v : World} where
  audit_fails :
      (entry : AuditParams) (d : Db)
      → w.tx ≡ some d
      → (audit in_tx entry >> k) w ≡ (err e, v)
      → (v.db ≡ w.db)
        ⊎ ((log : AuditLog) × (d' : Db) × (create_audit_log entry w.now d ≡ (ok log, d'))
            × (k (record (called w) { tx = some d' }) ≡ (err e, v)))
  unfolding audit
  audit_fails entry d opened h =
      elim (step_fails (λ _. k) w (audit in_tx entry) (Quiet-audit entry) h) [
        | inl same ↦ inl same
        | inr (u, x, e1, _, rest) ↦
            let (log, d', ran, last) =
              tx_step (λ _. pure tt) w (create_audit_log entry) (wrap "create audit log") d opened
                e1 in
            let (_, x-is) = pure-ok tt _ last in inr (log, d', ran, rw x-is at rest)
      ]

module _ (env : Env) (s : Service) where
  pub Quiet-authorized_organization :
      (principal : Principal) (slug : String) (permission : Permission)
      → Quiet (authorized_organization env s principal slug permission)
  unfolding authorized_organization
  Quiet-authorized_organization principal slug permission =
      search (quiet_rules, read_only_rules, ReadOnly-get_organization_by_slug) depth 10

  -- A membership and its audit entry were committed together.
  abbrev pub Added : Principal → String → Db → Db → Type 0
  Added principal role d d' =
      (org : Organization) × (user : User) × (now : ℕ) × (m : Membership) × (d1 : Db)
      × (log : AuditLog) × (create_membership org.id user.id role now d ≡ (ok m, d1))
      × (create_audit_log (add_entry env s principal org user role) now d1 ≡ (ok log, d'))

  -- The new role and its audit entry were committed together.
  abbrev pub Updated : Principal → String → Db → Db → Type 0
  Updated principal role d d' =
      (org : Organization) × (id : ℕ) × (user : User) × (now : ℕ) × (m : Membership) × (d1 d2 : Db)
      × (log : AuditLog) × (update_membership_role org.id id role now d ≡ (ok m, d1))
      × (get_user_by_id m.user_id now d1 ≡ (ok user, d2))
      × (create_audit_log (update_entry env s principal org user role) now d2 ≡ (ok log, d'))

  add_membership_body_fails :
      (principal : Principal) (org : Organization) (user : User) (role : String) (w : World)
      (d : Db) (e : Error) (v : World)
      → w.tx ≡ some d
      → add_membership_body env s principal org user role w ≡ (err e, v)
      → (v.db ≡ w.db) ⊎ Added principal role d v.db
  unfolding add_membership_body called
  add_membership_body_fails principal org user role w d e v opened h =
      let entry = add_entry env s principal org user role in
      elim (tx_fails _ w (create_membership org.id user.id role) (create_error env s) d opened h) [
        | inl same ↦ inl same
        | inr (m, d1, ran, r1) ↦ elim (audit_fails _ _ entry d1 refl r1) [
          | inl same ↦ inl same
          | inr (log, d2, logged, r2) ↦
              elim (commit_fails _ _ (wrap "commit membership create tx") d2 refl
                (search (quiet_rules, Quiet-user_has_enabled_totp)) r2) [
                  | inl same ↦ inl same
                  | inr whole ↦ inr (org, user, w.now, m, d1, log, ran, rw whole logged)
                ]
        ]
      ]

  update_membership_body_fails :
      (principal : Principal) (org : Organization) (id : ℕ) (role : String) (w : World) (d : Db)
      (e : Error) (v : World)
      → w.tx ≡ some d
      → update_membership_body env s principal org id role w ≡ (err e, v)
      → (v.db ≡ w.db) ⊎ Updated principal role d v.db
  unfolding update_membership_body called
  update_membership_body_fails principal org id role w d e v opened h =
      elim (tx_fails _ w (update_membership_role org.id id role)
        (missing_or unauthorized "update membership role") d opened h) [
          | inl same ↦ inl same
          | inr (m, d1, ran, r1) ↦
              elim (tx_fails _ _ (get_user_by_id m.user_id) (wrap "get updated membership user") d1
                refl r1) [
                  | inl same ↦ inl same
                  | inr (user, d2, got, r2) ↦
                      elim (audit_fails _ _ (update_entry env s principal org user role) d2 refl
                        r2) [
                          | inl same ↦ inl same
                          | inr (log, d3, logged, r3) ↦
                              elim (commit_fails _ _ (wrap "commit membership update tx") d3 refl
                                (search (quiet_rules, Quiet-user_has_enabled_totp)) r3) [
                                  | inl same ↦ inl same
                                  | inr whole ↦ inr (
                                    org,
                                    id,
                                    user,
                                    w.now,
                                    m,
                                    d1,
                                    d2,
                                    log,
                                    ran,
                                    got,
                                    rw whole logged,
                                  )
                                ]
                        ]
                ]
        ]

  pub add_membership-Whole :
      (principal : Principal) (slug email role : String)
      → Whole (Added principal role) (add_membership env s principal slug email role)
  unfolding add_membership
  add_membership-Whole principal slug email role =
      Whole-bind _ _ (Quiet-authorized_organization principal slug membership_write) λ org.
        Whole-bind _ _ (search quiet_rules) λ _. Whole-bind _ _ (search quiet_rules) λ _.
          Whole-bind _ _ (search (quiet_rules, read_only_rules)) λ user.
            Whole-transaction "begin membership create tx"
              (add_membership_body env s principal org user role)
              (add_membership_body_fails principal org user role)

  pub update_membership-Whole :
      (principal : Principal) (slug id role : String)
      → Whole (Updated principal role) (update_membership env s principal slug id role)
  unfolding update_membership
  update_membership-Whole principal slug id role =
      Whole-bind _ _ (Quiet-authorized_organization principal slug membership_write) λ org.
        Whole-bind _ _ (search quiet_rules) λ _. Whole-bind _ _ (search quiet_rules) λ user_id.
          Whole-transaction "begin membership update tx"
            (update_membership_body env s principal org user_id role)
            (update_membership_body_fails principal org user_id role)
