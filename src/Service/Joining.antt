-- ===== src/Service/Joining.antt =====
-- `Service.AddMembership` and `Service.UpdateMembership` of
-- apps/control-plane/internal/auth/service.go: who may change memberships, and how.
use delta_uptime.Prelude.{
  ℕ, String, ◌≡◌, refl, sym, ap, ◌∙◌, Bool, false, ◌&&◌, some, [], ◌∷◌, ◌++◌, find, exists,
  update_where, str_eq, Bool-cases, Option-cases, inl, inr, using, ◌==◌,
}
use delta_uptime.Errors.{Result, ok, wrap, unauthorized}
use delta_uptime.Access.{membership_write}
use delta_uptime.Input.{normalize_email, validate_role, invalid}
use delta_uptime.Database.{Db, User, Organization, Membership, AuditLog}
use delta_uptime.Database.Identity.{
  create_membership, new_membership, update_membership_role, with_role, is_member, is_preset_role,
  get_user_by_email, get_user_by_id,
}
use delta_uptime.Database.Controls.{AuditParams, create_audit_log}
use delta_uptime.Database.Frames.{create_audit_log_frame}
use delta_uptime.Effects.{World, called, pool, missing_or, ◌>>=◌, pure}
use delta_uptime.Effects.Inversion.{bind-ok, pure-ok, transaction-ok}
use delta_uptime.Effects.Steps.{one-ok, tx_step, pool_step, lift_step, guard_step, commit_step}
use delta_uptime.Service.{Env, Service, Principal, MembershipInfo}
use delta_uptime.Service.Session.{parse_uuid, user_info, user_has_enabled_totp}
use delta_uptime.Service.Quiet.{Quiet-user_has_enabled_totp}
use delta_uptime.Service.Steps.{audit_step}
use delta_uptime.Service.Members.{
  add_membership, add_membership_body, add_entry, create_error, absent_user, update_membership,
  update_membership_body, update_entry,
}
use delta_uptime.Service.Authorized.{Holder, has_slug, authorized_step}

pub create_membership-ok :
    (org user : ℕ) (role : String) (now : ℕ) (d : Db) {m : Membership} {d' : Db}
    → create_membership org user role now d ≡ (ok m, d')
    → (d'.memberships ≡ d.memberships ++ new_membership org user role now d.next_id ∷ [])
      × (exists (is_member org user) d.memberships ≡ false)
unfolding create_membership
create_membership-ok org user role now d e = elim (Bool-cases (is_preset_role role)) [
  | inr unknown ↦ cc (rw (unknown, create_membership) at e)
  | inl known ↦ elim (Bool-cases (exists (is_member org user) d.memberships)) [
    | inl there ↦ cc (rw (known, there, create_membership) at e)
    | inr absent ↦
        elim (Bool-cases
          (exists (λ o. o.id == org) d.organizations && exists (λ u. u.id == user) d.users)) [
            | inl both ↦ (
              ap (λ x. x.1.memberships) (sym (rw (known, absent, both, create_membership) at e)),
              absent,
            )
            | inr missing ↦ cc (rw (known, absent, missing, create_membership) at e)
          ]
  ]
]

update_membership_role-ok :
    (org user : ℕ) (role : String) (now : ℕ) (d : Db) {m : Membership} {d' : Db}
    → update_membership_role org user role now d ≡ (ok m, d')
    → (old : Membership) × (find (is_member org user) d.memberships ≡ some old)
      × (m ≡ with_role role old)
      × (d'.memberships ≡ update_where (is_member org user) (with_role role) d.memberships)
unfolding update_membership_role
update_membership_role-ok org user role now d {m} e =
    elim (Option-cases (find (is_member org user) d.memberships)) [
      | inl absent ↦ cc (rw (absent, update_membership_role) at e)
      | inr (old, hit) ↦ elim (Bool-cases (is_preset_role role)) [
        | inl known ↦
            let same = rw (hit, known, update_membership_role) at e in
            (old, hit, cc (ap (λ x. x.0) same), ap (λ x. x.1.memberships) (sym same))
        | inr unknown ↦ cc (rw (hit, unknown, update_membership_role) at e)
      ]
    ]

audited-memberships :
    (entry : AuditParams) (now : ℕ) (d : Db) {r : Result AuditLog} {d' : Db}
    → create_audit_log entry now d ≡ (r, d')
    → d'.memberships ≡ d.memberships
audited-memberships entry now d e =
    ap (λ x. x.1.memberships) (sym e) ∙ ap (λ x. x.memberships) (create_audit_log_frame now d entry)

module _ (env : Env) (s : Service) where
  -- The read that follows a commit, and the result.
  told-db :
      (f : Bool → MembershipInfo) (id : ℕ) (w : World) {r : MembershipInfo} {v : World}
      → (user_has_enabled_totp pool id >>= λ t. pure (f t)) w ≡ (ok r, v)
      → v.db ≡ w.db
  told-db f id w e = using (bind-ok (user_has_enabled_totp pool id) _ w e) λ (t, v1, e1, r1).
      using (pure-ok (f t) v1 r1) λ (_, end).
        let quiet = (Quiet-user_has_enabled_totp pool id).at w in
        ap (λ x. x.db) end ∙ (ap (λ x. x.1.db) (sym e1) ∙ quiet)

  add_membership_body-ok :
      (principal : Principal) (org : Organization) (user : User) (role : String) (w : World)
      (d : Db) {r : MembershipInfo} {v : World}
      → w.tx ≡ some d
      → add_membership_body env s principal org user role w ≡ (ok r, v)
      → (v.db.memberships
          ≡ d.memberships ++ new_membership org.id user.id role w.now d.next_id ∷ [])
        × (exists (is_member org.id user.id) d.memberships ≡ false)
  unfolding add_membership_body called
  add_membership_body-ok principal org user role w d opened e =
      let entry = add_entry env s principal org user role in
      using (tx_step _ w (create_membership org.id user.id role) (create_error env s) d opened e)
        λ (m, d1, ran, r1).
          using (create_membership-ok org.id user.id role w.now d ran) λ (table, absent).
            using (audit_step _ _ entry d1 refl r1) λ (log, d2, logged, r2).
              using (commit_step _ _ (wrap "commit membership create tx") d2 refl r2) λ r3.
                using
                  (told-db (λ t. record { user = user_info env user t; role = role }) user.id _ r3)
                  λ end. (rw (end, audited-memberships entry w.now d1 logged) table, absent)

  -- A membership is added only for a caller who may change memberships in the organization, with a
  -- valid role, for the stored user of the email who was no member; the table of memberships grows
  -- by exactly this membership.
  pub add_membership-ok :
      (principal : Principal) (slug email role : String) (w : World) {r : MembershipInfo}
      {v : World}
      → add_membership env s principal slug email role w ≡ (ok r, v)
      → (org : Organization) × (user : User) × (find (has_slug env s slug) w.db.organizations
          ≡ some org)
        × Holder principal (env.uuid_string org.id) membership_write
        × (validate_role role ≡ ok tt)
        × (find (λ u. str_eq u.email (normalize_email env.lower_rune email)) w.db.users ≡ some user)
        × (exists (is_member org.id user.id) w.db.memberships ≡ false)
        × (v.db.memberships
            ≡ w.db.memberships ++ new_membership org.id user.id role w.now w.db.next_id ∷ [])
  unfolding add_membership get_user_by_email called
  add_membership-ok principal slug email role w e =
      let address = normalize_email env.lower_rune email in
      using (authorized_step env s _ principal slug membership_write w e)
        λ (org, found, holder, r1).
          using (guard_step _ _ (env.parse_address address) (invalid "invalid email") r1) λ (_, r2).
            using (lift_step _ _ (validate_role role) r2) λ (u, valid, r3).
              using (pool_step _ _ (get_user_by_email address) (absent_user env s) r3)
                λ (user, d, got, r4).
                  using (one-ok (find (λ x. str_eq x.email address) w.db.users) w.db got)
                    λ (stored, same).
                      using
                        (transaction-ok "begin membership create tx"
                          (add_membership_body env s principal org user role) _ r4)
                        λ (v5, ran, v-is).
                          using (add_membership_body-ok principal org user role _ d refl ran)
                            λ (table, absent). (
                              org,
                              user,
                              found,
                              holder,
                              valid,
                              stored,
                              rw same at absent,
                              rw v-is (rw same at table),
                            )

  update_membership_body-ok :
      (principal : Principal) (org : Organization) (id : ℕ) (role : String) (w : World) (d : Db)
      {r : MembershipInfo} {v : World}
      → w.tx ≡ some d
      → update_membership_body env s principal org id role w ≡ (ok r, v)
      → (old : Membership) × (find (is_member org.id id) d.memberships ≡ some old)
        × (v.db.memberships ≡ update_where (is_member org.id id) (with_role role) d.memberships)
  unfolding update_membership_body get_user_by_id called
  update_membership_body-ok principal org id role w d opened e =
      using
        (tx_step _ w (update_membership_role org.id id role)
          (missing_or unauthorized "update membership role") d opened e)
        λ (m, d1, ran, r1).
          using (update_membership_role-ok org.id id role w.now d ran) λ (old, hit, _, table).
            using
              (tx_step _ _ (get_user_by_id m.user_id) (wrap "get updated membership user") d1 refl
                r1)
              λ (user, d2, got, r2).
                let entry = update_entry env s principal org user role in
                using (audit_step _ _ entry d2 refl r2) λ (log, d3, logged, r3).
                  using (commit_step _ _ (wrap "commit membership update tx") d3 refl r3) λ r4.
                    using
                      (told-db (λ t. record { user = user_info env user t; role = m.role }) user.id
                        _ r4)
                      λ end.
                        using (one-ok (find (λ u. u.id == m.user_id) d1.users) d1 got) λ (_, same).
                          (
                            old,
                            hit,
                            rw (end, audited-memberships entry w.now d2 logged, same) table,
                          )

  -- A role is changed only for a caller who may change memberships in the organization, to a valid
  -- role, of a member of that organization; no other membership changes.
  pub update_membership-ok :
      (principal : Principal) (slug raw_id role : String) (w : World) {r : MembershipInfo}
      {v : World}
      → update_membership env s principal slug raw_id role w ≡ (ok r, v)
      → (org : Organization) × (id : ℕ) × (old : Membership) × (find
            (has_slug env s slug)
            w.db.organizations
          ≡ some org)
        × Holder principal (env.uuid_string org.id) membership_write
        × (validate_role role ≡ ok tt)
        × (parse_uuid env raw_id ≡ ok id)
        × (find (is_member org.id id) w.db.memberships ≡ some old)
        × (v.db.memberships ≡ update_where (is_member org.id id) (with_role role) w.db.memberships)
  unfolding update_membership called
  update_membership-ok principal slug raw_id role w e =
      using (authorized_step env s _ principal slug membership_write w e)
        λ (org, found, holder, r1). using (lift_step _ _ (validate_role role) r1) λ (u, valid, r2).
          using (lift_step _ _ (parse_uuid env raw_id) r2) λ (id, parsed, r3).
            using
              (transaction-ok "begin membership update tx"
                (update_membership_body env s principal org id role) _ r3)
              λ (v5, ran, v-is).
                using (update_membership_body-ok principal org id role _ w.db refl ran)
                  λ (old, hit, table).
                    (org, id, old, found, holder, valid, parsed, hit, rw v-is table)
