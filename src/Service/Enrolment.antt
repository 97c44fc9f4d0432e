-- ===== src/Service/Enrolment.antt =====
-- `Service.Register` of apps/control-plane/internal/auth/service.go: what a registration leaves.
use delta_uptime.Prelude.{
  ℕ, String, ◌≡◌, refl, sym, ap, ◌∙◌, Bool, false, some, List, [], ◌∷◌, ◌++◌, exists, str_eq,
  Bool-cases, inl, inr, using,
}
use delta_uptime.Errors.{Result, ok, wrap}
use delta_uptime.Input.{RegisterInput, validate_registration_input}
use delta_uptime.Database.{Db, User, Organization, Membership}
use delta_uptime.Database.Identity.{
  create_user, create_organization, create_membership, new_user, new_organization, new_membership,
}
use delta_uptime.Database.Sessions.{create_auth_refresh_token}
use delta_uptime.Database.Frames.{
  create_user_frame, create_organization_frame, create_membership_frame,
  create_auth_refresh_token_frame, create_audit_log_frame,
}
use delta_uptime.Password.{hash_password as hash_with_salt}
use delta_uptime.Effects.{World, App, called, in_tx, on_error, rand_read, ◌>>=◌}
use delta_uptime.Effects.Inversion.{bind-ok, on_error-ok, pure-ok, transaction-ok}
use delta_uptime.Effects.Keeps.{Keeps, OfTx}
use delta_uptime.Effects.Steps.{tx_step, lift_step, commit_step, rand_read-ok}
use delta_uptime.Service.{Env, Service, AuthResult, OrganizationInfo}
use delta_uptime.Service.Session.{
  issue_session, map_create_user_error, map_create_organization_error,
}
use delta_uptime.Service.Steps.{open_audit_step}
use delta_uptime.Service.Register.{
  register, register_body, register_entry, normalize_registration, hash_password, owned,
}
use delta_uptime.Service.Joining.{create_membership-ok}
use delta_uptime.Service.Issuing.{issue_session-TxMaintains}

create_user-ok :
    (email hash name : String) (admin : Bool) (now : ℕ) (d : Db) {u : User} {d' : Db}
    → create_user email hash name admin now d ≡ (ok u, d')
    → (u ≡ new_user email hash name admin now d.next_id)
      × (d'.users ≡ d.users ++ u ∷ [])
      × (exists (λ x. str_eq x.email email) d.users ≡ false)
unfolding create_user
create_user-ok email hash name admin now d {u} e =
    elim (Bool-cases (exists (λ x. str_eq x.email email) d.users)) [
      | inl taken ↦ cc (rw (taken, create_user) at e)
      | inr free ↦
          let same = rw (free, create_user) at e in
          let is : u ≡ new_user email hash name admin now d.next_id = cc (ap (λ x. x.0) same) in
          (is, rw is (sym (ap (λ x. x.1.users) same)), free)
    ]

create_organization-ok :
    (slug name : String) (now : ℕ) (d : Db) {o : Organization} {d' : Db}
    → create_organization slug name now d ≡ (ok o, d')
    → (o ≡ new_organization slug name now d.next_id)
      × (d'.organizations ≡ d.organizations ++ o ∷ [])
      × (exists (λ x. str_eq x.slug slug) d.organizations ≡ false)
unfolding create_organization
create_organization-ok slug name now d {o} e =
    elim (Bool-cases (exists (λ x. str_eq x.slug slug) d.organizations)) [
      | inl taken ↦ cc (rw (taken, create_organization) at e)
      | inr free ↦
          let same = rw (free, create_organization) at e in
          let is : o ≡ new_organization slug name now d.next_id = cc (ap (λ x. x.0) same) in
          (is, rw is (sym (ap (λ x. x.1.organizations) same)), free)
    ]

-- A part of the database that a statement leaves alone.
untouched :
    {A B : Type 0} (part : Db → B) (ran : Result A × Db) (start : Db) {r : Result A} {d' : Db}
    → ran ≡ (r, d')
    → part ran.1 ≡ part start
    → part d' ≡ part start
untouched part ran start e same = ap (λ x. part x.1) (sym e) ∙ same

-- The tables that a registration is about are these.
abbrev Tables : List User → List Organization → List Membership → Db → Type 0
Tables users orgs members d =
    (d.users ≡ users) × (d.organizations ≡ orgs) × (d.memberships ≡ members)

-- What a registration adds to a database.
abbrev pub Enrols : RegisterInput → String → ℕ → Db → Db → Type 0
Enrols input hash now d d' =
    (user : User) × (org : Organization) × (id : ℕ) × (d'.users ≡ d.users ++ user ∷ [])
    × (d'.organizations ≡ d.organizations ++ org ∷ [])
    × (d'.memberships ≡ d.memberships ++ new_membership org.id user.id "owner" now id ∷ [])
    × (user.email ≡ input.email)
    × (user.password_hash ≡ hash)
    × (user.is_system_admin ≡ false)
    × (org.slug ≡ input.organization_slug)
    × (exists (λ x. str_eq x.email input.email) d.users ≡ false)
    × (exists (λ x. str_eq x.slug input.organization_slug) d.organizations ≡ false)

module _ (env : Env) (s : Service) where
  session_step :
      {B : Type 0} (f : AuthResult → App B) (user : User) (orgs : List OrganizationInfo) (w : World)
      (d : Db) {b : B} {v : World}
      → w.tx ≡ some d
      → (issue_session env s in_tx user orgs >>= f) w ≡ (ok b, v)
      → (r : AuthResult) × (v1 : World) × OfTx (Tables d.users d.organizations d.memberships) v1.tx
        × (f r v1 ≡ (ok b, v))
  session_step f user orgs w d opened e =
      let P = Tables d.users d.organizations d.memberships in
      using (bind-ok (issue_session env s in_tx user orgs) f w e) λ (r, v1, e1, rest).
        let keeps : (u : ℕ) (h : String) (x : ℕ) → Keeps P (create_auth_refresh_token u h x) =
          λ u h x. record { at = λ now y p. rw (create_auth_refresh_token_frame now y u h x) p } in
        let start : OfTx P w.tx = rw opened (refl, refl, refl) in
        let kept = (issue_session-TxMaintains env s {P = P} keeps user orgs).at w start in
        (r, v1, rw (sym (ap (λ x. x.1) e1)) kept, rest)

  register_body-ok :
      (input : RegisterInput) (hash : String) (w : World) (d : Db) {r : AuthResult} {v : World}
      → w.tx ≡ some d
      → register_body env s input hash w ≡ (ok r, v)
      → Enrols input hash w.now d v.db
  unfolding register_body called
  register_body-ok input hash w d opened e =
      using
        (tx_step _ w (create_user input.email hash input.display_name false) map_create_user_error d
          opened e)
        λ (user, d1, e1, r1).
          using (create_user-ok input.email hash input.display_name false w.now d e1)
            λ (user-is, users, free).
              using
                (tx_step _ _ (create_organization input.organization_slug input.organization_name)
                  map_create_organization_error d1 refl r1)
                λ (org, d2, e2, r2).
                  using
                    (create_organization-ok input.organization_slug input.organization_name w.now d1
                      e2)
                    λ (org-is, orgs, unused).
                      using
                        (tx_step _ _ (create_membership org.id user.id "owner")
                          (wrap "create owner membership") d2 refl r2)
                        λ (m, d3, e3, r3).
                          using (create_membership-ok org.id user.id "owner" w.now d2 e3)
                            λ (members, _).
                              using (session_step _ user (owned env s org ∷ []) _ d3 refl r3)
                                λ (result, v4, kept, r4).
                                  using (open_audit_step _ v4 (register_entry env s user org) r4)
                                    λ (log, d4, d5, opened4, e5, r5).
                                      using (commit_step _ _ (wrap "commit register tx") d5 refl r5)
                                        λ r6. using (pure-ok result _ r6) λ (_, end).
                                          let f1 =
                                            create_user_frame w.now d input.email hash
                                              input.display_name false in
                                          let f2 =
                                            create_organization_frame w.now d1
                                              input.organization_slug input.organization_name in
                                          let f3 =
                                            create_membership_frame w.now d2 org.id user.id
                                              "owner" in
                                          let f5 =
                                            create_audit_log_frame v4.now d4
                                              (register_entry env s user org) in
                                          let o1 =
                                            untouched (λ x. x.organizations) _ d e1
                                              (ap (λ x. x.organizations) f1) in
                                          let m1 =
                                            untouched (λ x. x.memberships) _ d e1
                                              (ap (λ x. x.memberships) f1) in
                                          let u2 =
                                            untouched (λ x. x.users) _ d1 e2
                                              (ap (λ x. x.users) f2) in
                                          let m2 =
                                            untouched (λ x. x.memberships) _ d1 e2
                                              (ap (λ x. x.memberships) f2) in
                                          let u3 =
                                            untouched (λ x. x.users) _ d2 e3
                                              (ap (λ x. x.users) f3) in
                                          let o3 =
                                            untouched (λ x. x.organizations) _ d2 e3
                                              (ap (λ x. x.organizations) f3) in
                                          let (u4, o4, m4) = rw opened4 at kept in
                                          let u5 =
                                            untouched (λ x. x.users) _ d4 e5
                                              (ap (λ x. x.users) f5) in
                                          let o5 =
                                            untouched (λ x. x.organizations) _ d4 e5
                                              (ap (λ x. x.organizations) f5) in
                                          let m5 =
                                            untouched (λ x. x.memberships) _ d4 e5
                                              (ap (λ x. x.memberships) f5) in
                                          (
                                            user,
                                            org,
                                            d2.next_id,
                                            ap (λ x. x.db.users) end
                                                ∙ (u5 ∙ (u4 ∙ (u3 ∙ (u2 ∙ users)))),
                                            ap (λ x. x.db.organizations) end
                                                ∙ (o5
                                                    ∙ (o4
                                                        ∙ (o3
                                                            ∙ (orgs
                                                            ∙ ap (λ l. l ++ org ∷ []) o1)))),
                                            ap (λ x. x.db.memberships) end
                                                ∙ (m5
                                                    ∙ (m4
                                                        ∙ (members
                                                            ∙ ap
                                                            (λ l.
                                                            l
                                                            ++ new_membership org.id user.id "owner"
                                                            w.now d2.next_id
                                                            ∷ [])
                                                            (m2 ∙ m1)))),
                                            ap (λ u. u.email) user-is,
                                            ap (λ u. u.password_hash) user-is,
                                            ap (λ u. u.is_system_admin) user-is,
                                            ap (λ o. o.slug) org-is,
                                            free,
                                            rw o1 at unused,
                                          )

  hash_password-ok :
      (password : String) (w : World) {hash : String} {v : World}
      → hash_password env s password w ≡ (ok hash, v)
      → (salt : List ℕ) × (hash ≡ hash_with_salt env.id_key password salt)
        × (v.db ≡ w.db)
        × (v.now ≡ w.now)
  unfolding hash_password
  hash_password-ok password w e =
      using (bind-ok (on_error (rand_read 16) (wrap "generate salt")) _ w e) λ (salt, v1, e1, r1).
        using (rand_read-ok 16 w (on_error-ok (rand_read 16) (wrap "generate salt") w e1))
          λ (same_db, same_now).
            using (pure-ok (hash_with_salt env.id_key password salt) v1 r1) λ (is, end).
              (salt, sym is, ap (λ x. x.db) end ∙ same_db, ap (λ x. x.now) end ∙ same_now)

  -- A registration that succeeds had a valid input, and adds exactly one user, who is no system
  -- administrator, with the normalized email and the hash that the hasher gave for the password,
  -- one organization with the normalized slug, and the ownership of the one by the other; neither
  -- the email nor the slug was in use.
  pub register-ok :
      (input : RegisterInput) (w : World) {r : AuthResult} {v : World}
      → register env s input w ≡ (ok r, v)
      → let clean = normalize_registration env s input in
        (salt : List ℕ) × (validate_registration_input env.parse_address clean ≡ ok tt)
        × Enrols clean (hash_with_salt env.id_key input.password salt) w.now w.db v.db
  unfolding register normalize_registration called
  register-ok input w e =
      let clean = normalize_registration env s input in
      using (lift_step _ w (validate_registration_input env.parse_address clean) e)
        λ (u, valid, r1).
          using
            (bind-ok (on_error (hash_password env s clean.password) (wrap "hash password")) _ w r1)
            λ (hash, v2, e2, r2).
              using
                (hash_password-ok input.password w
                  (on_error-ok (hash_password env s clean.password) (wrap "hash password") w e2))
                λ (salt, is, same_db, same_now).
                  using (transaction-ok "begin tx" (register_body env s clean hash) v2 r2)
                    λ (v3, ran, v-is).
                      let added = register_body-ok clean hash _ v2.db refl ran in
                      (salt, valid, rw v-is (rw (same_db, same_now, is) at added))
