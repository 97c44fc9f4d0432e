-- ===== src/Service/Trail.antt =====
-- `Service.ListAuditLogs` of apps/control-plane/internal/auth/service.go: what a page of the audit
-- log holds.
use delta_uptime.Prelude.{
  ℕ, zero, suc, ◌≤◌, String, ◌≡◌, refl, sym, ap, ◌∙◌, some, List, [], ◌∷◌, map, reverse, find,
  select, take, length, arith, using,
}
use delta_uptime.Errors.{ok, wrap}
use delta_uptime.Access.{audit_read}
use delta_uptime.Database.{AuditLog}
use delta_uptime.Database.Controls.{list_audit_logs_by_organization, refers_to}
use delta_uptime.Database.{Organization}
use delta_uptime.Effects.{World, called}
use delta_uptime.Effects.Inversion.{pure-ok}
use delta_uptime.Effects.Steps.{pool_step}
use delta_uptime.Service.{Env, Service, Principal, AuditLogInfo}
use delta_uptime.Service.Authorized.{Holder, has_slug, authorized_step}
use delta_uptime.Service.Listing.{list_audit_logs, page_limit, audit_log_info_from_model}

length-map : {A B : Type 0} (f : A → B) (xs : List A) → length (map f xs) ≡ length xs
length-map f [] = refl
length-map f (x ∷ xs) = ap suc (length-map f xs)

length-take : {A : Type 0} (n : ℕ) (xs : List A) → length (take n xs) ≤ n
length-take zero xs = omega arith
length-take (suc n) [] = omega arith
length-take (suc n) (x ∷ xs) = omega (arith, length-take n xs)

page_limit-bound : (limit : ℕ) → page_limit limit ≤ 200
unfolding page_limit
page_limit-bound limit = ground arith

-- The newest entries of an organization, at most so many.
abbrev pub page_of : ℕ → ℕ → List AuditLog → List AuditLog
page_of org count logs = take count (reverse (select (λ l. refers_to org l.organization_id) logs))

module _ (env : Env) (s : Service) where
  -- A page of the audit log is given only to a caller who may read the log of the organization,
  -- holds the newest entries of that organization and of no other, newest first, and never more
  -- than 200, whatever limit was asked for.
  pub list_audit_logs-ok :
      (principal : Principal) (slug : String) (limit : ℕ) (w : World) {items : List AuditLogInfo}
      {v : World}
      → list_audit_logs env s principal slug limit w ≡ (ok items, v)
      → (org : Organization) × (find (has_slug env s slug) w.db.organizations ≡ some org)
        × Holder principal (env.uuid_string org.id) audit_read
        × (items
            ≡ map
                (audit_log_info_from_model env s)
                (page_of org.id (page_limit limit) w.db.audit_logs))
        × (length items ≤ 200)
  unfolding list_audit_logs list_audit_logs_by_organization called
  list_audit_logs-ok principal slug limit w e =
      using (authorized_step env s _ principal slug audit_read w e) λ (org, found, holder, r1).
        using
          (pool_step _ _ (list_audit_logs_by_organization org.id (page_limit limit) 0)
            (wrap "list audit logs") r1)
          λ (rows, d, got, r2).
            using (pure-ok (map (audit_log_info_from_model env s) rows) _ r2) λ (is, _).
              let page : rows ≡ page_of org.id (page_limit limit) w.db.audit_logs =
                cc (ap (λ x. x.0) (sym got)) in
              let items-are = sym is ∙ ap (map (audit_log_info_from_model env s)) page in
              let short =
                length-take (page_limit limit)
                  (reverse (select (λ l. refers_to org.id l.organization_id) w.db.audit_logs)) in
              (
                org,
                found,
                holder,
                items-are,
                rw
                    (
                      items-are,
                      length-map (audit_log_info_from_model env s)
                          (page_of org.id (page_limit limit) w.db.audit_logs),
                    )
                    (omega (arith, short, page_limit-bound limit)),
              )
