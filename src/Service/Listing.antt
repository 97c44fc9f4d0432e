-- ===== src/Service/Listing.antt =====
-- apps/control-plane/internal/auth/service.go: the audit log of an organization.
use delta_uptime.Prelude.{ℕ, String, ◌||◌, List, ◌==◌, ltb, if◌then◌else◌, map}
use delta_uptime.Errors.{wrap}
use delta_uptime.Access.{audit_read}
use delta_uptime.Database.{AuditLog}
use delta_uptime.Database.Controls.{list_audit_logs_by_organization}
use delta_uptime.Effects.{App, pool, pure, on_error, ◌>>=◌, query}
use delta_uptime.Service.{Env, Service, Principal, AuditLogInfo}
use delta_uptime.Service.Members.{authorized_organization}
use delta_uptime.Service.Keys.{id_text}

-- The limit of a page. A negative `int32` is given as 0, which is answered alike.
unfoldable pub page_limit : ℕ → ℕ
page_limit limit = if limit == 0 || ltb 200 limit then 100 else limit

module _ (env : Env) (s : Service) where
  abbrev pub audit_log_info_from_model : AuditLog → AuditLogInfo
  audit_log_info_from_model log = record {
    id = env.uuid_string log.id;
    actor_type = log.actor_type;
    actor_user_id = id_text env.uuid_string log.actor_user_id;
    actor_api_key_id = id_text env.uuid_string log.actor_api_key_id;
    action = log.action;
    target_type = log.target_type;
    target_id = log.target_id;
    metadata = log.metadata;
    occurred_at = log.occurred_at;
  }

  unfoldable pub list_audit_logs : Principal → String → ℕ → App (List AuditLogInfo)
  list_audit_logs principal slug limit = do
    org ← authorized_organization env s principal slug audit_read
    rows ←
        on_error (query pool (list_audit_logs_by_organization org.id (page_limit limit) 0))
          (wrap "list audit logs")
    pure (map audit_log_info_from_model rows)
