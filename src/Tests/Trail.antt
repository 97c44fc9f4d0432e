-- ===== src/Tests/Trail.antt =====
-- The audit log of an organization, page by page.
use delta_uptime.Prelude.{◌≤◌, ◌≡◌, refl, List, [], ◌∷◌, none, some, map, length}
use delta_uptime.Errors.{Result, ok, err}
use delta_uptime.Access.{audit_read}
use delta_uptime.Database.{AuditLog, Organization}
use delta_uptime.Effects.{World}
use delta_uptime.Service.{Principal, AuditLogInfo}
use delta_uptime.Service.Authorized.{Holder, has_slug}
use delta_uptime.Service.Listing.{audit_log_info_from_model}
use delta_uptime.Service.Trail.{page_of, list_audit_logs-ok}
use delta_uptime.Tests.Sample.{env, s, w, owner}
use delta_uptime.Prelude.{find, exists, select, update_where}
use delta_uptime.Errors.{errors_is, as_pg_code, is_unique_violation}
use delta_uptime.Effects.{
  transaction, query, time_now, pure, lift, bytes_from, missing_or, on_error,
}
use delta_uptime.Text.{
  trim_space, trim_left, hex, to_lower, lower_char, split, replace_all, cut_prefix,
}
use delta_uptime.Input.{normalize_email, normalize_slug, validate_role, slug_chars}
use delta_uptime.Access.{has, lookup, permissions_for_role}
use delta_uptime.Database.Identity.{
  get_user_by_id, get_user_by_email, get_organization_by_slug, create_membership,
}
use delta_uptime.Database.Controls.{delete_user_totp_credential, list_audit_logs_by_organization}
use delta_uptime.Service.Session.{organizations_for_user}
use delta_uptime.Service.Identify.{authenticate_api_key, require_permission, scopes_to_permissions}
use delta_uptime.Service.Members.{authorized_organization, add_membership, update_membership_body}
use delta_uptime.Service.Listing.{list_audit_logs, page_limit}

abbrev value : {A : Type 0} → A → Result A → A
value a (ok b) = b
value a (err e) = a

abbrev reader : Principal
reader = record owner { permissions = ("ii", "audit:read" ∷ []) ∷ [] }

abbrev entry : AuditLog
entry = record {
  id = 10;
  organization_id = some 2;
  actor_type = "user";
  actor_user_id = some 1;
  actor_api_key_id = none;
  action = "membership.create";
  target_type = "membership";
  target_id = "i";
  metadata = [];
  occurred_at = 3;
}

-- Two entries of the organization, and one of none between them.
abbrev logged : World
logged = record w {
  db = record w.db {
    audit_logs =
        entry ∷ record entry { id = 11; organization_id = none } ∷ record entry { id = 12 } ∷ [];
  };
}

abbrev items : List AuditLogInfo
items = value [] (list_audit_logs env s reader "acme" 1000 logged).0

list_runs :
    list_audit_logs env s reader "acme" 1000 logged
    ≡ (ok items, (list_audit_logs env s reader "acme" 1000 logged).1)
unfolding find exists is_unique_violation transaction query time_now pure lift bytes_from trim_space
    to_lower lower_char split replace_all normalize_slug validate_role has lookup
    get_organization_by_slug create_membership delete_user_totp_credential
    list_audit_logs_by_organization require_permission scopes_to_permissions authorized_organization
    add_membership update_membership_body list_audit_logs
list_runs = refl

two_items : length items ≡ 2
unfolding find exists select update_where errors_is as_pg_code is_unique_violation transaction query
    time_now pure lift missing_or on_error trim_space trim_left hex to_lower replace_all cut_prefix
    normalize_email normalize_slug slug_chars has permissions_for_role get_user_by_id
    get_user_by_email get_organization_by_slug list_audit_logs_by_organization
    organizations_for_user authenticate_api_key require_permission scopes_to_permissions
    authorized_organization list_audit_logs page_limit
two_items = refl

list_audit_logs-ok_example :
    (org : Organization) × (find (has_slug env s "acme") logged.db.organizations ≡ some org)
    × Holder reader (env.uuid_string org.id) audit_read
    × (items
        ≡ map
            (audit_log_info_from_model env s)
            (page_of org.id (page_limit 1000) logged.db.audit_logs))
    × (length items ≤ 200)
list_audit_logs-ok_example = list_audit_logs-ok env s reader "acme" 1000 logged list_runs
