-- ===== src/Tests/Members.antt =====
-- Memberships: adding one and changing a role.
use delta_uptime.Prelude.{ℕ, ◌≡◌, refl, [], ◌∷◌, ◌++◌, true, false, some, str_eq}
use delta_uptime.Errors.{Result, ok, err, wrap, fault}
use delta_uptime.Access.{membership_write}
use delta_uptime.Database.{Organization, User, Membership}
use delta_uptime.Database.Identity.{is_member, new_membership, with_role}
use delta_uptime.Effects.{World}
use delta_uptime.Service.{MembershipInfo}
use delta_uptime.Service.Authorized.{Holder, has_slug}
use delta_uptime.Service.Joining.{add_membership-ok, update_membership-ok}
use delta_uptime.Tests.Sample.{env, s, w, owner}
use delta_uptime.Prelude.{find, exists, select, update_where}
use delta_uptime.Errors.{errors_is, as_pg_code, is_unique_violation}
use delta_uptime.Effects.{
  transaction, query, time_now, pure, lift, attempt, begin, bytes_from, called, commit,
  deferring_rollback, missing_or, on_error, outside, raise, rand_read, run, ◌>>=◌,
}
use delta_uptime.Text.{trim_space, trim_left, to_lower, lower_char, split, replace_all, cut_prefix}
use delta_uptime.Text.Base64.{raw_url_encode}
use delta_uptime.Input.{
  normalize_email, normalize_slug, validate_role, validate_scopes, validate_slug, slug_chars,
}
use delta_uptime.Access.{has, lookup, insert, permissions_for_role}
use delta_uptime.Database.Identity.{
  get_user_by_id, list_organizations_by_user, organizations_of, get_user_by_email,
  get_organization_by_slug, create_membership, update_membership_role, get_organization_by_id,
}
use delta_uptime.Database.Sessions.{create_auth_refresh_token, rotate_auth_refresh_token}
use delta_uptime.Database.Controls.{
  create_audit_log, get_user_totp_credential_by_user_id, create_api_key as insert_api_key,
  get_api_key_by_prefix, touch_api_key_last_used,
}
use delta_uptime.Service.Session.{
  issue_session_with_model, issue_session, audit, user_has_enabled_totp, must_uuid, parse_uuid,
}
use delta_uptime.Service.Identify.{
  principal_for_user, authenticate_api_key, require_permission, scopes_to_permissions,
}
use delta_uptime.Service.Members.{
  authorized_organization, add_membership, add_membership_body, update_membership,
  update_membership_body,
}

abbrev value : {A : Type 0} → A → Result A → A
value a (ok b) = b
value a (err e) = a

abbrev nobody : MembershipInfo
nobody = record { user = owner.user; role = "" }

abbrev joined : MembershipInfo
joined = value nobody (add_membership env s owner "acme" "bob@example.com" "viewer" w).0

abbrev with_bob : World
with_bob = (add_membership env s owner "acme" "bob@example.com" "viewer" w).1

add_runs : add_membership env s owner "acme" "bob@example.com" "viewer" w ≡ (ok joined, with_bob)
unfolding find exists select update_where errors_is as_pg_code is_unique_violation transaction query
    time_now pure lift attempt begin bytes_from called commit deferring_rollback ◌>>=◌ trim_space
    trim_left to_lower lower_char split replace_all cut_prefix raw_url_encode normalize_email
    normalize_slug validate_role has lookup insert organizations_of get_user_by_email
    get_organization_by_slug create_membership update_membership_role get_organization_by_id
    create_audit_log get_user_totp_credential_by_user_id insert_api_key get_api_key_by_prefix
    touch_api_key_last_used audit user_has_enabled_totp must_uuid parse_uuid principal_for_user
    authenticate_api_key require_permission scopes_to_permissions authorized_organization
    add_membership add_membership_body update_membership update_membership_body
add_runs = refl

add_membership-ok_example :
    (org : Organization) × (user : User) × (find (has_slug env s "acme") w.db.organizations
      ≡ some org)
    × Holder owner (env.uuid_string org.id) membership_write
    × (validate_role "viewer" ≡ ok tt)
    × (find (λ u. str_eq u.email (normalize_email env.lower_rune "bob@example.com")) w.db.users
        ≡ some user)
    × (exists (is_member org.id user.id) w.db.memberships ≡ false)
    × (with_bob.db.memberships
        ≡ w.db.memberships ++ new_membership org.id user.id "viewer" w.now w.db.next_id ∷ [])
add_membership-ok_example =
    add_membership-ok env s owner "acme" "bob@example.com" "viewer" w add_runs

abbrev changed : MembershipInfo
changed = value nobody (update_membership env s owner "acme" "i" "admin" w).0

abbrev demoted : World
demoted = (update_membership env s owner "acme" "i" "admin" w).1

update_runs : update_membership env s owner "acme" "i" "admin" w ≡ (ok changed, demoted)
unfolding find exists select is_unique_violation transaction query time_now pure lift attempt begin
    bytes_from called commit deferring_rollback ◌>>=◌ trim_space trim_left to_lower lower_char split
    replace_all cut_prefix raw_url_encode normalize_email normalize_slug validate_role has lookup
    insert permissions_for_role get_user_by_id list_organizations_by_user organizations_of
    get_user_by_email get_organization_by_slug create_membership update_membership_role
    get_organization_by_id create_audit_log get_user_totp_credential_by_user_id insert_api_key
    get_api_key_by_prefix touch_api_key_last_used audit user_has_enabled_totp must_uuid parse_uuid
    principal_for_user authenticate_api_key require_permission scopes_to_permissions
    authorized_organization add_membership add_membership_body update_membership
    update_membership_body
update_runs = refl

update_membership-ok_example :
    (org : Organization) × (id : ℕ) × (old : Membership) × (find
        (has_slug env s "acme")
        w.db.organizations
      ≡ some org)
    × Holder owner (env.uuid_string org.id) membership_write
    × (validate_role "admin" ≡ ok tt)
    × (parse_uuid env "i" ≡ ok id)
    × (find (is_member org.id id) w.db.memberships ≡ some old)
    × (demoted.db.memberships
        ≡ update_where (is_member org.id id) (with_role "admin") w.db.memberships)
update_membership-ok_example = update_membership-ok env s owner "acme" "i" "admin" w update_runs

-- The read that follows the commit fails: the caller gets an error, and the membership is there.
abbrev late : World
late = record w { faults = false ∷ false ∷ false ∷ false ∷ false ∷ false ∷ true ∷ [] }

told_failed :
    (add_membership env s owner "acme" "bob@example.com" "viewer" late).0
    ≡ err (wrap "get totp credential" (fault "query"))
unfolding find exists select update_where errors_is as_pg_code is_unique_violation transaction query
    time_now pure lift attempt begin bytes_from called commit deferring_rollback raise rand_read run
    ◌>>=◌ trim_space trim_left to_lower lower_char split replace_all cut_prefix normalize_email
    normalize_slug validate_role validate_scopes validate_slug slug_chars has lookup insert
    permissions_for_role get_user_by_email get_organization_by_slug create_membership
    create_auth_refresh_token rotate_auth_refresh_token create_audit_log issue_session_with_model
    issue_session audit user_has_enabled_totp must_uuid parse_uuid principal_for_user
    authenticate_api_key require_permission scopes_to_permissions authorized_organization
    add_membership add_membership_body update_membership update_membership_body
told_failed = refl

yet_joined :
    (add_membership env s owner "acme" "bob@example.com" "viewer" late).1.db.memberships
    ≡ with_bob.db.memberships
unfolding find exists select update_where errors_is as_pg_code is_unique_violation transaction query
    time_now pure lift attempt begin bytes_from called commit deferring_rollback missing_or on_error
    outside raise rand_read run ◌>>=◌ trim_space trim_left to_lower lower_char split replace_all
    cut_prefix normalize_email normalize_slug validate_role validate_scopes validate_slug slug_chars
    has lookup insert permissions_for_role get_user_by_email get_organization_by_slug
    create_membership create_auth_refresh_token rotate_auth_refresh_token create_audit_log
    get_user_totp_credential_by_user_id insert_api_key get_api_key_by_prefix
    issue_session_with_model issue_session audit user_has_enabled_totp must_uuid parse_uuid
    principal_for_user authenticate_api_key require_permission scopes_to_permissions
    authorized_organization add_membership add_membership_body update_membership
    update_membership_body
yet_joined = refl
