-- ===== src/Http/Maintains.antt =====
-- Every handler maintains what every statement keeps.
use delta_uptime.Prelude.{ℕ, String, List, Option, none, some}
use delta_uptime.Errors.{Result, ok, err}
use delta_uptime.Database.{Db}
use delta_uptime.Effects.{App}
use delta_uptime.Effects.Keeps.{Maintains, maintains_rules}
use delta_uptime.Service.{Env, Service, Principal, LoginInput}
use delta_uptime.Input.{RegisterInput}
use delta_uptime.Service.Stable.{Stable}
use delta_uptime.Service.Reading.{
  authenticate_access_token-Maintains, organizations_for_principal-Maintains, me-Maintains,
  get_organization-Maintains, list_memberships-Maintains, list_api_keys-Maintains,
  list_audit_logs-Maintains,
}
use delta_uptime.Service.Maintains.{
  register-Maintains, login-Maintains, refresh-Maintains, authenticate_api_key-Maintains,
  setup_totp-Maintains, enable_totp-Maintains, disable_totp-Maintains, add_membership-Maintains,
  update_membership-Maintains, create_api_key-Maintains, revoke_api_key-Maintains,
}
use delta_uptime.Http.{
  Reply, Headers, answer, with_body, with_caller, given, admitted, authenticate_principal,
  authenticate_user, by_token, me_by, list_page, handle_register, handle_login, handle_refresh,
  handle_me, handle_totp_setup, handle_totp_enable, handle_totp_disable, handle_organizations,
  handle_organization, handle_list_memberships, handle_create_membership, handle_update_membership,
  handle_list_api_keys, handle_create_api_key, handle_revoke_api_key, handle_list_audit_logs,
}

module _ {P : Db → Type 0} where
  pub Maintains-answer :
      {A : Type 0} (status : ℕ) (m : App A) → Maintains P m → Maintains P (answer status m)
  unfolding answer
  Maintains-answer status m k = search maintains_rules

module _ {P : Db → Type 0} {A B : Type 0} where
  pub given-Maintains :
      (k : A → App (Reply B)) (r : Result A)
      → ((a : A) → Maintains P (k a))
      → Maintains P (given k r)
  given-Maintains k (ok a) h = h a
  given-Maintains k (err e) h = search maintains_rules

  pub admitted-Maintains :
      (k : A → App (Reply B)) (r : Result A)
      → ((a : A) → Maintains P (k a))
      → Maintains P (admitted k r)
  admitted-Maintains k (ok a) h = h a
  admitted-Maintains k (err e) h = search maintains_rules

  pub Maintains-with_body :
      (body : Result A) (k : A → App (Reply B))
      → ((a : A) → Maintains P (k a))
      → Maintains P (with_body body k)
  unfolding with_body
  Maintains-with_body body k h = given-Maintains k body h

  pub Maintains-with_caller :
      (caller : App A) (k : A → App (Reply B))
      → Maintains P caller
      → ((a : A) → Maintains P (k a))
      → Maintains P (with_caller caller k)
  unfolding with_caller
  Maintains-with_caller caller k c h = search (maintains_rules, admitted-Maintains)

pub ruleset handler_rules = (Maintains-answer, Maintains-with_body, Maintains-with_caller)

module _ (env : Env) (s : Service) {P : Db → Type 0} (st : Stable P) where
  by_token-Maintains : (token : Option String) → Maintains P (by_token env s token)
  by_token-Maintains none = search maintains_rules
  by_token-Maintains (some token) = authenticate_access_token-Maintains env s token

  authenticate_principal-Maintains :
      (headers : Headers) → Maintains P (authenticate_principal env s headers)
  unfolding authenticate_principal
  authenticate_principal-Maintains headers =
      search (maintains_rules, by_token-Maintains, authenticate_api_key-Maintains env s st)

  pub authenticate_user-Maintains :
      (headers : Headers) → Maintains P (authenticate_user env s headers)
  unfolding authenticate_user
  authenticate_user-Maintains headers = search (maintains_rules, authenticate_principal-Maintains)

  ruleset callers = (handler_rules, authenticate_principal-Maintains, authenticate_user-Maintains)

  pub handle_register-Maintains :
      (body : Result RegisterInput) → Maintains P (handle_register env s body)
  unfolding handle_register
  handle_register-Maintains body = search (handler_rules, register-Maintains env s st)

  pub handle_login-Maintains : (body : Result LoginInput) → Maintains P (handle_login env s body)
  unfolding handle_login
  handle_login-Maintains body = search (callers, login-Maintains env s st)

  pub handle_refresh-Maintains : (body : Result String) → Maintains P (handle_refresh env s body)
  unfolding handle_refresh
  handle_refresh-Maintains body = search (callers, refresh-Maintains env s st)

  me_by-Maintains : (token : Option String) → Maintains P (me_by env s token)
  me_by-Maintains none = search maintains_rules
  me_by-Maintains (some token) = search (handler_rules, me-Maintains)

  pub handle_me-Maintains : (headers : Headers) → Maintains P (handle_me env s headers)
  unfolding handle_me
  handle_me-Maintains headers = search (callers, me_by-Maintains)

  pub handle_totp_setup-Maintains :
      (headers : Headers) → Maintains P (handle_totp_setup env s headers)
  unfolding handle_totp_setup
  handle_totp_setup-Maintains headers = search (callers, setup_totp-Maintains env s st)

  pub handle_totp_enable-Maintains :
      (headers : Headers) (body : Result String)
      → Maintains P (handle_totp_enable env s headers body)
  unfolding handle_totp_enable
  handle_totp_enable-Maintains headers body = search (callers, enable_totp-Maintains env s st)

  pub handle_totp_disable-Maintains :
      (headers : Headers) (body : Result String)
      → Maintains P (handle_totp_disable env s headers body)
  unfolding handle_totp_disable
  handle_totp_disable-Maintains headers body = search (callers, disable_totp-Maintains env s st)

  pub handle_organizations-Maintains :
      (headers : Headers) → Maintains P (handle_organizations env s headers)
  unfolding handle_organizations
  handle_organizations-Maintains headers = search (callers, organizations_for_principal-Maintains)

  pub handle_organization-Maintains :
      (headers : Headers) (slug : String) → Maintains P (handle_organization env s headers slug)
  unfolding handle_organization
  handle_organization-Maintains headers slug = search (callers, get_organization-Maintains)

  pub handle_list_memberships-Maintains :
      (headers : Headers) (slug : String) → Maintains P (handle_list_memberships env s headers slug)
  unfolding handle_list_memberships
  handle_list_memberships-Maintains headers slug = search (callers, list_memberships-Maintains)

  pub handle_create_membership-Maintains :
      (headers : Headers) (slug : String) (body : Result (String × String))
      → Maintains P (handle_create_membership env s headers slug body)
  unfolding handle_create_membership
  handle_create_membership-Maintains headers slug body =
      search (callers, add_membership-Maintains env s st)

  pub handle_update_membership-Maintains :
      (headers : Headers) (slug : String) (user_id : String) (body : Result String)
      → Maintains P (handle_update_membership env s headers slug user_id body)
  unfolding handle_update_membership
  handle_update_membership-Maintains headers slug user_id body =
      search (callers, update_membership-Maintains env s st)

  pub handle_list_api_keys-Maintains :
      (headers : Headers) (slug : String) → Maintains P (handle_list_api_keys env s headers slug)
  unfolding handle_list_api_keys
  handle_list_api_keys-Maintains headers slug = search (callers, list_api_keys-Maintains)

  pub handle_create_api_key-Maintains :
      (headers : Headers) (slug : String) (body : Result (String × List String))
      → Maintains P (handle_create_api_key env s headers slug body)
  unfolding handle_create_api_key
  handle_create_api_key-Maintains headers slug body =
      search (callers, create_api_key-Maintains env s st)

  pub handle_revoke_api_key-Maintains :
      (headers : Headers) (slug : String) (id : String)
      → Maintains P (handle_revoke_api_key env s headers slug id)
  unfolding handle_revoke_api_key
  handle_revoke_api_key-Maintains headers slug id =
      search (callers, revoke_api_key-Maintains env s st)

  list_page-Maintains :
      (principal : Principal) (slug : String) (limit : Option ℕ)
      → Maintains P (list_page env s principal slug limit)
  list_page-Maintains principal slug none = search maintains_rules
  list_page-Maintains principal slug (some limit) =
      search (handler_rules, list_audit_logs-Maintains)

  pub handle_list_audit_logs-Maintains :
      (headers : Headers) (slug : String) (raw : String)
      → Maintains P (handle_list_audit_logs env s headers slug raw)
  unfolding handle_list_audit_logs
  handle_list_audit_logs-Maintains headers slug raw = search (callers, list_page-Maintains)
