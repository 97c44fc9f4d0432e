-- ===== src/Http.antt =====
-- apps/control-plane/internal/auth/http.go: the handlers. A handler turns a request into a reply
-- and never fails itself. The body of a request is what the JSON decoder made of it, or its error.
pub mod Numbers
pub mod Laws
pub mod Callers
pub mod Maintains
pub mod Passkeys
pub mod PasskeyMaintains
use delta_uptime.Prelude.{
  ℕ, String, Bool, true, false, ◌||◌, not, List, Option, none, some, str_eq, if◌then◌else◌,
}
use delta_uptime.Errors.{
  Error, Result, ok, err, sentinel, errors_is, message, invalid_input, email_taken,
  organization_slug_taken, membership_exists, permission_denied, invalid_credentials,
  refresh_token_invalid, unauthorized, api_key_invalid, totp_required, totp_invalid,
}
use delta_uptime.Text.{trim_space, cut_prefix}
use delta_uptime.Input.{RegisterInput}
use delta_uptime.Effects.{App, pure, raise, attempt, ◌>>=◌}
use delta_uptime.Service.{
  Env, Service, Principal, LoginInput, AuthResult, UserInfo, OrganizationInfo, MembershipInfo,
  ApiKeyInfo, ApiKeyCreateResult, AuditLogInfo, TotpSetup, principal_user,
}
use delta_uptime.Service.Register.{register}
use delta_uptime.Service.Login.{login}
use delta_uptime.Service.Refresh.{refresh}
use delta_uptime.Service.Identify.{
  me, authenticate_access_token, authenticate_api_key, organizations_for_principal,
}
use delta_uptime.Service.Totp.{setup_totp, enable_totp, disable_totp}
use delta_uptime.Service.Members.{
  get_organization, list_memberships, add_membership, update_membership,
}
use delta_uptime.Service.Keys.{create_api_key, list_api_keys, revoke_api_key}
use delta_uptime.Service.Listing.{list_audit_logs}
use Numbers.{atoi, int32}

-- `writeJSON` with a payload, or `writeError`.
pub data Reply (A : Type 0) : Type 0 where
  json : ℕ → A → Reply A
  error : ℕ → String → Reply A

-- The headers that the handlers read; a missing header is the empty text.
pub record Headers : Type 0 where
  pub authorization : String
  pub x_api_key : String

-- The status and the text with which a service error is answered.
unfoldable pub service_error : Error → ℕ × String
service_error e =
    if errors_is e invalid_input
    then (400, message e)
    else if errors_is e email_taken
        || errors_is e organization_slug_taken
        || errors_is e membership_exists
    then (409, message e)
    else if errors_is e permission_denied
    then (403, message e)
    else if errors_is e invalid_credentials
        || errors_is e refresh_token_invalid
        || errors_is e unauthorized
        || errors_is e api_key_invalid
        || errors_is e totp_required
        || errors_is e totp_invalid
    then (401, message e)
    else (500, "internal server error")

abbrev pub write_service_error : {A : Type 0} → Error → Reply A
write_service_error e = let (status, text) = service_error e in error status text

abbrev pub reply : {A : Type 0} → ℕ → Result A → Reply A
reply status (ok a) = json status a
reply status (err e) = write_service_error e

-- Call the service and write what it returns.
unfoldable pub answer : {A : Type 0} → ℕ → App A → App (Reply A)
answer status m = do r ← attempt m; pure (reply status r)

abbrev given : {A B : Type 0} → (A → App (Reply B)) → Result A → App (Reply B)
given k (ok a) = k a
given k (err e) = pure (error 400 (message e))

abbrev admitted : {A B : Type 0} → (A → App (Reply B)) → Result A → App (Reply B)
admitted k (ok a) = k a
admitted k (err e) = pure (write_service_error e)

-- `decodeJSON` and the rest of the handler.
unfoldable pub with_body : {A B : Type 0} → Result A → (A → App (Reply B)) → App (Reply B)
with_body body k = given k body

-- The caller is found out first, and the rest of the handler runs for it.
unfoldable pub with_caller : {A B : Type 0} → App A → (A → App (Reply B)) → App (Reply B)
with_caller caller k = attempt caller >>= admitted k

abbrev nonempty : String → Option String
nonempty token = if str_eq token "" then none else some token

abbrev token_after : Option String → Option String
token_after none = none
token_after (some rest) = nonempty (trim_space rest)

unfoldable pub bearer_token : String → Option String
bearer_token header = token_after (cut_prefix header "Bearer ")

module _ (env : Env) (s : Service) where
  abbrev pub by_token : Option String → App Principal
  by_token none = raise (sentinel unauthorized)
  by_token (some token) = authenticate_access_token env s token

  unfoldable pub authenticate_principal : Headers → App Principal
  authenticate_principal headers =
      if not (str_eq (trim_space headers.x_api_key) "")
      then authenticate_api_key env s (trim_space headers.x_api_key)
      else by_token (bearer_token headers.authorization)

  unfoldable pub authenticate_user : Headers → App Principal
  authenticate_user headers = do
    principal ← authenticate_principal headers
    if str_eq principal.type principal_user then pure principal else raise (sentinel unauthorized)

  unfoldable pub handle_register : Result RegisterInput → App (Reply AuthResult)
  handle_register body = with_body body (λ req. answer 201 (register env s req))

  unfoldable pub handle_login : Result LoginInput → App (Reply AuthResult)
  handle_login body = with_body body (λ req. answer 200 (login env s req))

  unfoldable pub handle_refresh : Result String → App (Reply AuthResult)
  handle_refresh body = with_body body (λ token. answer 200 (refresh env s token))

  abbrev me_by : Option String → App (Reply AuthResult)
  me_by none = pure (error 401 "missing bearer token")
  me_by (some token) = answer 200 (me env s token)

  unfoldable pub handle_me : Headers → App (Reply AuthResult)
  handle_me headers = me_by (bearer_token headers.authorization)

  unfoldable pub handle_totp_setup : Headers → App (Reply TotpSetup)
  handle_totp_setup headers =
      with_caller (authenticate_user headers) (λ principal. answer 200 (setup_totp env s principal))

  unfoldable pub handle_totp_enable : Headers → Result String → App (Reply UserInfo)
  handle_totp_enable headers body =
      with_caller (authenticate_user headers)
        λ principal. with_body body (λ code. answer 200 (enable_totp env s principal code))

  unfoldable pub handle_totp_disable : Headers → Result String → App (Reply UserInfo)
  handle_totp_disable headers body =
      with_caller (authenticate_user headers)
        λ principal. with_body body (λ code. answer 200 (disable_totp env s principal code))

  unfoldable pub handle_organizations : Headers → App (Reply (List OrganizationInfo))
  handle_organizations headers =
      with_caller (authenticate_principal headers)
        (λ principal. answer 200 (organizations_for_principal env s principal))

  unfoldable pub handle_organization : Headers → String → App (Reply OrganizationInfo)
  handle_organization headers slug =
      with_caller (authenticate_principal headers)
        (λ principal. answer 200 (get_organization env s principal slug))

  unfoldable pub handle_list_memberships : Headers → String → App (Reply (List MembershipInfo))
  handle_list_memberships headers slug =
      with_caller (authenticate_principal headers)
        (λ principal. answer 200 (list_memberships env s principal slug))

  -- The body is the email and the role.
  unfoldable pub handle_create_membership :
      Headers → String → Result (String × String) → App (Reply MembershipInfo)
  handle_create_membership headers slug body =
      with_caller (authenticate_principal headers) λ principal.
        with_body body λ req. answer 201 (add_membership env s principal slug req.0 req.1)

  unfoldable pub handle_update_membership :
      Headers → String → String → Result String → App (Reply MembershipInfo)
  handle_update_membership headers slug user_id body =
      with_caller (authenticate_principal headers) λ principal.
        with_body body λ role. answer 200 (update_membership env s principal slug user_id role)

  unfoldable pub handle_list_api_keys : Headers → String → App (Reply (List ApiKeyInfo))
  handle_list_api_keys headers slug =
      with_caller (authenticate_principal headers)
        (λ principal. answer 200 (list_api_keys env s principal slug))

  -- The body is the name and the scopes.
  unfoldable pub handle_create_api_key :
      Headers → String → Result (String × List String) → App (Reply ApiKeyCreateResult)
  handle_create_api_key headers slug body =
      with_caller (authenticate_principal headers) λ principal.
        with_body body λ req. answer 201 (create_api_key env s principal slug req.0 req.1)

  unfoldable pub handle_revoke_api_key : Headers → String → String → App (Reply ApiKeyInfo)
  handle_revoke_api_key headers slug api_key_id =
      with_caller (authenticate_principal headers)
        (λ principal. answer 200 (revoke_api_key env s principal slug api_key_id))

  abbrev list_page : Principal → String → Option ℕ → App (Reply (List AuditLogInfo))
  list_page principal slug none = pure (error 400 "invalid limit")
  list_page principal slug (some limit) = answer 200 (list_audit_logs env s principal slug limit)

  -- The query parameter `limit`: 100 where it is empty.
  abbrev limit_of : String → Option ℕ
  limit_of raw = if str_eq raw "" then some 100 else int32 (atoi raw)

  unfoldable pub handle_list_audit_logs :
      Headers → String → String → App (Reply (List AuditLogInfo))
  handle_list_audit_logs headers slug raw =
      with_caller (authenticate_principal headers)
        (λ principal. list_page principal slug (limit_of raw))
