-- ===== src/Http/Callers.antt =====
-- `authenticateUser` of apps/control-plane/internal/auth/http.go: who passes for a user.
use delta_uptime.Prelude.{
  String, ◌≡◌, refl, sym, ◌∙◌, true, false, Option, none, some, str_eq, if◌then◌else◌, Bool-cases,
  inl, inr, using,
}
use delta_uptime.Errors.{ok, sentinel, unauthorized}
use delta_uptime.Text.{trim_space}
use delta_uptime.Effects.{World, pure, raise}
use delta_uptime.Effects.Inversion.{bind-ok, pure-ok}
use delta_uptime.Service.{Env, Service, Principal, principal_user}
use delta_uptime.Service.Identify.{authenticate_access_token, authenticate_api_key}
use delta_uptime.Service.KeyLogin.{authenticate_api_key-ok}
use delta_uptime.Http.{Headers, bearer_token, by_token, authenticate_principal, authenticate_user}

module _ (env : Env) (s : Service) where
  typed-ok :
      (p : Principal) (w : World) {q : Principal} {v : World}
      → (if str_eq p.type principal_user then pure p else raise (sentinel unauthorized)) w
        ≡ (ok q, v)
      → (str_eq p.type principal_user ≡ true) × (p ≡ q) × (v ≡ w)
  unfolding raise
  typed-ok p w e = elim (Bool-cases (str_eq p.type principal_user)) [
    | inl is_user ↦ let (same, end) = pure-ok p w (rw is_user at e) in (is_user, same, end)
    | inr other ↦ cc (rw other at e)
  ]

  by_token-ok :
      (token : Option String) (w : World) {p : Principal} {v : World}
      → by_token env s token w ≡ (ok p, v)
      → (t : String) × (token ≡ some t) × (authenticate_access_token env s t w ≡ (ok p, v))
  unfolding raise
  by_token-ok none w e = cc e
  by_token-ok (some t) w e = (t, refl, e)

  -- A key's principal is no user.
  key_no_user :
      (raw : String) (w : World) {p : Principal} {v : World}
      → authenticate_api_key env s raw w ≡ (ok p, v)
      → str_eq p.type principal_user ≡ false
  key_no_user raw w e =
      using (authenticate_api_key-ok env s raw w e) λ (_, key, _, _, _, is). rw is refl

  -- A request passes for a user's only by an access token: it has no API key, but a bearer token
  -- that is the access token of the principal. An API key, however wide its scopes, never passes.
  pub authenticate_user-ok :
      (headers : Headers) (w : World) {p : Principal} {v : World}
      → authenticate_user env s headers w ≡ (ok p, v)
      → (token : String) × (str_eq (trim_space headers.x_api_key) "" ≡ true)
        × (bearer_token headers.authorization ≡ some token)
        × (authenticate_access_token env s token w ≡ (ok p, v))
        × (str_eq p.type principal_user ≡ true)
  unfolding authenticate_user authenticate_principal
  authenticate_user-ok headers w e =
      using (bind-ok (authenticate_principal env s headers) _ w e) λ (q, v1, e1, r1).
        using (typed-ok q v1 r1) λ (is_user, same, end).
          elim (Bool-cases (str_eq (trim_space headers.x_api_key) "")) [
            | inr keyed ↦
                let no_user = key_no_user (trim_space headers.x_api_key) w (rw keyed at e1) in
                cc (sym is_user ∙ no_user)
            | inl bare ↦
                using (by_token-ok (bearer_token headers.authorization) w (rw bare at e1))
                  λ (token, given, accepted).
                    (token, bare, given, rw (sym same, end) accepted, rw (sym same) is_user)
          ]
