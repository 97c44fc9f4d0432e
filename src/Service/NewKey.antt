-- ===== src/Service/NewKey.antt =====
-- `Service.CreateAPIKey` of apps/control-plane/internal/auth/service.go, and that the key it hands
-- out is one that `AuthenticateAPIKey` lets in.
use delta_uptime.Prelude.{
  ℕ, String, ◌≡◌, refl, sym, ap, ◌∙◌, Bool, true, false, ◌||◌, ◌&&◌, Option, some, List, [], ◌∷◌,
  ◌++◌, find, exists, str_eq, arith, if◌then◌else◌, Bool-cases, inl, inr, using, ◌==◌, eq_refl,
}
use delta_uptime.Prelude.Unique.{exists_left}
use delta_uptime.Errors.{ok, wrap}
use delta_uptime.Access.{api_key_write}
use delta_uptime.Text.{trim_space, hex}
use delta_uptime.Input.{validate_scopes, parse_api_key_prefix, api_key_text, invalid}
use delta_uptime.Input.Laws.{parse_api_key_prefix-api_key_text}
use delta_uptime.Database.{Db, ApiKey, Organization}
use delta_uptime.Database.Controls.{create_api_key as insert_api_key, new_key, refers}
use delta_uptime.Database.Frames.{create_audit_log_frame}
use delta_uptime.Effects.{World, called, raise, on_error, pure, rand_read}
use delta_uptime.Effects.Inversion.{bind-ok, pure-ok, transaction-ok}
use delta_uptime.Effects.Steps.{tx_step, lift_step, commit_step}
use delta_uptime.Service.{Env, Service, Principal, ApiKeyCreateResult}
use delta_uptime.Service.Tokens.{hash_secret}
use delta_uptime.Service.Session.{must_uuid}
use delta_uptime.Service.Steps.{audit_step}
use delta_uptime.Service.Identify.{
  key_matches, key_principal, authenticate_api_key, scopes_to_permissions,
}
use delta_uptime.Service.Keys.{
  create_api_key, create_key_body, create_key_entry, generate_api_key, api_key_info_from_model,
}
use delta_uptime.Service.Authorized.{Holder, has_slug, authorized_step}
use delta_uptime.Service.KeyLogin.{with_prefix, authenticate_api_key-lets_in}

module _ (now : ℕ) (d : Db) (org : ℕ) (creator : Option ℕ) (name prefix hash : String)
    (scopes : List String) where
  insert_api_key-ok :
      {key : ApiKey} {d' : Db}
      → insert_api_key org creator name prefix hash scopes now d ≡ (ok key, d')
      → (key ≡ new_key org creator name prefix hash scopes now d.next_id)
        × (d'.api_keys ≡ d.api_keys ++ key ∷ [])
        × (exists (λ k. str_eq k.key_prefix prefix || str_eq k.key_hash hash) d.api_keys ≡ false)
  unfolding insert_api_key
  insert_api_key-ok {key} e =
      elim (Bool-cases
        (exists (λ k. str_eq k.key_prefix prefix || str_eq k.key_hash hash) d.api_keys)) [
          | inl taken ↦ cc (rw (taken, insert_api_key) at e)
          | inr new ↦
              elim (Bool-cases (
                exists (λ o. o.id == org) d.organizations
                && refers (λ id u. u.id == id) creator d.users)) [
                  | inl known ↦
                      let same = rw (new, insert_api_key, known) at e in
                      let key-is : key ≡ new_key org creator name prefix hash scopes now d.next_id =
                        cc (ap (λ x. x.0) same) in
                      (key-is, rw key-is (sym (ap (λ x. x.1.api_keys) same)), new)
                  | inr unknown ↦ cc (rw (new, insert_api_key, unknown) at e)
                ]
        ]

module _ (env : Env) (s : Service) where
  generate_api_key-ok :
      (w : World) {raw prefix : String} {v : World}
      → generate_api_key env s w ≡ (ok (raw, prefix), v)
      → parse_api_key_prefix raw ≡ ok prefix
  unfolding generate_api_key
  generate_api_key-ok w e =
      using (bind-ok (on_error (rand_read 4) (wrap "generate random bytes")) _ w e)
        λ (p, v1, e1, r1).
          using (bind-ok (on_error (rand_read 18) (wrap "generate random bytes")) _ v1 r1)
            λ (q, v2, e2, r2). using (pure-ok (api_key_text p q, hex p) _ r2) λ (is, _).
              rw (sym (ap (λ x. x.0) is), sym (ap (λ x. x.1) is))
                (parse_api_key_prefix-api_key_text p q)

-- The key that a text opens, as the caller sees it.
abbrev pub Stored :
    (env : Env) (s : Service) (raw prefix : String) → ℕ → List String → List ApiKey → Type 0
Stored env s raw prefix org scopes keys =
    (key : ApiKey) × (find (with_prefix prefix) keys ≡ some key)
    × (key_matches env s raw key ≡ true)
    × (key.organization_id ≡ org)
    × (key.scopes ≡ scopes)

find-append_new :
    {A : Type 0} (p : A → Bool) (xs : List A) (x : A)
    → exists p xs ≡ false
    → p x ≡ true
    → find p (xs ++ x ∷ []) ≡ some x
unfolding find exists
find-append_new p [] x absent hit = ground (arith, hit)
find-append_new p (y ∷ ys) x absent hit = ground (arith, find-append_new p ys x, absent, hit)

module _ (env : Env) (s : Service) where
  create_key_body-ok :
      (principal : Principal) (org : Organization) (name raw prefix : String) (scopes : List String)
      (w : World) (d : Db) {r : ApiKeyCreateResult} {v : World}
      → w.tx ≡ some d
      → create_key_body env s principal org name raw prefix scopes w ≡ (ok r, v)
      → (r.token ≡ raw)
        × (r.info.prefix ≡ prefix)
        × Stored env s raw prefix org.id scopes v.db.api_keys
  unfolding create_key_body called
  create_key_body-ok principal org name raw prefix scopes w d opened e =
      let creator = must_uuid env principal.user.id in
      let hash = hash_secret env s raw in
      using
        (tx_step _ w (insert_api_key org.id creator name prefix hash scopes) (wrap "create api key")
          d opened e)
        λ (row, d1, ran, r1).
          using (insert_api_key-ok w.now d org.id creator name prefix hash scopes ran)
            λ (row-is, table, new).
              using (audit_step _ _ (create_key_entry env s principal org row) d1 refl r1)
                λ (log, d2, logged, r2).
                  using (commit_step _ _ (wrap "commit api key create tx") d2 refl r2) λ r3.
                    using
                      (pure-ok (record { info = api_key_info_from_model env s row; token = raw }) _
                        r3)
                      λ (is, end).
                        let row' = new_key org.id creator name prefix hash scopes w.now d.next_id in
                        let kept =
                          ap (λ x. x.1.api_keys) (sym logged)
                          ∙ ap (λ x. x.api_keys)
                              (create_audit_log_frame w.now d1
                                (create_key_entry env s principal org row)) in
                        let absent =
                          exists_left (with_prefix prefix) (λ k. str_eq k.key_hash hash) d.api_keys
                            new in
                        let found : find (with_prefix prefix) d1.api_keys ≡ some row' =
                          rw (table, row-is)
                            (find-append_new (with_prefix prefix) d.api_keys row' absent
                              (eq_refl prefix)) in
                        (
                          ap (λ x. x.token) (sym is),
                          ap (λ x. x.info.prefix) (sym is) ∙ ap (λ k. k.key_prefix) row-is,
                          (row', rw (end, kept) found, eq_refl hash, refl, refl),
                        )

  -- An API key is created only for a caller who may write API keys in the organization, and only
  -- with scopes that validate; and the token that is handed out is the text of an active key of
  -- that organization with exactly these scopes, which its own prefix finds.
  pub create_api_key-ok :
      (principal : Principal) (slug name : String) (scopes : List String) (w : World)
      {r : ApiKeyCreateResult} {v : World}
      → create_api_key env s principal slug name scopes w ≡ (ok r, v)
      → (org : Organization) × (valid : List String) × (find
            (has_slug env s slug)
            w.db.organizations
          ≡ some org)
        × Holder principal (env.uuid_string org.id) api_key_write
        × (validate_scopes scopes ≡ ok valid)
        × (parse_api_key_prefix r.token ≡ ok r.info.prefix)
        × Stored env s r.token r.info.prefix org.id valid v.db.api_keys
  unfolding create_api_key called
  create_api_key-ok principal slug name scopes w e =
      using (authorized_step env s _ principal slug api_key_write w e) λ (org, found, holder, r1).
        using (lift_step _ _ (validate_scopes scopes) r1) λ (valid, checked, r2).
          using
            (bind-ok
              (if str_eq (trim_space name) ""
                then raise (invalid "api key name is required")
                else pure tt)
              _ _ r2)
            λ (u, v1, e3, r3). using (bind-ok (generate_api_key env s) _ _ r3) λ (pair, v2, e4, r4).
              using (generate_api_key-ok env s v1 e4) λ parsed.
                using
                  (transaction-ok "begin api key create tx"
                    (create_key_body env s principal org (trim_space name) pair.0 pair.1 valid) _
                    r4)
                  λ (v5, ran, v-is).
                    using
                      (create_key_body-ok principal org (trim_space name) pair.0 pair.1 valid _
                        v2.db refl ran)
                      λ (token, prefix, stored). (
                        org,
                        valid,
                        found,
                        holder,
                        checked,
                        rw (token, prefix) parsed,
                        rw (v-is, token, prefix) stored,
                      )

  -- A new API key works: in the state that its creation leaves, when no call to the database fails,
  -- the handed out token is let in, as a principal with exactly the validated scopes in exactly the
  -- organization.
  pub create_api_key-authenticate :
      (principal : Principal) (slug name : String) (scopes : List String) (w : World)
      {r : ApiKeyCreateResult} {v : World}
      → create_api_key env s principal slug name scopes w ≡ (ok r, v)
      → v.faults ≡ []
      → (p : Principal) × (org : Organization) × (valid : List String) × ((authenticate_api_key env
            s r.token v).0
          ≡ ok p)
        × (validate_scopes scopes ≡ ok valid)
        × (find (has_slug env s slug) w.db.organizations ≡ some org)
        × (p.permissions ≡ (env.uuid_string org.id, scopes_to_permissions valid) ∷ [])
  create_api_key-authenticate principal slug name scopes w {r} {v} e sound =
      using (create_api_key-ok principal slug name scopes w e)
        λ (org, valid, found, _, checked, parsed, kept).
          let (key, stored, matches, own, scoped) = kept in
          (
            key_principal env s key,
            org,
            valid,
            authenticate_api_key-lets_in env s r.token r.info.prefix key v sound parsed stored
                matches,
            checked,
            found,
            rw (own, scoped) refl,
          )
