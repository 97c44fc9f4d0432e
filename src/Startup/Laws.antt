-- ===== src/Startup/Laws.antt =====
-- What a server that was started is set up with.
use delta_uptime.Prelude.{
  ℕ, ◌<◌, String, ◌≡◌, refl, true, false, Option, none, some, List, length, ◌==◌, str_eq, arith,
  Bool-cases, inl, inr, sym, ap, ◌⊎◌, using,
}
use delta_uptime.Errors.{Error, Result, ok, err, wrap}
use delta_uptime.Config.{Config, load}
use delta_uptime.Config.Laws.{OwnSecrets, load-ok}
use delta_uptime.Text.{trim_space}
use delta_uptime.Text.Base64.Padded.{std_decode}
use delta_uptime.Webauthn.{Webauthn}
use delta_uptime.Service.{Service}
use delta_uptime.Service.Tokens.{new_token_manager}
use delta_uptime.Service.Passkeys.{new_webauthn_manager}
use delta_uptime.Startup.{
  Outside, HttpServer, after, as_is, key_or_digest, normalize_master_key, new_secrets_manager,
  new_service, service_of, open_store, with_auth, server_for, run_api,
}

after-ok :
    {A B : Type 0} (r : Result A) (f : Error → Error) (g : A → Result B) {b : B}
    → after r f g ≡ ok b
    → (a : A) × (r ≡ ok a) × (g a ≡ ok b)
after-ok (ok a) f g e = (a, refl, e)
after-ok (err x) f g e = cc e

new_token_manager-ok :
    (access_secret refresh_secret : String) (access_ttl refresh_ttl : ℕ) {x : Unit {0}}
    → new_token_manager access_secret refresh_secret access_ttl refresh_ttl ≡ ok x
    → (str_eq access_secret "" ≡ false) × (str_eq refresh_secret "" ≡ false)
unfolding new_token_manager
new_token_manager-ok access_secret refresh_secret access_ttl refresh_ttl e = ground (arith, e)

module _ (o : Outside) where
  -- What SHA-256 promises.
  abbrev pub DigestsTo32 : Type 0
  DigestsTo32 = (bytes : List ℕ) → length (o.sha256 bytes) ≡ 32

  length-normalize_master_key :
      DigestsTo32 → (raw : String) → length (normalize_master_key o raw) ≡ 32
  unfolding normalize_master_key
  length-normalize_master_key digests raw = at (trim_space raw) (std_decode (trim_space raw))
    where
      at : (t : String) (d : Option (List ℕ)) → length (key_or_digest o t d) ≡ 32
      at t none = digests _
      at t (some decoded) = elim (Bool-cases (length decoded == 32)) [
        | inl fits ↦ rw fits (ground (arith, fits))
        | inr other ↦ rw other (digests _)
      ]

  new_secrets_manager-ok :
      (raw : String) {key : List ℕ}
      → new_secrets_manager o raw ≡ ok key
      → (str_eq (trim_space raw) "" ≡ false) × (key ≡ normalize_master_key o raw)
  unfolding new_secrets_manager
  new_secrets_manager-ok raw e = ground (arith, e)

  -- How a service is set up from a configuration.
  abbrev pub SetUp : Config → Service → Type 0
  SetUp cfg service =
      (service.access_secret ≡ cfg.jwt_access_secret)
      × (service.refresh_secret ≡ cfg.jwt_refresh_secret)
      × (str_eq service.access_secret "" ≡ false)
      × (str_eq service.refresh_secret "" ≡ false)
      × (service.access_ttl ≡ cfg.access_token_ttl)
      × (service.refresh_ttl ≡ cfg.refresh_token_ttl)
      × (str_eq (trim_space cfg.secrets_master_key) "" ≡ false)
      × (length service.secrets_key ≡ 32)

  new_service-ok :
      DigestsTo32
      → (cfg : Config) {service : Service} {library : Webauthn}
      → new_service o cfg ≡ ok (service, library)
      → SetUp cfg service
  unfolding new_service
  new_service-ok digests cfg {service} e =
      using
        (after-ok
          (new_token_manager cfg.jwt_access_secret cfg.jwt_refresh_secret cfg.access_token_ttl
            cfg.refresh_token_ttl)
          as_is _ e)
        λ (_, tokens, r1).
          using
            (new_token_manager-ok cfg.jwt_access_secret cfg.jwt_refresh_secret cfg.access_token_ttl
              cfg.refresh_token_ttl tokens)
            λ (access, refresh).
              using (after-ok (new_secrets_manager o cfg.secrets_master_key) as_is _ r1)
                λ (key, secrets, r2).
                  using (new_secrets_manager-ok cfg.secrets_master_key secrets) λ (filled, key_is).
                    using
                      (after-ok
                        (new_webauthn_manager o.parse_url o.new_webauthn cfg.public_panel_url) as_is
                        _ r2)
                      λ (built, _, r3).
                        let same : service_of o cfg key ≡ service = cc r3 in
                        rw (← same) (
                          refl,
                          refl,
                          access,
                          refresh,
                          refl,
                          refl,
                          filled,
                          rw key_is (length-normalize_master_key digests cfg.secrets_master_key),
                        )

  with_auth-ok :
      DigestsTo32
      → (cfg : Config) {server : HttpServer} → with_auth o cfg ≡ ok server
      → (service : Service) × (library : Webauthn) × (server.auth ≡ some (service, library))
        × SetUp cfg service
  with_auth-ok digests cfg {server} e =
      using (after-ok (open_store o cfg.postgres_dsn) (wrap "open store") _ e) λ (_, _, r1).
        using (after-ok (new_service o cfg) (wrap "build auth service") _ r1)
          λ ((service, library), built, r2).
            let same : record { addr = cfg.http_addr; auth = some (service, library) } ≡ server =
              cc r2 in
            rw (← same) (service, library, refl, new_service-ok digests cfg built)

  -- The routes of a service that is set up from a configuration are served.
  abbrev pub ServesRoutes : Config → HttpServer → Type 0
  ServesRoutes cfg server =
      (service : Service) × (library : Webauthn) × (server.auth ≡ some (service, library))
      × SetUp cfg service
      × (0 < service.access_ttl)
      × (0 < service.refresh_ttl)
      × ((str_eq cfg.app_env "development" ≡ true) ⊎ OwnSecrets cfg)

  -- Where SHA-256 gives 32 bytes and `runAPI` comes to serving, the configuration was loaded. If it
  -- names no database, there are no routes of the service. If it names one, they are served, by a
  -- service that is set up from it, with a key of 32 bytes for the secrets, signing secrets that
  -- are not empty, positive lifetimes, and outside development no secret and no panel URL that the
  -- source gives as a default.
  pub run_api-ok :
      {server : HttpServer}
      → DigestsTo32
      → run_api o ≡ ok server
      → (cfg : Config) × (load o.lookup_env o.parse_duration ≡ ok cfg)
        × (((str_eq cfg.postgres_dsn "" ≡ true) × (server.auth ≡ none))
            ⊎ ((str_eq cfg.postgres_dsn "" ≡ false) × ServesRoutes cfg server))
  unfolding run_api
  run_api-ok digests e =
      using (after-ok (load o.lookup_env o.parse_duration) (wrap "load config") (server_for o) e)
        λ (cfg, loaded, r1). elim (Bool-cases (str_eq cfg.postgres_dsn "")) [
          | inl none_given ↦
              (cfg, loaded, inl (none_given, ap (λ x. x.auth) (sym (of_ok (rw none_given at r1)))))
          | inr given ↦
              using (with_auth-ok digests cfg (rw given at r1)) λ (service, library, is, set_up).
                using (load-ok o.lookup_env o.parse_duration loaded) λ (access, refresh, own). (
                  cfg,
                  loaded,
                  inr (
                    given,
                    (
                      service,
                      library,
                      is,
                      set_up,
                      rw (set_up.4) access,
                      rw (set_up.5) refresh,
                      own,
                    ),
                  ),
                )
        ]
    where
      of_ok : {a b : HttpServer} → ok a ≡ ok b → a ≡ b
      of_ok h = cc h
