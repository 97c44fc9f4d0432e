-- ===== src/History/Revocation.antt =====
-- `Service.RevokeAPIKey` of apps/control-plane/internal/auth/service.go: a revoked key opens
-- nothing, ever again.
use delta_uptime.Prelude.{
  ℕ, String, ◌≡◌, ◌≢◌, refl, sym, ap, ◌∙◌, true, false, none, some, List, find, arith, find_sound,
  Option-cases, inl, inr, using, update_where, find-update_where_hit, ◌==◌, ==_iff,
}
use delta_uptime.Prelude.Unique.{find-DistinctBy}
use delta_uptime.Database.Frames.{create_audit_log_frame}
use delta_uptime.Errors.{Result, ok, wrap, sentinel, unauthorized}
use delta_uptime.Access.{api_key_write}
use delta_uptime.Input.{parse_api_key_prefix}
use delta_uptime.Database.{Db, AuditLog, ApiKey, Organization}
use delta_uptime.Database.Sessions.{is_null}
use delta_uptime.Database.Controls.{
  revoke_api_key as revoke_row, create_audit_log, AuditParams, is_active_key, revoked_key,
}
use delta_uptime.Effects.{World, called, missing_or}
use delta_uptime.Effects.Inversion.{pure-ok, transaction-ok}
use delta_uptime.Effects.Steps.{tx_step, guard_step, lift_step, commit_step, kept_by}
use delta_uptime.Service.{Env, Service, Principal, ApiKeyInfo}
use delta_uptime.Service.Session.{parse_uuid, scanned}
use delta_uptime.Service.Steps.{audit_step}
use delta_uptime.Service.Identify.{authenticate_api_key, key_matches}
use delta_uptime.Service.Keys.{
  revoke_api_key, revoke_key_body, revoke_entry, api_key_info_from_model,
}
use delta_uptime.Service.Authorized.{Holder, has_slug, authorized_step}
use delta_uptime.Service.KeyLogin.{authenticate_api_key-ok}
use delta_uptime.Server.{Reach}
use delta_uptime.History.Reach.{Reach-Holds}
use delta_uptime.History.Keys.{IsRevoked, IsRevoked-Stable, has_prefix}
use delta_uptime.History.Columns.{DistinctPrefixes}

-- The row that a revocation returns, and the table after it.
revoke_row-ok :
    (id now : ℕ) (d : Db) {row : ApiKey} {d' : Db}
    → revoke_row id now d ≡ (ok row, d')
    → (key : ApiKey) × (find (is_active_key id) d.api_keys ≡ some key)
      × (row ≡ revoked_key now key)
      × (d'.api_keys ≡ update_where (is_active_key id) (revoked_key now) d.api_keys)
unfolding revoke_row
revoke_row-ok id now d e = elim (Option-cases (find (is_active_key id) d.api_keys)) [
  | inl absent ↦ cc (rw (absent, revoke_row) at e)
  | inr (key, hit) ↦
      let same = rw (hit, revoke_row) at e in
      (key, hit, cc (ap (λ x. x.0) same), ap (λ x. x.1.api_keys) (sym same))
]

update_where-IsRevoked :
    (id now : ℕ) (keys : List ApiKey) (key : ApiKey)
    → DistinctPrefixes keys
    → find (is_active_key id) keys ≡ some key
    → IsRevoked key.key_prefix (update_where (is_active_key id) (revoked_key now) keys)
update_where-IsRevoked id now keys key distinct hit = (
  revoked_key now key,
  find-update_where_hit (has_prefix key.key_prefix) (is_active_key id) (revoked_key now) keys key
      (λ k. refl) (find-DistinctBy (λ k. k.key_prefix) (is_active_key id) keys key distinct hit)
      (find_sound (is_active_key id) keys key hit),
  refl,
)

audited-keys :
    (entry : AuditParams) (now : ℕ) (d : Db) {r : Result AuditLog} {d' : Db}
    → create_audit_log entry now d ≡ (r, d')
    → d'.api_keys ≡ d.api_keys
audited-keys entry now d e =
    ap (λ x. x.1.api_keys) (sym e) ∙ ap (λ x. x.api_keys) (create_audit_log_frame now d entry)

parse_uuid-ok :
    (env : Env) (raw : String) {id : ℕ} → parse_uuid env raw ≡ ok id → env.uuid_scan raw ≡ some id
unfolding parse_uuid
parse_uuid-ok env raw e = elim (Option-cases (env.uuid_scan raw)) [
  | inl absent ↦ cc (rw (absent, scanned) at e)
  | inr (n, hit) ↦ hit ∙ ap some (cc (rw hit at e))
]

module _ (env : Env) (s : Service) where
  revoke_key_body-ok :
      (principal : Principal) (org : Organization) (id : ℕ) (w : World) (d : Db) {info : ApiKeyInfo}
      {v : World}
      → w.tx ≡ some d
      → DistinctPrefixes d.api_keys
      → revoke_key_body env s principal org id w ≡ (ok info, v)
      → (key : ApiKey) × (find (is_active_key id) d.api_keys ≡ some key)
        × (key.organization_id ≡ org.id)
        × (info.prefix ≡ key.key_prefix)
        × IsRevoked key.key_prefix v.db.api_keys
        × (v.db.api_keys ≡ update_where (is_active_key id) (revoked_key w.now) d.api_keys)
        × (v.tx ≡ none)
  unfolding revoke_key_body called
  revoke_key_body-ok principal org id w d opened distinct e =
      using (tx_step _ w (revoke_row id) (missing_or unauthorized "revoke api key") d opened e)
        λ (row, d1, ran, r1). using (revoke_row-ok id w.now d ran) λ (key, hit, row-is, table).
          using (guard_step _ _ (row.organization_id == org.id) (sentinel unauthorized) r1)
            λ (own, r2).
              using (audit_step _ _ (revoke_entry env s principal org row) d1 refl r2)
                λ (log, d2, logged, r3).
                  using (commit_step _ _ (wrap "commit api key revoke tx") d2 refl r3) λ r4.
                    using (pure-ok (api_key_info_from_model env s row) _ r4) λ (is, end).
                      let revoked : IsRevoked key.key_prefix d1.api_keys =
                        rw table (update_where-IsRevoked id w.now d.api_keys key distinct hit) in
                      let kept =
                        kept_by {P = λ x. IsRevoked key.key_prefix x.api_keys}
                          (create_audit_log (revoke_entry env s principal org row)) w.now d1
                          ((IsRevoked-Stable key.key_prefix).on_create_audit_log
                            (revoke_entry env s principal org row))
                          logged revoked in
                      (
                        key,
                        hit,
                        ap (λ k. k.organization_id) (sym row-is)
                            ∙ (==_iff row.organization_id org.id).0 own,
                        ap (λ i. i.prefix) (sym is) ∙ ap (λ k. k.key_prefix) row-is,
                        rw end kept,
                        rw
                            (
                              end,
                              audited-keys (revoke_entry env s principal org row) w.now d1 logged,
                            )
                            table,
                        ap (λ x. x.tx) end,
                      )

  -- A revocation that succeeds, in a database in which no two keys share a prefix, was asked for by
  -- a caller who may write API keys in the organization of the slug, for the id of an active key of
  -- that organization. The returned prefix is that key's, the key found under it is revoked
  -- afterwards, and the table is the old one with the key of this id revoked.
  pub revoke_api_key-ok :
      (principal : Principal) (slug raw_id : String) (w : World) {info : ApiKeyInfo} {v : World}
      → DistinctPrefixes w.db.api_keys
      → revoke_api_key env s principal slug raw_id w ≡ (ok info, v)
      → (org : Organization) × (key : ApiKey) × (id : ℕ) × (find
            (has_slug env s slug)
            w.db.organizations
          ≡ some org)
        × Holder principal (env.uuid_string org.id) api_key_write
        × (env.uuid_scan raw_id ≡ some id)
        × (find (is_active_key id) w.db.api_keys ≡ some key)
        × (key.organization_id ≡ org.id)
        × (info.prefix ≡ key.key_prefix)
        × IsRevoked info.prefix v.db.api_keys
        × (v.db.api_keys ≡ update_where (is_active_key id) (revoked_key w.now) w.db.api_keys)
        × (v.tx ≡ none)
  unfolding revoke_api_key called
  revoke_api_key-ok principal slug raw_id w distinct e =
      using (authorized_step env s _ principal slug api_key_write w e) λ (org, found, holder, r1).
        using (lift_step _ _ (parse_uuid env raw_id) r1) λ (id, parsed, r2).
          using
            (transaction-ok "begin api key revoke tx" (revoke_key_body env s principal org id) _ r2)
            λ (v1, ran, v-is).
              using (revoke_key_body-ok principal org id _ w.db refl distinct ran)
                λ (key, hit, own, named, revoked, table, closed). (
                  org,
                  key,
                  id,
                  found,
                  holder,
                  parse_uuid-ok env raw_id parsed,
                  hit,
                  own,
                  named,
                  rw (v-is, named) revoked,
                  rw v-is table,
                  ap (λ x. x.tx) v-is,
                )

  revoked_not_matching :
      (raw : String) (key : ApiKey)
      → is_null key.revoked_at ≡ false
      → key_matches env s raw key ≡ true
      → ⊥
  revoked_not_matching raw key = ground arith

  IsRevoked-authenticate :
      (raw prefix : String) (u : World) {p : Principal} {x : World}
      → parse_api_key_prefix raw ≡ ok prefix
      → IsRevoked prefix u.db.api_keys
      → authenticate_api_key env s raw u ≢ (ok p, x)
  IsRevoked-authenticate raw prefix u parsed (k, known, revoked) e =
      using (authenticate_api_key-ok env s raw u e) λ (prefix', key, parsed', found, matches, _).
        let same_prefix : prefix' ≡ prefix = cc (sym parsed' ∙ parsed) in
        let same : k ≡ key = cc (sym known ∙ rw same_prefix at found) in
        revoked_not_matching raw k revoked (rw same matches)

  -- A revocation is final: after an API key was revoked, in a database in which no two keys share
  -- a prefix, no text with its prefix is let in, in any state that the server reaches from there.
  pub revoke_final :
      (principal : Principal) (slug raw_id : String) (w : World) {info : ApiKeyInfo} {v : World}
      → DistinctPrefixes w.db.api_keys
      → revoke_api_key env s principal slug raw_id w ≡ (ok info, v)
      → {u : World} → Reach env s v u
      → (raw : String) → parse_api_key_prefix raw ≡ ok info.prefix
      → {p : Principal} {x : World} → authenticate_api_key env s raw u ≢ (ok p, x)
  revoke_final principal slug raw_id w {info} distinct e {u} run raw parsed =
      using (revoke_api_key-ok principal slug raw_id w distinct e)
        λ (_, _, _, _, _, _, _, _, _, revoked, _, closed).
          using (Reach-Holds env s (IsRevoked-Stable info.prefix) run (revoked, rw closed tt))
            λ held. IsRevoked-authenticate raw info.prefix u parsed held.0
