-- ===== src/Service/KeyLogin.antt =====
-- `Service.AuthenticateAPIKey` of apps/control-plane/internal/auth/service.go: which keys it lets
-- in, and as whom.
use delta_uptime.Prelude.{
  ℕ, String, ◌≡◌, refl, sym, ap, ◌∙◌, Bool, true, false, not, ◌||◌, some, List, find, str_eq, arith,
  if◌then◌else◌, Bool-cases, inl, inr, update_where, [], ◌∷◌, ==_refl,
}
use delta_uptime.Errors.{Error, ok, wrap, sentinel, api_key_invalid}
use delta_uptime.Input.{parse_api_key_prefix}
use delta_uptime.Database.{Db, ApiKey}
use delta_uptime.Database.Sessions.{is_null}
use delta_uptime.Database.Controls.{get_api_key_by_prefix, touch_api_key_last_used, key_is, touched}
use delta_uptime.Effects.{World, App, called, missing_or, raise, pure}
use delta_uptime.Effects.Inversion.{pure-ok}
use delta_uptime.Effects.Steps.{lift_runs, pool_runs, one-ok, pool_step, lift_error_step}
use delta_uptime.Service.{Env, Service, Principal}
use delta_uptime.Service.Tokens.{hash_secret}
use delta_uptime.Service.Identify.{authenticate_api_key, key_matches, key_principal}
use delta_uptime.Prelude.{using}

abbrev pub with_prefix : String → ApiKey → Bool
with_prefix prefix k = str_eq k.key_prefix prefix

pub find_other :
    {A : Type 0} (p q : A → Bool) (xs : List A) (x : A)
    → find p xs ≡ some x
    → q x ≡ true
    → (y : A) × (find q xs ≡ some y)
unfolding find
find_other p q [] x e h = cc e
find_other p q (y ∷ ys) x e h = elim (Bool-cases (q y)) [
  | inl hit ↦ (y, rw hit refl)
  | inr miss ↦ elim (Bool-cases (p y)) [
    | inl here ↦
        let same : y ≡ x = cc (rw here at e) in
        let again : q y ≡ true = rw same h in cc (sym miss ∙ again)
    | inr there ↦ let (z, found) = find_other p q ys x (rw there at e) h in (z, rw miss found)
  ]
]

else_runs :
    {A : Type 0} (b : Bool) (m n : App A) (w : World) → b ≡ false → (if b then m else n) w ≡ n w
else_runs b m n w e = rw e refl

touch_api_key_last_used-ok :
    (id now : ℕ) (d : Db) (key : ApiKey)
    → find (key_is id) d.api_keys ≡ some key
    → touch_api_key_last_used id now d ≡ (
      ok (touched now key),
      record d { api_keys = update_where (key_is id) (touched now) d.api_keys },
    )
unfolding touch_api_key_last_used
touch_api_key_last_used-ok id now d key hit = rw (hit, touch_api_key_last_used) refl

module _ (env : Env) (s : Service) where
  matching-ok :
      (b : Bool) (key : ApiKey) (e : Error) (m : App Principal) (w : World) {p : Principal}
      {v : World}
      → (if b then raise e else m) w ≡ (ok p, v)
      → (b ≡ false) × (m w ≡ (ok p, v))
  unfolding raise
  matching-ok true key e m w h = cc h
  matching-ok false key e m w h = (refl, h)

  -- An API key that is let in has the prefix of a stored key that is not revoked and whose hash it
  -- has, and it may do in its organization exactly what its scopes say, and nothing elsewhere.
  pub authenticate_api_key-ok :
      (raw : String) (w : World) {p : Principal} {v : World}
      → authenticate_api_key env s raw w ≡ (ok p, v)
      → (prefix : String) × (key : ApiKey) × (parse_api_key_prefix raw ≡ ok prefix)
        × (find (with_prefix prefix) w.db.api_keys ≡ some key)
        × (key_matches env s raw key ≡ true)
        × (p ≡ key_principal env s key)
  unfolding authenticate_api_key get_api_key_by_prefix called
  authenticate_api_key-ok raw w e =
      using (lift_error_step _ w (parse_api_key_prefix raw) (λ e'. sentinel api_key_invalid) e)
        λ (prefix, parsed, r1).
          using
            (pool_step _ w (get_api_key_by_prefix prefix) (missing_or api_key_invalid "get api key")
              r1)
            λ (key, d, got, r2).
              using (one-ok (find (with_prefix prefix) w.db.api_keys) w.db got) λ (found, same).
                using
                  (matching-ok
                    (not (is_null key.revoked_at)
                      || not (str_eq key.key_hash (hash_secret env s raw)))
                    key (sentinel api_key_invalid) _ _ r2)
                  λ (matching, r3).
                    using (pool_step _ _ (touch_api_key_last_used key.id) (wrap "touch api key") r3)
                      λ (row, d', touched, r4).
                        using (pure-ok (key_principal env s key) _ r4) λ (is, end).
                          (prefix, key, parsed, found, ground (arith, matching), sym is)

  -- A text is let in, as the principal of its key, whenever its prefix finds an active key whose
  -- hash it has and no call to the database fails.
  pub authenticate_api_key-lets_in :
      (raw prefix : String) (key : ApiKey) (w : World)
      → w.faults ≡ []
      → parse_api_key_prefix raw ≡ ok prefix
      → find (with_prefix prefix) w.db.api_keys ≡ some key
      → key_matches env s raw key ≡ true
      → (authenticate_api_key env s raw w).0 ≡ ok (key_principal env s key)
  unfolding authenticate_api_key get_api_key_by_prefix pure
  authenticate_api_key-lets_in raw prefix key w sound parsed found matches =
      using
        (find_other (with_prefix prefix) (key_is key.id) w.db.api_keys key found (==_refl key.id))
        λ (row, hit).
          let failed =
            not (is_null key.revoked_at) || not (str_eq key.key_hash (hash_secret env s raw)) in
          let passed : failed ≡ false = ground (arith, matches) in
          let got : get_api_key_by_prefix prefix w.now w.db ≡ (ok key, w.db) =
            rw (found, get_api_key_by_prefix) refl in
          ap (λ x. x.0)
            (lift_runs _ w (parse_api_key_prefix raw) (λ e. sentinel api_key_invalid) parsed
              ∙ pool_runs _ w (get_api_key_by_prefix prefix)
                  (missing_or api_key_invalid "get api key") sound got
              ∙ else_runs failed (raise (sentinel api_key_invalid)) _ w passed
              ∙ pool_runs _ w (touch_api_key_last_used key.id) (wrap "touch api key") sound
                  (touch_api_key_last_used-ok key.id w.now w.db row hit))
