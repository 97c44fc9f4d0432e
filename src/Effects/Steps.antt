-- ===== src/Effects/Steps.antt =====
-- A method that returned, one step at a time: what the first step of a chain gave, and the rest of
-- the chain in the state that the step left.
use delta_uptime.Prelude.{
  ℕ, ◌+◌, ◌≤◌, zero, suc, length, arith, ◌≡◌, refl, sym, ap, ◌∙◌, Bool, true, false, List, [],
  Option, none, some, if◌then◌else◌, ◌⊎◌, inl, inr, Bool-cases,
}
use delta_uptime.Errors.{Error, Result, ok, err, fault}
use delta_uptime.Database.{Db, Query, one}
use delta_uptime.Effects.{
  World, rand_read, draw, bytes_from, App, pure, raise, lift, on_error, ◌>>=◌, ◌>>◌, called, pool,
  in_tx, query, commit, run, outside, fails,
}
use delta_uptime.Effects.Inversion.{
  bind-ok, on_error-ok, outside-ok, lift-ok, query_pool-ok, query_tx-ok, commit-ok,
}
use delta_uptime.Effects.Keeps.{Keeps, Holds, Maintains}

pub one-ok :
    {A : Type 0} (o : Option A) (d : Db) {a : A} {d' : Db}
    → ◌≡◌ {A = Result A × Db} (one o, d) (ok a, d')
    → (o ≡ some a) × (d' ≡ d)
one-ok none d e = cc (ap (λ x. x.0) e)
one-ok (some x) d e = (ap some (cc (ap (λ y. y.0) e)), sym (ap (λ y. y.1) e))

module _ {A B : Type 0} (f : A → App B) (w : World) {b : B} {w' : World} where
  -- A statement in the transaction.
  pub tx_step :
      (q : Query A) (g : Error → Error) (d : Db)
      → w.tx ≡ some d
      → (on_error (query in_tx q) g >>= f) w ≡ (ok b, w')
      → (a : A) × (d' : Db) × (q w.now d ≡ (ok a, d'))
        × (f a (record (called w) { tx = some d' }) ≡ (ok b, w'))
  tx_step q g d opened e =
      let (a, v, e1, rest) = bind-ok (on_error (query in_tx q) g) f w e in
      let (d0, d', opened', ran, v-is) = query_tx-ok q w (on_error-ok (query in_tx q) g w e1) in
      let same : d0 ≡ d = cc (sym opened' ∙ opened) in (a, d', rw same at ran, rw v-is at rest)

  -- The same where the working copy is not known yet.
  pub open_tx_step :
      (q : Query A) (g : Error → Error)
      → (on_error (query in_tx q) g >>= f) w ≡ (ok b, w')
      → (a : A) × (d d' : Db) × (w.tx ≡ some d)
        × (q w.now d ≡ (ok a, d'))
        × (f a (record (called w) { tx = some d' }) ≡ (ok b, w'))
  open_tx_step q g e =
      let (a, v, e1, rest) = bind-ok (on_error (query in_tx q) g) f w e in
      let (d, d', opened, ran, v-is) = query_tx-ok q w (on_error-ok (query in_tx q) g w e1) in
      (a, d, d', opened, ran, rw v-is at rest)

  -- A statement on the pool.
  pub pool_step :
      (q : Query A) (g : Error → Error)
      → (on_error (query pool q) g >>= f) w ≡ (ok b, w')
      → (a : A) × (d' : Db) × (q w.now w.db ≡ (ok a, d'))
        × (f a (record (called w) { db = d' }) ≡ (ok b, w'))
  pool_step q g e =
      let (a, v, e1, rest) = bind-ok (on_error (query pool q) g) f w e in
      let (d', ran, v-is) = query_pool-ok q w (on_error-ok (query pool q) g w e1) in
      (a, d', ran, rw v-is at rest)

  -- A pure function that may fail.
  pub lift_step :
      (r : Result A) → (lift r >>= f) w ≡ (ok b, w') → (a : A) × (r ≡ ok a) × (f a w ≡ (ok b, w'))
  lift_step r e =
      let (a, v, e1, rest) = bind-ok (lift r) f w e in
      let (same, v-is) = lift-ok r w e1 in (a, same, rw v-is at rest)

  -- The same under `on_error`.
  pub lift_error_step :
      (r : Result A) (g : Error → Error)
      → (on_error (lift r) g >>= f) w ≡ (ok b, w')
      → (a : A) × (r ≡ ok a) × (f a w ≡ (ok b, w'))
  lift_error_step r g e =
      let (a, v, e1, rest) = bind-ok (on_error (lift r) g) f w e in
      let (same, v-is) = lift-ok r w (on_error-ok (lift r) g w e1) in (a, same, rw v-is at rest)

  -- A step that keeps a property of the database.
  pub kept_step :
      {P : Db → Type 0} (m : App A)
      → Maintains P m
      → Holds P w
      → (m >>= f) w ≡ (ok b, w')
      → (a : A) × (v : World) × Holds P v × (m w ≡ (ok a, v)) × (f a v ≡ (ok b, w'))
  kept_step {P} m k h e =
      let (a, v, e1, rest) = bind-ok m f w e in
      let there : (m w).1 ≡ v = ap (λ x. x.1) e1 in (a, v, rw (sym there) (k.at w h), e1, rest)

module _ {B : Type 0} (k : App B) (w : World) {b : B} {w' : World} where
  -- A guard.
  pub guard_step :
      (c : Bool) (x : Error)
      → ((if c then pure {A = Unit {0}} tt else raise x) >> k) w ≡ (ok b, w')
      → (c ≡ true) × (k w ≡ (ok b, w'))
  unfolding pure raise ◌>>=◌
  guard_step true x e = (refl, e)
  guard_step false x e = cc e

  -- The commit installs the working copy.
  pub commit_step :
      (g : Error → Error) (d : Db)
      → w.tx ≡ some d
      → (on_error commit g >> k) w ≡ (ok b, w')
      → k (record (called w) { db = d; tx = none }) ≡ (ok b, w')
  commit_step g d opened e =
      let (u, v, e1, rest) = bind-ok (on_error commit g) (λ _. k) w e in
      let (d0, opened', v-is) = commit-ok w (on_error-ok commit g w e1) in
      let same : d0 ≡ d = cc (sym opened' ∙ opened) in rw same at (rw v-is at rest)

-- A statement that returned has kept what it keeps.
pub kept_by :
    {A : Type 0} {P : Db → Type 0} (q : Query A) (now : ℕ) (d : Db) {r : Result A} {d' : Db}
    → Keeps P q
    → q now d ≡ (r, d')
    → P d
    → P d'
kept_by q now d k e h = rw (sym (ap (λ x. x.1) e)) (k.at now d h)

-- A statement on the pool fails by itself, or gives what it gives on the committed rows.
pub query_pool-cases :
    {A : Type 0} (q : Query A) (w : World) {r : Result A} {v : World}
    → query pool q w ≡ (r, v)
    → (r ≡ err (fault "query")) ⊎ (((q w.now w.db).0 ≡ r) × (v.now ≡ w.now))
unfolding query run outside called
query_pool-cases q w e = elim (Bool-cases (fails w.faults)) [
  | inl failed ↦ inl (sym (ap (λ x. x.0) (rw failed at e)))
  | inr fine ↦ inr (ap (λ x. x.0) (rw fine at e), sym (ap (λ x. x.1.now) (rw fine at e)))
]

module _ {A B : Type 0} (f : A → App B) (w : World) where
  -- A statement on the pool that does not fail, where no call fails.
  pub pool_runs :
      (q : Query A) (g : Error → Error) {a : A} {d' : Db}
      → w.faults ≡ []
      → q w.now w.db ≡ (ok a, d')
      → (on_error (query pool q) g >>= f) w ≡ f a (record w { db = d' })
  unfolding ◌>>=◌ on_error query run outside called
  pool_runs q g {a} {d'} sound ran = rw (sound, ran) refl

  pub lift_runs :
      (r : Result A) (g : Error → Error) {a : A} → r ≡ ok a → (on_error (lift r) g >>= f) w ≡ f a w
  unfolding ◌>>=◌ on_error lift
  lift_runs r g e = rw e refl

-- Drawing random bytes leaves the database and the time alone.
pub rand_read-ok :
    (n : ℕ) (w : World) {bytes : List ℕ} {v : World}
    → rand_read n w ≡ (ok bytes, v)
    → (v.db ≡ w.db) × (v.now ≡ w.now)
unfolding rand_read draw called
rand_read-ok n w e =
    let ran = outside-ok "rand" (draw n) w e in
    (ap (λ x. x.1.db) (sym ran), ap (λ x. x.1.now) (sym ran))

-- It leaves the transaction alone too.
pub rand_read-tx :
    (n : ℕ) (w : World) {bytes : List ℕ} {v : World}
    → rand_read n w ≡ (ok bytes, v)
    → (v.tx ≡ w.tx) × (v.now ≡ w.now)
unfolding rand_read draw called
rand_read-tx n w e =
    let ran = outside-ok "rand" (draw n) w e in
    (ap (λ x. x.1.tx) (sym ran), ap (λ x. x.1.now) (sym ran))

-- Which bytes are drawn.
pub rand_read-drawn :
    (n : ℕ) (w : World) {bytes : List ℕ} {v : World}
    → rand_read n w ≡ (ok bytes, v)
    → (bytes ≡ bytes_from w.entropy w.drawn n) × (v.entropy ≡ w.entropy) × (v.drawn ≡ w.drawn + n)
unfolding rand_read draw called
rand_read-drawn n w e =
    let ran = outside-ok "rand" (draw n) w e in
    (cc (ap (λ x. x.0) ran), ap (λ x. x.1.entropy) (sym ran), ap (λ x. x.1.drawn) (sym ran))

-- Random bytes were drawn from the same stream.
abbrev pub Draws : World → World → Type 0
Draws w v = (v.entropy ≡ w.entropy) × (w.drawn ≤ v.drawn)

bytes_from-length : (entropy : ℕ → ℕ) (start n : ℕ) → length (bytes_from entropy start n) ≡ n
unfolding bytes_from
bytes_from-length entropy start zero = refl
bytes_from-length entropy start (suc n) = omega (arith, bytes_from-length entropy (suc start) n)

pub rand_read-length :
    (n : ℕ) (w : World) {bytes : List ℕ} {v : World}
    → rand_read n w ≡ (ok bytes, v)
    → length bytes ≡ n
unfolding rand_read draw called
rand_read-length n w {bytes} e =
    let ran = outside-ok "rand" (draw n) w e in
    let drawn : bytes_from w.entropy w.drawn n ≡ bytes = cc (ap (λ x. x.0) ran) in
    rw (sym drawn) (bytes_from-length w.entropy w.drawn n)
