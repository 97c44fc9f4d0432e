-- ===== src/Effects/Inversion.antt =====
-- What each step of a method that returned has done.
use delta_uptime.Prelude.{String, ap, sym, Bool-cases, inl, inr, ◌≡◌, refl, Option, none, some}
use delta_uptime.Errors.{wrap, Error, Result, ok, err}
use delta_uptime.Database.{Db, Query}
use delta_uptime.Effects.{
  World, App, opened, committed, deferring_rollback, outside, fails, attempt, lift, replace_error,
  ◌>>=◌, on_error, continue, pool, in_tx, query, commit, pure, called, run, transaction, begin,
}

module _ {A B : Type 0} where
  continue-ok :
      (f : A → App B) (r : Result A) (w : World) {b : B} {w' : World}
      → continue f (r, w) ≡ (ok b, w')
      → (a : A) × (r ≡ ok a) × (f a w ≡ (ok b, w'))
  continue-ok f (ok a) w e = (a, refl, e)
  continue-ok f (err x) w e = cc

  -- A chain that returned: its first step returned, and so did the rest from there.
  pub bind-ok :
      (m : App A) (f : A → App B) (w : World) {b : B} {w' : World}
      → (m >>= f) w ≡ (ok b, w')
      → (a : A) × (v : World) × (m w ≡ (ok a, v)) × (f a v ≡ (ok b, w'))
  unfolding ◌>>=◌
  bind-ok m f w e =
      let (a, same, rest) = continue-ok f (m w).0 (m w).1 e in
      (a, (m w).1, λ i. (same i, (m w).1), rest)

module _ {A : Type 0} where
  replace_error-ok :
      (g : Error → Error) (r : Result A) (v : World) {a : A} {w' : World}
      → ◌≡◌ {A = Result A × World} (replace_error g r, v) (ok a, w')
      → ◌≡◌ {A = Result A × World} (r, v) (ok a, w')
  replace_error-ok g (ok b) v e = e
  replace_error-ok g (err x) v e = cc

  pub on_error-ok :
      (m : App A) (g : Error → Error) (w : World) {a : A} {w' : World}
      → on_error m g w ≡ (ok a, w')
      → m w ≡ (ok a, w')
  unfolding on_error
  on_error-ok m g w e = replace_error-ok g (m w).0 (m w).1 e

  pub lift-ok :
      (r : Result A) (w : World) {a : A} {w' : World}
      → lift r w ≡ (ok a, w')
      → (r ≡ ok a) × (w' ≡ w)
  unfolding lift
  lift-ok r w e = (ap (λ x. x.0) e, sym (ap (λ x. x.1) e))

  pub pure-ok :
      (b : A) (w : World) {a : A} {w' : World} → pure b w ≡ (ok a, w') → (b ≡ a) × (w' ≡ w)
  unfolding pure
  pure-ok b w e = (cc (ap (λ x. x.0) e), sym (ap (λ x. x.1) e))

  pub attempt-ok :
      (m : App A) (w : World) {r : Result A} {w' : World} → attempt m w ≡ (ok r, w') → m w ≡ (r, w')
  unfolding attempt
  attempt-ok m w e = λ i. (out (e i).0, (e i).1)
    where
      out : Result (Result A) → Result A
      out (ok r) = r
      out (err x) = err x

  pub outside-ok :
      (what : String) (m : App A) (w : World) {a : A} {w' : World}
      → outside what m w ≡ (ok a, w')
      → m (called w) ≡ (ok a, w')
  unfolding outside
  outside-ok what m w e = elim (Bool-cases (fails w.faults)) [
    | inl failed ↦ cc (rw failed at e)
    | inr fine ↦ rw fine at e
  ]

  -- A statement that returned on the pool.
  pub query_pool-ok :
      (q : Query A) (w : World) {a : A} {w' : World}
      → query pool q w ≡ (ok a, w')
      → (d : Db) × (q w.now w.db ≡ (ok a, d)) × (w' ≡ record (called w) { db = d })
  unfolding query run called
  query_pool-ok q w e =
      let ran = outside-ok "query" (run pool q) w e in
      ((q w.now w.db).1, λ i. ((ran i).0, (q w.now w.db).1), sym (ap (λ x. x.1) ran))

  ran_in_tx :
      (q : Query A) (v : World) (t : Option Db) {a : A} {w' : World}
      → v.tx ≡ t
      → run in_tx q v ≡ (ok a, w')
      → (d d' : Db) × (v.tx ≡ some d) × (q v.now d ≡ (ok a, d')) × (w' ≡ record v { tx = some d' })
  unfolding run
  ran_in_tx q v none eq e = cc (rw eq at e)
  ran_in_tx q v (some d) eq e =
      let ran = rw (eq, run) at e in
      (d, (q v.now d).1, eq, λ i. ((ran i).0, (q v.now d).1), sym (ap (λ x. x.1) ran))

  -- A statement that returned in the open transaction.
  pub query_tx-ok :
      (q : Query A) (w : World) {a : A} {w' : World}
      → query in_tx q w ≡ (ok a, w')
      → (d d' : Db) × (w.tx ≡ some d)
        × (q w.now d ≡ (ok a, d'))
        × (w' ≡ record (called w) { tx = some d' })
  unfolding query called
  query_tx-ok q w e = ran_in_tx q (called w) w.tx refl (outside-ok "query" (run in_tx q) w e)

committed-ok :
    (v : World) (t : Option Db) {w' : World} {u : Unit {0}}
    → v.tx ≡ t
    → committed v ≡ (ok u, w')
    → (d : Db) × (v.tx ≡ some d) × (w' ≡ record v { db = d; tx = none })
unfolding committed
committed-ok v none eq e = cc (rw (eq, committed) at e)
committed-ok v (some d) eq e = (d, eq, sym (ap (λ x. x.1) (rw (eq, committed) at e)))

-- A commit that returned has installed the working copy.
pub commit-ok :
    (w : World) {u : Unit {0}} {w' : World}
    → commit w ≡ (ok u, w')
    → (d : Db) × (w.tx ≡ some d) × (w' ≡ record (called w) { db = d; tx = none })
unfolding commit called
commit-ok w e = committed-ok (called w) w.tx refl (outside-ok "commit" committed w e)

begin-ok :
    (w : World) {u : Unit {0}} {w' : World}
    → begin w ≡ (ok u, w')
    → w' ≡ record (called w) { tx = some w.db }
unfolding begin opened called
begin-ok w e = sym (
    ap (λ x. x.1)
      (outside-ok "begin" opened w
        (on_error-ok (outside "begin" opened) (wrap "begin pgx tx") w e)))

-- A transaction that returned: its body returned from the state in which the working copy is the
-- database, and what was left of the working copy is dropped.
pub transaction-ok :
    {A : Type 0} (what : String) (body : App A) (w : World) {a : A} {w' : World}
    → transaction what body w ≡ (ok a, w')
    → (v : World) × (body (record (called w) { tx = some w.db }) ≡ (ok a, v))
      × (w' ≡ record v { tx = none })
unfolding transaction deferring_rollback
transaction-ok what body w {a} e =
    let (u, v, began, rest) = bind-ok (on_error begin (wrap what)) _ w e in
    let start = begin-ok w (on_error-ok begin (wrap what) w began) in
    let ended = rw start at rest in
    let b = body (record (called w) { tx = some w.db }) in
    (b.1, λ i. ((ended i).0, b.1), sym (ap (λ x. x.1) ended))
