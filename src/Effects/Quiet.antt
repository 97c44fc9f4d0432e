-- ===== src/Effects/Quiet.antt =====
-- Methods that leave the committed database alone, one rule for each way to build a method.
use delta_uptime.Prelude.{
  ℕ, String, ◌≡◌, refl, ◌∙◌, Bool, true, false, Option, none, some, if◌then◌else◌, Bool-cases, inl,
  inr,
}
use delta_uptime.Errors.{Error, Result, ok, err}
use delta_uptime.Database.{Db, Query}
use delta_uptime.Effects.{
  World, App, pure, raise, lift, on_error, attempt, continue, ◌>>=◌, outside, called, fails, run,
  query, pool, in_tx, time_now, rand_read, draw, Handle,
}

-- Whether it returns or fails, `m` changes no committed row.
pub record Quiet {A : Type 0} (m : App A) : Type 0 where
  pub at : (w : World) → (m w).1.db ≡ w.db

-- A query that changes nothing.
pub record ReadOnly {A : Type 0} (q : Query A) : Type 0 where
  pub same : (now : ℕ) (d : Db) → (q now d).1 ≡ d

module _ {A : Type 0} where
  pub Quiet-pure : (a : A) → Quiet (pure a)
  unfolding pure
  Quiet-pure a = record { at = λ w. refl }

  pub Quiet-raise : (e : Error) → Quiet (raise {A = A} e)
  unfolding raise
  Quiet-raise e = record { at = λ w. refl }

  pub Quiet-lift : (r : Result A) → Quiet (lift r)
  unfolding lift
  Quiet-lift r = record { at = λ w. refl }

  pub Quiet-on_error : (m : App A) (f : Error → Error) → Quiet m → Quiet (on_error m f)
  unfolding on_error
  Quiet-on_error m f q = record { at = q.at }

  pub Quiet-attempt : (m : App A) → Quiet m → Quiet (attempt m)
  unfolding attempt
  Quiet-attempt m q = record { at = q.at }

  pub Quiet-if : (b : Bool) (m n : App A) → Quiet m → Quiet n → Quiet (if b then m else n)
  Quiet-if true m n qm qn = qm
  Quiet-if false m n qm qn = qn

  pub Quiet-outside : (what : String) (m : App A) → Quiet m → Quiet (outside what m)
  unfolding outside
  Quiet-outside what m q = record {
    at = λ w. elim (Bool-cases (fails w.faults)) [
      | inl failed ↦ rw failed refl
      | inr fine ↦ rw fine (q.at (called w))
    ];
  }

  run_in_tx-same :
      (q : Query A) (w : World) (t : Option Db) → w.tx ≡ t → (run in_tx q w).1.db ≡ w.db
  unfolding run
  run_in_tx-same q w none e = rw (e, run) refl
  run_in_tx-same q w (some d) e = rw (e, run) refl

  -- Every statement of a transaction is quiet: it writes to the working copy.
  pub Quiet-query_tx : (q : Query A) → Quiet (query in_tx q)
  unfolding query
  Quiet-query_tx q =
      Quiet-outside "query" (run in_tx q) (record { at = λ w. run_in_tx-same q w w.tx refl })

  pub Quiet-query_pool : (q : Query A) → ReadOnly q → Quiet (query pool q)
  unfolding query run
  Quiet-query_pool q r = Quiet-outside "query" (run pool q) (record { at = λ w. r.same w.now w.db })

  pub Quiet-query : (h : Handle) (q : Query A) → ReadOnly q → Quiet (query h q)
  Quiet-query pool q r = Quiet-query_pool q r
  Quiet-query in_tx q r = Quiet-query_tx q

module _ {A B : Type 0} where
  continue-same :
      (f : A → App B) (r : Result A) (w : World)
      → ((a : A) → Quiet (f a))
      → (continue f (r, w)).1.db ≡ w.db
  continue-same f (ok a) w q = (q a).at w
  continue-same f (err e) w q = refl

  pub Quiet-bind : (m : App A) (f : A → App B) → Quiet m → ((a : A) → Quiet (f a)) → Quiet (m >>= f)
  unfolding ◌>>=◌
  Quiet-bind m f qm qf = record { at = λ w. continue-same f (m w).0 (m w).1 qf ∙ qm.at w }

pub Quiet-time_now : Quiet time_now
unfolding time_now
Quiet-time_now = record { at = λ w. refl }

pub Quiet-rand_read : (n : ℕ) → Quiet (rand_read n)
unfolding rand_read draw
Quiet-rand_read n = Quiet-outside "rand" (draw n) (record { at = λ w. refl })

pub ruleset quiet_rules = (
  Quiet-pure, Quiet-raise, Quiet-lift, Quiet-on_error, Quiet-attempt, Quiet-if, Quiet-query_tx,
  Quiet-query, Quiet-bind, Quiet-time_now, Quiet-rand_read,
)
