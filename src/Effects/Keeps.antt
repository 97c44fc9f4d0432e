-- ===== src/Effects/Keeps.antt =====
-- Properties of the database that a method keeps, one rule for each way to build a method.
use delta_uptime.Prelude.{
  ℕ, String, ◌≡◌, refl, Bool, true, false, List, [], ◌∷◌, Option, none, some, if◌then◌else◌,
  Bool-cases, inl, inr,
}
use delta_uptime.Errors.{Error, Result, ok, err, wrap}
use delta_uptime.Database.{Db, Query}
use delta_uptime.Effects.{
  World, App, pure, raise, lift, on_error, attempt, continue, ◌>>=◌, outside, called, fails, run,
  query, pool, in_tx, Handle, time_now, rand_read, draw, begin, opened, for_each, commit, committed,
  transaction, deferring_rollback,
}
use delta_uptime.Effects.Quiet.{ReadOnly}

-- The statement keeps `P`.
pub record Keeps {A : Type 0} (P : Db → Type 0) (q : Query A) : Type 0 where
  pub at : (now : ℕ) (d : Db) → P d → P (q now d).1

abbrev pub OfTx : (Db → Type 0) → Option Db → Type 0
OfTx P none = Unit
OfTx P (some d) = P d

-- `P` holds of the committed rows and of the working copy.
abbrev pub Holds : (Db → Type 0) → World → Type 0
Holds P w = P w.db × OfTx P w.tx

-- The method keeps `P`, whether it returns or fails.
pub record Maintains {A : Type 0} (P : Db → Type 0) (m : App A) : Type 0 where
  pub at : (w : World) → Holds P w → Holds P (m w).1

pub Keeps-ReadOnly : {A : Type 0} {P : Db → Type 0} (q : Query A) → ReadOnly q → Keeps P q
Keeps-ReadOnly q r = record { at = λ now d h. rw (r.same now d) h }

module _ {A : Type 0} {P : Db → Type 0} where
  pub Maintains-pure : (a : A) → Maintains P (pure a)
  unfolding pure
  Maintains-pure a = record { at = λ w h. h }

  pub Maintains-raise : (e : Error) → Maintains P (raise {A = A} e)
  unfolding raise
  Maintains-raise e = record { at = λ w h. h }

  pub Maintains-lift : (r : Result A) → Maintains P (lift r)
  unfolding lift
  Maintains-lift r = record { at = λ w h. h }

  pub Maintains-on_error :
      (m : App A) (f : Error → Error) → Maintains P m → Maintains P (on_error m f)
  unfolding on_error
  Maintains-on_error m f k = record { at = k.at }

  pub Maintains-attempt : (m : App A) → Maintains P m → Maintains P (attempt m)
  unfolding attempt
  Maintains-attempt m k = record { at = k.at }

  pub Maintains-if :
      (b : Bool) (m n : App A) → Maintains P m → Maintains P n → Maintains P (if b then m else n)
  Maintains-if true m n km kn = km
  Maintains-if false m n km kn = kn

  Maintains-outside : (what : String) (m : App A) → Maintains P m → Maintains P (outside what m)
  unfolding outside called
  Maintains-outside what m k = record {
    at = λ w h. elim (Bool-cases (fails w.faults)) [
      | inl failed ↦ rw failed h
      | inr fine ↦ rw fine (k.at (called w) h)
    ];
  }

  run_in_tx-Holds :
      (q : Query A) (w : World) (t : Option Db)
      → Keeps P q
      → w.tx ≡ t
      → P w.db
      → OfTx P t
      → Holds P (run in_tx q w).1
  unfolding run
  run_in_tx-Holds q w none k e h ht = rw (e, run, e) (h, tt)
  run_in_tx-Holds q w (some d) k e h ht = rw (e, run) (h, k.at w.now d ht)

  pub Maintains-query : (h : Handle) (q : Query A) → Keeps P q → Maintains P (query h q)
  unfolding query run
  Maintains-query pool q k =
      Maintains-outside "query" (run pool q) (record { at = λ w h. (k.at w.now w.db h.0, h.1) })
  Maintains-query in_tx q k =
      Maintains-outside "query" (run in_tx q)
        (record { at = λ w h. run_in_tx-Holds q w w.tx k refl h.0 h.1 })

module _ {A B : Type 0} {P : Db → Type 0} where
  continue-Holds :
      (f : A → App B) (r : Result A) (w : World)
      → ((a : A) → Maintains P (f a))
      → Holds P w
      → Holds P (continue f (r, w)).1
  continue-Holds f (ok a) w k h = (k a).at w h
  continue-Holds f (err e) w k h = h

  pub Maintains-bind :
      (m : App A) (f : A → App B)
      → Maintains P m
      → ((a : A) → Maintains P (f a))
      → Maintains P (m >>= f)
  unfolding ◌>>=◌
  Maintains-bind m f km kf = record { at = λ w h. continue-Holds f (m w).0 (m w).1 kf (km.at w h) }

module _ {A B : Type 0} {P : Db → Type 0} where
  pub Maintains-for_each :
      (f : A → App B) (xs : List A) → ((a : A) → Maintains P (f a)) → Maintains P (for_each f xs)
  unfolding for_each
  Maintains-for_each f [] k = Maintains-pure []
  Maintains-for_each f (x ∷ xs) k = Maintains-bind (f x) _ (k x) λ y.
      Maintains-bind (for_each f xs) _ (Maintains-for_each f xs k) λ ys. Maintains-pure (y ∷ ys)

committed-Holds :
    (P : Db → Type 0) (w : World) (t : Option Db)
    → w.tx ≡ t
    → P w.db
    → OfTx P t
    → Holds P (committed w).1
unfolding committed
committed-Holds P w none e h ht = rw (e, committed, e) (h, tt)
committed-Holds P w (some d) e h ht = rw (e, committed) (ht, tt)

module _ {P : Db → Type 0} where
  pub Maintains-time_now : Maintains P time_now
  unfolding time_now
  Maintains-time_now = record { at = λ w h. h }

  pub Maintains-rand_read : (n : ℕ) → Maintains P (rand_read n)
  unfolding rand_read draw
  Maintains-rand_read n = Maintains-outside "rand" (draw n) (record { at = λ w h. h })

  Maintains-begin : Maintains P begin
  unfolding begin opened
  Maintains-begin =
      Maintains-on_error (outside "begin" opened) (wrap "begin pgx tx")
        (Maintains-outside "begin" opened (record { at = λ w h. (h.0, h.0) }))

  pub Maintains-commit : Maintains P commit
  unfolding commit
  Maintains-commit =
      Maintains-outside "commit" committed
        (record { at = λ w h. committed-Holds P w w.tx refl h.0 h.1 })

  pub Maintains-transaction :
      {A : Type 0} (what : String) (body : App A)
      → Maintains P body
      → Maintains P (transaction what body)
  unfolding transaction deferring_rollback
  Maintains-transaction what body k =
      Maintains-bind (on_error begin (wrap what)) (λ _. deferring_rollback body)
        (Maintains-on_error begin (wrap what) Maintains-begin)
        (λ _. record { at = λ w h. ((k.at w h).0, tt) })

pub ruleset maintains_rules = (
  Maintains-pure, Maintains-raise, Maintains-lift, Maintains-on_error, Maintains-attempt,
  Maintains-if, Maintains-query, Maintains-bind, Maintains-time_now, Maintains-rand_read,
  Maintains-commit, Maintains-transaction, Maintains-for_each,
)
