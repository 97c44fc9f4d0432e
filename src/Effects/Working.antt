-- ===== src/Effects/Working.antt =====
-- Properties of the working copy that a part of a transaction keeps, one rule for each way to build
-- it.
use delta_uptime.Prelude.{
  ℕ, String, ◌≡◌, refl, Bool, true, false, Option, none, some, if◌then◌else◌, Bool-cases, inl, inr,
}
use delta_uptime.Errors.{Error, Result, ok, err}
use delta_uptime.Database.{Db, Query}
use delta_uptime.Effects.{
  World, App, pure, raise, lift, on_error, attempt, continue, ◌>>=◌, outside, called, fails, run,
  query, in_tx, time_now, rand_read, draw,
}
use delta_uptime.Effects.Keeps.{Keeps, OfTx}

pub record TxMaintains {A : Type 0} (P : Db → Type 0) (m : App A) : Type 0 where
  pub at : (w : World) → OfTx P w.tx → OfTx P (m w).1.tx

module _ {A : Type 0} {P : Db → Type 0} where
  pub TxMaintains-pure : (a : A) → TxMaintains P (pure a)
  unfolding pure
  TxMaintains-pure a = record { at = λ w h. h }

  pub TxMaintains-raise : (e : Error) → TxMaintains P (raise {A = A} e)
  unfolding raise
  TxMaintains-raise e = record { at = λ w h. h }

  pub TxMaintains-lift : (r : Result A) → TxMaintains P (lift r)
  unfolding lift
  TxMaintains-lift r = record { at = λ w h. h }

  pub TxMaintains-on_error :
      (m : App A) (f : Error → Error) → TxMaintains P m → TxMaintains P (on_error m f)
  unfolding on_error
  TxMaintains-on_error m f k = record { at = k.at }

  pub TxMaintains-attempt : (m : App A) → TxMaintains P m → TxMaintains P (attempt m)
  unfolding attempt
  TxMaintains-attempt m k = record { at = k.at }

  pub TxMaintains-if :
      (b : Bool) (m n : App A)
      → TxMaintains P m
      → TxMaintains P n
      → TxMaintains P (if b then m else n)
  TxMaintains-if true m n km kn = km
  TxMaintains-if false m n km kn = kn

  TxMaintains-outside :
      (what : String) (m : App A) → TxMaintains P m → TxMaintains P (outside what m)
  unfolding outside called
  TxMaintains-outside what m k = record {
    at = λ w h. elim (Bool-cases (fails w.faults)) [
      | inl failed ↦ rw failed h
      | inr fine ↦ rw fine (k.at (called w) h)
    ];
  }

  run-OfTx :
      (q : Query A) (w : World) (t : Option Db)
      → Keeps P q
      → w.tx ≡ t
      → OfTx P t
      → OfTx P (run in_tx q w).1.tx
  unfolding run
  run-OfTx q w none k e h = rw (e, run, e) tt
  run-OfTx q w (some d) k e h = rw (e, run) (k.at w.now d h)

  pub TxMaintains-query : (q : Query A) → Keeps P q → TxMaintains P (query in_tx q)
  unfolding query
  TxMaintains-query q k =
      TxMaintains-outside "query" (run in_tx q) (record { at = λ w h. run-OfTx q w w.tx k refl h })

module _ {A B : Type 0} {P : Db → Type 0} where
  continue-OfTx :
      (f : A → App B) (r : Result A) (w : World)
      → ((a : A) → TxMaintains P (f a))
      → OfTx P w.tx
      → OfTx P (continue f (r, w)).1.tx
  continue-OfTx f (ok a) w k h = (k a).at w h
  continue-OfTx f (err e) w k h = h

  pub TxMaintains-bind :
      (m : App A) (f : A → App B)
      → TxMaintains P m
      → ((a : A) → TxMaintains P (f a))
      → TxMaintains P (m >>= f)
  unfolding ◌>>=◌
  TxMaintains-bind m f km kf = record { at = λ w h. continue-OfTx f (m w).0 (m w).1 kf (km.at w h) }

module _ {P : Db → Type 0} where
  pub TxMaintains-time_now : TxMaintains P time_now
  unfolding time_now
  TxMaintains-time_now = record { at = λ w h. h }

  pub TxMaintains-rand_read : (n : ℕ) → TxMaintains P (rand_read n)
  unfolding rand_read draw
  TxMaintains-rand_read n = TxMaintains-outside "rand" (draw n) (record { at = λ w h. h })

pub ruleset working_rules = (
  TxMaintains-pure, TxMaintains-raise, TxMaintains-lift, TxMaintains-on_error, TxMaintains-attempt,
  TxMaintains-if, TxMaintains-query, TxMaintains-bind, TxMaintains-time_now, TxMaintains-rand_read,
)
