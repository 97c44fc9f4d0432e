-- ===== src/Effects/Atomic.antt =====
-- Methods that change all or nothing: one that fails leaves the committed database as it was.
use delta_uptime.Prelude.{
  Bool, true, false, if◌then◌else◌, String, ◌≡◌, refl, ◌∙◌, Option, none, some, sym, ap, Bool-cases,
  inl, inr,
}
use delta_uptime.Errors.{Error, Result, ok, err, wrap}
use delta_uptime.Database.{Db}
use delta_uptime.Effects.{
  World, App, pure, on_error, replace_error, continue, ◌>>=◌, outside, called, fails, begin, opened,
  commit, committed, transaction, deferring_rollback,
}
use delta_uptime.Effects.Quiet.{Quiet, Quiet-on_error, Quiet-outside}

pub record Atomic {A : Type 0} (m : App A) : Type 0 where
  pub at : (w : World) (e : Error) → (m w).0 ≡ err e → (m w).1.db ≡ w.db

module _ {A : Type 0} where
  pub Atomic-of_Quiet : (m : App A) → Quiet m → Atomic m
  Atomic-of_Quiet m q = record { at = λ w e h. q.at w }

  pub Atomic-if : (b : Bool) (m n : App A) → Atomic m → Atomic n → Atomic (if b then m else n)
  Atomic-if true m n pm pn = pm
  Atomic-if false m n pm pn = pn

  -- The statement without the record.
  pub db_of_Atomic :
      (m : App A)
      → Atomic m
      → (w : World) {e : Error} {w' : World} → m w ≡ (err e, w')
      → w'.db ≡ w.db
  db_of_Atomic m p w {e} h = sym (ap (λ x. x.1.db) h) ∙ p.at w e (ap (λ x. x.0) h)

  replace_error-err :
      (f : Error → Error) (r : Result A) (e : Error)
      → replace_error f r ≡ err e
      → (c : Error) × (r ≡ err c)
  replace_error-err f (ok a) e h = cc
  replace_error-err f (err c) e h = (c, refl)

  pub Atomic-on_error : (m : App A) (f : Error → Error) → Atomic m → Atomic (on_error m f)
  unfolding on_error
  Atomic-on_error m f p = record {
    at = λ w e h. let (c, failed) = replace_error-err f (m w).0 e h in p.at w c failed;
  }

module _ {A B : Type 0} where
  continue-Atomic :
      (f : A → App B) (r : Result A) (w : World) (e : Error)
      → ((a : A) → Atomic (f a))
      → (continue f (r, w)).0 ≡ err e
      → (continue f (r, w)).1.db ≡ w.db
  continue-Atomic f (ok a) w e p h = (p a).at w e h
  continue-Atomic f (err c) w e p h = refl

  -- What runs before the writing part is quiet.
  pub Atomic-bind :
      (m : App A) (f : A → App B) → Quiet m → ((a : A) → Atomic (f a)) → Atomic (m >>= f)
  unfolding ◌>>=◌
  Atomic-bind m f q p = record { at = λ w e h. continue-Atomic f (m w).0 (m w).1 e p h ∙ q.at w }

  continue-pure-err :
      (f : A → B) (r : Result A) (w : World) (e : Error)
      → (continue (λ a. pure (f a)) (r, w)).0 ≡ err e
      → (c : Error) × (r ≡ err c) × ((continue (λ a. pure (f a)) (r, w)).1 ≡ w)
  unfolding pure
  continue-pure-err f (ok a) w e h = cc
  continue-pure-err f (err c) w e h = (c, refl, refl)

  -- Nothing that can fail runs after the writing part.
  pub Atomic-last : (m : App A) (f : A → B) → Atomic m → Atomic (m >>= λ a. pure (f a))
  unfolding ◌>>=◌
  Atomic-last m f p = record {
    at = λ w e h.
        let (c, failed, same) = continue-pure-err f (m w).0 (m w).1 e h in
        ap (λ v. v.db) same ∙ p.at w c failed;
  }

committed-Atomic :
    (w : World) (t : Option Db) (e : Error)
    → w.tx ≡ t
    → (committed w).0 ≡ err e
    → (committed w).1.db ≡ w.db
unfolding committed
committed-Atomic w none e eq h = rw (eq, committed) refl
committed-Atomic w (some d) e eq h = cc (rw (eq, committed) at h)

pub Atomic-commit : Atomic commit
unfolding commit outside
Atomic-commit = record {
  at = λ w e h. elim (Bool-cases (fails w.faults)) [
    | inl failed ↦ rw failed refl
    | inr fine ↦ rw fine (committed-Atomic (called w) w.tx e refl (rw fine at h))
  ];
}

Quiet-begin : Quiet begin
unfolding begin opened
Quiet-begin =
    Quiet-on_error (outside "begin" opened) (wrap "begin pgx tx")
      (Quiet-outside "begin" opened (record { at = λ w. refl }))

-- A transaction is atomic if its body is.
pub Atomic-transaction :
    {A : Type 0} (what : String) (body : App A) → Atomic body → Atomic (transaction what body)
unfolding transaction deferring_rollback
Atomic-transaction what body p =
    Atomic-bind (on_error begin (wrap what)) (λ _. deferring_rollback body)
      (Quiet-on_error begin (wrap what) Quiet-begin) (λ _. record { at = p.at })

pub ruleset atomic_rules = (
  Atomic-of_Quiet, Atomic-if, Atomic-on_error, Atomic-bind, Atomic-last, Atomic-commit,
  Atomic-transaction,
)
