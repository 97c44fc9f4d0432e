-- ===== src/Effects/Whole.antt =====
-- Methods that may fail after their commit: such a failure finds the change committed as a whole.
use delta_uptime.Prelude.{◌≡◌, refl, sym, ap, ◌∙◌, some, none, String, ◌⊎◌, inl, inr, Bool-cases}
use delta_uptime.Errors.{Error, Result, ok, err}
use delta_uptime.Database.{Db, Query}
use delta_uptime.Effects.{
  World, App, on_error, continue, ◌>>=◌, ◌>>◌, outside, called, fails, begin, opened, commit,
  committed, transaction, deferring_rollback, query, in_tx,
}
use delta_uptime.Effects.Quiet.{Quiet, Quiet-on_error, Quiet-query_tx}
use delta_uptime.Effects.Inversion.{on_error-ok, query_tx-ok}

-- A method that fails has changed no committed row, or has made the change `C`.
pub record Whole {A : Type 0} (C : Db → Db → Type 0) (m : App A) : Type 0 where
  pub at : (w : World) (e : Error) {v : World} → m w ≡ (err e, v) → (v.db ≡ w.db) ⊎ C w.db v.db

module _ {A B : Type 0} (f : A → App B) (w : World) {e : Error} {v : World} where
  continue-err :
      (r : Result A) (u : World)
      → continue f (r, u) ≡ (err e, v)
      → (v.db ≡ u.db) ⊎ ((a : A) × (r ≡ ok a) × (f a u ≡ (err e, v)))
  continue-err (ok a) u h = inr (a, refl, h)
  continue-err (err c) u h = inl (ap (λ x. x.1.db) (sym h))

  -- A chain that fails: the first step fails, or the rest does.
  pub step_fails :
      (m : App A)
      → Quiet m
      → (m >>= f) w ≡ (err e, v)
      → (v.db ≡ w.db)
        ⊎ ((a : A) × (u : World) × (m w ≡ (ok a, u)) × (u.db ≡ w.db) × (f a u ≡ (err e, v)))
  unfolding ◌>>=◌
  step_fails m q h = elim (continue-err (m w).0 (m w).1 h) [
    | inl same ↦ inl (same ∙ q.at w)
    | inr (a, got, rest) ↦ inr (a, (m w).1, ap (λ r. (r, (m w).1)) got, q.at w, rest)
  ]

  -- A statement of the transaction and the rest of the body.
  pub tx_fails :
      (q : Query A) (g : Error → Error) (d : Db)
      → w.tx ≡ some d
      → (on_error (query in_tx q) g >>= f) w ≡ (err e, v)
      → (v.db ≡ w.db)
        ⊎ ((a : A) × (d' : Db) × (q w.now d ≡ (ok a, d'))
            × (f a (record (called w) { tx = some d' }) ≡ (err e, v)))
  tx_fails q g d opened h =
      elim (step_fails (on_error (query in_tx q) g)
        (Quiet-on_error (query in_tx q) g (Quiet-query_tx q)) h) [
          | inl same ↦ inl same
          | inr (a, u, e1, _, rest) ↦
              let (d0, d', opened', ran, u-is) =
                query_tx-ok q w (on_error-ok (query in_tx q) g w e1) in
              let same : d0 ≡ d = cc (sym opened' ∙ opened) in
              inr (a, d', rw same at ran, rw u-is at rest)
        ]

module _ {B : Type 0} (k : App B) (w : World) {e : Error} {v : World} where
  -- The commit, and a rest that changes no row.
  pub commit_fails :
      (g : Error → Error) (d : Db)
      → w.tx ≡ some d
      → Quiet k
      → (on_error commit g >> k) w ≡ (err e, v)
      → (v.db ≡ w.db) ⊎ (v.db ≡ d)
  unfolding ◌>>=◌ on_error commit outside committed called
  commit_fails g d opened quiet h = elim (Bool-cases (fails w.faults)) [
    | inl failed ↦ inl (ap (λ x. x.1.db) (sym (rw failed at h)))
    | inr fine ↦ inr (
        ap (λ x. x.1.db) (sym (rw (fine, opened) at h))
        ∙ quiet.at (record (called w) { db = d; tx = none }))
  ]

module _ {A : Type 0} {C : Db → Db → Type 0} where
  pub Whole-of_Quiet : (m : App A) → Quiet m → Whole C m
  Whole-of_Quiet m q = record { at = λ w e h. inl (ap (λ x. x.1.db) (sym h) ∙ q.at w) }

  -- What runs before the transaction is quiet.
  pub Whole-bind :
      {B : Type 0} (m : App B) (f : B → App A)
      → Quiet m
      → ((b : B) → Whole C (f b))
      → Whole C (m >>= f)
  Whole-bind m f q p = record {
    at = λ w e {v} h. elim (step_fails f w m q h) [
      | inl same ↦ inl same
      | inr (b, u, _, same, rest) ↦ rw same at ((p b).at u e rest)
    ];
  }

  -- A transaction, by what its body does on the working copy.
  pub Whole-transaction :
      (what : String) (body : App A)
      → ((w : World) (d : Db) (e : Error) (v : World)
          → w.tx ≡ some d
          → body w ≡ (err e, v)
          → (v.db ≡ w.db) ⊎ C d v.db)
      → Whole C (transaction what body)
  unfolding transaction deferring_rollback begin opened on_error outside ◌>>=◌ called
  Whole-transaction what body p = record {
    at = λ w e {v} h. elim (Bool-cases (fails w.faults)) [
      | inl failed ↦ inl (ap (λ x. x.1.db) (sym (rw failed at h)))
      | inr fine ↦
          let ran = rw fine at h in
          let db = ap (λ x. x.1.db) ran in
          rw db at (
            p (record (called w) { tx = some w.db }) w.db e
              (body (record (called w) { tx = some w.db })).1 refl
              (λ i. ((ran i).0, (body (record (called w) { tx = some w.db })).1)))
    ];
  }
