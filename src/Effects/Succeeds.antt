-- ===== src/Effects/Succeeds.antt =====
-- Programs that return a result when no call to the outside fails, run from the front.
use delta_uptime.Prelude.{ℕ, ◌+◌, String, ◌≡◌, refl, [], none, some}
use delta_uptime.Errors.{Error, Result, ok}
use delta_uptime.Database.{Db, Query}
use delta_uptime.Effects.{
  World, App, in_tx, query, outside, run, called, on_error, ◌>>=◌, transaction, begin,
  deferring_rollback, commit, rand_read, bytes_from, attempt,
}

-- In a transaction with the working copy `d`, with no call failing and `n` random bytes drawn.
abbrev pub running : World → Db → ℕ → World
running w d n = record w { faults = []; tx = some d; drawn = n }

-- The program returns a result.
abbrev pub Returns : {A : Type 0} → App A → World → Type 0
Returns {A} m w = (a : A) × (v : World) × (m w ≡ (ok a, v))

module _ {A : Type 0} where
  pub query_runs :
      (q : Query A) (f : Error → Error) (w : World) (d : Db) (n : ℕ) {a : A} {d' : Db}
      → q w.now d ≡ (ok a, d')
      → on_error (query in_tx q) f (running w d n) ≡ (ok a, running w d' n)
  unfolding query outside run on_error
  query_runs q f w d n h = rw h refl

  pub attempt_runs :
      (q : Query A) (w : World) (d : Db) (n : ℕ) (r : Result A) (d' : Db)
      → q w.now d ≡ (r, d')
      → attempt (query in_tx q) (running w d n) ≡ (ok r, running w d' n)
  unfolding query outside run attempt
  attempt_runs q w d n r d' h = rw h refl

  pub transaction_succeeds :
      (what : String) (body : App A) (w : World)
      → w.faults ≡ []
      → Returns body (running w w.db w.drawn)
      → Returns (transaction what body) w
  unfolding transaction outside begin deferring_rollback on_error called ◌>>=◌
  transaction_succeeds what body w sound (a, v, e) =
      (a, record v { tx = none }, rw sound (rw e refl))

module _ {A B : Type 0} where
  pub bind_succeeds :
      (m : App A) (f : A → App B) (w : World) {a : A} {w' : World}
      → m w ≡ (ok a, w')
      → Returns (f a) w'
      → Returns (m >>= f) w
  unfolding ◌>>=◌
  bind_succeeds m f w h (b, v, e) = (b, v, rw h e)

pub commit_runs :
    (f : Error → Error) (w : World) (d : Db) (n : ℕ)
    → on_error commit f (running w d n) ≡ (ok tt, record (running w d n) { db = d; tx = none })
unfolding commit outside on_error
commit_runs f w d n = refl

pub rand_runs :
    (size : ℕ) (f : Error → Error) (w : World) (d : Db) (n : ℕ)
    → on_error (rand_read size) f (running w d n)
      ≡ (ok (bytes_from w.entropy n size), running w d (n + size))
unfolding rand_read outside on_error
rand_runs size f w d n = refl
