-- ===== src/Effects.antt =====
-- How the service acts: apps/control-plane/internal/auth/repository.go (the pool and the
-- transactions over the queries), the reads of the clock and of `crypto/rand`, and Go's early
-- return of errors.
--
-- A method is an `App`: it takes the state and gives back a result and the new state. The state
-- holds the committed database, the working copy of the open transaction, the time of the request,
-- which of the next calls to the outside fail, and the stream of random bytes.
pub mod Inversion
pub mod Steps
pub mod Working
pub mod Succeeds
pub mod Quiet
pub mod Atomic
pub mod Keeps
pub mod Whole
use delta_uptime.Prelude.{
  ℕ, zero, suc, ◌+◌, ◌%◌, String, Bool, true, false, Option, none, some, List, [], ◌∷◌,
  if◌then◌else◌,
}
use delta_uptime.Errors.{
  Error, Result, ok, err, sentinel, fault, wrap, no_rows, errors_is, Sentinel,
}
use delta_uptime.Database.{Db, Query}

pub record World : Type 0 where
  pub db : Db
  pub tx : Option Db
  pub now : ℕ
  pub faults : List Bool
  pub entropy : ℕ → ℕ
  pub drawn : ℕ

abbrev pub App : Type 0 → Type 0
App A = World → Result A × World

module _ {A : Type 0} where
  unfoldable pub pure : A → App A
  pure a w = (ok a, w)

  unfoldable pub raise : Error → App A
  raise e w = (err e, w)

  -- A pure function that may fail.
  unfoldable pub lift : Result A → App A
  lift r w = (r, w)

  -- `if err != nil { return …, f(err) }`
  abbrev replace_error : (Error → Error) → Result A → Result A
  replace_error f (ok a) = ok a
  replace_error f (err e) = err (f e)

  unfoldable pub on_error : App A → (Error → Error) → App A
  on_error m f w = let (r, w') = m w in (replace_error f r, w')

  -- A call whose error the caller looks at and may drop.
  unfoldable pub attempt : App A → App (Result A)
  attempt m w = let (r, w') = m w in (ok r, w')

module _ {A B : Type 0} where
  abbrev continue : (A → App B) → Result A × World → Result B × World
  continue f (ok a, w) = f a w
  continue f (err e, w) = (err e, w)

  infixl 5 ◌>>=◌ ◌>>◌
  unfoldable pub ◌>>=◌ : App A → (A → App B) → App B
  ◌>>=◌ m f w = continue f (m w)

  abbrev pub ◌>>◌ : App A → App B → App B
  m >> k = m >>= λ _. k

-- A loop that makes a list of what each round gives, and ends at the first error.
unfoldable pub for_each : {A B : Type 0} → (A → App B) → List A → App (List B)
for_each f [] = pure []
for_each f (x ∷ xs) = do y ← f x; ys ← for_each f xs; pure (y ∷ ys)

-- The common answer to a query that finds no row: `missing`; other errors are wrapped.
unfoldable pub missing_or : Sentinel → String → Error → Error
missing_or missing what e = if errors_is e no_rows then sentinel missing else wrap what e

-- Whether the next call to the outside fails, and the state in which that is decided.
abbrev fails : List Bool → Bool
fails [] = false
fails (f ∷ fs) = f

abbrev later : List Bool → List Bool
later [] = []
later (f ∷ fs) = fs

unfoldable pub called : World → World
called w = record w { faults = later w.faults }

-- A call to the outside: it fails, with an error that is neither `ErrNoRows` nor a server's error
-- code, or `m` happens.
unfoldable pub outside : {A : Type 0} → String → App A → App A
unfolding called
outside what m w = if fails w.faults then (err (fault what), called w) else m (called w)

-- `repo` of the source: `s.repo`, the pool, or the open transaction `tx`.
pub data Handle : Type 0 where
  pool in_tx : Handle

abbrev store_db : {A : Type 0} → World → Result A × Db → Result A × World
store_db w (r, d) = (r, record w { db = d })

abbrev store_tx : {A : Type 0} → World → Result A × Db → Result A × World
store_tx w (r, d) = (r, record w { tx = some d })

-- A statement runs on the pool and is committed at once, or on the working copy.
unfoldable pub run : {A : Type 0} → Handle → Query A → App A
run pool q w = store_db w (q w.now w.db)
run in_tx q w = elim w.tx [
  | none ↦ (err (fault "tx is closed"), w)
  | some d ↦ store_tx w (q w.now d)
]

unfoldable pub query : {A : Type 0} → Handle → Query A → App A
unfolding outside run
query handle q = outside "query" (run handle q)

opened : App (Unit {0})
opened w = (ok tt, record w { tx = some w.db })

committed : App (Unit {0})
committed w = elim w.tx [
  | none ↦ (err (fault "tx is closed"), w)
  | some d ↦ (ok tt, record w { db = d; tx = none })
]

-- `storeRepository.Begin`
unfoldable pub begin : App (Unit {0})
unfolding outside opened on_error
begin = on_error (outside "begin" opened) (wrap "begin pgx tx")

-- `tx.Commit`: a commit that fails has changed nothing.
unfoldable pub commit : App (Unit {0})
unfolding outside committed
commit = outside "commit" committed

module _ {A : Type 0} where
  -- `defer rollbackTx(ctx, tx)`: what is not committed when the method returns is dropped.
  abbrev rolled_back : Result A × World → Result A × World
  rolled_back (r, w) = (r, record w { tx = none })

  unfoldable pub deferring_rollback : App A → App A
  deferring_rollback body w = rolled_back (body w)

  -- `tx, err := s.repo.Begin(ctx)`, the deferred rollback and the rest of the method.
  unfoldable pub transaction : String → App A → App A
  unfolding begin deferring_rollback ◌>>=◌
  transaction what body = on_error begin (wrap what) >> deferring_rollback body

unfoldable pub time_now : App ℕ
time_now w = (ok w.now, w)

unfoldable pub bytes_from : (ℕ → ℕ) → ℕ → ℕ → List ℕ
bytes_from entropy start zero = []
bytes_from entropy start (suc n) = entropy start % 256 ∷ bytes_from entropy (suc start) n

draw : ℕ → App (List ℕ)
unfolding bytes_from
draw n w = (ok (bytes_from w.entropy w.drawn n), record w { drawn = w.drawn + n })

-- `rand.Read` of `n` bytes.
unfoldable pub rand_read : ℕ → App (List ℕ)
unfolding outside draw
rand_read n = outside "rand" (draw n)
