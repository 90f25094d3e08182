-- ===== src/Session/Monad.antt =====
-- A request's database session: app/db/session.py, app/db/transaction.py and what the services
-- use of AsyncSession. An action returns its result and the session, also after a raise, since
-- what was assigned stays assigned until the transaction is rolled back.
use production_library_manag.Prelude.{
  ℕ, ◌+◌, ◌-◌, Option, none, some, Bool, List, [], ◌∷◌, ◌++◌, ltb, if◌then◌else◌,
}
use production_library_manag.Errors.{Error}
use production_library_manag.Models.{Db, satisfies_constraints}

-- What the code takes a write lock on (`SELECT … FOR UPDATE`).
pub data Lock : Type 0 where
  member_row book_row reservation_row : ℕ → Lock
  hold_rows pending_rows : (book_id : ℕ) → Lock
  expired_rows : Lock

-- The counters of app/core/metrics.py that the services increment.
pub record Metrics : Type 0 where
  pub active_borrowings : ℕ
  pub active_reservations : ℕ
  pub reservation_promotions : ℕ
  pub dashboard_requests : ℕ

pub record Session : Type 0 where
  -- what the open transaction sees
  pub db : Db
  -- what the last commit left in the database
  pub committed : Db
  -- `_transactional_depth`
  pub depth : ℕ
  -- the locks that the transaction has taken, in order
  pub locks : List Lock
  pub metrics : Metrics

-- What a request gets from outside: the clock, read once, fresh UUIDs in the order in which they
-- are drawn, and which locks the database refuses (deadlock or lock wait timeout).
pub record Env : Type 0 where
  pub now : ℕ
  pub uuid : ℕ → ℕ
  pub conflict : Lock → Bool

pub data Result {ℓ} (A : Type ℓ) : Type ℓ where
  ok : A → Result A
  err : Error → Result A

abbrev pub M : Type 0 → Type 0
M A = Session → Result A × Session

abbrev pub and_then : {A B : Type 0} → Result A × Session → (A → M B) → Result B × Session
and_then (ok a, s) f = f a s
and_then (err e, s) f = (err e, s)

infixl 5 ◌>>=◌ ◌>>◌
abbrev pub ◌>>=◌ : {A B : Type 0} → M A → (A → M B) → M B
◌>>=◌ m f s = and_then (m s) f

abbrev pub ◌>>◌ : {B : Type 0} → M (Unit {0}) → M B → M B
m >> k = m >>= λ _. k

module _ {A : Type 0} where
  abbrev pub pure : A → M A
  pure a s = (ok a, s)

  abbrev pub raise : Error → M A
  raise e s = (err e, s)

  abbrev pub or_raise : Option A → Error → M A
  or_raise none e = raise e
  or_raise (some a) e = pure a

  -- a read-only query
  abbrev pub query : (Db → A) → M A
  query f s = (ok (f s.db), s)

abbrev pub raise_if : Bool → Error → M (Unit {0})
raise_if c e s = (if c then err e else ok tt, s)

abbrev pub modify : (Db → Db) → M (Unit {0})
modify f s = (ok tt, record s { db = f s.db })

abbrev pub observe : (Metrics → Metrics) → M (Unit {0})
observe f s = (ok tt, record s { metrics = f s.metrics })

-- A lock is granted, or the statement fails with OperationalError.
abbrev pub lock : Env → Lock → M (Unit {0})
lock env l s =
    if env.conflict l
    then (err Error.operational_error, s)
    else (ok tt, record s { locks = s.locks ++ l ∷ [] })

-- `session.flush()`: the database checks the rows that were written.
abbrev pub flush : M (Unit {0})
flush s = (if satisfies_constraints s.db then ok tt else err Error.integrity_error, s)

-- `session.commit()`
abbrev pub commit : M (Unit {0})
commit s = (ok tt, record s { committed = s.db })

-- `Result.scalar_one_or_none()`
abbrev pub scalar_one_or_none : {A : Type 0} → List A → Result (Option A)
scalar_one_or_none [] = ok none
scalar_one_or_none (x ∷ []) = ok (some x)
scalar_one_or_none (x ∷ y ∷ rest) = err Error.multiple_results_found

abbrev pub query_one : {A : Type 0} → (Db → List A) → M (Option A)
query_one f s = (scalar_one_or_none (f s.db), s)

-- `except OperationalError as e: raise ConcurrentBorrowException() from e`
abbrev pub on_conflict : Error → Error
on_conflict Error.operational_error = Error.concurrent_borrow
on_conflict e = e

abbrev pub caught : {A : Type 0} → Result A × Session → Result A × Session
caught (ok a, s) = (ok a, s)
caught (err e, s) = (err (on_conflict e), s)

abbrev pub catch_operational : {A : Type 0} → M A → M A
catch_operational m s = caught (m s)

-- A new block commits what an implicit transaction has left; the locks are the new one's.
abbrev pub begin : Session → Session
begin s = record s { committed = s.db; depth = 1; locks = [] }

module _ {A : Type 0} where
  -- The end of the outermost block, `async with session.begin()`: commit, or roll back.
  abbrev pub close : Result A × Session → Result A × Session
  close (ok a, s) = (ok a, record s { committed = s.db; depth = s.depth - 1 })
  close (err e, s) = (err e, record s { db = s.committed; depth = s.depth - 1 })

  abbrev pub leave : Result A × Session → Result A × Session
  leave (r, s) = (r, record s { depth = s.depth - 1 })

  -- `@transactional`
  unfoldable pub transactional : M A → M A
  transactional m s =
      if ltb 0 s.depth then leave (m (record s { depth = s.depth + 1 })) else close (m (begin s))
