-- ===== src/Session/Preserve.antt =====
-- Predicates on the database that an action keeps, as far as it ends normally.
use production_library_manag.Prelude.{Option, List, Bool, true, false, if◌then◌else◌}
use production_library_manag.Errors.{Error}
use production_library_manag.Models.{Db}
use production_library_manag.Session.Monad.{
  M, Env, Lock, Metrics, transactional, catch_operational, lock, query, query_one, modify, observe,
  pure, raise, or_raise, raise_if, flush, ◌>>=◌, ◌>>◌,
}
use production_library_manag.Session.Logic.{
  Ensures, Reads, reads-Ensures, pure-Reads, raise-Reads, or_raise-Reads, query-Reads,
  query_one-Reads, raise_if-Reads, observe-Reads, flush-Reads, lock-Reads, >>=-Ensures,
  modify-Ensures, transactional-Ensures, catch_operational-Ensures,
}

pub record Preserves {A : Type 0} (P : Db → Type 0) (m : M A) : Type 0 where
  pub ensured : Ensures P m (λ _. P)

module _ {A : Type 0} (P : Db → Type 0) where
  pub unchanged : (m : M A) → Reads m → Preserves P m
  unchanged m r = record { ensured = reads-Ensures P m r }

  pub pure-Preserves : (a : A) → Preserves P (pure a)
  pure-Preserves a = unchanged (pure a) (pure-Reads a)

  pub raise-Preserves : (e : Error) → Preserves P (raise {A = A} e)
  raise-Preserves e = unchanged (raise e) (raise-Reads e)

  pub or_raise-Preserves : (o : Option A) (e : Error) → Preserves P (or_raise o e)
  or_raise-Preserves o e = unchanged (or_raise o e) (or_raise-Reads o e)

  pub query-Preserves : (f : Db → A) → Preserves P (query f)
  query-Preserves f = unchanged (query f) (query-Reads f)

  pub if-Preserves :
      (b : Bool) (m n : M A) → Preserves P m → Preserves P n → Preserves P (if b then m else n)
  if-Preserves true m n p q = p
  if-Preserves false m n p q = q

  pub catch_operational-Preserves : (m : M A) → Preserves P m → Preserves P (catch_operational m)
  catch_operational-Preserves m p = record { ensured = catch_operational-Ensures m p.ensured }

  pub transactional-Preserves : (m : M A) → Preserves P m → Preserves P (transactional m)
  transactional-Preserves m p = record { ensured = transactional-Ensures m p.ensured }

  pub query_one-Preserves : (f : Db → List A) → Preserves P (query_one f)
  query_one-Preserves f = record { ensured = reads-Ensures P (query_one f) (query_one-Reads f) }

module _ (P : Db → Type 0) where
  pub raise_if-Preserves : (b : Bool) (e : Error) → Preserves P (raise_if b e)
  raise_if-Preserves b e = record { ensured = reads-Ensures P (raise_if b e) (raise_if-Reads b e) }

  pub observe-Preserves : (f : Metrics → Metrics) → Preserves P (observe f)
  observe-Preserves f = record { ensured = reads-Ensures P (observe f) (observe-Reads f) }

  pub flush-Preserves : Preserves P flush
  flush-Preserves = record { ensured = reads-Ensures P flush flush-Reads }

  pub lock-Preserves : (env : Env) (l : Lock) → Preserves P (lock env l)
  lock-Preserves env l = record { ensured = reads-Ensures P (lock env l) (lock-Reads env l) }

  pub modify-Preserves : (f : Db → Db) → ((d : Db) → P d → P (f d)) → Preserves P (modify f)
  modify-Preserves f h = record { ensured = modify-Ensures P f h }

  pub >>=-Preserves :
      {A B : Type 0} (m : M A) (f : A → M B)
      → Preserves P m
      → ((a : A) → Preserves P (f a))
      → Preserves P (m >>= f)
  >>=-Preserves m f p q = record { ensured = >>=-Ensures m f p.ensured (λ a. (q a).ensured) }

  pub >>-Preserves :
      {B : Type 0} (m : M (Unit {0})) (n : M B)
      → Preserves P m
      → Preserves P n
      → Preserves P (m >> n)
  >>-Preserves m n p q = >>=-Preserves m (λ _. n) p (λ _. q)

pub ruleset preserves = (
  pure-Preserves, raise-Preserves, or_raise-Preserves, query-Preserves, query_one-Preserves,
  raise_if-Preserves, observe-Preserves, flush-Preserves, lock-Preserves, >>=-Preserves,
  >>-Preserves, if-Preserves, catch_operational-Preserves, transactional-Preserves,
)
