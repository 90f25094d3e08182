-- ===== src/Session/Atomic.antt =====
-- `@transactional` is all or nothing.
use production_library_manag.Prelude.{
  ◌+◌, ◌<◌, ◌≡◌, refl, ◌∙◌, Option, none, some, Bool, true, false, List, arith, if◌then◌else◌,
}
use production_library_manag.Errors.{Error}
use production_library_manag.Models.{Db}
use production_library_manag.Session.Monad.{
  M, Env, begin, and_then, Lock, Session, Metrics, Result, ok, err, begin, transactional,
  catch_operational, lock, query, query_one, modify, observe, pure, raise, or_raise, raise_if,
  flush, ◌>>=◌, ◌>>◌,
}

-- Inside a block an action neither commits nor ends the block.
pub record Frames {A : Type 0} (m : M A) : Type 0 where
  pub committed : (s : Session) → 0 < s.depth → (m s).1.committed ≡ s.committed
  pub depth : (s : Session) → 0 < s.depth → (m s).1.depth ≡ s.depth

module _ {A : Type 0} where
  pub pure-Frames : (a : A) → Frames (pure a)
  pure-Frames a = record { committed = λ s h. refl; depth = λ s h. refl }

  pub raise-Frames : (e : Error) → Frames (raise {A = A} e)
  raise-Frames e = record { committed = λ s h. refl; depth = λ s h. refl }

  pub or_raise-Frames : (o : Option A) (e : Error) → Frames (or_raise o e)
  or_raise-Frames none e = raise-Frames e
  or_raise-Frames (some a) e = pure-Frames a

  pub query-Frames : (f : Db → A) → Frames (query f)
  query-Frames f = record { committed = λ s h. refl; depth = λ s h. refl }

  pub query_one-Frames : (f : Db → List A) → Frames (query_one f)
  query_one-Frames f = record { committed = λ s h. refl; depth = λ s h. refl }

  pub if-Frames : (b : Bool) (m n : M A) → Frames m → Frames n → Frames (if b then m else n)
  if-Frames true m n p q = p
  if-Frames false m n p q = q

  pub catch_operational-Frames : (m : M A) → Frames m → Frames (catch_operational m)
  catch_operational-Frames m p = record {
    committed = λ s h. ground (arith, p.committed s h);
    depth = λ s h. ground (arith, p.depth s h);
  }

  pub transactional-Frames : (m : M A) → Frames m → Frames (transactional m)
  unfolding transactional
  transactional-Frames m p = record {
    committed = λ s h. ground (arith, p.committed (record s { depth = s.depth + 1 }) (omega arith));
    depth = λ s h. ground (arith, p.depth (record s { depth = s.depth + 1 }) (omega arith));
  }

pub raise_if-Frames : (b : Bool) (e : Error) → Frames (raise_if b e)
raise_if-Frames b e = record { committed = λ s h. refl; depth = λ s h. refl }

pub modify-Frames : (f : Db → Db) → Frames (modify f)
modify-Frames f = record { committed = λ s h. refl; depth = λ s h. refl }

pub observe-Frames : (f : Metrics → Metrics) → Frames (observe f)
observe-Frames f = record { committed = λ s h. refl; depth = λ s h. refl }

pub flush-Frames : Frames flush
flush-Frames = record { committed = λ s h. refl; depth = λ s h. refl }

pub lock-Frames : (env : Env) (l : Lock) → Frames (lock env l)
lock-Frames env l = record { committed = λ s h. ground arith; depth = λ s h. ground arith }

module _ {A B : Type 0} where
  and_then-committed :
      (s : Session) (x : Result A × Session) (f : A → M B)
      → 0 < s.depth
      → x.1.committed ≡ s.committed
      → x.1.depth ≡ s.depth
      → ((a : A) → Frames (f a))
      → (and_then x f).1.committed ≡ s.committed
  and_then-committed s (ok a, s') f h c d q = (q a).committed s' (omega arith) ∙ c
  and_then-committed s (err e, s') f h c d q = c

  and_then-depth :
      (s : Session) (x : Result A × Session) (f : A → M B)
      → 0 < s.depth
      → x.1.depth ≡ s.depth
      → ((a : A) → Frames (f a))
      → (and_then x f).1.depth ≡ s.depth
  and_then-depth s (ok a, s') f h d q = (q a).depth s' (omega arith) ∙ d
  and_then-depth s (err e, s') f h d q = d

  pub >>=-Frames : (m : M A) (f : A → M B) → Frames m → ((a : A) → Frames (f a)) → Frames (m >>= f)
  >>=-Frames m f p q = record {
    committed = λ s h. and_then-committed s (m s) f h (p.committed s h) (p.depth s h) q;
    depth = λ s h. and_then-depth s (m s) f h (p.depth s h) q;
  }

pub >>-Frames : {B : Type 0} (m : M (Unit {0})) (n : M B) → Frames m → Frames n → Frames (m >> n)
>>-Frames m n p q = >>=-Frames m (λ _. n) p (λ _. q)

pub ruleset frames = (
  pure-Frames, raise-Frames, or_raise-Frames, query-Frames, query_one-Frames, raise_if-Frames,
  modify-Frames, observe-Frames, flush-Frames, lock-Frames, >>=-Frames, >>-Frames,
  catch_operational-Frames, transactional-Frames,
)

-- How a call that began at `s`, outside any block, ends: what it returned is committed with what
-- it did, and what it raised leaves the database as it was.
abbrev pub Atomically : {A : Type 0} → Session → Result A × Session → Type 0
Atomically s (ok a, s') = (s'.committed ≡ s'.db) × (s'.depth ≡ 0)
Atomically s (err e, s') = (s'.db ≡ s.db) × (s'.committed ≡ s.db) × (s'.depth ≡ 0)

pub transactional-Atomically :
    {A : Type 0} (m : M A)
    → Frames m
    → (s : Session) → s.depth ≡ 0
    → Atomically s (transactional m s)
unfolding transactional
transactional-Atomically m p s h =
    ground (arith, p.committed (begin s) (omega arith), p.depth (begin s) (omega arith))
