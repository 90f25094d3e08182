-- ===== src/Session/Total.antt =====
-- Total correctness of actions: what a normal end ensures, and that the action does end normally.
use production_library_manag.Prelude.{
  ◌+◌, ◌≡◌, refl, sym, subst, Option, none, some, Bool, true, false, ltb,
}
use production_library_manag.Errors.{Error}
use production_library_manag.Models.{Db, satisfies_constraints}
use production_library_manag.Session.Monad.{
  M, Env, Lock, Session, Metrics, Result, ok, err, begin, close, leave, caught, and_then,
  transactional, catch_operational, lock, query, modify, observe, pure, or_raise, raise_if, flush,
  ◌>>=◌,
}
use production_library_manag.Session.Logic.{Ensures, OnOk}
use production_library_manag.Session.Atomic.{Frames, Atomically, transactional-Atomically}

abbrev pub Achieved : {A : Type 0} → (A → Db → Type 0) → Result A × Session → Type 0
Achieved Q (ok a, s) = Q a s.db
Achieved Q (err e, s) = ⊥

-- From a database where `P` holds, the action ends normally, with a result and a database where
-- `Q` holds.
pub record Achieves {A : Type 0} (P : Db → Type 0) (m : M A) (Q : A → Db → Type 0) : Type 0 where
  pub achieved : (s : Session) → P s.db → Achieved Q (m s)

module _ {A : Type 0} (P : Db → Type 0) where
  pub pure-Achieves : (a : A) → Achieves P (pure a) (λ x d. P d × (x ≡ a))
  pure-Achieves a = record { achieved = λ s h. (h, refl) }

  pub query-Achieves : (f : Db → A) → Achieves P (query f) (λ x d. P d × (x ≡ f d))
  query-Achieves f = record { achieved = λ s h. (h, refl) }

  -- A row that is looked up, and known to be there.
  pub found-Achieves :
      (o : Option A) (a : A) (e : Error)
      → Achieves (λ d. P d × (o ≡ some a)) (or_raise o e) (λ x d. P d × (x ≡ a))
  found-Achieves none a e = record { achieved = λ s h. cc }
  found-Achieves (some x) a e = record { achieved = λ s h. (h.0, cc) }

module _ (P : Db → Type 0) where
  pub raise_if-Achieves : (b : Bool) (e : Error) → b ≡ false → Achieves P (raise_if b e) (λ _. P)
  raise_if-Achieves true e no_raise = absurd (cc)
  raise_if-Achieves false e no_raise = record { achieved = λ s h. h }

  pub observe-Achieves : (f : Metrics → Metrics) → Achieves P (observe f) (λ _. P)
  observe-Achieves f = record { achieved = λ s h. h }

  pub modify-Achieves :
      {Q : Db → Type 0} (f : Db → Db) → ((d : Db) → P d → Q (f d)) → Achieves P (modify f) (λ _. Q)
  modify-Achieves f h = record { achieved = λ s p. h s.db p }

  -- A lock that is not refused.
  pub lock-Achieves :
      (env : Env) (l : Lock) → env.conflict l ≡ false → Achieves P (lock env l) (λ _. P)
  lock-Achieves env l free = record { achieved = λ s h. rw free h }

  -- A flush of rows that the database accepts.
  pub flush-Achieves : ((d : Db) → P d → satisfies_constraints d ≡ true) → Achieves P flush (λ _. P)
  flush-Achieves accepted = record { achieved = λ s h. rw (accepted s.db h) h }

module _ {A B : Type 0} where
  and_then-Achieved :
      {Q : A → Db → Type 0} {R : B → Db → Type 0} (x : Result A × Session) (f : A → M B)
      → Achieved Q x
      → ((a : A) → Achieves (Q a) (f a) R)
      → Achieved R (and_then x f)
  and_then-Achieved (ok a, s) f h q = (q a).achieved s h
  and_then-Achieved (err e, s) f h q = absurd h

  pub >>=-Achieves :
      {P : Db → Type 0} {Q : A → Db → Type 0} {R : B → Db → Type 0} (m : M A) (f : A → M B)
      → Achieves P m Q
      → ((a : A) → Achieves (Q a) (f a) R)
      → Achieves P (m >>= f) R
  >>=-Achieves m f p q = record { achieved = λ s h. and_then-Achieved (m s) f (p.achieved s h) q }

module _ {A : Type 0} where
  Achieved-mono :
      {Q R : A → Db → Type 0} (x : Result A × Session)
      → ((a : A) (d : Db) → Q a d → R a d)
      → Achieved Q x
      → Achieved R x
  Achieved-mono (ok a, s) f h = f a s.db h
  Achieved-mono (err e, s) f h = absurd h

  Achieved-caught :
      (Q : A → Db → Type 0) (x : Result A × Session) → Achieved Q x → Achieved Q (caught x)
  Achieved-caught Q (ok a, s) h = h
  Achieved-caught Q (err e, s) h = absurd h

  Achieved-close :
      (Q : A → Db → Type 0) (x : Result A × Session) → Achieved Q x → Achieved Q (close x)
  Achieved-close Q (ok a, s) h = h
  Achieved-close Q (err e, s) h = absurd h

  Achieved-leave :
      (Q : A → Db → Type 0) (x : Result A × Session) → Achieved Q x → Achieved Q (leave x)
  Achieved-leave Q (ok a, s) h = h
  Achieved-leave Q (err e, s) h = absurd h

  -- What is ensured of a normal end holds when there is one.
  Achieved-both :
      (Q R : A → Db → Type 0) (x : Result A × Session)
      → Achieved Q x
      → OnOk R x
      → Achieved (λ a d. Q a d × R a d) x
  Achieved-both Q R (ok a, s) q r = (q, r)
  Achieved-both Q R (err e, s) q r = absurd q

  Achieved-committed :
      (Q : A → Db → Type 0) (s : Session) (x : Result A × Session)
      → Achieved Q x
      → Atomically s x
      → (a : A) × (x.0 ≡ ok a) × Q a x.1.committed
  Achieved-committed Q s (ok a, s') h c = (a, refl, subst (Q a) (sym c.0) h)
  Achieved-committed Q s (err e, s') h c = absurd h

module _ {A : Type 0} {P : Db → Type 0} {Q : A → Db → Type 0} where
  pub weaken-Achieves :
      {R : A → Db → Type 0} (m : M A)
      → Achieves P m Q
      → ((a : A) (d : Db) → Q a d → R a d)
      → Achieves P m R
  weaken-Achieves m p f = record { achieved = λ s h. Achieved-mono (m s) f (p.achieved s h) }

  pub strengthen-Achieves :
      {O : Db → Type 0} (m : M A) → ((d : Db) → O d → P d) → Achieves P m Q → Achieves O m Q
  strengthen-Achieves m f p = record { achieved = λ s h. p.achieved s (f s.db h) }

  -- An action that ends normally also does what is ensured of its normal ends.
  pub both-Achieves :
      {O : Db → Type 0} {R : A → Db → Type 0} (m : M A)
      → Achieves P m Q
      → Ensures O m R
      → Achieves (λ d. P d × O d) m (λ a d. Q a d × R a d)
  both-Achieves {R} m p o = record {
    achieved = λ s h. Achieved-both Q R (m s) (p.achieved s h.0) (o.on_ok s h.1);
  }

  pub catch_operational-Achieves : (m : M A) → Achieves P m Q → Achieves P (catch_operational m) Q
  catch_operational-Achieves m p = record {
    achieved = λ s h. Achieved-caught Q (m s) (p.achieved s h);
  }

  transactional-Achieved :
      (m : M A) (s : Session) (nested : Bool)
      → ltb 0 s.depth ≡ nested
      → Achieves P m Q
      → P s.db
      → Achieved Q (transactional m s)
  unfolding transactional
  transactional-Achieved m s true e p h =
      rw e (Achieved-leave Q (m (record s { depth = s.depth + 1 })) (p.achieved _ h))
  transactional-Achieved m s false e p h = rw e (Achieved-close Q (m (begin s)) (p.achieved _ h))

  pub transactional-Achieves : (m : M A) → Achieves P m Q → Achieves P (transactional m) Q
  transactional-Achieves m p = record {
    achieved = λ s h. transactional-Achieved m s (ltb 0 s.depth) refl p h;
  }

  -- A block that ends normally commits what it achieves.
  pub transactional-committed :
      (m : M A) (s : Session)
      → Frames m
      → Achieves P (transactional m) Q
      → s.depth ≡ 0
      → P s.db
      → (a : A) × ((transactional m s).0 ≡ ok a) × Q a (transactional m s).1.committed
  transactional-committed m s f p outside h =
      Achieved-committed Q s (transactional m s) (p.achieved s h)
        (transactional-Atomically m f s outside)

-- Where an action that ends normally leaves the database.
Achieved-db :
    {A : Type 0} (Q : Db → Type 0) (x : Result A × Session) → Achieved (λ _. Q) x → Q x.1.db
Achieved-db Q (ok a, s) h = h
Achieved-db Q (err e, s) h = absurd h

pub Achieves-db :
    {A : Type 0} {P Q : Db → Type 0} (m : M A) (s : Session)
    → Achieves P m (λ _. Q)
    → P s.db
    → Q (m s).1.db
Achieves-db {Q} m s p h = Achieved-db Q (m s) (p.achieved s h)
