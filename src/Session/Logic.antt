-- ===== src/Session/Logic.antt =====
-- Partial correctness of actions: what a normal end ensures of the result and the database. What
-- a raise leaves is no matter here, since the transaction is rolled back.
use production_library_manag.Prelude.{
  ◌+◌, ◌≡◌, refl, sym, ◌∙◌, Option, none, some, Bool, true, false, List, ltb, arith, if◌then◌else◌,
}
use production_library_manag.Errors.{Error}
use production_library_manag.Models.{Db, satisfies_constraints}
use production_library_manag.Session.Monad.{
  M, Env, Lock, Session, Metrics, Result, ok, err, begin, close, leave, caught, and_then,
  transactional, catch_operational, lock, query, query_one, scalar_one_or_none, modify, observe,
  pure, raise, or_raise, raise_if, flush, ◌>>=◌, ◌>>◌,
}

-- An action that leaves the rows alone.
pub record Reads {A : Type 0} (m : M A) : Type 0 where
  pub same_db : (s : Session) → (m s).1.db ≡ s.db

module _ {A : Type 0} where
  pub pure-Reads : (a : A) → Reads (pure a)
  pure-Reads a = record { same_db = λ s. refl }

  pub raise-Reads : (e : Error) → Reads (raise {A = A} e)
  raise-Reads e = record { same_db = λ s. refl }

  pub or_raise-Reads : (o : Option A) (e : Error) → Reads (or_raise o e)
  or_raise-Reads none e = raise-Reads e
  or_raise-Reads (some a) e = pure-Reads a

  pub query-Reads : (f : Db → A) → Reads (query f)
  query-Reads f = record { same_db = λ s. refl }

  pub query_one-Reads : (f : Db → List A) → Reads (query_one f)
  query_one-Reads f = record { same_db = λ s. refl }

pub raise_if-Reads : (b : Bool) (e : Error) → Reads (raise_if b e)
raise_if-Reads b e = record { same_db = λ s. refl }

pub observe-Reads : (f : Metrics → Metrics) → Reads (observe f)
observe-Reads f = record { same_db = λ s. refl }

pub flush-Reads : Reads flush
flush-Reads = record { same_db = λ s. refl }

pub lock-Reads : (env : Env) (l : Lock) → Reads (lock env l)
lock-Reads env l = record { same_db = λ s. ground arith }

module _ {A B : Type 0} where
  and_then-same_db :
      (x : Result A × Session) (f : A → M B)
      → ((a : A) → Reads (f a))
      → (and_then x f).1.db ≡ x.1.db
  and_then-same_db (ok a, s) f q = (q a).same_db s
  and_then-same_db (err e, s) f q = refl

  pub >>=-Reads : (m : M A) (f : A → M B) → Reads m → ((a : A) → Reads (f a)) → Reads (m >>= f)
  >>=-Reads m f p q = record { same_db = λ s. and_then-same_db (m s) f q ∙ p.same_db s }

pub >>-Reads : {B : Type 0} (m : M (Unit {0})) (n : M B) → Reads m → Reads n → Reads (m >> n)
>>-Reads m n p q = >>=-Reads m (λ _. n) p (λ _. q)

pub ruleset reads = (
  pure-Reads, raise-Reads, or_raise-Reads, query-Reads, query_one-Reads, raise_if-Reads,
  observe-Reads, flush-Reads, lock-Reads, >>=-Reads, >>-Reads,
)

abbrev pub OnOk : {A : Type 0} → (A → Db → Type 0) → Result A × Session → Type 0
OnOk Q (ok a, s) = Q a s.db
OnOk Q (err e, s) = Unit

-- From a database where `P` holds, a normal end gives a result and a database where `Q` holds.
pub record Ensures {A : Type 0} (P : Db → Type 0) (m : M A) (Q : A → Db → Type 0) : Type 0 where
  pub on_ok : (s : Session) → P s.db → OnOk Q (m s)

module _ {A : Type 0} (P : Db → Type 0) where
  reads-OnOk : (d : Db) (x : Result A × Session) → x.1.db ≡ d → P d → OnOk (λ _ d'. P d') x
  reads-OnOk d (ok a, s) e h = rw e h
  reads-OnOk d (err _, s) e h = tt

  pub reads-Ensures : (m : M A) → Reads m → Ensures P m (λ _. P)
  reads-Ensures m r = record { on_ok = λ s h. reads-OnOk s.db (m s) (r.same_db s) h }

  pub pure-Ensures : (a : A) → Ensures P (pure a) (λ x d. P d × (x ≡ a))
  pure-Ensures a = record { on_ok = λ s h. (h, refl) }

  pub query-Ensures : (f : Db → A) → Ensures P (query f) (λ x d. P d × (x ≡ f d))
  query-Ensures f = record { on_ok = λ s h. (h, refl) }

  pub or_raise-Ensures :
      (o : Option A) (e : Error) → Ensures P (or_raise o e) (λ a d. P d × (o ≡ some a))
  or_raise-Ensures none e = record { on_ok = λ s h. tt }
  or_raise-Ensures (some a) e = record { on_ok = λ s h. (h, refl) }

module _ (P : Db → Type 0) where
  pub raise_if-Ensures :
      (b : Bool) (e : Error) → Ensures P (raise_if b e) (λ _ d. P d × (b ≡ false))
  raise_if-Ensures true e = record { on_ok = λ s h. tt }
  raise_if-Ensures false e = record { on_ok = λ s h. (h, refl) }

  flush-OnOk :
      (b : Bool) (s : Session)
      → P s.db
      → satisfies_constraints s.db ≡ b
      → OnOk {A = Unit {0}}
          (λ _ d. P d × (satisfies_constraints d ≡ true))
          (if b then ok tt else err Error.integrity_error, s)
  flush-OnOk true s h e = (h, e)
  flush-OnOk false s h e = tt

  pub flush-Ensures : Ensures P flush (λ _ d. P d × (satisfies_constraints d ≡ true))
  flush-Ensures = record { on_ok = λ s h. flush-OnOk (satisfies_constraints s.db) s h refl }

  pub modify-Ensures :
      {Q : Db → Type 0} (f : Db → Db) → ((d : Db) → P d → Q (f d)) → Ensures P (modify f) (λ _. Q)
  modify-Ensures f h = record { on_ok = λ s p. h s.db p }

module _ {A B : Type 0} where
  and_then-OnOk :
      {Q : A → Db → Type 0} {R : B → Db → Type 0} (x : Result A × Session) (f : A → M B)
      → OnOk Q x
      → ((a : A) → Ensures (Q a) (f a) R)
      → OnOk R (and_then x f)
  and_then-OnOk (ok a, s) f h q = (q a).on_ok s h
  and_then-OnOk (err e, s) f h q = tt

  pub >>=-Ensures :
      {P : Db → Type 0} {Q : A → Db → Type 0} {R : B → Db → Type 0} (m : M A) (f : A → M B)
      → Ensures P m Q
      → ((a : A) → Ensures (Q a) (f a) R)
      → Ensures P (m >>= f) R
  >>=-Ensures m f p q = record { on_ok = λ s h. and_then-OnOk (m s) f (p.on_ok s h) q }

module _ {A : Type 0} where
  OnOk-mono :
      {Q R : A → Db → Type 0} (x : Result A × Session)
      → ((a : A) (d : Db) → Q a d → R a d)
      → OnOk Q x
      → OnOk R x
  OnOk-mono (ok a, s) f h = f a s.db h
  OnOk-mono (err e, s) f h = tt

  OnOk-caught : (Q : A → Db → Type 0) (x : Result A × Session) → OnOk Q x → OnOk Q (caught x)
  OnOk-caught Q (ok a, s) h = h
  OnOk-caught Q (err e, s) h = tt

  OnOk-close : (Q : A → Db → Type 0) (x : Result A × Session) → OnOk Q x → OnOk Q (close x)
  OnOk-close Q (ok a, s) h = h
  OnOk-close Q (err e, s) h = tt

  OnOk-leave : (Q : A → Db → Type 0) (x : Result A × Session) → OnOk Q x → OnOk Q (leave x)
  OnOk-leave Q (ok a, s) h = h
  OnOk-leave Q (err e, s) h = tt

module _ {A : Type 0} {P : Db → Type 0} {Q : A → Db → Type 0} where
  pub weaken-Ensures :
      {R : A → Db → Type 0} (m : M A)
      → Ensures P m Q
      → ((a : A) (d : Db) → Q a d → R a d)
      → Ensures P m R
  weaken-Ensures m p f = record { on_ok = λ s h. OnOk-mono (m s) f (p.on_ok s h) }

  pub strengthen-Ensures :
      {O : Db → Type 0} (m : M A) → ((d : Db) → O d → P d) → Ensures P m Q → Ensures O m Q
  strengthen-Ensures m f p = record { on_ok = λ s h. p.on_ok s (f s.db h) }

  pub catch_operational-Ensures : (m : M A) → Ensures P m Q → Ensures P (catch_operational m) Q
  catch_operational-Ensures m p = record { on_ok = λ s h. OnOk-caught Q (m s) (p.on_ok s h) }

  transactional-OnOk :
      (m : M A) (s : Session) (nested : Bool)
      → ltb 0 s.depth ≡ nested
      → Ensures P m Q
      → P s.db
      → OnOk Q (transactional m s)
  unfolding transactional
  transactional-OnOk m s true e p h =
      rw e (OnOk-leave Q (m (record s { depth = s.depth + 1 })) (p.on_ok _ h))
  transactional-OnOk m s false e p h = rw e (OnOk-close Q (m (begin s)) (p.on_ok _ h))

  pub transactional-Ensures : (m : M A) → Ensures P m Q → Ensures P (transactional m) Q
  transactional-Ensures m p = record {
    on_ok = λ s h. transactional-OnOk m s (ltb 0 s.depth) refl p h;
  }

-- A row that was looked up, and is there.
pub found-Ensures :
    {A : Type 0} {P : Db → Type 0} (f : Db → Option A) (o : Option A) (e : Error)
    → Ensures (λ d. P d × (o ≡ f d)) (or_raise o e) (λ a d. P d × (f d ≡ some a))
found-Ensures f none e = record { on_ok = λ s h. tt }
found-Ensures f (some a) e = record { on_ok = λ s h. (h.0, sym h.1) }

query_one-OnOk :
    {A : Type 0} (P : Db → Type 0) (f : Db → List A) (s : Session) (r : Result (Option A))
    → scalar_one_or_none (f s.db) ≡ r
    → P s.db
    → OnOk (λ o d. P d × (scalar_one_or_none (f d) ≡ ok o)) (r, s)
query_one-OnOk P f s (ok o) e h = (h, e)
query_one-OnOk P f s (err x) e h = tt

pub query_one-Ensures :
    {A : Type 0} (P : Db → Type 0) (f : Db → List A)
    → Ensures P (query_one f) (λ o d. P d × (scalar_one_or_none (f d) ≡ ok o))
query_one-Ensures P f = record {
  on_ok = λ s h. query_one-OnOk P f s (scalar_one_or_none (f s.db)) refl h;
}

-- An action that ends with a flush and a given result.
pub flush_pure-Ensures :
    {A : Type 0} (Q : A → Db → Type 0) (a : A) → Ensures (Q a) (flush >> pure a) Q
flush_pure-Ensures Q a =
    >>=-Ensures _ _ (reads-Ensures (Q a) flush flush-Reads) (λ _. record { on_ok = λ s h. h })

module _ {A : Type 0} where
  both-OnOk :
      (Q R : A → Db → Type 0) (x : Result A × Session)
      → OnOk Q x
      → OnOk R x
      → OnOk (λ a d. Q a d × R a d) x
  both-OnOk Q R (ok a, s) q r = (q, r)
  both-OnOk Q R (err e, s) q r = tt

  -- What two triples ensure of one action holds together.
  pub both-Ensures :
      {P O : Db → Type 0} {Q R : A → Db → Type 0} (m : M A)
      → Ensures P m Q
      → Ensures O m R
      → Ensures (λ d. P d × O d) m (λ a d. Q a d × R a d)
  both-Ensures {Q} {R} m p o = record {
    on_ok = λ s h. both-OnOk Q R (m s) (p.on_ok s h.0) (o.on_ok s h.1);
  }
