-- ===== src/Session/Safe.antt =====
-- Actions that keep a predicate on what the session sees and on what is committed, however they
-- end: also one that commits inside its block and then raises.
use production_library_manag.Prelude.{
  ◌≡◌, refl, ◌∙◌, Option, none, some, Bool, true, false, List, arith, ltb, if◌then◌else◌,
}
use production_library_manag.Errors.{Error}
use production_library_manag.Models.{Db}
use production_library_manag.Session.Monad.{
  M, Session, Result, ok, err, and_then, begin, close, transactional, query, query_one, modify,
  pure, raise, or_raise, raise_if, flush, commit, ◌>>=◌, ◌>>◌,
}

-- Between requests: no transaction is open, all is committed, and a predicate holds of the database.
pub record IsSettled (P : Db → Type 0) (s : Session) : Type 0 where
  pub outside : s.depth ≡ 0
  pub saved : s.committed ≡ s.db
  pub kept : P s.db

abbrev pub Both : (Db → Type 0) → Session → Type 0
Both P s = P s.db × P s.committed

pub record Safe {A : Type 0} (P : Db → Type 0) (m : M A) : Type 0 where
  pub both : (s : Session) → Both P s → Both P (m s).1
  pub depth : (s : Session) → (m s).1.depth ≡ s.depth

module _ (P : Db → Type 0) {A : Type 0} where
  pub pure-Safe : (a : A) → Safe P (pure a)
  pure-Safe a = record { both = λ s h. h; depth = λ s. refl }

  pub raise-Safe : (e : Error) → Safe P (raise {A = A} e)
  raise-Safe e = record { both = λ s h. h; depth = λ s. refl }

  pub or_raise-Safe : (o : Option A) (e : Error) → Safe P (or_raise o e)
  or_raise-Safe none e = raise-Safe e
  or_raise-Safe (some a) e = pure-Safe a

  pub query-Safe : (f : Db → A) → Safe P (query f)
  query-Safe f = record { both = λ s h. h; depth = λ s. refl }

  pub query_one-Safe : (f : Db → List A) → Safe P (query_one f)
  query_one-Safe f = record { both = λ s h. h; depth = λ s. refl }

  pub if-Safe : (b : Bool) (m n : M A) → Safe P m → Safe P n → Safe P (if b then m else n)
  if-Safe true m n p q = p
  if-Safe false m n p q = q

  closed-IsSettled : (x : Result A × Session) → Both P x.1 → x.1.depth ≡ 1 → IsSettled P (close x).1
  closed-IsSettled (ok a, s) h e = record { outside = ground arith; saved = refl; kept = h.0 }
  closed-IsSettled (err e', s) h e = record { outside = ground arith; saved = refl; kept = h.1 }

  pub transactional-IsSettled :
      (m : M A) → Safe P m → (s : Session) → IsSettled P s → IsSettled P (transactional m s).1
  unfolding transactional
  transactional-IsSettled m p s h =
      let nested : ltb 0 s.depth ≡ false = ground (arith, h.outside) in
      rw nested
        (closed-IsSettled (m (begin s)) (p.both (begin s) (h.kept, h.kept)) (p.depth (begin s)))

module _ (P : Db → Type 0) where
  pub raise_if-Safe : (b : Bool) (e : Error) → Safe P (raise_if b e)
  raise_if-Safe b e = record { both = λ s h. h; depth = λ s. refl }

  pub flush-Safe : Safe P flush
  flush-Safe = record { both = λ s h. h; depth = λ s. refl }

  pub commit-Safe : Safe P commit
  commit-Safe = record { both = λ s h. (h.0, h.0); depth = λ s. refl }

  pub modify-Safe : (f : Db → Db) → ((d : Db) → P d → P (f d)) → Safe P (modify f)
  modify-Safe f k = record { both = λ s h. (k s.db h.0, h.1); depth = λ s. refl }

  module _ {A B : Type 0} where
    and_then-Both :
        (x : Result A × Session) (f : A → M B)
        → ((a : A) → Safe P (f a))
        → Both P x.1
        → Both P (and_then x f).1
    and_then-Both (ok a, s) f q h = (q a).both s h
    and_then-Both (err e, s) f q h = h

    and_then-depth :
        (x : Result A × Session) (f : A → M B)
        → ((a : A) → Safe P (f a))
        → (and_then x f).1.depth ≡ x.1.depth
    and_then-depth (ok a, s) f q = (q a).depth s
    and_then-depth (err e, s) f q = refl

    pub >>=-Safe : (m : M A) (f : A → M B) → Safe P m → ((a : A) → Safe P (f a)) → Safe P (m >>= f)
    >>=-Safe m f p q = record {
      both = λ s h. and_then-Both (m s) f q (p.both s h);
      depth = λ s. and_then-depth (m s) f q ∙ p.depth s;
    }

  pub >>-Safe : {B : Type 0} (m : M (Unit {0})) (n : M B) → Safe P m → Safe P n → Safe P (m >> n)
  >>-Safe m n p q = >>=-Safe m (λ _. n) p (λ _. q)

pub ruleset safe = (
  pure-Safe, raise-Safe, or_raise-Safe, query-Safe, query_one-Safe, if-Safe, raise_if-Safe,
  flush-Safe, commit-Safe, >>=-Safe, >>-Safe,
)
