-- ===== src/Session/Settling.antt =====
-- Actions that begin between requests and end between requests, in a settled session.
use production_library_manag.Models.{Db}
use production_library_manag.Session.Monad.{
  M, Session, Metrics, Result, ok, err, and_then, observe, transactional, ◌>>=◌, ◌>>◌,
}
use production_library_manag.Session.Looks.{Looks}
use production_library_manag.Session.Safe.{IsSettled, Safe, transactional-IsSettled}

pub record Settles {A : Type 0} (P : Db → Type 0) (m : M A) : Type 0 where
  pub settles : (s : Session) → IsSettled P s → IsSettled P (m s).1

module _ (P : Db → Type 0) where
  pub Looks-Settles : {A : Type 0} (m : M A) → Looks m → Settles P m
  Looks-Settles m l = record { settles = λ s h. rw (l.same s) h }

  pub observe-Settles : (f : Metrics → Metrics) → Settles P (observe f)
  observe-Settles f = record {
    settles = λ s h. record { outside = h.outside; saved = h.saved; kept = h.kept };
  }

  pub transactional-Settles : {A : Type 0} (m : M A) → Safe P m → Settles P (transactional m)
  transactional-Settles m p = record { settles = λ s h. transactional-IsSettled P m p s h }

  module _ {A B : Type 0} where
    and_then-IsSettled :
        (x : Result A × Session) (f : A → M B)
        → ((a : A) → Settles P (f a))
        → IsSettled P x.1
        → IsSettled P (and_then x f).1
    and_then-IsSettled (ok a, s) f q h = (q a).settles s h
    and_then-IsSettled (err e, s) f q h = h

    pub >>=-Settles :
        (m : M A) (f : A → M B) → Settles P m → ((a : A) → Settles P (f a)) → Settles P (m >>= f)
    >>=-Settles m f p q = record { settles = λ s h. and_then-IsSettled (m s) f q (p.settles s h) }

  pub >>-Settles :
      {B : Type 0} (m : M (Unit {0})) (n : M B) → Settles P m → Settles P n → Settles P (m >> n)
  >>-Settles m n p q = >>=-Settles m (λ _. n) p (λ _. q)
