-- ===== src/Session/Looks.antt =====
-- Actions that leave the session as it was, also when they raise.
use production_library_manag.Prelude.{
  ◌≡◌, refl, ◌∙◌, Option, none, some, Bool, true, false, List, if◌then◌else◌,
}
use production_library_manag.Errors.{Error}
use production_library_manag.Models.{Db}
use production_library_manag.Session.Monad.{
  M, Session, Result, ok, err, and_then, query, query_one, pure, raise, or_raise, raise_if, ◌>>=◌,
  ◌>>◌,
}

pub record Looks {A : Type 0} (m : M A) : Type 0 where
  pub same : (s : Session) → (m s).1 ≡ s

module _ {A : Type 0} where
  pub pure-Looks : (a : A) → Looks (pure a)
  pure-Looks a = record { same = λ s. refl }

  pub raise-Looks : (e : Error) → Looks (raise {A = A} e)
  raise-Looks e = record { same = λ s. refl }

  pub or_raise-Looks : (o : Option A) (e : Error) → Looks (or_raise o e)
  or_raise-Looks none e = raise-Looks e
  or_raise-Looks (some a) e = pure-Looks a

  pub query-Looks : (f : Db → A) → Looks (query f)
  query-Looks f = record { same = λ s. refl }

  pub query_one-Looks : (f : Db → List A) → Looks (query_one f)
  query_one-Looks f = record { same = λ s. refl }

  pub if-Looks : (b : Bool) (m n : M A) → Looks m → Looks n → Looks (if b then m else n)
  if-Looks true m n p q = p
  if-Looks false m n p q = q

pub raise_if-Looks : (b : Bool) (e : Error) → Looks (raise_if b e)
raise_if-Looks b e = record { same = λ s. refl }

module _ {A B : Type 0} where
  and_then-same :
      (x : Result A × Session) (f : A → M B) → ((a : A) → Looks (f a)) → (and_then x f).1 ≡ x.1
  and_then-same (ok a, s) f q = (q a).same s
  and_then-same (err e, s) f q = refl

  pub >>=-Looks : (m : M A) (f : A → M B) → Looks m → ((a : A) → Looks (f a)) → Looks (m >>= f)
  >>=-Looks m f p q = record { same = λ s. and_then-same (m s) f q ∙ p.same s }

pub >>-Looks : {B : Type 0} (m : M (Unit {0})) (n : M B) → Looks m → Looks n → Looks (m >> n)
>>-Looks m n p q = >>=-Looks m (λ _. n) p (λ _. q)

pub ruleset looks = (
  pure-Looks, raise-Looks, or_raise-Looks, query-Looks, query_one-Looks, if-Looks, raise_if-Looks,
  >>=-Looks, >>-Looks,
)
