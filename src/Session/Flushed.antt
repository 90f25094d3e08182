-- ===== src/Session/Flushed.antt =====
-- The constraints of the tables hold again after a flush, whatever was written before it.
use production_library_manag.Prelude.{◌≡◌, true}
use production_library_manag.Models.{Db, satisfies_constraints}
use production_library_manag.Session.Monad.{M, Session, Result, ok, err, flush, ◌>>=◌, ◌>>◌}
use production_library_manag.Session.Logic.{
  Ensures, OnOk, flush-Ensures, weaken-Ensures, strengthen-Ensures, >>=-Ensures,
}
use production_library_manag.Session.Preserve.{Preserves}

abbrev pub Satisfied : Db → Type 0
Satisfied d = satisfies_constraints d ≡ true

abbrev pub Anything : Db → Type 0
Anything d = Unit {0}

-- After a normal end the constraints hold, whatever was the case before.
pub record Restores {A : Type 0} (m : M A) : Type 0 where
  pub restored : Ensures Anything m (λ _. Satisfied)

anything-OnOk : {A : Type 0} (x : Result A × Session) → OnOk (λ _. Anything) x
anything-OnOk (ok a, s) = tt
anything-OnOk (err e, s) = tt

anything : {A : Type 0} (m : M A) → Ensures Anything m (λ _. Anything)
anything m = record { on_ok = λ s h. anything-OnOk (m s) }

pub flush-Restores : Restores flush
flush-Restores = record { restored = weaken-Ensures flush (flush-Ensures Anything) (λ _ d h. h.1) }

module _ {A B : Type 0} (m : M A) (f : A → M B) where
  -- What comes before an action that restores the constraints is no matter.
  pub before-Restores : ((a : A) → Restores (f a)) → Restores (m >>= f)
  before-Restores q = record { restored = >>=-Ensures m f (anything m) (λ a. (q a).restored) }

  -- What comes after it has to keep them.
  pub after-Restores : Restores m → ((a : A) → Preserves Satisfied (f a)) → Restores (m >>= f)
  after-Restores p q = record { restored = >>=-Ensures m f p.restored (λ a. (q a).ensured) }

module _ {B : Type 0} (m : M (Unit {0})) (n : M B) where
  pub before_next-Restores : Restores n → Restores (m >> n)
  before_next-Restores q = before-Restores m (λ _. n) (λ _. q)

  pub after_next-Restores : Restores m → Preserves Satisfied n → Restores (m >> n)
  after_next-Restores p q = after-Restores m (λ _. n) p (λ _. q)

pub ruleset restores =
    (flush-Restores, before-Restores, before_next-Restores, after-Restores, after_next-Restores)

pub Restores-Preserves : {A : Type 0} (m : M A) → Restores m → Preserves Satisfied m
Restores-Preserves m p = record { ensured = strengthen-Ensures m (λ d h. tt) p.restored }
