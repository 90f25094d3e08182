-- ===== src/Migrations/Reversal.antt =====
-- The migrations go back by the way they came.
use production_library_manag.Prelude.{
  ◌≡◌, refl, sym, ap, ◌∙◌, Option, none, some, Bool, true, false, not, any, all, select, str_eq,
  String, List, [], ◌∷◌, ◌++◌, arith, All,
}
use mathlib.Core.List.{append_assoc, append-nil}
use production_library_manag.Migrations.Catalogue.{
  Table, Constraint, check, foreign_key, primary_key, unique, Operation, create_table, create_index,
  drop_index, drop_table, Catalogue, alter, with_index, without_index, has, refers, target_there,
  may_drop, allowed, perform, execute_all,
}
use production_library_manag.Migrations.Initial
use production_library_manag.Migrations.Reservations

-- No table of the catalogue has that name, or has a foreign key to it.
abbrev pub Foreign : Catalogue → String → Type 0
Foreign c name = (has name c ≡ false) × (any (refers name) c ≡ false)

abbrev TargetForeign : Catalogue → Constraint → Type 0
TargetForeign c (foreign_key _ table _) = Foreign c table
TargetForeign c _ = Unit

-- Nothing that the operation names is of the catalogue.
abbrev Apart : Catalogue → Operation → Type 0
Apart c (create_table t) = Foreign c t.name × All (TargetForeign c) t.constraints
Apart c (create_index table i) = Foreign c table
Apart c (drop_index table i) = Foreign c table
Apart c (drop_table name) = Foreign c name

any-append :
    {A : Type 0} (p : A → Bool) (xs ys : List A) → any p xs ≡ false → any p (xs ++ ys) ≡ any p ys
any-append p [] ys h = refl
any-append p (x ∷ xs) ys h = ground (arith, any-append p xs ys)

alter-append :
    (name : String) (f : Table → Table) (c ts : Catalogue)
    → has name c ≡ false
    → alter name f (c ++ ts) ≡ c ++ alter name f ts
unfolding alter
alter-append name f [] ts h = refl
alter-append name f (t ∷ c) ts h = ground (arith, alter-append name f c ts)

drop-append :
    (name : String) (c ts : Catalogue)
    → has name c ≡ false
    → select (λ (t : Table). not (str_eq t.name name)) (c ++ ts)
      ≡ c ++ select (λ (t : Table). not (str_eq t.name name)) ts
drop-append name [] ts h = refl
drop-append name (t ∷ c) ts h = ground (arith, drop-append name c ts)

-- An operation leaves the tables that it does not name alone.
perform-append :
    (o : Operation) (c ts : Catalogue) → Apart c o → perform o (c ++ ts) ≡ c ++ perform o ts
perform-append (create_table t) c ts h = append_assoc c ts (t ∷ [])
perform-append (create_index table i) c ts h = alter-append table (with_index i) c ts h.0
perform-append (drop_index table i) c ts h = alter-append table (without_index i) c ts h.0
perform-append (drop_table name) c ts h = drop-append name c ts h.0

target_there-append :
    (c ts : Catalogue) (k : Constraint)
    → TargetForeign c k
    → target_there (c ++ ts) k ≡ target_there ts k
target_there-append c ts (check k) h = refl
target_there-append c ts (foreign_key _ table _) h = any-append _ c ts h.0
target_there-append c ts (primary_key _) h = refl
target_there-append c ts (unique _) h = refl

targets_there-append :
    (c ts : Catalogue) (ks : List Constraint)
    → All (TargetForeign c) ks
    → all (target_there (c ++ ts)) ks ≡ all (target_there ts) ks
targets_there-append c ts [] h = refl
targets_there-append c ts (k ∷ ks) h =
    ground (arith, target_there-append c ts k h.0, targets_there-append c ts ks h.1)

may_drop-none :
    (b : Bool) (table i : String) (c : Catalogue)
    → has table c ≡ false
    → any (may_drop b table i) c ≡ false
may_drop-none b table i [] h = refl
may_drop-none b table i (t ∷ c) h = ground (arith, may_drop-none b table i c)

-- Nor do they bear on whether it is allowed.
allowed-append :
    (b : Bool) (o : Operation) (c ts : Catalogue)
    → Apart c o
    → allowed b o (c ++ ts) ≡ allowed b o ts
allowed-append b (create_table t) c ts h =
    rw (any-append _ c ts h.0.0, targets_there-append c ts t.constraints h.1)
allowed-append b (create_index table i) c ts h = any-append _ c ts h.0
allowed-append b (drop_index table i) c ts h = any-append _ c ts (may_drop-none b table i c h.0)
allowed-append b (drop_table name) c ts h =
    rw (any-append _ c ts h.0, any-append (refers name) c ts h.1)

abbrev beside : Catalogue → Option Catalogue → Option Catalogue
beside c none = none
beside c (some ts) = some (c ++ ts)

execute_all-append :
    (b : Bool) (os : List Operation) (c ts : Catalogue)
    → All (Apart c) os
    → execute_all b os (c ++ ts) ≡ beside c (execute_all b os ts)
unfolding execute_all
execute_all-append b [] c ts h = refl
execute_all-append b (o ∷ os) c ts h = ground (
  arith,
  allowed-append b o c ts h.0,
  perform-append o c ts h.0,
  execute_all-append b os c (perform o ts) h.1,
)

abbrev pub upgrades : List Operation
upgrades = Initial.upgrade ++ Reservations.upgrade

abbrev pub downgrades : List Operation
downgrades = Reservations.downgrade ++ Initial.downgrade

abbrev pub names : List String
names = "books" ∷ "users" ∷ "members" ∷ "refresh_tokens" ∷ "borrow_records" ∷ "reservations" ∷ []

up_and_down-Apart : (c : Catalogue) → All (Foreign c) names → All (Apart c) (upgrades ++ downgrades)
up_and_down-Apart c (b, (u, (m, (t, (l, (r, _)))))) = ground arith

up_and_back-Apart :
    (c : Catalogue) → All (Foreign c) names → All (Apart c) (upgrades ++ Reservations.downgrade)
up_and_back-Apart c (b, (u, (m, (t, (l, (r, _)))))) = ground arith

up_and_down-empty : execute_all false (upgrades ++ downgrades) [] ≡ some []
unfolding execute_all alter
up_and_down-empty = refl

up_and_back-empty : execute_all true (upgrades ++ Reservations.downgrade) [] ≡ none
unfolding execute_all alter
up_and_back-empty = refl

-- Beside tables that have neither the name of one of the migrations' nor a foreign key to one,
-- both migrations run up and down again and leave the database as it was, on an engine that drops
-- any index. On one that keeps the indexes that foreign keys need, the downgrade is refused.
pub execute_all-downgrades :
    (c : Catalogue)
    → All (Foreign c) names
    → (execute_all false (upgrades ++ downgrades) c ≡ some c)
      × (execute_all true (upgrades ++ Reservations.downgrade) c ≡ none)
execute_all-downgrades c h = (
  ap (execute_all false (upgrades ++ downgrades)) (sym (append-nil c))
      ∙ execute_all-append false (upgrades ++ downgrades) c [] (up_and_down-Apart c h)
      ∙ ap (beside c) up_and_down-empty
      ∙ ap some (append-nil c),
  ap (execute_all true (upgrades ++ Reservations.downgrade)) (sym (append-nil c))
      ∙ execute_all-append true (upgrades ++ Reservations.downgrade) c [] (up_and_back-Apart c h)
      ∙ ap (beside c) up_and_back-empty,
)
