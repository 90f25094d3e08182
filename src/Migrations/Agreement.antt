-- ===== src/Migrations/Agreement.antt =====
-- The migrations declare the constraints that the models declare.
use production_library_manag.Prelude.{none, some, true, List, [], ◌++◌}
use production_library_manag.Migrations.Catalogue.{Catalogue, Operation, execute_all}
use production_library_manag.Migrations.Initial
use production_library_manag.Migrations.Reservations

abbrev upgrades : List Operation
upgrades = Initial.upgrade ++ Reservations.upgrade

-- The catalogue once every migration has run.
abbrev head : Catalogue
head = elim (execute_all true upgrades []) [ none ↦ [] | some c ↦ c ]
