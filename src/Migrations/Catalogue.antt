-- ===== src/Migrations/Catalogue.antt =====
-- The operations of Alembic that the migrations call, as data, and what they do to a catalogue of
-- tables. Names of constraints and server defaults are left out.
use production_library_manag.Prelude.{
  ℕ, Bool, true, false, ◌&&◌, Option, none, some, any, all, List, [], ◌∷◌, ◌++◌, String, str_eq,
  if◌then◌else◌, not, select,
}

-- `sa.String(length=n)` and the other types of columns.
pub data ColumnType : Type 0 where
  string : (length : ℕ) → ColumnType
  small_integer integer text boolean date date_time : ColumnType
  enum : List String → ColumnType

pub record Column : Type 0 where
  pub name : String
  pub type : ColumnType
  pub nullable : Bool

-- `column_name <= other`, `column_name <= n` and `column_name >= n`, with natural n.
pub data Check : Type 0 where
  le_column : (name other : String) → Check
  at_most at_least : (name : String) (n : ℕ) → Check

pub data OnDelete : Type 0 where
  restrict cascade : OnDelete

pub data Constraint : Type 0 where
  check : Check → Constraint
  foreign_key : (name table : String) → OnDelete → Constraint
  primary_key unique : (name : String) → Constraint

pub record Index : Type 0 where
  pub name : String
  pub columns : List String
  pub is_unique : Bool

pub record Table : Type 0 where
  pub name : String
  pub columns : List Column
  pub constraints : List Constraint
  pub indexes : List Index

-- `op.create_table`, `op.create_index`, `op.drop_index` and `op.drop_table`.
pub data Operation : Type 0 where
  create_table : Table → Operation
  create_index : (table : String) → Index → Operation
  drop_index : (table index : String) → Operation
  drop_table : String → Operation

abbrev pub column : String → ColumnType → Bool → Column
column name type nullable = record { name = name; type = type; nullable = nullable }

abbrev pub index : String → List String → Bool → Index
index name columns is_unique = record { name = name; columns = columns; is_unique = is_unique }

abbrev pub Catalogue : Type 0
Catalogue = List Table

-- A change of the table of that name.
unfoldable pub alter : String → (Table → Table) → Catalogue → Catalogue
alter name f [] = []
alter name f (t ∷ ts) = if str_eq t.name name then f t ∷ ts else t ∷ alter name f ts

abbrev pub with_index : Index → Table → Table
with_index i t = record t { indexes = t.indexes ++ i ∷ [] }

abbrev pub without_index : String → Table → Table
without_index name t = record t {
  indexes = select (λ (i : Index). not (str_eq i.name name)) t.indexes;
}

abbrev pub has : String → Catalogue → Bool
has name = any (λ (t : Table). str_eq t.name name)

-- The table that a foreign key is to.
abbrev pub is_to : String → Constraint → Bool
is_to name (foreign_key _ table _) = str_eq table name
is_to name _ = false

abbrev pub target_there : Catalogue → Constraint → Bool
target_there c (foreign_key _ table _) = has table c
target_there c _ = true

abbrev pub refers : String → Table → Bool
refers name t = not (str_eq t.name name) && any (is_to name) t.constraints

abbrev pub has_index : String → Table → Bool
has_index name t = any (λ (i : Index). str_eq i.name name) t.indexes

abbrev pub starts_with : String → List String → Bool
starts_with name [] = false
starts_with name (c ∷ cs) = str_eq c name

abbrev pub is_key_on : String → Constraint → Bool
is_key_on name (primary_key c) = str_eq c name
is_key_on name (unique c) = str_eq c name
is_key_on name _ = false

-- A foreign key that only this index serves.
abbrev pub only_served_by : String → Table → Constraint → Bool
only_served_by name t (foreign_key c _ _) =
    any (λ (i : Index). str_eq i.name name && starts_with c i.columns) t.indexes
    && not (any (λ (i : Index). not (str_eq i.name name) && starts_with c i.columns) t.indexes)
    && not (any (is_key_on c) t.constraints)
only_served_by name t _ = false

-- With `keeps_indexes` the engine refuses to drop an index that a foreign key needs, as InnoDB does.
abbrev pub may_drop : (keeps_indexes : Bool) → String → String → Table → Bool
may_drop keeps_indexes table name t =
    str_eq t.name table
    && has_index name t
    && not (keeps_indexes && any (only_served_by name t) t.constraints)

abbrev pub allowed : (keeps_indexes : Bool) → Operation → Catalogue → Bool
allowed keeps_indexes (create_table t) c = not (has t.name c) && all (target_there c) t.constraints
allowed keeps_indexes (create_index table i) c = has table c
allowed keeps_indexes (drop_index table name) c = any (may_drop keeps_indexes table name) c
allowed keeps_indexes (drop_table name) c = has name c && not (any (refers name) c)

-- What an operation does to the catalogue; the indexes of a table go with it.
abbrev pub perform : Operation → Catalogue → Catalogue
perform (create_table t) c = c ++ t ∷ []
perform (create_index table i) c = alter table (with_index i) c
perform (drop_index table name) c = alter table (without_index name) c
perform (drop_table name) c = select (λ (t : Table). not (str_eq t.name name)) c

-- A statement that is not allowed ends the migration.
unfoldable pub execute_all : (keeps_indexes : Bool) → List Operation → Catalogue → Option Catalogue
unfolding alter
execute_all keeps_indexes [] c = some c
execute_all keeps_indexes (o ∷ rest) c =
    let after = execute_all keeps_indexes rest (perform o c) in
    if allowed keeps_indexes o c then after else none
