-- ===== src/Migrations/Enforced.antt =====
-- What a database with a catalogue of tables checks of the rows that are written: NOT NULL, CHECK,
-- PRIMARY KEY, UNIQUE and unique indexes, over the rows of the models by the names of their
-- columns. Foreign keys are left out, as in Models, and so are the lengths and ranges of types.
use production_library_manag.Prelude.{
  ℕ, Option, none, some, Bool, true, false, ◌&&◌, ◌||◌, not, List, [], map, leb, ◌==◌, String,
  str_eq, all, if◌then◌else◌,
}
use production_library_manag.Prelude.Rows.{distinct}
use production_library_manag.Models.{
  User, Member, Book, BorrowRecord, Reservation, RefreshToken, Db,
}
use production_library_manag.Migrations.Catalogue.{
  Column, Check, le_column, at_most, at_least, Constraint, check, foreign_key, primary_key, unique,
  Index, Table, Catalogue,
}

-- A column's value, as far as a constraint reads it; `filled` is any other value.
pub data Value : Type 0 where
  null filled : Value
  number : ℕ → Value
  text : String → Value

abbrev pub optional : Option String → Value
optional none = null
optional (some s) = text s

abbrev pub is_null : Value → Bool
is_null null = true
is_null _ = false

-- NULL is the same as nothing.
abbrev pub same_value : Value → Value → Bool
same_value (number m) (number n) = m == n
same_value (text s) (text t) = str_eq s t
same_value _ _ = false

-- A comparison with NULL does not fail a check.
abbrev pub le_value : Value → Value → Bool
le_value (number m) (number n) = leb m n
le_value _ _ = true

abbrev pub Row : Type 0
Row = String → Value

abbrev pub passes : Check → Row → Bool
passes (le_column a b) r = le_value (r a) (r b)
passes (at_most a n) r = le_value (r a) (number n)
passes (at_least a n) r = le_value (number n) (r a)

abbrev pub constraint_holds : List Row → Constraint → Bool
constraint_holds rows (check k) = all (passes k) rows
constraint_holds rows (foreign_key _ _ _) = true
constraint_holds rows (primary_key c) = distinct (λ a b. same_value (b c) (a c)) rows
constraint_holds rows (unique c) = distinct (λ a b. same_value (a c) (b c)) rows

abbrev pub column_holds : List Row → Column → Bool
column_holds rows c = c.nullable || all (λ (r : Row). not (is_null (r c.name))) rows

abbrev pub index_holds : List Row → Index → Bool
index_holds rows i =
    not i.is_unique || distinct (λ (a b : Row). all (λ c. same_value (a c) (b c)) i.columns) rows

abbrev pub table_holds : List Row → Table → Bool
table_holds rows t =
    all (column_holds rows) t.columns
    && all (constraint_holds rows) t.constraints
    && all (index_holds rows) t.indexes

-- The columns of the models that a constraint reads; the others hold some value or none.
abbrev pub book_row : Book → Row
book_row b c =
    if str_eq c "id"
    then number b.id
    else if str_eq c "isbn"
    then optional b.isbn
    else if str_eq c "title"
    then optional b.title
    else if str_eq c "author"
    then optional b.author
    else if str_eq c "total_copies"
    then number b.total_copies
    else if str_eq c "available_copies"
    then number b.available_copies
    else filled

abbrev pub user_row : User → Row
user_row u c =
    if str_eq c "id" then number u.id else if str_eq c "email" then text u.email else filled

abbrev pub member_row : Member → Row
member_row m c =
    if str_eq c "id"
    then number m.id
    else if str_eq c "user_id"
    then number m.user_id
    else if str_eq c "membership_number"
    then text m.membership_number
    else filled

abbrev pub token_row : RefreshToken → Row
token_row t c = if str_eq c "id" then number t.id else filled

abbrev pub borrow_row : BorrowRecord → Row
borrow_row r c =
    if str_eq c "id"
    then number r.id
    else if str_eq c "renewal_count"
    then number r.renewal_count
    else filled

abbrev pub reservation_row : Reservation → Row
reservation_row r c = if str_eq c "id" then number r.id else filled

-- `__tablename__`
abbrev pub rows_of : Db → String → List Row
rows_of d name =
    if str_eq name "books"
    then map book_row d.books
    else if str_eq name "users"
    then map user_row d.users
    else if str_eq name "members"
    then map member_row d.members
    else if str_eq name "refresh_tokens"
    then map token_row d.tokens
    else if str_eq name "borrow_records"
    then map borrow_row d.borrows
    else if str_eq name "reservations"
    then map reservation_row d.reservations
    else []

unfoldable pub enforces : Catalogue → Db → Bool
enforces c d = all (λ (t : Table). table_holds (rows_of d t.name) t) c
