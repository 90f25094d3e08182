-- ===== src/Models.antt =====
-- The tables of app/models as records of the columns that the services read or write, and the
-- constraints that the tables declare. A UUID is a number, since it is only compared; an instant
-- is a number of microseconds. Left out are the columns that no service touches: publisher,
-- publication_year and description of a book, phone and address of a member, and the audit
-- columns that the database fills (app/db/base.py).
pub mod Constraints
use production_library_manag.Prelude.{
  ℕ, Option, none, some, Bool, true, false, ◌&&◌, List, leb, ◌==◌, String, str_eq, all,
}
use production_library_manag.Prelude.Rows.{Keyed, distinct, distinct_keys}
use production_library_manag.Enums.{
  UserRole, UserStatus, MembershipStatus, BorrowStatus, BookCondition, ReservationStatus,
  max_renewals,
}

pub record User : Type 0 where
  pub id : ℕ
  pub name : String
  pub email : String
  pub password_hash : String
  pub role : UserRole
  pub status : UserStatus

pub record Member : Type 0 where
  pub id : ℕ
  pub user_id : ℕ
  pub membership_number : String
  pub joined_date : ℕ
  pub membership_status : MembershipStatus
  pub is_deleted : Bool
  pub deleted_at : Option ℕ

-- The columns that are not nullable may still be assigned None: the database refuses the row.
pub record Book : Type 0 where
  pub id : ℕ
  pub isbn : Option String
  pub title : Option String
  pub author : Option String
  pub genre : Option String
  pub total_copies : ℕ
  pub available_copies : ℕ
  pub condition : BookCondition
  pub is_deleted : Bool
  pub deleted_at : Option ℕ

pub record BorrowRecord : Type 0 where
  pub id : ℕ
  pub member_id : ℕ
  pub book_id : ℕ
  pub borrow_date : ℕ
  pub due_date : ℕ
  pub return_date : Option ℕ
  pub renewal_count : ℕ
  pub status : BorrowStatus

pub record Reservation : Type 0 where
  pub id : ℕ
  pub member_id : ℕ
  pub book_id : ℕ
  pub reserved_at : ℕ
  pub expires_at : Option ℕ
  pub status : ReservationStatus

pub record RefreshToken : Type 0 where
  pub id : ℕ
  pub user_id : ℕ
  pub family_id : ℕ
  pub token_hash : String
  pub expires_at : ℕ
  pub revoked : Bool
  pub ip_address : Option String
  pub user_agent : Option String
  pub device_name : Option String

instance abbrev pub user_key : Keyed User
user_key = record { key = λ r. r.id }

instance abbrev pub member_key : Keyed Member
member_key = record { key = λ r. r.id }

instance abbrev pub book_key : Keyed Book
book_key = record { key = λ r. r.id }

instance abbrev pub borrow_key : Keyed BorrowRecord
borrow_key = record { key = λ r. r.id }

instance abbrev pub reservation_key : Keyed Reservation
reservation_key = record { key = λ r. r.id }

instance abbrev pub token_key : Keyed RefreshToken
token_key = record { key = λ r. r.id }

pub record Db : Type 0 where
  pub users : List User
  pub members : List Member
  pub books : List Book
  pub borrows : List BorrowRecord
  pub reservations : List Reservation
  pub tokens : List RefreshToken

abbrev pub is_set : Option String → Bool
is_set none = false
is_set (some _) = true

-- The NOT NULL columns of books, and chk_books_available_copies_lte_total; the other two checks
-- hold of every natural number.
unfoldable pub book_ok : Book → Bool
book_ok b =
    is_set b.isbn && is_set b.title && is_set b.author && leb b.available_copies b.total_copies

-- chk_borrow_renewal_count_max_limit
unfoldable pub borrow_ok : BorrowRecord → Bool
borrow_ok r = leb r.renewal_count max_renewals

abbrev pub same_text : Option String → Option String → Bool
same_text (some a) (some b) = str_eq a b
same_text _ _ = false

-- The constraints that a flush checks: the primary keys, the CHECK constraints and the unique
-- indexes. The foreign
-- keys are not among them: every row is created with the ids of rows just loaded, and rows of
-- the referenced tables are never removed.
unfoldable pub satisfies_constraints : Db → Bool
unfolding book_ok borrow_ok
satisfies_constraints d =
    distinct_keys d.users
    && distinct_keys d.members
    && distinct_keys d.books
    && distinct_keys d.borrows
    && distinct_keys d.reservations
    && distinct_keys d.tokens
    && all book_ok d.books
    && all borrow_ok d.borrows
    && distinct (λ a b. same_text a.isbn b.isbn) d.books
    && distinct (λ a b. str_eq a.email b.email) d.users
    && distinct (λ a b. a.user_id == b.user_id) d.members
    && distinct (λ a b. str_eq a.membership_number b.membership_number) d.members
