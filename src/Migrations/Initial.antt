-- ===== src/Migrations/Initial.antt =====
-- migrations/versions/0001_initial_schema.py.
use production_library_manag.Prelude.{true, false, List, [], ◌∷◌}
use production_library_manag.Migrations.Catalogue.{
  string, small_integer, integer, text, boolean, date, date_time, enum, column, le_column, at_most,
  at_least, restrict, cascade, check, foreign_key, primary_key, unique, index, Table, Operation,
  create_table, create_index, drop_index, drop_table,
}

abbrev pub books : Table
books = record {
  name = "books";
  columns =
      column "id" (string 36) false
      ∷ column "isbn" (string 20) false
      ∷ column "title" (string 500) false
      ∷ column "author" (string 255) false
      ∷ column "genre" (string 100) true
      ∷ column "publisher" (string 255) true
      ∷ column "publication_year" small_integer true
      ∷ column "description" text true
      ∷ column "total_copies" small_integer false
      ∷ column "available_copies" small_integer false
      ∷ column "condition" (enum ("NEW" ∷ "GOOD" ∷ "FAIR" ∷ "POOR" ∷ [])) false
      ∷ column "is_deleted" boolean false
      ∷ column "deleted_at" date_time true
      ∷ column "created_by" (string 36) true
      ∷ column "updated_by" (string 36) true
      ∷ column "created_at" date_time false
      ∷ column "updated_at" date_time false
      ∷ [];
  constraints =
      check (le_column "available_copies" "total_copies")
      ∷ check (at_least "available_copies" 0)
      ∷ check (at_least "total_copies" 0)
      ∷ primary_key "id"
      ∷ unique "isbn"
      ∷ [];
  indexes = [];
}

abbrev pub users : Table
users = record {
  name = "users";
  columns =
      column "id" (string 36) false
      ∷ column "name" (string 255) false
      ∷ column "email" (string 255) false
      ∷ column "password_hash" (string 255) false
      ∷ column "role" (enum ("ADMIN" ∷ "LIBRARIAN" ∷ "MEMBER" ∷ [])) false
      ∷ column "status" (enum ("ACTIVE" ∷ "INACTIVE" ∷ "SUSPENDED" ∷ [])) false
      ∷ column "created_by" (string 36) true
      ∷ column "updated_by" (string 36) true
      ∷ column "created_at" date_time false
      ∷ column "updated_at" date_time false
      ∷ [];
  constraints = primary_key "id" ∷ unique "email" ∷ [];
  indexes = [];
}

abbrev pub members : Table
members = record {
  name = "members";
  columns =
      column "id" (string 36) false
      ∷ column "user_id" (string 36) false
      ∷ column "membership_number" (string 50) false
      ∷ column "phone" (string 20) true
      ∷ column "address" text true
      ∷ column "joined_date" date false
      ∷ column "membership_status" (enum ("ACTIVE" ∷ "INACTIVE" ∷ "SUSPENDED" ∷ [])) false
      ∷ column "is_deleted" boolean false
      ∷ column "deleted_at" date_time true
      ∷ column "created_by" (string 36) true
      ∷ column "updated_by" (string 36) true
      ∷ column "created_at" date_time false
      ∷ column "updated_at" date_time false
      ∷ [];
  constraints =
      foreign_key "user_id" "users" restrict
      ∷ primary_key "id"
      ∷ unique "membership_number"
      ∷ unique "user_id"
      ∷ [];
  indexes = [];
}

abbrev pub refresh_tokens : Table
refresh_tokens = record {
  name = "refresh_tokens";
  columns =
      column "id" (string 36) false
      ∷ column "user_id" (string 36) false
      ∷ column "family_id" (string 36) false
      ∷ column "token_hash" (string 255) false
      ∷ column "expires_at" date_time false
      ∷ column "revoked" boolean false
      ∷ column "token_type" (enum ("REFRESH" ∷ [])) false
      ∷ column "ip_address" (string 45) true
      ∷ column "user_agent" text true
      ∷ column "device_name" (string 255) true
      ∷ column "last_used_at" date_time false
      ∷ column "created_at" date_time false
      ∷ column "updated_at" date_time false
      ∷ [];
  constraints = foreign_key "user_id" "users" cascade ∷ primary_key "id" ∷ [];
  indexes = [];
}

abbrev pub borrow_records : Table
borrow_records = record {
  name = "borrow_records";
  columns =
      column "id" (string 36) false
      ∷ column "member_id" (string 36) false
      ∷ column "book_id" (string 36) false
      ∷ column "borrow_date" date_time false
      ∷ column "due_date" date_time false
      ∷ column "return_date" date_time true
      ∷ column "renewal_count" integer false
      ∷ column "status" (enum ("BORROWED" ∷ "RETURNED" ∷ "RENEWED" ∷ "OVERDUE" ∷ [])) false
      ∷ column "created_at" date_time false
      ∷ column "updated_at" date_time false
      ∷ [];
  constraints =
      check (at_most "renewal_count" 2)
      ∷ check (at_least "renewal_count" 0)
      ∷ foreign_key "book_id" "books" restrict
      ∷ foreign_key "member_id" "members" restrict
      ∷ primary_key "id"
      ∷ [];
  indexes = [];
}

abbrev pub upgrade : List Operation
upgrade =
    create_table books
    ∷ create_index "books" (index "idx_books_author" ("author" ∷ []) false)
    ∷ create_index "books" (index "idx_books_genre" ("genre" ∷ []) false)
    ∷ create_index "books" (index "idx_books_isbn" ("isbn" ∷ []) true)
    ∷ create_index "books" (index "idx_books_title" ("title" ∷ []) false)
    ∷ create_table users
    ∷ create_index "users" (index "idx_users_email" ("email" ∷ []) true)
    ∷ create_index "users" (index "idx_users_role" ("role" ∷ []) false)
    ∷ create_table members
    ∷ create_index "members" (index "idx_members_membership_num" ("membership_number" ∷ []) true)
    ∷ create_index "members" (index "idx_members_status" ("membership_status" ∷ []) false)
    ∷ create_index "members" (index "idx_members_user_id" ("user_id" ∷ []) true)
    ∷ create_table refresh_tokens
    ∷ create_index "refresh_tokens" (index "idx_refresh_token_hash" ("token_hash" ∷ []) false)
    ∷ create_index "refresh_tokens" (index "idx_refresh_user_id" ("user_id" ∷ []) false)
    ∷ create_index "refresh_tokens" (index "idx_refresh_family_id" ("family_id" ∷ []) false)
    ∷ create_table borrow_records
    ∷ create_index "borrow_records" (index "idx_borrow_book_id" ("book_id" ∷ []) false)
    ∷ create_index "borrow_records" (index "idx_borrow_due_date" ("due_date" ∷ "status" ∷ []) false)
    ∷ create_index "borrow_records" (index "idx_borrow_member_id" ("member_id" ∷ []) false)
    ∷ create_index "borrow_records" (index "idx_borrow_status" ("status" ∷ []) false)
    ∷ []

abbrev pub downgrade : List Operation
downgrade =
    drop_index "borrow_records" "idx_borrow_status"
    ∷ drop_index "borrow_records" "idx_borrow_member_id"
    ∷ drop_index "borrow_records" "idx_borrow_due_date"
    ∷ drop_index "borrow_records" "idx_borrow_book_id"
    ∷ drop_table "borrow_records"
    ∷ drop_index "refresh_tokens" "idx_refresh_user_id"
    ∷ drop_index "refresh_tokens" "idx_refresh_token_hash"
    ∷ drop_table "refresh_tokens"
    ∷ drop_index "members" "idx_members_user_id"
    ∷ drop_index "members" "idx_members_status"
    ∷ drop_index "members" "idx_members_membership_num"
    ∷ drop_table "members"
    ∷ drop_index "users" "idx_users_role"
    ∷ drop_index "users" "idx_users_email"
    ∷ drop_table "users"
    ∷ drop_index "books" "idx_books_title"
    ∷ drop_index "books" "idx_books_isbn"
    ∷ drop_index "books" "idx_books_genre"
    ∷ drop_index "books" "idx_books_author"
    ∷ drop_table "books"
    ∷ []
