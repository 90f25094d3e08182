-- ===== src/Migrations/Reservations.antt =====
-- migrations/versions/2010d89a6bf2_add_reservations_table.py.
use production_library_manag.Prelude.{true, false, List, [], ◌∷◌}
use production_library_manag.Migrations.Catalogue.{
  string, date_time, enum, column, restrict, foreign_key, primary_key, index, Table, Operation,
  create_table, create_index, drop_index, drop_table,
}

abbrev pub reservations : Table
reservations = record {
  name = "reservations";
  columns =
      column "id" (string 36) false
      ∷ column "member_id" (string 36) false
      ∷ column "book_id" (string 36) false
      ∷ column "reserved_at" date_time false
      ∷ column "expires_at" date_time true
      ∷ column "status" (enum ("PENDING" ∷ "HOLD" ∷ "COMPLETED" ∷ "CANCELLED" ∷ "EXPIRED" ∷ []))
          false
      ∷ column "created_at" date_time false
      ∷ column "updated_at" date_time false
      ∷ [];
  constraints =
      foreign_key "book_id" "books" restrict
      ∷ foreign_key "member_id" "members" restrict
      ∷ primary_key "id"
      ∷ [];
  indexes = [];
}

abbrev pub upgrade : List Operation
upgrade =
    create_table reservations
    ∷ create_index "reservations"
        (index "idx_reservations_fifo" ("book_id" ∷ "status" ∷ "reserved_at" ∷ []) false)
    ∷ create_index "reservations"
        (index "idx_reservations_member" ("member_id" ∷ "status" ∷ []) false)
    ∷ []

abbrev pub downgrade : List Operation
downgrade =
    drop_index "reservations" "idx_reservations_member"
    ∷ drop_index "reservations" "idx_reservations_fifo"
    ∷ drop_table "reservations"
    ∷ []
