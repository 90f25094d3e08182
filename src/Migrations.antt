-- ===== src/Migrations.antt =====
-- The schema that migrations/versions builds, and what it makes the database enforce.
pub mod Catalogue
pub mod Initial
pub mod Reservations
pub mod Enforced
pub mod Agreement
pub mod Reversal
