-- ===== src/Inventory.antt =====
-- The accounting of copies, and that every service keeps it.
pub mod Defs
pub mod Rows
pub mod Promotion
pub mod Lending
pub mod Returning
pub mod Queue
pub mod Sweep
pub mod Catalogue
pub mod Expiry
