-- ===== src/Services.antt =====
-- The services of app/services, a module for each class, and the wiring of app/dependencies.
pub mod Fine
pub mod Books
pub mod Reservations
pub mod Borrows
pub mod Atomicity
pub mod Auth
pub mod Dashboard
