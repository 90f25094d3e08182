-- ===== src/Repositories.antt =====
-- The repositories of app/repositories, a module for each table. A query is a function of the
-- database that the transaction sees; one that takes a write lock is an action.
-- BaseRepository's generic methods are here: `create` is an INSERT, `update` with no data writes
-- the attributes that were assigned to the object.
pub mod Books
pub mod Members
pub mod Borrows
pub mod Reservations
pub mod Users
pub mod Tokens
pub mod Dashboard
pub mod Base
pub mod Selection
