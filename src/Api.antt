-- ===== src/Api.antt =====
-- The HTTP interface: app/api/v1, app/dependencies/auth.py and the exception handlers of app/main.py.
pub mod Dependencies
pub mod Routes
pub mod Responses
pub mod Settled
pub mod Reading
pub mod History
pub mod Sound
pub mod Caller
pub mod Access
pub mod Entry
pub mod Paging
pub mod Own
pub mod Lent
pub mod Answers
pub mod Telemetry
pub mod Counted
