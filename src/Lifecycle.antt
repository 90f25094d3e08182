-- ===== src/Lifecycle.antt =====
-- What may become of a row over time: docs/01-functional-requirements.md (BR-006, BR-010) and
-- docs/adr/0020-use-fifo-reservation-queue.md, and that the services keep to it.
pub mod Tables
pub mod Loans
pub mod Lending
pub mod Records
pub mod Waiting
pub mod Queueing
pub mod Serving
pub mod Requests
