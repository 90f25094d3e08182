-- ===== src/Progress.antt =====
-- That services end normally: from a database that satisfies its constraints and in which every
-- copy is accounted for, when no lock is refused.
pub mod Promotion
pub mod Sweep
pub mod Returns
pub mod Queue
pub mod Waiting
pub mod History
