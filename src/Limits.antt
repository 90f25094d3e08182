-- ===== src/Limits.antt =====
-- The limits of app/core/constants.py and app/core/config.py, over any history of requests.
pub mod Untouched
pub mod Loans
pub mod Changes
pub mod Queue
pub mod Requests
pub mod Placing
