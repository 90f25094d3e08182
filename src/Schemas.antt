-- ===== src/Schemas.antt =====
-- The validation of request bodies that the code itself does: the password policy of
-- app/schemas/auth.py.
pub mod Auth
pub mod Policy
