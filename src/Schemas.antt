-- ===== src/Schemas.antt =====
-- The wire models of api/app/schemas, and the validation hook of api/app/validation.py.
pub mod Page
pub mod Requests
pub mod Validation
