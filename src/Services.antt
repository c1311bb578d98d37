-- ===== src/Services.antt =====
-- Business rules: api/app/services.
pub mod Auth
