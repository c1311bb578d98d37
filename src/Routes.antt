-- ===== src/Routes.antt =====
-- The endpoints: api/app/routes.
pub mod Auth
pub mod Overlap
pub mod Logic
pub mod Obey
pub mod Keeping
pub mod Orderless
pub mod Login
pub mod UserAgent
pub mod Uniform
pub mod Refresh
pub mod LogoutAll
pub mod Refused
pub mod Register
pub mod Bodies
