-- ===== src/App.antt =====
-- api/app/__init__.py: one request through the application that `create_app` builds.
pub mod RequestId
pub mod Factory
pub mod Health
pub mod Dispatch
pub mod Contract
pub mod Handle
pub mod Obey
pub mod Orderless
pub mod Integrity
pub mod JsonLog
