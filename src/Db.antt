-- ===== src/Db.antt =====
-- The persistence layer, package `gpca_db`.
pub mod Table
pub mod Enums
pub mod Vocabularies
pub mod Models
pub mod Users
pub mod RefreshTokens
pub mod AuthTokens
pub mod Insert
pub mod Stable
pub mod Keys
pub mod Integrity
pub mod Lookup
pub mod Preserve
pub mod Overwrite
pub mod Reorder
pub mod Agree
