-- ===== src/Services/Auth.antt =====
-- api/app/services/auth.py. An account passed as an object is its row as the caller has it, and an
-- assignment to it is an UPDATE of the row with its key.
pub mod Mail
pub mod SingleUse
pub mod Sessions
pub mod Accounts
pub mod Recovery
pub mod Logic
pub mod Obey
pub mod Preserve
pub mod Orderless
pub mod Serve
pub mod Finality
pub mod Logout
pub mod Rotation
pub mod Replay
pub mod Exchange
pub mod Redeem
pub mod Refine
pub mod Verify
pub mod Everywhere
pub mod Issue
pub mod Reuse
