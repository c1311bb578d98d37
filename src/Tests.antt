-- ===== src/Tests.antt =====
-- Concrete runs of the program on a small database.
mod Demo
mod Sessions
mod Overlap
mod Accounts
mod Endpoints
mod Guards
mod Application
mod Shuffled
mod Deployment
mod Startup
mod Document
