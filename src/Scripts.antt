-- ===== src/Scripts.antt =====
-- The scripts of the repository's folder scripts.
pub mod ValidateTrace
pub mod Seeding
