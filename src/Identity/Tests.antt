-- ===== src/Identity/Tests.antt =====
-- Runs of internal/identity on a small installation.
pub mod Office
pub mod Logins
pub mod Accounts
