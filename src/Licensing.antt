-- ===== src/Licensing.antt =====
-- internal/licensing: the clock that the license client trusts, and what a license allows.
pub mod Clock
pub mod Policy
pub mod Tests
