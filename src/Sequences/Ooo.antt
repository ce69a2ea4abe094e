-- ===== src/Sequences/Ooo.antt =====
-- The out-of-office classifier of replies (apps/api/internal/sequences/ooo).
pub mod Dates
pub mod Rules
pub mod Classify
pub mod Business
pub mod Assemble
pub mod Verdict
pub mod Resume
