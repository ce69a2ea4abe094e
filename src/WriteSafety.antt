-- ===== src/WriteSafety.antt =====
-- The safety controls that every write tool shares (apps/api/capability/writesafety.go).
pub mod Authorize
pub mod Confirm
pub mod Digest
pub mod Guard
