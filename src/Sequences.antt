-- ===== src/Sequences.antt =====
-- The outreach engine (apps/api/internal/sequences).
pub mod State
pub mod Audit
pub mod Store
pub mod Transition
pub mod Limits
pub mod Preflight
pub mod Bounce
pub mod Activation
pub mod Workers
pub mod Correlate
pub mod Mailbox
pub mod Ooo
