-- ===== src/Tests.antt =====
-- Concrete inputs: the theorems at work on them.
mod Data
mod Lifecycle
mod Sending
mod Bounces
mod Jobs
mod Access
mod Writes
mod Replies
mod Polls
mod Absences
mod Emails
mod Records
mod Limits
mod Directory
mod Identity
mod Sessions
mod Tokens
