-- ===== src/Tests.antt =====
-- Sample data, and each theorem applied to it.
mod Ranks
mod Sample
mod Accounts
mod Flushes
mod Lives
mod Texts
mod Answers
mod Callbacks
mod Packages
mod Requests
mod Settings
