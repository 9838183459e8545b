-- ===== src/Tests.antt =====
-- Concrete inputs, and the theorems applied to them.
mod Samples
mod Similarity
mod Jobs
mod Services
mod Accounts
mod Games
mod Store
mod Logins
mod Searches
mod Completions
